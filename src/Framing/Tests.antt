-- ===== src/Framing/Tests.antt =====
-- Runs of c/src/framing.c on small inputs.
use callwire.Base.{ℕ, ◌^◌, ◌≡◌, refl, Bool, true, List, [], ◌∷◌, none, some, arith, text}
use callwire.Mpack.Format.{be32}
use callwire.Framing.{Socket, recv_all, read_frame, write_frame}
use callwire.Framing.Receive.{bytes, IsOpen, Read, recv_all-Read}
use callwire.Framing.Send.{frame, Sent, write_frame-Sent}
use callwire.Framing.Frames.{Leaves, read_frame-frame, read_frame_oversized}

abbrev always : ℕ → Bool
always n = true

-- The frame of `hi` and the first byte of the next one, in three segments.
abbrev cut : List (List ℕ)
cut = (0 ∷ 0 ∷ []) ∷ (0 ∷ 2 ∷ 104 ∷ []) ∷ (105 ∷ 0 ∷ []) ∷ []

abbrev cut-IsOpen : IsOpen cut
cut-IsOpen = (omega arith, (omega arith, (omega arith, tt)))

abbrev connection : List (List ℕ) → Socket
connection incoming = record { incoming = incoming; accepts = 3 ∷ 100 ∷ 100 ∷ []; sent = [] }

recv_all-Read_example : Read 4 (bytes cut) (recv_all 4 cut)
recv_all-Read_example = recv_all-Read 4 cut cut-IsOpen

read_frame-frame_example :
    (s' : Socket) × (read_frame always (connection cut) ≡ (some (text "hi"), s'))
    × Leaves (0 ∷ []) (connection cut) s'
read_frame-frame_example =
    read_frame-frame always (λ _. refl) (connection cut) cut-IsOpen (text "hi") (0 ∷ [])
      (omega arith) refl

abbrev large : List (List ℕ)
large = be32 (2 ^ 25) ∷ (7 ∷ []) ∷ []

read_frame_oversized_example :
    (s' : Socket) × (read_frame always (connection large) ≡ (none, s'))
    × Leaves (7 ∷ []) (connection large) s'
read_frame_oversized_example =
    read_frame_oversized always (λ _. refl) (connection large) (omega arith, (omega arith, tt))
      (2 ^ 25) (7 ∷ []) (omega arith) (omega arith) refl

write_frame-Sent_example :
    Sent (frame (text "hi")) (connection []) (write_frame (text "hi") (connection []))
write_frame-Sent_example = write_frame-Sent (text "hi") (connection []) (omega arith)
