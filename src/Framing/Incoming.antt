-- ===== src/Framing/Incoming.antt =====
-- write_frame of c/src/framing.c does not depend on what comes in.
use callwire.Base.{
  ℕ, zero, suc, ◌≡◌, refl, ap, ◌∙◌, Bool, true, ◌&&◌, List, [], ◌∷◌, inl, inr, Bool-cases, ltb,
  length, ◌==◌, drop,
}
use callwire.Mpack.Format.{be32}
use callwire.Framing.{Socket, max_frame_size, send_to, send, send_more, send_all, write_frame}

-- The same with another `incoming`.
abbrev pub with_incoming : List (List ℕ) → Socket → Socket
with_incoming segments s = record s { incoming = segments }

abbrev pub beside : List (List ℕ) → Bool × Socket → Bool × Socket
beside segments p = (p.0, with_incoming segments p.1)

module _ (segments : List (List ℕ)) where
  send_to-with_incoming :
      (ns bs : List ℕ) (s : Socket)
      → send_to ns bs (with_incoming segments s)
        ≡ ((send_to ns bs s).0, with_incoming segments (send_to ns bs s).1)
  unfolding send_to
  send_to-with_incoming [] bs s = refl
  send_to-with_incoming (n ∷ ns) bs s = refl

  send_more-with_incoming :
      (fuel : ℕ) (bs : List ℕ) (s : Socket)
      → send_more fuel bs (with_incoming segments s) ≡ beside segments (send_more fuel bs s)
  unfolding send_more send
  send_more-with_incoming zero bs s = refl
  send_more-with_incoming (suc fuel) bs s =
      let sent = send_to-with_incoming s.accepts bs s in
      let again = send_more-with_incoming fuel (drop (send bs s).0 bs) (send bs s).1 in
      elim (Bool-cases (ltb 0 (length bs))) [
        | inl some_bytes ↦ elim (Bool-cases ((send bs s).0 == 0)) [
          | inl none_taken ↦ rw (some_bytes, sent, none_taken) refl
          | inr taken ↦ rw (some_bytes, sent, taken) again
        ]
        | inr no_bytes ↦ rw no_bytes refl
      ]

  send_all-with_incoming :
      (bs : List ℕ) (s : Socket)
      → send_all bs (with_incoming segments s) ≡ beside segments (send_all bs s)
  unfolding send_all
  send_all-with_incoming bs s = send_more-with_incoming (length bs) bs s

  pub write_frame-with_incoming :
      (payload : List ℕ) (s : Socket)
      → write_frame payload (with_incoming segments s) ≡ beside segments (write_frame payload s)
  unfolding write_frame
  write_frame-with_incoming payload s =
      let head = send_all-with_incoming (be32 (length payload)) s in
      let body = send_all-with_incoming payload (send_all (be32 (length payload)) s).1 in
      elim (Bool-cases (ltb max_frame_size (length payload))) [
        | inl large ↦ rw large refl
        | inr fits ↦ elim (Bool-cases (send_all (be32 (length payload)) s).0) [
          | inl out ↦ elim (Bool-cases (ltb 0 (length payload))) [
            | inl some_bytes ↦ rw (fits, head, out, some_bytes, body) refl
            | inr no_bytes ↦ rw (fits, head, out, no_bytes) refl
          ]
          | inr cut ↦ rw (fits, head, cut) refl
        ]
      ]

-- A write succeeds or fails the same way once something was read.
pub write_frame-reading :
    (payload : List ℕ) (s s' : Socket)
    → s'.sent ≡ s.sent
    → s'.accepts ≡ s.accepts
    → (write_frame payload s').0 ≡ (write_frame payload s).0
write_frame-reading payload s s' sent accepts =
    let same : s' ≡ with_incoming s'.incoming s =
      λ i. record { incoming = s'.incoming; accepts = accepts i; sent = sent i } in
    ap (λ t. (write_frame payload t).0) same
    ∙ ap (λ p. p.0) (write_frame-with_incoming s'.incoming payload s)

-- Frames that are written one after the other; the flag says that every write succeeds.
unfoldable pub write_frames : List (List ℕ) → Socket → Bool × Socket
write_frames [] s = (true, s)
write_frames (payload ∷ payloads) s =
    let (done, s') = write_frame payload s in
    let (all_done, s'') = write_frames payloads s' in (done && all_done, s'')

pub write_frames-with_incoming :
    (segments : List (List ℕ)) (payloads : List (List ℕ)) (s : Socket)
    → write_frames payloads (with_incoming segments s) ≡ beside segments (write_frames payloads s)
unfolding write_frames
write_frames-with_incoming segments [] s = refl
write_frames-with_incoming segments (payload ∷ payloads) s =
    let rest = write_frames-with_incoming segments payloads (write_frame payload s).1 in
    rw (write_frame-with_incoming segments payload s, rest) refl

pub write_frames-reading :
    (payloads : List (List ℕ)) (s s' : Socket)
    → s'.sent ≡ s.sent
    → s'.accepts ≡ s.accepts
    → (write_frames payloads s').0 ≡ (write_frames payloads s).0
write_frames-reading payloads s s' sent accepts =
    let same : s' ≡ with_incoming s'.incoming s =
      λ i. record { incoming = s'.incoming; accepts = accepts i; sent = sent i } in
    ap (λ t. (write_frames payloads t).0) same
    ∙ ap (λ p. p.0) (write_frames-with_incoming s'.incoming payloads s)
