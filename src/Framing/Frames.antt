-- ===== src/Framing/Frames.antt =====
-- callwire_framing_read_frame of c/src/framing.c on a stream that carries frames.
use callwire.Base.{
  ℕ, suc, ◌+◌, ◌*◌, ◌/◌, ◌%◌, ◌^◌, ◌≤◌, ◌<◌, ◌≡◌, refl, ap, ◌∙◌, Bool, true, List, [], ◌∷◌, ◌++◌,
  none, some, arith, ◌==◌, if_true, if_false, lt→ltb, le→ltb, length,
}
use callwire.Mpack.Format.{be32}
use callwire.Framing.{Socket, max_frame_size, read_body, read_frame}
use callwire.Framing.Receive.{bytes, IsOpen, recv_all-prefix}
use callwire.Framing.Send.{frame}

-- The four bytes of a header, put together again.
abbrev header_value : ℕ → ℕ
header_value len =
    len / 2 ^ 24 % 2 ^ 8 * 2 ^ 24
    + len / 2 ^ 16 % 2 ^ 8 * 2 ^ 16
    + len / 2 ^ 8 % 2 ^ 8 * 2 ^ 8
    + len % 2 ^ 8

header_value-eq : (len : ℕ) → len < 2 ^ 32 → header_value len ≡ len
header_value-eq len h = omega arith

-- The stream after a read.
abbrev pub Leaves : List ℕ → Socket → Socket → Type 0
Leaves rest s s' =
    (bytes s'.incoming ≡ rest) × IsOpen s'.incoming × (s'.sent ≡ s.sent) × (s'.accepts ≡ s.accepts)

module _ (alloc : ℕ → Bool) (enough : (n : ℕ) → alloc n ≡ true) where
  read_body-payload :
      (s : Socket) (payload rest : List ℕ)
      → IsOpen s.incoming
      → length payload ≤ max_frame_size
      → bytes s.incoming ≡ payload ++ rest
      → (s' : Socket) × (read_body alloc (length payload) s ≡ (some payload, s')) × Leaves rest s s'
  unfolding read_body
  read_body-payload s [] rest o h e = (s, refl, (e, o, refl, refl))
  read_body-payload s (b ∷ bs) rest o h e =
      let read = recv_all-prefix (b ∷ bs) rest s.incoming o e in
      (
        record s { incoming = read.0 },
        if_false _ _ _ (le→ltb _ _ h)
            ∙ if_false (suc (length bs) == 0) _ _ (ground arith)
            ∙ rw (enough (suc (length bs)), read.1),
        (read.2, read.3, refl, refl),
      )

  module _ (s : Socket) (connected : IsOpen s.incoming) where
    header_read :
        (len : ℕ) (rest : List ℕ)
        → len < 2 ^ 32
        → bytes s.incoming ≡ be32 len ++ rest
        → (left : List (List ℕ)) × (read_frame alloc s
            ≡ read_body alloc len (record s { incoming = left }))
          × (bytes left ≡ rest)
          × IsOpen left
    unfolding read_frame
    header_read len rest h e =
        let read = recv_all-prefix (be32 len) rest s.incoming connected e in
        (
          read.0,
          rw read.1 (
              ap (λ k. read_body alloc k (record s { incoming = read.0 })) (header_value-eq len h)),
          read.2,
          read.3,
        )

    -- Where every allocation succeeds and the stream stays open, however it is cut into segments:
    -- read_frame takes the payload of up to 16 MB off a stream that begins with its frame, and
    -- leaves the rest of the stream.
    pub read_frame-frame :
        (payload rest : List ℕ)
        → length payload ≤ max_frame_size
        → bytes s.incoming ≡ frame payload ++ rest
        → (s' : Socket) × (read_frame alloc s ≡ (some payload, s')) × Leaves rest s s'
    read_frame-frame payload rest h e =
        let head = header_read (length payload) (payload ++ rest) (omega arith) e in
        let body =
          read_body-payload (record s { incoming = head.0 }) payload rest head.3 h head.2 in
        (body.0, head.1 ∙ body.1, body.2)

    -- Where every allocation succeeds and the stream stays open: a header that announces more than
    -- 16 MB is refused: only its four bytes are read.
    pub read_frame_oversized :
        (len : ℕ) (rest : List ℕ)
        → max_frame_size < len
        → len < 2 ^ 32
        → bytes s.incoming ≡ be32 len ++ rest
        → (s' : Socket) × (read_frame alloc s ≡ (none, s')) × Leaves rest s s'
    unfolding read_body
    read_frame_oversized len rest h k e =
        let head = header_read len rest k e in
        (
          record s { incoming = head.0 },
          head.1 ∙ if_true _ _ _ (lt→ltb _ _ h),
          (head.2, head.3, refl, refl),
        )
