-- ===== src/Framing.antt =====
-- c/src/framing.c: frames over a socket. The other end and the kernel are lists in the socket's
-- state. `incoming` holds the segments that arrive, in order: a recv() takes from the first one, up
-- to the length asked for, and returns nothing at an empty segment or at the end, which is a
-- disconnect or an error. `accepts` says how many bytes each send() takes; a zero, or the end of the
-- list, is an error. `sent` is what went out.
pub mod Receive
pub mod Send
pub mod Frames
pub mod Incoming
mod Tests
use callwire.Base.{
  ℕ, zero, suc, ◌+◌, ◌-◌, ◌*◌, ◌/◌, ◌%◌, ◌^◌, Bool, true, false, ◌&&◌, not, List, [], ◌∷◌, ◌++◌,
  Option, none, some, ltb, ◌==◌, if◌then◌else◌, length, take, drop, get_or,
}

pub record Socket : Type 0 where
  pub incoming : List (List ℕ)
  pub accepts : List ℕ
  pub sent : List ℕ

abbrev pub max_frame_size : ℕ
max_frame_size = 16 * 1024 * 1024

-- What is left of the first segment stays first.
abbrev pub put_back : List ℕ → List (List ℕ) → List (List ℕ)
put_back [] rest = rest
put_back (b ∷ bs) rest = (b ∷ bs) ∷ rest

-- One recv() for `len` bytes, `len` > 0.
unfoldable pub recv : ℕ → List (List ℕ) → Option (List ℕ) × List (List ℕ)
recv len [] = (none, [])
recv len ([] ∷ rest) = (none, rest)
recv len ((b ∷ bs) ∷ rest) = (some (take len (b ∷ bs)), put_back (drop len (b ∷ bs)) rest)

-- The loop of recv_all with `len` bytes to go and what is read so far. Each round reads a byte or
-- more, so fuel of `len` is enough.
unfoldable pub recv_more :
    ℕ → ℕ → List ℕ → Option (List ℕ) × List (List ℕ) → Option (List ℕ) × List (List ℕ)
recv_more fuel len done (none, segments) = (none, segments)
recv_more zero len done (some bs, segments) = (some (done ++ bs), segments)
recv_more (suc fuel) len done (some bs, segments) =
    let next = recv_more fuel (len - length bs) (done ++ bs) (recv (len - length bs) segments) in
    if ltb (length bs) len then next else (some (done ++ bs), segments)

unfoldable pub recv_all : ℕ → List (List ℕ) → Option (List ℕ) × List (List ℕ)
unfolding recv_more
recv_all len segments =
    if ltb 0 len then recv_more len len [] (recv len segments) else (some [], segments)

-- One send() of `bs`, given what the calls take: the number of bytes taken, and the socket after it.
unfoldable pub send_to : List ℕ → List ℕ → Socket → ℕ × Socket
send_to [] bs s = (0, s)
send_to (n ∷ ns) bs s = (length (take n bs), record s { accepts = ns; sent = s.sent ++ take n bs })

unfoldable pub send : List ℕ → Socket → ℕ × Socket
unfolding send_to
send bs s = send_to s.accepts bs s

-- The loop of send_all over the bytes to go.
unfoldable pub send_more : ℕ → List ℕ → Socket → Bool × Socket
send_more zero bs s = (not (ltb 0 (length bs)), s)
send_more (suc fuel) bs s =
    let (n, s') = send bs s in
    let next = send_more fuel (drop n bs) s' in
    if ltb 0 (length bs) then (if n == 0 then (false, s') else next) else (true, s)

unfoldable pub send_all : List ℕ → Socket → Bool × Socket
unfolding send_more
send_all bs s = send_more (length bs) bs s

-- The payload of `len` bytes.
unfoldable pub read_body : (ℕ → Bool) → ℕ → Socket → Option (List ℕ) × Socket
read_body alloc len s =
    let (payload, left) = recv_all len s.incoming in
    if ltb max_frame_size len
    then (none, s)
    else if len == 0
    then (some [], s)
    else if not (alloc len)
    then (none, s)
    else (payload, record s { incoming = left })

unfoldable pub read_payload :
    (ℕ → Bool) → Socket → Option (List ℕ) × List (List ℕ) → Option (List ℕ) × Socket
read_payload alloc s (none, segments) = (none, record s { incoming = segments })
read_payload alloc s (some header, segments) =
    let len =
      get_or header 0 0 * 2 ^ 24
      + get_or header 1 0 * 2 ^ 16
      + get_or header 2 0 * 2 ^ 8
      + get_or header 3 0 in
    read_body alloc len (record s { incoming = segments })

-- `none` is the return value -1; an empty payload is a null pointer and a length of zero.
unfoldable pub read_frame : (ℕ → Bool) → Socket → Option (List ℕ) × Socket
unfolding read_payload
read_frame alloc s = read_payload alloc s (recv_all 4 s.incoming)

-- `true` is the return value 0.
unfoldable pub write_frame : List ℕ → Socket → Bool × Socket
write_frame payload s =
    let len = length payload in
    let header =
      len / 2 ^ 24 % 2 ^ 8 ∷ len / 2 ^ 16 % 2 ^ 8 ∷ len / 2 ^ 8 % 2 ^ 8 ∷ len % 2 ^ 8 ∷ [] in
    let (header_sent, s₁) = send_all header s in
    let (payload_sent, s₂) = send_all payload s₁ in
    if ltb max_frame_size len
    then (false, s)
    else if not header_sent
    then (false, s₁)
    else if ltb 0 len
    then (payload_sent, s₂)
    else (true, s₁)
