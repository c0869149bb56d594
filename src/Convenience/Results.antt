-- ===== src/Convenience/Results.antt =====
-- What the calls of c/src/convenience.c return.
use callwire.Base.{
  ℕ, zero, suc, ◌-◌, ◌^◌, ◌≤◌, ◌<◌, ◌≡◌, refl, ap, sym, ◌∙◌, inl, inr, Bool, true, false, not, List,
  [], ◌∷◌, ◌++◌, Option, none, some, arith, ltb, ltb→lt, if_false, le→ltb, Bool-cases, length,
  length-take, take, text, c_string, ℤ, IsInt64,
}
use callwire.Value.{
  Value, null, bool, int64, float64, string, binary, array, map, count_items, IsValidItems,
}
use callwire.Mpack.Format.{map_head}
use callwire.Codec.Outcome.{Outcome, ok, failed, crashed, out_of_fuel}
use callwire.Codec.Message.{result_rest}
use callwire.Framing.{Socket, max_frame_size}
use callwire.Framing.Receive.{bytes, IsOpen}
use callwire.Framing.Send.{frame}
use callwire.Client.{Session, bind, call}
use callwire.Client.Replies.{after, new_id, request, requested, call-response}
use callwire.Convenience.{
  max_convenience_args, int_items, int_result, copied, str_result, str_items, arg_items, call_ints,
  call_str,
}

abbrev pub AllInt64 : List ℤ → Type 0
AllInt64 [] = Unit
AllInt64 (n ∷ ns) = IsInt64 n × AllInt64 ns

int_items-IsValidItems : (ns : List ℤ) → AllInt64 ns → IsValidItems (int_items ns)
int_items-IsValidItems [] h = tt
int_items-IsValidItems (n ∷ ns) h = (h.0, int_items-IsValidItems ns h.1)

count_items-int_items : (ns : List ℤ) → count_items (int_items ns) ≡ length ns
count_items-int_items [] = refl
count_items-int_items (n ∷ ns) = ap suc (count_items-int_items ns)

-- Under the conditions of call-response, a call with up to 8 integers whose request goes out, and
-- which is answered by a response with an integer, returns this integer, and has sent the frame of
-- its request.
pub call_ints-response :
    (alloc : ℕ → Bool) (enough : (n : ℕ) → alloc n ≡ true) (s : Session) (func : List ℕ)
    (args : List ℤ)
    → IsOpen s.socket.incoming
    → length (c_string func) < 2 ^ 32
    → length args ≤ max_convenience_args
    → AllInt64 args
    → length (request alloc enough s func (int_items args)) ≤ max_frame_size
    → (requested alloc enough s func (int_items args)).0 ≡ true
    → (reply : ℕ) (n : ℤ) (rest : List ℕ) → reply < 2 ^ 64
    → IsInt64 n
    → length (map_head 3 ++ result_rest (text "response") reply (int64 n)) ≤ max_frame_size
    → bytes s.socket.incoming
      ≡ frame (map_head 3 ++ result_rest (text "response") reply (int64 n)) ++ rest
    → (socket : Socket) × (call_ints alloc true (some func) args s
        ≡ (ok n, after s (new_id alloc enough s func (int_items args)) socket))
      × (bytes socket.incoming ≡ rest)
      × (socket.sent ≡ s.socket.sent ++ frame (request alloc enough s func (int_items args)))
unfolding call_ints int_result
call_ints-response alloc enough s func args connected name_fits few valid request_fits written reply
      n rest id_fits n_valid small e =
    let r =
      call-response alloc enough s func (int_items args) connected name_fits
        (omega (arith, count_items-int_items args, few)) (int_items-IsValidItems args valid)
        request_fits written reply (int64 n) rest id_fits n_valid small e in
    (
      r.0,
      if_false (ltb 8 (length args)) _ _ (le→ltb _ _ few) ∙ ap (λ p. bind p int_result) r.1,
      r.2,
      r.3,
    )

copied-fits : (bs : List ℕ) (len : ℕ) → 0 < len → length (copied bs len) < len
unfolding copied
copied-fits bs len h = elim (Bool-cases (ltb (length bs) len)) [
  | inl short ↦ rw short (ground arith)
  | inr long ↦ rw long (ground (arith, length-take (len - 1) bs))
]

-- What is returned, if anything is.
abbrev pub Below : ℕ → Outcome (List ℕ) → Type 0
Below len (ok bs) = length bs < len
Below len failed = Unit
Below len crashed = Unit
Below len out_of_fuel = Unit

module _ (len : ℕ) (room : 0 < len) where
  str_result-Below : (v : Value) (s : Session) → Below len (str_result len v s).0
  unfolding str_result
  str_result-Below (string bs) s = copied-fits bs len room
  str_result-Below null s = tt
  str_result-Below (bool b) s = tt
  str_result-Below (int64 n) s = tt
  str_result-Below (float64 u) s = tt
  str_result-Below (binary bs) s = tt
  str_result-Below (array vs) s = tt
  str_result-Below (map ps) s = tt

  bind-Below : (p : Outcome Value × Session) → Below len (bind p (str_result len)).0
  bind-Below (ok v, s) = str_result-Below v s
  bind-Below (failed, s) = tt
  bind-Below (crashed, s) = tt
  bind-Below (out_of_fuel, s) = tt

-- With a result buffer of `len` bytes, call_str never writes beyond its end: what it copies there,
-- if it returns 0, leaves room for the closing zero, whatever comes from the connection.
pub call_str-Below :
    (alloc : ℕ → Bool) (present : Bool) (func arg : Option (List ℕ)) (len : ℕ) (s : Session)
    → Below len (call_str alloc present func arg (some len) s).0
unfolding call_str str_result
call_str-Below alloc false func arg len s = tt
call_str-Below alloc true none arg len s = tt
call_str-Below alloc true (some func) arg len s = elim (Bool-cases (ltb 0 len)) [
  | inl room ↦
      rw room (bind-Below len (ltb→lt 0 len room) (call alloc true (some func) (arg_items arg) s))
  | inr full ↦ rw full tt
]

take_all : (n : ℕ) (bs : List ℕ) → length bs ≤ n → take n bs ≡ bs
take_all zero [] h = refl
take_all zero (b ∷ bs) h = absurd (omega arith)
take_all (suc n) [] h = refl
take_all (suc n) (b ∷ bs) h = ap (◌∷◌ b) (take_all n bs (omega arith))

copied-take : (bs : List ℕ) (len : ℕ) → copied bs len ≡ take (len - 1) bs
unfolding copied
copied-take bs len = elim (Bool-cases (ltb (length bs) len)) [
  | inl short ↦ rw short (sym (take_all (len - 1) bs (ground arith)))
  | inr long ↦ rw long refl
]

str_items-IsValid :
    (bs : List ℕ)
    → length bs < 2 ^ 32
    → IsValidItems (str_items bs) × (count_items (str_items bs) < 2 ^ 32)
str_items-IsValid [] h = (tt, omega arith)
str_items-IsValid (b ∷ bs) h = ((h, tt), omega arith)

-- Under the conditions of call-response, a call with a string whose request goes out, and which is
-- answered by a response with a string, returns the first `len` - 1 bytes of it in a buffer of
-- `len` > 0 bytes, and has sent the frame of its request, in which an empty string is no argument.
pub call_str-response :
    (alloc : ℕ → Bool) (enough : (n : ℕ) → alloc n ≡ true) (s : Session) (func arg : List ℕ)
    (len : ℕ)
    → 0 < len
    → IsOpen s.socket.incoming
    → length (c_string func) < 2 ^ 32
    → length (c_string arg) < 2 ^ 32
    → length (request alloc enough s func (arg_items (some arg))) ≤ max_frame_size
    → (requested alloc enough s func (arg_items (some arg))).0 ≡ true
    → (reply : ℕ) (bs rest : List ℕ) → reply < 2 ^ 64
    → length bs < 2 ^ 32
    → length (map_head 3 ++ result_rest (text "response") reply (string bs)) ≤ max_frame_size
    → bytes s.socket.incoming
      ≡ frame (map_head 3 ++ result_rest (text "response") reply (string bs)) ++ rest
    → (socket : Socket) × (call_str alloc true (some func) (some arg) (some len) s ≡ (
      ok (take (len - 1) bs),
      after s (new_id alloc enough s func (arg_items (some arg))) socket,
    ))
      × (bytes socket.incoming ≡ rest)
      × (socket.sent ≡ s.socket.sent ++ frame (request alloc enough s func (arg_items (some arg))))
unfolding call_str str_result
call_str-response alloc enough s func arg len room connected name_fits arg_fits request_fits written
      reply bs rest id_fits bs_fits small e =
    let valid = str_items-IsValid (c_string arg) arg_fits in
    let r =
      call-response alloc enough s func (arg_items (some arg)) connected name_fits valid.1 valid.0
        request_fits written reply (string bs) rest id_fits bs_fits small e in
    let returned = ap (λ p. bind p (str_result len)) r.1 in
    (
      r.0,
      if_false (not (ltb 0 len)) _ _ (ground arith)
          ∙ returned
          ∙ ap (λ z. (ok z, after s (new_id alloc enough s func (arg_items (some arg))) r.0))
              (copied-take bs len),
      r.2,
      r.3,
    )
