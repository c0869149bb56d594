-- ===== src/Codec/Dispatch.antt =====
-- decode_value of c/src/codec.c at a tag: the tries before the one for the tag's class refuse it.
use callwire.Base.{ℕ, ◌<◌, ◌≡◌, ◌∙◌, ◌≢◌, ◌⊎◌, inr, Bool, arith}
use callwire.Value.{Value}
use callwire.Mpack.Reader.{Reader, peek_tag}
use callwire.Mpack.Tags.{
  IsBinTag, IsArrayTag, IsMapTag, no_nil, no_bool, no_int64, no_double, no_str, no_bin,
  no_array_header,
}
use callwire.Codec.Outcome.{Decoder}
use callwire.Codec.Decode.{
  decode_compound, only_map, from_bin, from_str, from_double, from_int64, from_nil,
}

module _ (alloc : ℕ → Bool) (decode : Decoder Value) (r : Reader) (t : ℕ)
    (p : peek_tag r ≡ (t, r)) where
  -- At the tag of an integer and of every later class the tries before it refuse.
  pub to_int64 :
      t ≢ 0xC0 → t ≢ 0xC2 → t ≢ 0xC3 → from_nil alloc decode r ≡ from_int64 alloc decode r
  unfolding from_nil
  to_int64 h k m = rw (no_nil r t p h, no_bool r t p k m)

  pub to_double :
      0x7F < t
      → t < 0xE0
      → (t < 0xCC) ⊎ (0xD3 < t)
      → t ≢ 0xC0
      → t ≢ 0xC2
      → t ≢ 0xC3
      → from_nil alloc decode r ≡ from_double alloc decode r
  unfolding from_int64
  to_double h k m a b c = to_int64 a b c ∙ rw (no_int64 r t p h k m)

  pub to_str :
      0x7F < t
      → t < 0xE0
      → (t < 0xC0) ⊎ (0xD3 < t)
      → from_nil alloc decode r ≡ from_str alloc decode r
  unfolding from_double
  to_str h k m =
      to_double h k (omega arith) (omega arith) (omega arith) (omega arith)
      ∙ rw (no_double r t p (omega arith) (omega arith))

  pub to_bin : IsBinTag t → from_nil alloc decode r ≡ from_bin alloc decode r
  unfolding from_double from_str
  to_bin h =
      to_double (omega arith) (omega arith) (omega arith) (omega arith) (omega arith) (omega arith)
      ∙ rw (no_double r t p (omega arith) (omega arith), no_str r t p (omega arith) (omega arith))

  pub to_compound :
      IsArrayTag t ⊎ IsMapTag t → from_nil alloc decode r ≡ decode_compound alloc decode r
  unfolding from_str from_bin
  to_compound h =
      to_str (omega arith) (omega arith) (omega arith)
      ∙ rw (no_str r t p (omega arith) (omega arith), no_bin r t p (omega arith))

  pub to_map : IsMapTag t → from_nil alloc decode r ≡ only_map alloc decode r
  unfolding decode_compound
  to_map h = to_compound (inr h) ∙ rw (no_array_header r t p (omega arith) (omega arith))
