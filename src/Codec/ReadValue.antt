-- ===== src/Codec/ReadValue.antt =====
-- decode_value of c/src/codec.c on the format of a value: it takes the value off any input.
use callwire.Base.{
  ℕ, zero, suc, ◌+◌, ◌*◌, ◌^◌, ◌≤◌, ◌<◌, ◌≡◌, refl, ◌∙◌, inl, Bool, true, List, [], ◌∷◌, ◌++◌,
  arith, if◌then◌else◌, if_false, and_false, length, ltb, ℤ, IsInt64,
}
use Prim.Native.Nat.{max}
use callwire.Value.{
  Value, Items, Pairs, null, bool, int64, float64, string, binary, array, map, no_items, item,
  no_pairs, pair, count_items, count_pairs, IsValid, IsValidItems, IsValidPairs,
}
use callwire.Mpack.Format.{
  be64, int_bytes, str_bytes, bin_head, array_head, map_head, value_bytes, items_bytes, pairs_bytes,
}
use callwire.Mpack.Reader.{Reader, advance, fail, peek_tag, try_read_nil}
use callwire.Mpack.Sees.{peek_tag-Sees}
use callwire.Mpack.Reads.{
  Reads, try_read_bool-Reads, try_read_int64-Reads, try_read_double-Reads, try_read_str-Reads,
  try_read_bin-Reads, try_read_array_header-Reads, try_read_map_header-Reads,
}
use callwire.Mpack.Tags.{
  Starts, Starts-here, Starts-append, int_bytes-Starts, str_head-Starts, bin_head-Starts,
  array_head-Starts, map_head-Starts, by_class, no_nil,
}
use callwire.Codec.Outcome.{ok, failed, Decoder, pure}
use callwire.Codec.Dispatch.{to_int64, to_double, to_str, to_bin, to_compound, to_map}
use callwire.Codec.Decode.{
  value_size, decode_items, decode_pairs, decode_string, decode_binary, decode_array, decode_map,
  decode_compound, from_bin, from_str, from_double, from_int64, from_nil, only_map, decode_value,
}
use callwire.Codec.Steps.{Reads-bind, Reads-attempt, Reads-pure, Reads-try, Reads-then}

-- The nesting of a value.
unfoldable mutual
  pub depth : Value → ℕ
  depth null = 1
  depth (bool b) = 1
  depth (int64 v) = 1
  depth (float64 u) = 1
  depth (string bs) = 1
  depth (binary bs) = 1
  depth (array vs) = suc (depth_items vs)
  depth (map ps) = suc (depth_pairs ps)

  pub depth_items : Items → ℕ
  depth_items no_items = 0
  depth_items (item v vs) = max (depth v) (depth_items vs)

  pub depth_pairs : Pairs → ℕ
  depth_pairs no_pairs = 0
  depth_pairs (pair k v ps) = max (depth k) (max (depth v) (depth_pairs ps))

-- With allocation that succeeds, the steps taken after a header do not fail.
module _ (alloc : ℕ → Bool) (enough : (n : ℕ) → alloc n ≡ true) where
  string-Reads : (bs : List ℕ) → Reads (decode_string alloc bs) [] (ok (string bs))
  unfolding decode_string advance
  string-Reads bs = record { at = λ r ys s. rw (enough (length bs + 1)) (ground arith) }

  binary-Reads : (bs : List ℕ) → Reads (decode_binary alloc bs) [] (ok (binary bs))
  unfolding decode_binary advance
  binary-Reads bs = record { at = λ r ys s. rw (enough (length bs)) (ground arith) }

  array-Reads :
      (decode : Decoder Value) (vs : Items) {xs : List ℕ}
      → Reads (decode_items decode (count_items vs)) xs (ok vs)
      → Reads (decode_array alloc decode (count_items vs)) xs (ok (array vs))
  unfolding decode_array
  array-Reads decode vs h = record {
    at = λ r ys s.
        rw (enough (count_items vs * value_size), and_false (ltb 0 (count_items vs)), h.at r ys s);
  }

  map-Reads :
      (decode : Decoder Value) (ps : Pairs) {xs : List ℕ}
      → Reads (decode_pairs decode (count_pairs ps)) xs (ok ps)
      → Reads (decode_map alloc decode (count_pairs ps)) xs (ok (map ps))
  unfolding decode_map
  map-Reads decode ps h = record {
    at = λ r ys s.
        rw (enough (count_pairs ps * value_size), and_false (ltb 0 (count_pairs ps)), h.at r ys s);
  }

  -- From the try that fits the class to the whole function.
  by_try :
      (f : ℕ) {P : ℕ → Type 0} {xs : List ℕ} {v : Value} (d : Decoder Value)
      → Starts P xs
      → ((r : Reader) (t : ℕ)
          → P t
          → peek_tag r ≡ (t, r)
          → from_nil alloc (decode_value alloc f) r ≡ d r)
      → Reads d xs (ok v)
      → Reads (decode_value alloc (suc f)) xs (ok v)
  unfolding decode_value
  by_try f d st e h =
      by_class (decode_value alloc (suc f)) st
        (λ r t no_error c p. if_false r.error _ _ no_error ∙ e r t c p) h

  module _ (decode : Decoder Value) where
    from_int64-Reads :
        (v : ℤ) → IsInt64 v → Reads (from_int64 alloc decode) (int_bytes v) (ok (int64 v))
    unfolding from_int64
    from_int64-Reads v h =
        Reads-try (λ n. pure (int64 n)) (from_double alloc decode) (try_read_int64-Reads v h)
          (Reads-pure (int64 v))

    from_double-Reads :
        (u : ℕ) → u < 2 ^ 64 → Reads (from_double alloc decode) (0xCB ∷ be64 u) (ok (float64 u))
    unfolding from_double
    from_double-Reads u h =
        Reads-try (λ n. pure (float64 n)) (from_str alloc decode) (try_read_double-Reads u h)
          (Reads-pure (float64 u))

    from_str-Reads :
        (bs : List ℕ)
        → length bs < 2 ^ 32
        → Reads (from_str alloc decode) (str_bytes bs) (ok (string bs))
    unfolding from_str
    from_str-Reads bs h =
        Reads-try (decode_string alloc) (from_bin alloc decode) (try_read_str-Reads bs h)
          (string-Reads bs)

    from_bin-Reads :
        (bs : List ℕ)
        → length bs < 2 ^ 32
        → Reads (from_bin alloc decode) (bin_head (length bs) ++ bs) (ok (binary bs))
    unfolding from_bin
    from_bin-Reads bs h =
        Reads-try (decode_binary alloc) (decode_compound alloc decode) (try_read_bin-Reads bs h)
          (binary-Reads bs)

    compound-Reads :
        (vs : Items) {xs : List ℕ}
        → count_items vs < 2 ^ 32
        → Reads (decode_items decode (count_items vs)) xs (ok vs)
        → Reads (decode_compound alloc decode) (array_head (count_items vs) ++ xs) (ok (array vs))
    unfolding decode_compound
    compound-Reads vs h g =
        Reads-attempt (decode_array alloc decode) _ (try_read_array_header-Reads (count_items vs) h)
          (array-Reads decode vs g)

    only_map-Reads :
        (ps : Pairs) {xs : List ℕ}
        → count_pairs ps < 2 ^ 32
        → Reads (decode_pairs decode (count_pairs ps)) xs (ok ps)
        → Reads (only_map alloc decode) (map_head (count_pairs ps) ++ xs) (ok (map ps))
    unfolding only_map
    only_map-Reads ps h g =
        Reads-attempt (decode_map alloc decode) (λ r. (failed, fail r))
          (try_read_map_header-Reads (count_pairs ps) h) (map-Reads decode ps g)

  module _ (f : ℕ) where
    null-Reads : Reads (decode_value alloc (suc f)) (0xC0 ∷ []) (ok null)
    unfolding decode_value from_nil try_read_nil
    null-Reads = record { at = λ r ys s. if_false r.error _ _ s.2 ∙ rw (peek_tag-Sees r 0xC0 ys s) }

    bool-Reads :
        (b : Bool)
        → Reads (decode_value alloc (suc f)) ((if b then 0xC3 else 0xC2) ∷ []) (ok (bool b))
    unfolding decode_value from_nil
    bool-Reads b = record {
      at = λ r ys s.
          if_false r.error _ _ s.2
          ∙ rw (
            no_nil r (if b then 0xC3 else 0xC2) (peek_tag-Sees r _ ys s) (ground arith),
            (try_read_bool-Reads b).at r ys s,
          );
    }

  mutual
    unfolding depth value_bytes decode_items decode_pairs

    value-Reads :
        (v : Value) (f : ℕ)
        → IsValid v
        → depth v ≤ f
        → Reads (decode_value alloc f) (value_bytes v) (ok v)
    value-Reads null zero h d = absurd (omega arith)
    value-Reads (bool b) zero h d = absurd (omega arith)
    value-Reads (int64 v) zero h d = absurd (omega arith)
    value-Reads (float64 u) zero h d = absurd (omega arith)
    value-Reads (string bs) zero h d = absurd (omega arith)
    value-Reads (binary bs) zero h d = absurd (omega arith)
    value-Reads (array vs) zero h d = absurd (omega arith)
    value-Reads (map ps) zero h d = absurd (omega arith)
    value-Reads null (suc f) h d = null-Reads f
    value-Reads (bool b) (suc f) h d = bool-Reads f b
    value-Reads (int64 v) (suc f) h d =
        by_try f (from_int64 alloc (decode_value alloc f)) (int_bytes-Starts v)
          (λ r t c p.
            to_int64 alloc (decode_value alloc f) r t p (omega arith) (omega arith) (omega arith))
          (from_int64-Reads (decode_value alloc f) v h)
    value-Reads (float64 u) (suc f) h d =
        by_try f (from_double alloc (decode_value alloc f))
          (Starts-here {P = λ t. t ≡ 0xCB} 0xCB refl)
          (λ r t c p.
            to_double alloc (decode_value alloc f) r t p (omega arith) (omega arith) (omega arith)
              (omega arith) (omega arith) (omega arith))
          (from_double-Reads (decode_value alloc f) u h)
    value-Reads (string bs) (suc f) h d =
        by_try f (from_str alloc (decode_value alloc f))
          (Starts-append bs (str_head-Starts (length bs)))
          (λ r t c p.
            to_str alloc (decode_value alloc f) r t p (omega arith) (omega arith) (omega arith))
          (from_str-Reads (decode_value alloc f) bs h)
    value-Reads (binary bs) (suc f) h d =
        by_try f (from_bin alloc (decode_value alloc f))
          (Starts-append bs (bin_head-Starts (length bs)))
          (λ r t c p. to_bin alloc (decode_value alloc f) r t p c)
          (from_bin-Reads (decode_value alloc f) bs h)
    value-Reads (array vs) (suc f) h d =
        by_try f (decode_compound alloc (decode_value alloc f))
          (Starts-append (items_bytes vs) (array_head-Starts (count_items vs)))
          (λ r t c p. to_compound alloc (decode_value alloc f) r t p (inl c))
          (compound-Reads (decode_value alloc f) vs h.0 (items-Reads vs f h.1 (omega arith)))
    value-Reads (map ps) (suc f) h d =
        by_try f (only_map alloc (decode_value alloc f))
          (Starts-append (pairs_bytes ps) (map_head-Starts (count_pairs ps)))
          (λ r t c p. to_map alloc (decode_value alloc f) r t p c)
          (only_map-Reads (decode_value alloc f) ps h.0 (pairs-Reads ps f h.1 (omega arith)))

    items-Reads :
        (vs : Items) (f : ℕ)
        → IsValidItems vs
        → depth_items vs ≤ f
        → Reads (decode_items (decode_value alloc f) (count_items vs)) (items_bytes vs) (ok vs)
    items-Reads no_items f h d = Reads-pure no_items
    items-Reads (item v vs) f h d =
        Reads-bind _ (value-Reads v f h.0 (omega arith))
          (Reads-then (λ ws. item v ws) (items-Reads vs f h.1 (omega arith)))

    pairs-Reads :
        (ps : Pairs) (f : ℕ)
        → IsValidPairs ps
        → depth_pairs ps ≤ f
        → Reads (decode_pairs (decode_value alloc f) (count_pairs ps)) (pairs_bytes ps) (ok ps)
    pairs-Reads no_pairs f h d = Reads-pure no_pairs
    pairs-Reads (pair k v ps) f h d = Reads-bind _ (value-Reads k f h.0 (omega arith)) (
        Reads-bind _ (value-Reads v f h.1 (omega arith))
          (Reads-then (λ qs. pair k v qs) (pairs-Reads ps f h.2 (omega arith))))

-- decode_value, given as much fuel as the value is nested, reads a value that the format can carry
-- off the front of any input that begins with its bytes, and leaves the rest.
pub decode_value-Reads :
    (alloc : ℕ → Bool)
    → ((n : ℕ) → alloc n ≡ true)
    → (v : Value) (f : ℕ) → IsValid v
    → depth v ≤ f
    → Reads (decode_value alloc f) (value_bytes v) (ok v)
decode_value-Reads alloc enough v f h d = value-Reads alloc enough v f h d
