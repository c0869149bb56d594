-- ===== src/Codec/Total.antt =====
-- The decoders of c/src/codec.c on arbitrary payloads: the fuel is enough, and the reader goes
-- forward inside its buffer.
use callwire.Base.{
  ℕ, zero, suc, ◌-◌, ◌*◌, ◌<◌, ◌≡◌, refl, ap, Bool, true, false, ◌&&◌, not, Option, none, some,
  arith, ltb, if◌then◌else◌, length,
}
use callwire.Value.{Value, null, bool, int64, float64, no_items, item, no_pairs, pair, array, map}
use callwire.Mpack.Reader.{
  Reader, try_read_nil, try_read_bool, try_read_int64, try_read_double, try_read_str, try_read_bin,
  try_read_array_header, try_read_map_header,
}
use callwire.Mpack.Goes.{
  Goes, Goes-refl, Goes-trans, Goes-fail, Goes-nil, Goes-bool, Goes-int64, Goes-double, Goes-str,
  Goes-bin, Goes-array_header, Goes-map_header, array_header_moves, map_header_moves,
}
use callwire.Codec.Outcome.{Outcome, ok, failed, crashed, out_of_fuel, Decoder, bind, ◌>>=◌, pure}
use callwire.Codec.Decode.{
  value_size, decode_items, decode_pairs, attempt, attempt_nil, decode_string, decode_binary,
  decode_array, decode_map, decode_compound, only_map, from_bin, from_str, from_double, from_int64,
  from_nil, decode_value,
}

-- A value or the return value -1.
abbrev pub IsReturn {ℓ} : {A : Type ℓ} → Outcome A → Type 0
IsReturn (ok a) = Unit
IsReturn failed = Unit
IsReturn crashed = ⊥
IsReturn out_of_fuel = ⊥

-- The step returns, with the reader ahead of `r`.
pub record Returns {ℓ} {A : Type ℓ} (r : Reader) (p : Outcome A × Reader) : Type 0 where
  pub returns : IsReturn p.0
  pub goes : Goes r p.1

-- The decoder returns wherever fewer than `n` bytes are left.
abbrev pub Total {ℓ} : {A : Type ℓ} → ℕ → (Reader → Outcome A × Reader) → Type 0
Total n d = (r : Reader) → length r.buf - r.pos < n → Returns r (d r)

pub Returns-bind :
    {A B : Type 0} {r : Reader} (p : Outcome A × Reader) (k : A → Decoder B)
    → Returns r p
    → ((a : A) → Returns p.1 (k a p.1))
    → Returns r (bind p k)
Returns-bind (ok a, s) k h g = record {
  returns = (g a).returns;
  goes = Goes-trans h.goes (g a).goes;
}
Returns-bind (failed, s) k h g = record { returns = tt; goes = h.goes }
Returns-bind (crashed, s) k h g = absurd h.returns
Returns-bind (out_of_fuel, s) k h g = absurd h.returns

pub left_of :
    {r s : Reader} (n : ℕ) → Goes r s → length r.buf - r.pos < n → length s.buf - s.pos < n
left_of {r} {s} n g h = omega (arith, ap length g.same, g.moves)

pub Total-bind :
    {A B : Type 0} (n : ℕ) (d : Decoder A) (k : A → Decoder B)
    → Total n d
    → ((a : A) → Total n (k a))
    → Total n (d >>= k)
Total-bind n d k h g r small =
    Returns-bind (d r) k (h r small) (λ a. g a (d r).1 (left_of n (h r small).goes small))

pub Total-pure : {A : Type 0} (n : ℕ) (a : A) → Total n (pure a)
Total-pure n a r small = record { returns = tt; goes = Goes-refl r }

-- A try that may fail, and what follows in either case.
pub Returns-attempt :
    {A B : Type 0} {r : Reader} (p : Option A × Reader) (found : A → Reader → Outcome B × Reader)
    (next : Reader → Outcome B × Reader)
    → Goes r p.1
    → ((a : A) → p.0 ≡ some a → Returns p.1 (found a p.1))
    → Returns p.1 (next p.1)
    → Returns r (attempt p found next)
Returns-attempt (some a, s) found next g h k = record {
  returns = (h a refl).returns;
  goes = Goes-trans g (h a refl).goes;
}
Returns-attempt (none, s) found next g h k = record {
  returns = k.returns;
  goes = Goes-trans g k.goes;
}

pub Returns-if {ℓ} :
    {A : Type ℓ} {r : Reader} (c : Bool) (x y : Outcome A × Reader)
    → Returns r x
    → Returns r y
    → Returns r (if c then x else y)
Returns-if true x y h k = h
Returns-if false x y h k = k

pub Returns-test {ℓ} :
    {A : Type ℓ} {r : Reader} (c : Bool) (x y : Outcome A × Reader)
    → (c ≡ true → Returns r x)
    → (c ≡ false → Returns r y)
    → Returns r (if c then x else y)
Returns-test true x y h k = h refl
Returns-test false x y h k = k refl

pub Returns-failed : {A : Type 0} (r : Reader) → Returns {A = A} r (failed, r)
Returns-failed r = record { returns = tt; goes = Goes-refl r }

pub Returns-ok : {A : Type 0} (a : A) (r : Reader) → Returns r (ok a, r)
Returns-ok a r = record { returns = tt; goes = Goes-refl r }

module _ (n : ℕ) (decode : Decoder Value) (total : Total n decode) where
  items-Total : (count : ℕ) → Total n (decode_items decode count)
  unfolding decode_items
  items-Total zero = Total-pure n no_items
  items-Total (suc count) =
      Total-bind n decode _ total
        λ v. Total-bind n _ _ (items-Total count) λ vs. Total-pure n (item v vs)

  pairs-Total : (count : ℕ) → Total n (decode_pairs decode count)
  unfolding decode_pairs
  pairs-Total zero = Total-pure n no_pairs
  pairs-Total (suc count) = Total-bind n decode _ total λ k.
      Total-bind n decode _ total
        λ v. Total-bind n _ _ (pairs-Total count) λ ps. Total-pure n (pair k v ps)

-- With `decode` total on fewer bytes, each try is total: a header consumes its tag.
module _ (alloc : ℕ → Bool) (n : ℕ) (decode : Decoder Value) (total : Total n decode) where
  array-Total : (count : ℕ) → Total n (decode_array alloc decode count)
  unfolding decode_array
  array-Total count r small =
      Returns-if (ltb 0 count && not (alloc (count * value_size))) _ _ (Returns-failed r) (
        Total-bind n _ _ (items-Total n decode total count) (λ vs. Total-pure n (array vs)) r small)

  map-Total : (count : ℕ) → Total n (decode_map alloc decode count)
  unfolding decode_map
  map-Total count r small =
      Returns-if (ltb 0 count && not (alloc (count * value_size))) _ _ (Returns-failed r)
        (Total-bind n _ _ (pairs-Total n decode total count) (λ ps. Total-pure n (map ps)) r small)

  only_map-Total : Total (suc n) (only_map alloc decode)
  unfolding only_map
  only_map-Total r small =
      Returns-attempt (try_read_map_header r) _ _ (Goes-map_header r)
        (λ c e.
          map-Total c (try_read_map_header r).1
            (omega (arith, map_header_moves r e, ap length (Goes-map_header r).same)))
        (record { returns = tt; goes = Goes-fail (try_read_map_header r).1 })

  compound-Total : Total (suc n) (decode_compound alloc decode)
  unfolding decode_compound
  compound-Total r small =
      let g = Goes-array_header r in
      Returns-attempt (try_read_array_header r) _ _ g
        (λ c e.
          array-Total c (try_read_array_header r).1
            (omega (arith, array_header_moves r e, ap length g.same)))
        (only_map-Total (try_read_array_header r).1 (left_of (suc n) g small))

  bin-Total : Total (suc n) (from_bin alloc decode)
  unfolding from_bin decode_binary
  bin-Total r small =
      Returns-attempt (try_read_bin r) _ _ (Goes-bin r)
        (λ bs e. Returns-if _ _ _ (Returns-failed _) (Returns-ok _ _))
        (compound-Total (try_read_bin r).1 (left_of (suc n) (Goes-bin r) small))

  str-Total : Total (suc n) (from_str alloc decode)
  unfolding from_str decode_string
  str-Total r small =
      Returns-attempt (try_read_str r) _ _ (Goes-str r)
        (λ bs e. Returns-if _ _ _ (Returns-ok _ _) (Returns-failed _))
        (bin-Total (try_read_str r).1 (left_of (suc n) (Goes-str r) small))

  double-Total : Total (suc n) (from_double alloc decode)
  unfolding from_double
  double-Total r small =
      Returns-attempt (try_read_double r) _ _ (Goes-double r) (λ u e. Returns-ok (float64 u) _)
        (str-Total (try_read_double r).1 (left_of (suc n) (Goes-double r) small))

  int64-Total : Total (suc n) (from_int64 alloc decode)
  unfolding from_int64
  int64-Total r small =
      Returns-attempt (try_read_int64 r) _ _ (Goes-int64 r) (λ v e. Returns-ok (int64 v) _)
        (double-Total (try_read_int64 r).1 (left_of (suc n) (Goes-int64 r) small))

  bool-Total :
      Total (suc n) (λ r. attempt (try_read_bool r) (λ b. pure (bool b)) (from_int64 alloc decode))
  bool-Total r small =
      Returns-attempt (try_read_bool r) _ _ (Goes-bool r) (λ b e. Returns-ok (bool b) _)
        (int64-Total (try_read_bool r).1 (left_of (suc n) (Goes-bool r) small))

  Returns-nil :
      {r : Reader} (p : Bool × Reader) (next : Decoder Value)
      → Goes r p.1
      → Returns p.1 (next p.1)
      → Returns r (attempt_nil p (pure null) next)
  Returns-nil (true, s) next g h = record { returns = tt; goes = g }
  Returns-nil (false, s) next g h = record { returns = h.returns; goes = Goes-trans g h.goes }

  nil-Total : Total (suc n) (from_nil alloc decode)
  unfolding from_nil
  nil-Total r small =
      Returns-nil (try_read_nil r) _ (Goes-nil r)
        (bool-Total (try_read_nil r).1 (left_of (suc n) (Goes-nil r) small))

-- decode_value returns on every buffer and at every position, given more fuel than there are unread
-- bytes: neither the fuel nor a null pointer stops it. The position does not fall, an error stays
-- set, and without an error the position is still in the buffer.
pub decode_value-Total : (alloc : ℕ → Bool) (n : ℕ) → Total n (decode_value alloc n)
unfolding decode_value
decode_value-Total alloc zero r small = absurd (omega arith)
decode_value-Total alloc (suc n) r small =
    Returns-if r.error _ _ (Returns-failed r)
      (nil-Total alloc n (decode_value alloc n) (decode_value-Total alloc n) r small)
