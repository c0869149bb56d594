-- ===== src/Codec/Decode.antt =====
-- c/src/codec.c: decode_value. The fuel bounds the nesting of the calls; Codec/Total shows that one
-- more than the number of unread bytes is enough. `alloc n` says whether an allocation of `n` bytes
-- succeeds.
use Prim.Native.Nat.{ℕ, zero, suc}
use callwire.Base.{
  ◌+◌, ◌*◌, Bool, true, false, ◌&&◌, not, List, Option, none, some, ltb, if◌then◌else◌, length,
}
use callwire.Value.{
  Value, Items, Pairs, null, bool, int64, float64, string, binary, array, map, no_items, item,
  no_pairs, pair,
}
use callwire.Mpack.Reader.{
  Reader, fail, try_read_nil, try_read_bool, try_read_int64, try_read_double, try_read_str,
  try_read_bin, try_read_array_header, try_read_map_header,
}
use callwire.Codec.Outcome.{ok, failed, out_of_fuel, Decoder, bind, ◌>>=◌, pure}

-- sizeof(callwire_value_t): a four-byte tag, padding, and a union of three words.
abbrev pub value_size : ℕ
value_size = 32

-- The loops over the elements, with the call of decode_value passed in.
unfoldable pub decode_items : Decoder Value → ℕ → Decoder Items
decode_items decode zero = pure no_items
decode_items decode (suc n) = do v ← decode; vs ← decode_items decode n; pure (item v vs)

unfoldable pub decode_pairs : Decoder Value → ℕ → Decoder Pairs
decode_pairs decode zero = pure no_pairs
decode_pairs decode (suc n) = do
  k ← decode
  v ← decode
  ps ← decode_pairs decode n
  pure (pair k v ps)

-- `if (try_read(r, &a)) { ... }` and what follows.
abbrev pub attempt : {A X : Type 0} → Option A × Reader → (A → Reader → X) → (Reader → X) → X
attempt (some a, r) found next = found a r
attempt (none, r) found next = next r

abbrev pub attempt_nil : {X : Type 0} → Bool × Reader → (Reader → X) → (Reader → X) → X
attempt_nil (true, r) found next = found r
attempt_nil (false, r) found next = next r

module _ (alloc : ℕ → Bool) where
  unfoldable pub decode_string : List ℕ → Decoder Value
  decode_string bs r = if alloc (length bs + 1) then (ok (string bs), r) else (failed, r)

  unfoldable pub decode_binary : List ℕ → Decoder Value
  decode_binary bs r =
      if not (alloc (length bs)) && ltb 0 (length bs) then (failed, r) else (ok (binary bs), r)

  unfoldable pub decode_array : Decoder Value → ℕ → Decoder Value
  unfolding decode_items
  decode_array decode count r =
      if ltb 0 count && not (alloc (count * value_size))
      then (failed, r)
      else bind (decode_items decode count r) (λ vs. pure (array vs))

  unfoldable pub decode_map : Decoder Value → ℕ → Decoder Value
  unfolding decode_pairs
  decode_map decode count r =
      if ltb 0 count && not (alloc (count * value_size))
      then (failed, r)
      else bind (decode_pairs decode count r) (λ ps. pure (map ps))

  unfoldable pub only_map : Decoder Value → Decoder Value
  unfolding decode_map fail
  only_map decode r = attempt (try_read_map_header r) (decode_map decode) λ r₁. (failed, fail r₁)

  unfoldable pub decode_compound : Decoder Value → Decoder Value
  unfolding decode_array
  decode_compound decode r =
      attempt (try_read_array_header r) (decode_array decode) (only_map decode)

  -- The tries of decode_value in its order, from the one named on.
  unfoldable pub from_bin : Decoder Value → Decoder Value
  unfolding decode_binary
  from_bin decode r = attempt (try_read_bin r) decode_binary (decode_compound decode)

  unfoldable pub from_str : Decoder Value → Decoder Value
  unfolding decode_string
  from_str decode r = attempt (try_read_str r) decode_string (from_bin decode)

  unfoldable pub from_double : Decoder Value → Decoder Value
  from_double decode r = attempt (try_read_double r) (λ u. pure (float64 u)) (from_str decode)

  unfoldable pub from_int64 : Decoder Value → Decoder Value
  from_int64 decode r = attempt (try_read_int64 r) (λ v. pure (int64 v)) (from_double decode)

  unfoldable pub from_nil : Decoder Value → Decoder Value
  from_nil decode r =
      attempt_nil (try_read_nil r) (pure null)
        λ r₁. attempt (try_read_bool r₁) (λ b. pure (bool b)) (from_int64 decode)

  unfoldable pub decode_value : ℕ → Decoder Value
  decode_value zero r = (out_of_fuel, r)
  decode_value (suc fuel) r =
      let decoded = from_nil (decode_value fuel) r in if r.error then (failed, r) else decoded
