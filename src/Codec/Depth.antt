-- ===== src/Codec/Depth.antt =====
-- A value is nested no deeper than its encoding is long, so the fuel of callwire_codec_decode is
-- enough for every payload that an encoder of c/src/codec.c makes.
use callwire.Base.{
  ℕ, ◌+◌, ◌≤◌, ◌<◌, ◌≡◌, List, [], ◌∷◌, ◌++◌, arith, ltb, leb, if◌then◌else◌, length, length-append,
  ℤ, pos, negsuc, ◌-◌,
}
use callwire.Value.{
  Value, Items, Pairs, null, bool, int64, float64, string, binary, array, map, no_items, item,
  no_pairs, pair, count_items, count_pairs,
}
use callwire.Mpack.Format.{int_bytes, str_head, value_bytes, items_bytes, pairs_bytes}
use callwire.Mpack.Tags.{
  Starts, int_bytes-Starts, str_head-Starts, bin_head-Starts, array_head-Starts, map_head-Starts,
}
use callwire.Codec.ReadValue.{depth, depth_items, depth_pairs}

length-Starts : {P : ℕ → Type 0} {xs : List ℕ} → Starts P xs → 1 ≤ length xs
length-Starts s = rw s.eq (omega arith)

pub length-append_bytes : (xs ys : List ℕ) → length (xs ++ ys) ≡ length xs + length ys
length-append_bytes = length-append

pub ruleset lengths = (arith, length-append_bytes)

mutual
  unfolding depth value_bytes

  value_depth : (v : Value) → depth v ≤ length (value_bytes v)
  value_depth null = omega arith
  value_depth (bool b) = omega arith
  value_depth (int64 v) = length-Starts (int_bytes-Starts v)
  value_depth (float64 u) = omega arith
  value_depth (string bs) = omega (lengths, length-Starts (str_head-Starts (length bs)))
  value_depth (binary bs) = omega (lengths, length-Starts (bin_head-Starts (length bs)))
  value_depth (array vs) =
      omega (lengths, length-Starts (array_head-Starts (count_items vs)), items_depth vs)
  value_depth (map ps) =
      omega (lengths, length-Starts (map_head-Starts (count_pairs ps)), pairs_depth ps)

  items_depth : (vs : Items) → depth_items vs ≤ length (items_bytes vs)
  items_depth no_items = omega arith
  items_depth (item v vs) = omega (lengths, value_depth v, items_depth vs)

  pairs_depth : (ps : Pairs) → depth_pairs ps ≤ length (pairs_bytes ps)
  pairs_depth no_pairs = omega arith
  pairs_depth (pair k v ps) = omega (lengths, value_depth k, value_depth v, pairs_depth ps)

pub depth-le-length : (v : Value) → depth v ≤ length (value_bytes v)
depth-le-length v = value_depth v

pub depth_items-le-length : (vs : Items) → depth_items vs ≤ length (items_bytes vs)
depth_items-le-length vs = items_depth vs

pub length-int_bytes : (v : ℤ) → length (int_bytes v) ≤ 9
unfolding int_bytes
length-int_bytes (pos n) = ground arith
length-int_bytes (negsuc n) = ground arith

pub length-str_head : (n : ℕ) → length (str_head n) ≤ 5
unfolding str_head
length-str_head n = ground arith
