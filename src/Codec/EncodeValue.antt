-- ===== src/Codec/EncodeValue.antt =====
-- encode_value of c/src/codec.c appends the format of the value.
use callwire.Base.{ℕ, ◌%◌, ◌^◌, ◌<◌, ◌≡◌, subst, arith, Option, none, some}
use callwire.Value.{
  Value, Items, Pairs, null, bool, int64, float64, string, binary, array, map, no_items, item,
  no_pairs, pair, count_items, count_pairs, IsValid, IsValidItems, IsValidPairs,
}
use callwire.Mpack.Format.{array_head, map_head, value_bytes, items_bytes, pairs_bytes}
use callwire.Mpack.Writer.{write_array_header, write_map_header}
use callwire.Mpack.Writes.{
  Appends, Appends->>, Appends-nil, Appends-bool, Appends-int64, Appends-double, Appends-str,
  Appends-bin, Appends-array_head, Appends-map_head, Appends-none,
}
use callwire.Codec.Encode.{encode_value, encode_items, encode_pairs, encode_pointer}

pub Appends-array_count :
    (n : ℕ) → n < 2 ^ 32 → Appends (write_array_header (n % 2 ^ 32)) (array_head n)
Appends-array_count n h =
    subst (λ k. Appends (write_array_header k) (array_head n)) small (Appends-array_head n)
  where
    small : n ≡ n % 2 ^ 32
    small = omega arith

Appends-map_count : (n : ℕ) → n < 2 ^ 32 → Appends (write_map_header (n % 2 ^ 32)) (map_head n)
Appends-map_count n h =
    subst (λ k. Appends (write_map_header k) (map_head n)) small (Appends-map_head n)
  where
    small : n ≡ n % 2 ^ 32
    small = omega arith

mutual
  unfolding encode_value value_bytes

  value-Appends : (v : Value) → IsValid v → Appends (encode_value v) (value_bytes v)
  value-Appends null h = Appends-nil
  value-Appends (bool b) h = Appends-bool b
  value-Appends (int64 v) h = Appends-int64 v h
  value-Appends (float64 u) h = Appends-double u h
  value-Appends (string bs) h = Appends-str bs h
  value-Appends (binary bs) h = Appends-bin bs h
  value-Appends (array vs) h =
      Appends->> (Appends-array_count (count_items vs) h.0) (items-Appends vs h.1)
  value-Appends (map ps) h =
      Appends->> (Appends-map_count (count_pairs ps) h.0) (pairs-Appends ps h.1)

  items-Appends : (vs : Items) → IsValidItems vs → Appends (encode_items vs) (items_bytes vs)
  items-Appends no_items h = Appends-none
  items-Appends (item v vs) h = Appends->> (value-Appends v h.0) (items-Appends vs h.1)

  pairs-Appends : (ps : Pairs) → IsValidPairs ps → Appends (encode_pairs ps) (pairs_bytes ps)
  pairs-Appends no_pairs h = Appends-none
  pairs-Appends (pair k v ps) h =
      Appends->> (value-Appends k h.0) (Appends->> (value-Appends v h.1) (pairs-Appends ps h.2))

-- Encoding a value that the format can carry appends exactly its MessagePack bytes if the buffer has
-- room for them, and otherwise sets the overflow flag; the flag once set stays set.
pub encode_value-Appends : (v : Value) → IsValid v → Appends (encode_value v) (value_bytes v)
encode_value-Appends v h = value-Appends v h

pub encode_items-Appends :
    (vs : Items) → IsValidItems vs → Appends (encode_items vs) (items_bytes vs)
encode_items-Appends vs h = items-Appends vs h

-- The bytes of a value behind a pointer that may be null.
abbrev pub pointed : Option Value → Value
pointed none = null
pointed (some v) = v

pub encode_pointer-Appends :
    (o : Option Value) → IsValid (pointed o) → Appends (encode_pointer o) (value_bytes (pointed o))
unfolding encode_pointer value_bytes
encode_pointer-Appends none h = Appends-nil
encode_pointer-Appends (some v) h = value-Appends v h
