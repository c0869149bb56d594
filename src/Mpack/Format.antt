-- ===== src/Mpack/Format.antt =====
-- The MessagePack format that mpack_stub.h implements, as byte strings: the reference for both the
-- writer and the reader.
use callwire.Base.{
  ℕ, ◌+◌, ◌-◌, ◌/◌, ◌%◌, ◌^◌, List, [], ◌∷◌, ◌++◌, ltb, leb, if◌then◌else◌, length, ℤ, pos, negsuc,
}
use callwire.Value.{
  Value, Items, Pairs, null, bool, int64, float64, string, binary, array, map, no_items, item,
  no_pairs, pair, count_items, count_pairs,
}

-- Big-endian words.
abbrev pub be16 : ℕ → List ℕ
be16 v = v / 2 ^ 8 % 2 ^ 8 ∷ v % 2 ^ 8 ∷ []

abbrev pub be32 : ℕ → List ℕ
be32 v = v / 2 ^ 24 % 2 ^ 8 ∷ v / 2 ^ 16 % 2 ^ 8 ∷ v / 2 ^ 8 % 2 ^ 8 ∷ v % 2 ^ 8 ∷ []

abbrev pub be64 : ℕ → List ℕ
be64 v = be32 (v / 2 ^ 32) ++ be32 (v % 2 ^ 32)

-- The shortest form of an integer.
unfoldable pub int_bytes : ℤ → List ℕ
int_bytes (pos n) =
    if leb n 0x7F
    then n ∷ []
    else if leb n 0xFF
    then 0xCC ∷ n ∷ []
    else if leb n 0xFFFF
    then 0xCD ∷ be16 n
    else if leb n 0xFFFFFFFF
    then 0xCE ∷ be32 n
    else 0xCF ∷ be64 n
int_bytes (negsuc n) =
    if leb n 31
    then (0xFF - n) ∷ []
    else if leb n 127
    then 0xD0 ∷ (0xFF - n) ∷ []
    else if leb n 32767
    then 0xD1 ∷ be16 (0xFFFF - n)
    else if leb n 2147483647
    then 0xD2 ∷ be32 (0xFFFFFFFF - n)
    else 0xD3 ∷ be64 (0xFFFFFFFFFFFFFFFF - n)

unfoldable pub str_head : ℕ → List ℕ
str_head n =
    if ltb n 32
    then (0xA0 + n) ∷ []
    else if leb n 0xFF
    then 0xD9 ∷ n ∷ []
    else if leb n 0xFFFF
    then 0xDA ∷ be16 n
    else 0xDB ∷ be32 n

unfoldable pub bin_head : ℕ → List ℕ
bin_head n =
    if leb n 0xFF then 0xC4 ∷ n ∷ [] else if leb n 0xFFFF then 0xC5 ∷ be16 n else 0xC6 ∷ be32 n

unfoldable pub array_head : ℕ → List ℕ
array_head n =
    if ltb n 16 then (0x90 + n) ∷ [] else if leb n 0xFFFF then 0xDC ∷ be16 n else 0xDD ∷ be32 n

unfoldable pub map_head : ℕ → List ℕ
map_head n =
    if ltb n 16 then (0x80 + n) ∷ [] else if leb n 0xFFFF then 0xDE ∷ be16 n else 0xDF ∷ be32 n

abbrev pub str_bytes : List ℕ → List ℕ
str_bytes bs = str_head (length bs) ++ bs

unfoldable mutual
  pub value_bytes : Value → List ℕ
  value_bytes null = 0xC0 ∷ []
  value_bytes (bool b) = (if b then 0xC3 else 0xC2) ∷ []
  value_bytes (int64 v) = int_bytes v
  value_bytes (float64 u) = 0xCB ∷ be64 u
  value_bytes (string bs) = str_bytes bs
  value_bytes (binary bs) = bin_head (length bs) ++ bs
  value_bytes (array vs) = array_head (count_items vs) ++ items_bytes vs
  value_bytes (map ps) = map_head (count_pairs ps) ++ pairs_bytes ps

  pub items_bytes : Items → List ℕ
  items_bytes no_items = []
  items_bytes (item v vs) = value_bytes v ++ items_bytes vs

  pub pairs_bytes : Pairs → List ℕ
  pairs_bytes no_pairs = []
  pairs_bytes (pair k v ps) = value_bytes k ++ (value_bytes v ++ pairs_bytes ps)
