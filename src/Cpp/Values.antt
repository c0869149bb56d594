-- ===== src/Cpp/Values.antt =====
-- The class Value of cpp/include/callwire/callwire.hpp.
use callwire.Base.{ℕ, Bool, true, false, List, [], ◌∷◌, ltb, ◌==◌, if◌then◌else◌, text, ℤ}
use callwire.Value.{
  Value, null, bool, int64, float64, string, binary, array, map, Items, no_items, item, Pairs,
  no_pairs, pair,
}
use callwire.Cpp.{Answer, value, exception, undefined, ◌>>=◌, pure}

-- raw_ and owns_
pub record Wrapped : Type 0 where
  pub raw : Value
  pub owns : Bool

-- The constructors.
abbrev pub of_null : Wrapped
of_null = record { raw = null; owns = false }

abbrev pub of_bool : Bool → Wrapped
of_bool b = record { raw = bool b; owns = false }

abbrev pub of_int64 : ℤ → Wrapped
of_int64 n = record { raw = int64 n; owns = false }

abbrev pub of_double : ℕ → Wrapped
of_double d = record { raw = float64 d; owns = false }

abbrev pub of_string : List ℕ → Wrapped
of_string s = record { raw = string s; owns = true }

abbrev pub of_binary : List ℕ → Wrapped
of_binary bs = record { raw = binary bs; owns = true }

abbrev pub adopt : Value → Wrapped
adopt raw = record { raw = raw; owns = true }

-- The raw value goes to the caller, and null stays.
abbrev pub release_raw : Wrapped → Value × Wrapped
release_raw w = (w.raw, record { raw = null; owns = false })

-- The move constructor: the new value, and what is left of the other one.
abbrev pub moved : Wrapped → Wrapped × Wrapped
moved other = (other, record { raw = null; owns = false })

unfoldable pub released : List Wrapped → Items
released [] = no_items
released (w ∷ ws) = item (release_raw w).0 (released ws)

unfoldable pub of_array : List Wrapped → Wrapped
unfolding released
of_array arr = record { raw = array (released arr); owns = true }

-- A std::map<std::string, Value>: the pairs in the order of their keys. A key comes before another
-- by their first bytes that differ.
abbrev pub Map : Type 0
Map = List (List ℕ × Wrapped)

unfoldable pub before : List ℕ → List ℕ → Bool
before [] [] = false
before [] (y ∷ ys) = true
before (x ∷ xs) [] = false
before (x ∷ xs) (y ∷ ys) = if ltb x y then true else if x == y then before xs ys else false

-- A key that is there keeps its value.
unfoldable pub emplace : List ℕ → Wrapped → Map → Map
unfolding before
emplace k v [] = (k, v) ∷ []
emplace k v ((k', v') ∷ m) =
    let rest = emplace k v m in
    if before k k'
    then (k, v) ∷ (k', v') ∷ m
    else if before k' k
    then (k', v') ∷ rest
    else (k', v') ∷ m

unfoldable pub released_pairs : Map → Pairs
released_pairs [] = no_pairs
released_pairs ((k, v) ∷ m) =
    pair (release_raw (of_string k)).0 (release_raw v).0 (released_pairs m)

unfoldable pub of_map : Map → Wrapped
unfolding released_pairs
of_map m = record { raw = map (released_pairs m); owns = true }

-- The bytes that are read as the key of a pair: only a string has them.
unfoldable pub key_bytes : Value → Answer (List ℕ)
key_bytes (string s) = value s
key_bytes _ = undefined

-- deepCopy, with its loops over the elements and over the pairs.
unfoldable mutual
  unfolding of_array of_map emplace key_bytes

  pub deep_copy : Value → Answer Wrapped
  deep_copy null = value of_null
  deep_copy (bool b) = value (of_bool b)
  deep_copy (int64 n) = value (of_int64 n)
  deep_copy (float64 d) = value (of_double d)
  deep_copy (string s) = value (of_string s)
  deep_copy (binary bs) = value (of_binary bs)
  deep_copy (array vs) = deep_copy_items vs >>= λ ws. value (of_array ws)
  deep_copy (map ps) = deep_copy_pairs ps [] >>= λ m. value (of_map m)

  pub deep_copy_items : Items → Answer (List Wrapped)
  deep_copy_items no_items = value []
  deep_copy_items (item v vs) = do w ← deep_copy v; ws ← deep_copy_items vs; pure (w ∷ ws)

  pub deep_copy_pairs : Pairs → Map → Answer Map
  deep_copy_pairs no_pairs m = value m
  deep_copy_pairs (pair k v ps) m = do
    key ← key_bytes k
    w ← deep_copy v
    deep_copy_pairs ps (emplace key w m)

-- The accessors: std::runtime_error, where the type is another one.
abbrev pub wrong_type : List ℕ
wrong_type = text "callwire::Value: wrong type accessor called"

unfoldable pub as_bool : Value → Answer Bool
as_bool (bool b) = value b
as_bool _ = exception wrong_type

unfoldable pub as_int64 : Value → Answer ℤ
as_int64 (int64 n) = value n
as_int64 _ = exception wrong_type

unfoldable pub as_double : Value → Answer ℕ
as_double (float64 d) = value d
as_double _ = exception wrong_type

unfoldable pub as_string : Value → Answer (List ℕ)
as_string (string s) = value s
as_string _ = exception wrong_type

unfoldable pub as_binary : Value → Answer (List ℕ)
as_binary (binary bs) = value bs
as_binary _ = exception wrong_type
