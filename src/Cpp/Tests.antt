-- ===== src/Cpp/Tests.antt =====
-- Runs of cpp/include/callwire/callwire.hpp on small inputs.
use callwire.Base.{ℕ, ◌≡◌, refl, List, text, pos}
use callwire.Value.{Value, null, int64, string, array, map, no_items, item, Pairs, no_pairs, pair}
use callwire.Cpp.{value}
use callwire.Cpp.Values.{before, deep_copy}
use callwire.Cpp.Copies.{wrap, IsSorted, deep_copy-IsSorted}
use callwire.Cpp.Keys.{find_key, Copied, deep_copy-find_key}

-- A map whose keys increase, in an array.
abbrev sorted : Value
sorted = array (
    item (map (pair (string (text "a")) (int64 (pos 1)) (pair (string (text "b")) null no_pairs)))
      no_items)

deep_copy-IsSorted_example : deep_copy sorted ≡ value (wrap sorted)
unfolding before
deep_copy-IsSorted_example =
    deep_copy-IsSorted sorted
      (((text "a", refl, ((text "b", refl, refl), tt)), tt, ((text "b", refl, tt), tt, tt)), tt)

-- A map with a key twice, in another order.
abbrev unsorted : Pairs
unsorted =
    pair (string (text "b")) (int64 (pos 1))
      (pair (string (text "a")) null (pair (string (text "b")) (int64 (pos 2)) no_pairs))

deep_copy-find_key_example :
    (qs : Pairs) × (deep_copy (map unsorted) ≡ value (wrap (map qs)))
    × IsSorted (map qs)
    × ((a : List ℕ) → Copied (find_key a unsorted) (find_key a qs))
    × (deep_copy (map qs) ≡ value (wrap (map qs)))
deep_copy-find_key_example =
    deep_copy-find_key unsorted
      ((text "b", refl), tt, ((text "a", refl), tt, ((text "b", refl), tt, tt)))
