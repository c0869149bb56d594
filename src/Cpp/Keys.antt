-- ===== src/Cpp/Keys.antt =====
-- deepCopy of cpp/include/callwire/callwire.hpp: what the keys of a copied map lead to.
use callwire.Base.{
  ℕ, ◌≡◌, refl, sym, subst, inl, inr, Bool, true, false, List, [], ◌∷◌, Option, none, some, arith,
  Bool-cases, if◌then◌else◌, bytes_eq, bytes_eq_sound,
}
use callwire.Value.{
  Value, null, bool, int64, float64, string, binary, array, map, Items, no_items, item, Pairs,
  no_pairs, pair,
}
use callwire.Cpp.{value}
use callwire.Cpp.Values.{
  Wrapped, released, of_array, Map, before, emplace, released_pairs, of_map, key_bytes, deep_copy,
  deep_copy_items, deep_copy_pairs,
}
use callwire.Cpp.Copies.{
  HasStringKeys, HasStringKeysItems, HasStringKeysPairs, Before, IsSorted, IsSortedItems,
  IsSortedPairs, before_trans, before_total, wrap, deep_copy-IsSorted,
}

-- The value of the first pair with a key.
abbrev pub is_key : List ℕ → Value → Bool
is_key k null = false
is_key k (bool b) = false
is_key k (int64 n) = false
is_key k (float64 d) = false
is_key k (string s) = bytes_eq s k
is_key k (binary bs) = false
is_key k (array vs) = false
is_key k (map ps) = false

abbrev pub find_key : List ℕ → Pairs → Option Value
find_key k no_pairs = none
find_key k (pair key v ps) = if is_key k key then some v else find_key k ps

-- A key leads to the copy of what it led to.
abbrev pub Copied : Option Value → Option Value → Type 0
Copied none o = o ≡ none
Copied (some v) o = (w : Wrapped) × (deep_copy v ≡ value w) × (o ≡ some w.raw)

abbrev Above : List ℕ → Map → Type 0
Above k [] = Unit
Above k ((k', v) ∷ m) = (before k k' ≡ true) × Above k m

abbrev IsSortedMap : Map → Type 0
IsSortedMap [] = Unit
IsSortedMap ((k, w) ∷ m) = Above k m × IsSorted w.raw × IsSortedMap m

Above-trans : (a k : List ℕ) (m : Map) → before a k ≡ true → Above k m → Above a m
Above-trans a k [] b h = tt
Above-trans a k ((k', w) ∷ m) b h = (before_trans a k k' b h.0, Above-trans a k m b h.1)

emplace-Above :
    (a k : List ℕ) (w : Wrapped) (m : Map) → before a k ≡ true → Above a m → Above a (emplace k w m)
unfolding emplace
emplace-Above a k w [] b h = (b, tt)
emplace-Above a k w ((k', v) ∷ m) b h = elim (Bool-cases (before k k')) [
  | inl e ↦ rw e (b, h)
  | inr e ↦ elim (Bool-cases (before k' k)) [
    | inl f ↦ rw (e, f) (h.0, emplace-Above a k w m b h.1)
    | inr f ↦ rw (e, f) h
  ]
]

emplace-IsSortedMap :
    (k : List ℕ) (w : Wrapped) (m : Map)
    → IsSorted w.raw
    → IsSortedMap m
    → IsSortedMap (emplace k w m)
unfolding emplace
emplace-IsSortedMap k w [] s h = (tt, s, tt)
emplace-IsSortedMap k w ((k', v) ∷ m) s h = elim (Bool-cases (before k k')) [
  | inl e ↦ rw e ((e, Above-trans k k' m e h.0), s, h)
  | inr e ↦ elim (Bool-cases (before k' k)) [
    | inl f ↦ rw (e, f) (emplace-Above k' k w m f h.0, h.1, emplace-IsSortedMap k w m s h.2)
    | inr f ↦ rw (e, f) h
  ]
]

Above-Before : (k : List ℕ) (m : Map) → Above k m → Before k (released_pairs m)
unfolding released_pairs
Above-Before k [] h = tt
Above-Before k ((k', w) ∷ m) h = ((k', refl, h.0), Above-Before k m h.1)

IsSortedMap-IsSortedPairs : (m : Map) → IsSortedMap m → IsSortedPairs (released_pairs m)
unfolding released_pairs
IsSortedMap-IsSortedPairs [] h = tt
IsSortedMap-IsSortedPairs ((k, w) ∷ m) h =
    ((k, refl, Above-Before k m h.0), h.1, IsSortedMap-IsSortedPairs m h.2)

-- The keys of a map, as a caller of the C library finds them.
abbrev in_map : List ℕ → Map → Option Value
in_map a [] = none
in_map a ((k, w) ∷ m) = if bytes_eq k a then some w.raw else in_map a m

in_map-find_key : (a : List ℕ) (m : Map) → find_key a (released_pairs m) ≡ in_map a m
unfolding released_pairs
in_map-find_key a [] = refl
in_map-find_key a ((k, w) ∷ m) = rw (in_map-find_key a m) refl

before_irrefl : (a : List ℕ) → before a a ≡ false
unfolding before
before_irrefl [] = refl
before_irrefl (x ∷ xs) = ground (arith, before_irrefl xs)

-- What a map leads to, and a pair that comes after it.
abbrev or_else : Option Value → Option Value → Option Value
or_else none o = o
or_else (some v) o = some v

abbrev at_key : List ℕ → Value → List ℕ → Option Value
at_key k v a = if bytes_eq k a then some v else none

not-Above : (a : List ℕ) (m : Map) → Above a m → in_map a m ≡ none
not-Above a [] h = refl
not-Above a ((k, w) ∷ m) h = elim (Bool-cases (bytes_eq k a)) [
  | inl e ↦ let same = bytes_eq_sound k a e in let differ = before_irrefl a in let first = h.0 in cc
  | inr e ↦ rw e (not-Above a m h.1)
]

or_else-none : (o : Option Value) → o ≡ or_else o none
or_else-none none = refl
or_else-none (some v) = refl

or_else_if :
    (b : Bool) (v : Value) (o p : Option Value)
    → (if b then some v else or_else o p) ≡ or_else (if b then some v else o) p
or_else_if true v o p = refl
or_else_if false v o p = refl

or_else_same :
    (b : Bool) (v w : Value) (o : Option Value)
    → (if b then some v else o) ≡ or_else (if b then some v else o) (if b then some w else none)
or_else_same true v w o = refl
or_else_same false v w o = or_else-none o

emplace-in_map :
    (k : List ℕ) (w : Wrapped) (a : List ℕ) (m : Map)
    → IsSortedMap m
    → in_map a (emplace k w m) ≡ or_else (in_map a m) (at_key k w.raw a)
unfolding emplace
emplace-in_map k w a [] h = refl
emplace-in_map k w a ((k', v) ∷ m) h = elim (Bool-cases (before k k')) [
  | inl e ↦ elim (Bool-cases (bytes_eq k a)) [
    | inl q ↦
        let new = not-Above a ((k', v) ∷ m) (
          subst (λ z. Above z ((k', v) ∷ m)) (bytes_eq_sound k a q)
            (e, Above-trans k k' m e h.0)) in
        rw (e, q, new) refl
    | inr q ↦ rw (e, q) (or_else-none (in_map a ((k', v) ∷ m)))
  ]
  | inr e ↦ elim (Bool-cases (before k' k)) [
    | inl f ↦
        rw (e, f, emplace-in_map k w a m h.2)
          (or_else_if (bytes_eq k' a) v.raw (in_map a m) (at_key k w.raw a))
    | inr f ↦
        rw (e, f, before_total k k' e f) (or_else_same (bytes_eq k' a) v.raw w.raw (in_map a m))
  ]
]

-- What the keys lead to once some pairs are added to a map.
abbrev Adds : Option Value → Option Value → Option Value → Type 0
Adds none o o' = Copied o o'
Adds (some v) o o' = o' ≡ some v

Adds-pair :
    (b : Bool) (before : Option Value) (v : Value) (w : Wrapped) (o o' : Option Value)
    → deep_copy v ≡ value w
    → Adds (or_else before (if b then some w.raw else none)) o o'
    → Adds before (if b then some v else o) o'
Adds-pair b (some u) v w o o' e h = h
Adds-pair true none v w o o' e h = (w, e, h)
Adds-pair false none v w o o' e h = h

mutual
  unfolding deep_copy released of_array of_map key_bytes

  pub deep_copy-sorts :
      (v : Value) → HasStringKeys v → (w : Value) × (deep_copy v ≡ value (wrap w)) × IsSorted w
  deep_copy-sorts null h = (null, refl, tt)
  deep_copy-sorts (bool b) h = (bool b, refl, tt)
  deep_copy-sorts (int64 n) h = (int64 n, refl, tt)
  deep_copy-sorts (float64 d) h = (float64 d, refl, tt)
  deep_copy-sorts (string s) h = (string s, refl, tt)
  deep_copy-sorts (binary bs) h = (binary bs, refl, tt)
  deep_copy-sorts (array vs) h =
      let (ws, e, sorted) = deep_copy_items-sorts vs h in (array (released ws), rw e refl, sorted)
  deep_copy-sorts (map ps) h =
      let (m, e, sorted, _) = deep_copy_pairs-sorts ps [] h tt in
      (map (released_pairs m), rw e refl, IsSortedMap-IsSortedPairs m sorted)

  deep_copy_items-sorts :
      (vs : Items)
      → HasStringKeysItems vs
      → (ws : List Wrapped) × (deep_copy_items vs ≡ value ws) × IsSortedItems (released ws)
  deep_copy_items-sorts no_items h = ([], refl, tt)
  deep_copy_items-sorts (item v vs) h =
      let (w, e, sorted) = deep_copy-sorts v h.0 in
      let (ws, f, all) = deep_copy_items-sorts vs h.1 in
      (wrap w ∷ ws, rw (e, f) refl, (sorted, all))

  deep_copy_pairs-sorts :
      (ps : Pairs) (m : Map)
      → HasStringKeysPairs ps
      → IsSortedMap m
      → (m' : Map) × (deep_copy_pairs ps m ≡ value m')
        × IsSortedMap m'
        × ((a : List ℕ) → Adds (in_map a m) (find_key a ps) (in_map a m'))
  deep_copy_pairs-sorts no_pairs m h sorted = (m, refl, sorted, λ a. nothing (in_map a m))
    where
      nothing : (o : Option Value) → Adds o none o
      nothing none = refl
      nothing (some v) = refl
  deep_copy_pairs-sorts (pair k v ps) m ((s, e), h, more) sorted =
      let (w, f, w_sorted) = deep_copy-sorts v h in
      let (m', g, m'_sorted, adds) =
        deep_copy_pairs-sorts ps (emplace s (wrap w) m) more
          (emplace-IsSortedMap s (wrap w) m w_sorted sorted) in
      (
        m',
        rw (e, f, g) refl,
        m'_sorted,
        λ a. rw e (
            Adds-pair (bytes_eq s a) (in_map a m) v (wrap w) (find_key a ps) (in_map a m') f (
              subst (λ o. Adds o (find_key a ps) (in_map a m'))
                (emplace-in_map s (wrap w) a m sorted) (adds a))),
      )

-- The copy of a map whose keys, and those of all maps in it, are strings: a map with increasing
-- keys, in which every key leads to the copy of what it led to first in the original, and any other
-- key nowhere. To copy it again gives the same map.
pub deep_copy-find_key :
    (ps : Pairs)
    → HasStringKeysPairs ps
    → (qs : Pairs) × (deep_copy (map ps) ≡ value (wrap (map qs)))
      × IsSorted (map qs)
      × ((a : List ℕ) → Copied (find_key a ps) (find_key a qs))
      × (deep_copy (map qs) ≡ value (wrap (map qs)))
unfolding deep_copy of_map
deep_copy-find_key ps h =
    let (m, e, sorted, adds) = deep_copy_pairs-sorts ps [] h tt in
    let all = IsSortedMap-IsSortedPairs m sorted in
    (
      released_pairs m,
      rw e refl,
      all,
      λ a. subst (Copied (find_key a ps)) (sym (in_map-find_key a m)) (adds a),
      deep_copy-IsSorted (map (released_pairs m)) all,
    )
