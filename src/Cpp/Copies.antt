-- ===== src/Cpp/Copies.antt =====
-- deepCopy of cpp/include/callwire/callwire.hpp: what the map in between does to values.
use callwire.Base.{
  ℕ, ◌≡◌, refl, sym, ap, subst, Bool, true, false, List, [], ◌∷◌, ◌++◌, append-nil, append_assoc,
  arith,
}
use callwire.Value.{
  Value, null, bool, int64, float64, string, binary, array, map, Items, no_items, item, Pairs,
  no_pairs, pair,
}
use callwire.Cpp.{value}
use callwire.Cpp.Values.{
  Wrapped, released, of_array, Map, before, emplace, released_pairs, of_map, key_bytes, deep_copy,
  deep_copy_items, deep_copy_pairs,
}

-- The keys of all maps in a value are strings.
abbrev mutual
  pub HasStringKeys : Value → Type 0
  HasStringKeys null = Unit
  HasStringKeys (bool b) = Unit
  HasStringKeys (int64 n) = Unit
  HasStringKeys (float64 d) = Unit
  HasStringKeys (string s) = Unit
  HasStringKeys (binary bs) = Unit
  HasStringKeys (array vs) = HasStringKeysItems vs
  HasStringKeys (map ps) = HasStringKeysPairs ps

  pub HasStringKeysItems : Items → Type 0
  HasStringKeysItems no_items = Unit
  HasStringKeysItems (item v vs) = HasStringKeys v × HasStringKeysItems vs

  pub HasStringKeysPairs : Pairs → Type 0
  HasStringKeysPairs no_pairs = Unit
  HasStringKeysPairs (pair k v ps) =
      ((s : List ℕ) × (k ≡ string s)) × HasStringKeys v × HasStringKeysPairs ps

-- A key comes before all keys of some pairs, which are strings.
abbrev pub Before : List ℕ → Pairs → Type 0
Before k no_pairs = Unit
Before k (pair k' v ps) = ((s : List ℕ) × (k' ≡ string s) × (before k s ≡ true)) × Before k ps

-- The keys of all maps in a value are strings and increase.
abbrev mutual
  pub IsSorted : Value → Type 0
  IsSorted null = Unit
  IsSorted (bool b) = Unit
  IsSorted (int64 n) = Unit
  IsSorted (float64 d) = Unit
  IsSorted (string s) = Unit
  IsSorted (binary bs) = Unit
  IsSorted (array vs) = IsSortedItems vs
  IsSorted (map ps) = IsSortedPairs ps

  pub IsSortedItems : Items → Type 0
  IsSortedItems no_items = Unit
  IsSortedItems (item v vs) = IsSorted v × IsSortedItems vs

  pub IsSortedPairs : Pairs → Type 0
  IsSortedPairs no_pairs = Unit
  IsSortedPairs (pair k v ps) =
      ((s : List ℕ) × (k ≡ string s) × Before s ps) × IsSorted v × IsSortedPairs ps

pub before_trans : (a b c : List ℕ) → before a b ≡ true → before b c ≡ true → before a c ≡ true
unfolding before
before_trans [] [] c h k = cc
before_trans [] (b ∷ ys) [] h k = cc
before_trans [] (b ∷ ys) (c ∷ zs) h k = refl
before_trans (a ∷ xs) [] c h k = cc
before_trans (a ∷ xs) (b ∷ ys) [] h k = cc
before_trans (a ∷ xs) (b ∷ ys) (c ∷ zs) h k = ground (arith, before_trans xs ys zs)

before_asym : (a b : List ℕ) → before a b ≡ true → before b a ≡ false
unfolding before
before_asym [] [] h = cc
before_asym [] (b ∷ ys) h = refl
before_asym (a ∷ xs) [] h = cc
before_asym (a ∷ xs) (b ∷ ys) h = ground (arith, before_asym xs ys)

pub before_total : (a b : List ℕ) → before a b ≡ false → before b a ≡ false → a ≡ b
unfolding before
before_total [] [] h k = refl
before_total [] (b ∷ ys) h k = cc
before_total (a ∷ xs) [] h k = cc
before_total (a ∷ xs) (b ∷ ys) h k = ground (arith, before_total xs ys)

-- The wrapper that owns its memory where the value has some.
abbrev pub owns : Value → Bool
owns null = false
owns (bool b) = false
owns (int64 n) = false
owns (float64 d) = false
owns (string s) = true
owns (binary bs) = true
owns (array vs) = true
owns (map ps) = true

abbrev pub wrap : Value → Wrapped
wrap v = record { raw = v; owns = owns v }

abbrev AllBefore : Map → List ℕ → Type 0
AllBefore [] k = Unit
AllBefore ((k', v) ∷ m) k = (before k' k ≡ true) × AllBefore m k

abbrev AllAhead : Map → Pairs → Type 0
AllAhead [] ps = Unit
AllAhead ((k, v) ∷ m) ps = Before k ps × AllAhead m ps

emplace-AllBefore :
    (k : List ℕ) (w : Wrapped) (m : Map) → AllBefore m k → emplace k w m ≡ m ++ ((k, w) ∷ [])
unfolding emplace
emplace-AllBefore k w [] h = refl
emplace-AllBefore k w ((k', v) ∷ m) h =
    rw (before_asym k' k h.0, h.0) (ap (λ n. (k', v) ∷ n) (emplace-AllBefore k w m h.1))

AllAhead-AllBefore :
    (m : Map) (s : List ℕ) (v : Value) (ps : Pairs)
    → AllAhead m (pair (string s) v ps)
    → AllBefore m s × AllAhead m ps
AllAhead-AllBefore [] s v ps h = (tt, tt)
AllAhead-AllBefore ((k, w) ∷ m) s v ps (((t, e, b), rest), more) =
    let later = AllAhead-AllBefore m s v ps more in ((cc, later.0), (rest, later.1))

AllAhead-append :
    (m : Map) (k : List ℕ) (w : Wrapped) (ps : Pairs)
    → AllAhead m ps
    → Before k ps
    → AllAhead (m ++ ((k, w) ∷ [])) ps
AllAhead-append [] k w ps h b = (b, tt)
AllAhead-append ((k', v) ∷ m) k w ps h b = (h.0, AllAhead-append m k w ps h.1 b)

mutual
  unfolding deep_copy released released_pairs of_array of_map key_bytes

  deep_copy_sorted : (v : Value) → IsSorted v → deep_copy v ≡ value (wrap v)
  deep_copy_sorted null h = refl
  deep_copy_sorted (bool b) h = refl
  deep_copy_sorted (int64 n) h = refl
  deep_copy_sorted (float64 d) h = refl
  deep_copy_sorted (string s) h = refl
  deep_copy_sorted (binary bs) h = refl
  deep_copy_sorted (array vs) h =
      let (ws, e, r) = deep_copy_items-IsSorted vs h in rw e (ap (λ us. value (wrap (array us))) r)
  deep_copy_sorted (map ps) h =
      let (m, e, r) = deep_copy_pairs-IsSorted ps [] h tt in
      rw e (ap (λ qs. value (wrap (map qs))) r)

  deep_copy_items-IsSorted :
      (vs : Items)
      → IsSortedItems vs
      → (ws : List Wrapped) × (deep_copy_items vs ≡ value ws) × (released ws ≡ vs)
  deep_copy_items-IsSorted no_items h = ([], refl, refl)
  deep_copy_items-IsSorted (item v vs) h =
      let (ws, e, r) = deep_copy_items-IsSorted vs h.1 in
      (wrap v ∷ ws, rw (deep_copy_sorted v h.0, e) refl, ap (item v) r)

  deep_copy_pairs-IsSorted :
      (ps : Pairs) (m : Map)
      → IsSortedPairs ps
      → AllAhead m ps
      → (n : Map) × (deep_copy_pairs ps m ≡ value (m ++ n)) × (released_pairs n ≡ ps)
  deep_copy_pairs-IsSorted no_pairs m h a = ([], ap value (sym (append-nil m)), refl)
  deep_copy_pairs-IsSorted (pair k v ps) m ((s, e, b), sorted, more) a =
      let ahead = AllAhead-AllBefore m s v ps (subst (λ k'. AllAhead m (pair k' v ps)) e a) in
      let (n, f, r) =
        deep_copy_pairs-IsSorted ps (m ++ ((s, wrap v) ∷ [])) more
          (AllAhead-append m s (wrap v) ps ahead.1 b) in
      (
        (s, wrap v) ∷ n,
        rw (e, deep_copy_sorted v sorted, emplace-AllBefore s (wrap v) m ahead.0, f)
            (ap value (append_assoc m ((s, wrap v) ∷ []) n)),
        rw (e, r) refl,
      )

-- The copy of a value in which the keys of every map are strings that increase is the same value,
-- owned where it has memory of its own.
pub deep_copy-IsSorted : (v : Value) → IsSorted v → deep_copy v ≡ value (wrap v)
deep_copy-IsSorted v h = deep_copy_sorted v h
