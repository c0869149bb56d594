-- ===== src/Codec/Growth.antt =====
-- encode_with_growth of c/src/codec.c, over any encoder that appends a fixed byte string.
use callwire.Base.{
  ℕ, zero, suc, ◌*◌, ◌^◌, ◌≤◌, ◌<◌, ◌≡◌, refl, ap, sym, ◌∙◌, ◌⊎◌, inl, inr, Bool, true, List, arith,
  leb, ltb, lt→ltb, le→ltb, if◌then◌else◌, if_false, if_true, length,
}
use native.Mathlib.Nat.{pow-suc}
use callwire.Mpack.Writer.{Write, init}
use callwire.Mpack.Writes.{Appends}
use callwire.Codec.Outcome.{ok, failed}
use callwire.Codec.Encode.{buf_limit, grow, encode_with_growth, Encoded}

le_or_lt : (m n : ℕ) → (m ≤ n) ⊎ (n < m)
le_or_lt m n = omega arith

pow_pos : (f : ℕ) → 1 ≤ 2 ^ f
pow_pos zero = omega arith
pow_pos (suc f) = omega (arith, pow_pos f, pow-suc 2 f)

le_double : (m f : ℕ) → m ≤ m * 2 ^ f
le_double m f = grind (arith, pow_pos f)

module _ (alloc : ℕ → Bool) (enough : (n : ℕ) → alloc n ≡ true) (fn : Write) (bs : List ℕ)
    (a : Appends fn bs) where
  -- One round with room enough.
  grow_fits : (f cap : ℕ) → length bs ≤ cap → grow alloc fn (suc f) cap ≡ ok bs
  unfolding grow init
  grow_fits f cap h = rw (enough cap, a.fits (init cap) (omega arith))

  -- One round without.
  grow_more :
      (f cap : ℕ)
      → cap < length bs
      → grow alloc fn (suc f) cap
        ≡ (if ltb buf_limit (cap * 2) then failed else grow alloc fn f (cap * 2))
  unfolding grow init
  grow_more f cap h = rw (enough cap, a.over (init cap) (omega arith) (omega arith))

  abbrev expected : Encoded
  expected = if leb (length bs) buf_limit then ok bs else failed

  grow_at : (f cap : ℕ) → length bs ≤ cap → cap ≤ buf_limit → grow alloc fn (suc f) cap ≡ expected
  grow_at f cap h k =
      grow_fits f cap h ∙ sym (if_true (leb (length bs) buf_limit) _ _ (ground arith))

  grow_lem : (f cap : ℕ) → cap * 2 ^ f ≡ buf_limit → grow alloc fn (suc f) cap ≡ expected
  grow_lem zero cap e = elim (le_or_lt (length bs) cap) [
    | inl h ↦ grow_at zero cap h (omega arith)
    | inr h ↦
        grow_more zero cap h
        ∙ if_true (ltb buf_limit (cap * 2)) _ _ (lt→ltb _ _ (omega arith))
        ∙ sym (if_false (leb (length bs) buf_limit) _ _ (ground arith))
  ]
  grow_lem (suc f) cap e =
      let doubled : cap * 2 * 2 ^ f ≡ buf_limit =
        omega (arith, ap (λ (k : ℕ). cap * k) (pow-suc 2 f)) in
      let room : cap * 2 ≤ buf_limit = omega (arith, le_double (cap * 2) f) in
      elim (le_or_lt (length bs) cap) [
        | inl h ↦ grow_at (suc f) cap h (omega arith)
        | inr h ↦
            grow_more (suc f) cap h
            ∙ if_false (ltb buf_limit (cap * 2)) _ _ (le→ltb _ _ room)
            ∙ grow_lem f (cap * 2) doubled
      ]

  -- With an encoder that appends `bs`, the loop returns `bs` if it has at most 64 MB, and fails
  -- otherwise: neither the capacities tried nor the fuel show.
  pub encode_with_growth_lem : encode_with_growth alloc fn ≡ expected
  unfolding encode_with_growth
  encode_with_growth_lem = grow_lem 14 4096 refl
