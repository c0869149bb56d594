-- ===== src/Mpack/Goes.antt =====
-- The readers of mpack_stub.h on arbitrary input: the position never falls, an error stays set, and
-- a reader without an error is still inside its buffer.
use callwire.Base.{
  ℕ, ◌/◌, ◌^◌, ◌≤◌, ◌<◌, ◌≡◌, refl, ◌∙◌, sym, subst, ◌⊎◌, inl, inr, Bool-cases, pos, to_signed,
  Bool, true, false, Option, none, some, arith, leb, ◌==◌, if◌then◌else◌, length,
}
use callwire.Mpack.Reader.{
  Reader, advance, fail, read_u8, read_u16, read_u32, read_u64, read_raw, peek_tag, after_tag,
  raw_after, str_length_at, bin_length_at, try_read_nil, try_read_bool, try_read_int64,
  try_read_double, try_read_str, try_read_bin, try_read_array_header, try_read_map_header, nil_at,
  bool_at, int64_at, double_at, array_header_at, map_header_at,
}
use callwire.Mpack.Widen.{widen}

pub record Goes (r r' : Reader) : Type 0 where
  pub same : r'.buf ≡ r.buf
  pub moves : r.pos ≤ r'.pos
  pub sticks : r.error ≡ true → r'.error ≡ true
  pub inside : r.pos ≤ length r.buf → r'.error ≡ false → r'.pos ≤ length r.buf

pub Goes-refl : (r : Reader) → Goes r r
Goes-refl r = record { same = refl; moves = omega arith; sticks = λ e. e; inside = λ h e. h }

pub Goes-trans : {r s t : Reader} → Goes r s → Goes s t → Goes r t
Goes-trans {r} {s} {t} g h = record {
  same = h.same ∙ g.same;
  moves = omega (arith, g.moves, h.moves);
  sticks = λ e. h.sticks (g.sticks e);
  inside = λ k e. elim (Bool-cases s.error) [
    | inl set ↦ cc (h.sticks set)
    | inr clear ↦
        subst (λ b. t.pos ≤ length b) g.same
          (h.inside (subst (λ b. s.pos ≤ length b) (sym g.same) (g.inside k clear)) e)
  ];
}

pub Goes-fail : (r : Reader) → Goes r (fail r)
unfolding fail
Goes-fail r = record { same = refl; moves = omega arith; sticks = λ e. refl; inside = λ h e. cc }

pub Goes-u8 : (r : Reader) → Goes r (read_u8 r).1
unfolding read_u8
Goes-u8 r = record {
  same = ground arith;
  moves = ground arith;
  sticks = ground arith;
  inside = ground arith;
}

pub Goes-u16 : (r : Reader) → Goes r (read_u16 r).1
unfolding read_u16
Goes-u16 r = record {
  same = ground arith;
  moves = ground arith;
  sticks = ground arith;
  inside = ground arith;
}

pub Goes-u32 : (r : Reader) → Goes r (read_u32 r).1
unfolding read_u32
Goes-u32 r = record {
  same = ground arith;
  moves = ground arith;
  sticks = ground arith;
  inside = ground arith;
}

pub Goes-u64 : (r : Reader) → Goes r (read_u64 r).1
unfolding read_u64
Goes-u64 r = Goes-trans (Goes-u32 r) (Goes-u32 (read_u32 r).1)

pub Goes-raw : (len : ℕ) (r : Reader) → Goes r (read_raw len r).1
unfolding read_raw
Goes-raw len r = record {
  same = ground arith;
  moves = ground arith;
  sticks = ground arith;
  inside = ground arith;
}

pub Goes-peek : (r : Reader) → Goes r (peek_tag r).1
unfolding peek_tag
Goes-peek r = record {
  same = ground arith;
  moves = ground arith;
  sticks = ground arith;
  inside = ground arith;
}

-- An error is set, or there is a byte at the position.
abbrev pub IsReady : Reader → Type 0
IsReady r = (r.error ≡ true) ⊎ (r.pos < length r.buf)

peek_tag-IsReady : (r : Reader) → IsReady (peek_tag r).1
unfolding peek_tag
peek_tag-IsReady r = ground arith

pub Goes-advance : (r : Reader) → IsReady r → Goes r (advance 1 r)
unfolding advance
Goes-advance r ready = record {
  same = refl;
  moves = omega arith;
  sticks = λ e. e;
  inside = λ h e. ground arith;
}

abbrev Moves {ℓ} : {A : Type ℓ} → (Reader → A × Reader) → Type 0
Moves f = (r : Reader) → Goes r (f r).1

Goes-if {ℓ} :
    {A : Type ℓ} (c : Bool) {r : Reader} (x y : A × Reader)
    → Goes r x.1
    → Goes r y.1
    → Goes r (if c then x else y).1
Goes-if true x y g h = g
Goes-if false x y g h = h

module _ (t : ℕ) (r : Reader) (ready : IsReady r) where
  after {ℓ} :
      {A : Type ℓ} (read : Reader → ℕ × Reader) (f : ℕ → A)
      → Moves read
      → Goes r (after_tag read f r).1
  unfolding after_tag
  after read f m = Goes-trans (Goes-advance r ready) (m (advance 1 r))

  one : Goes r (advance 1 r)
  one = Goes-advance r ready

  stay : Goes r r
  stay = Goes-refl r

  int64_at-Goes : Goes r (int64_at (t, r)).1
  unfolding int64_at
  int64_at-Goes = Goes-if (leb t 0x7F) _ _ one (
      Goes-if (leb 0xE0 t) _ _ one (
        Goes-if (t == 0xCC) _ _ (after _ pos Goes-u8) (
          Goes-if (t == 0xCD) _ _ (after _ pos Goes-u16) (
            Goes-if (t == 0xCE) _ _ (after _ pos Goes-u32) (
              Goes-if (t == 0xCF) _ _ (after _ (to_signed (2 ^ 63)) Goes-u64) (
                Goes-if (t == 0xD0) _ _ (after _ (to_signed (2 ^ 7)) Goes-u8) (
                  Goes-if (t == 0xD1) _ _ (after _ (to_signed (2 ^ 15)) Goes-u16) (
                    Goes-if (t == 0xD2) _ _ (after _ (to_signed (2 ^ 31)) Goes-u32)
                      (Goes-if (t == 0xD3) _ _ (after _ (to_signed (2 ^ 63)) Goes-u64) stay)))))))))

  bool_at-Goes : Goes r (bool_at (t, r)).1
  unfolding bool_at
  bool_at-Goes = Goes-if (t == 0xC2) _ _ one (Goes-if (t == 0xC3) _ _ one stay)

  nil_at-Goes : Goes r (nil_at (t, r)).1
  unfolding nil_at
  nil_at-Goes = Goes-if (t == 0xC0) _ _ one stay

  double_at-Goes : Goes r (double_at (t, r)).1
  unfolding double_at
  double_at-Goes =
      Goes-if (t == 0xCB) _ _ (after _ (λ u. u) Goes-u64)
        (Goes-if (t == 0xCA) _ _ (after _ widen Goes-u32) stay)

  str_length_at-Goes : Goes r (str_length_at (t, r)).1
  unfolding str_length_at
  str_length_at-Goes = Goes-if (t / 32 == 5) _ _ one (
      Goes-if (t == 0xD9) _ _ (after _ (λ n. n) Goes-u8) (
        Goes-if (t == 0xDA) _ _ (after _ (λ n. n) Goes-u16)
          (Goes-if (t == 0xDB) _ _ (after _ (λ n. n) Goes-u32) stay)))

  bin_length_at-Goes : Goes r (bin_length_at (t, r)).1
  unfolding bin_length_at
  bin_length_at-Goes = Goes-if (t == 0xC4) _ _ (after _ (λ n. n) Goes-u8) (
      Goes-if (t == 0xC5) _ _ (after _ (λ n. n) Goes-u16)
        (Goes-if (t == 0xC6) _ _ (after _ (λ n. n) Goes-u32) stay))

  array_header_at-Goes : Goes r (array_header_at (t, r)).1
  unfolding array_header_at
  array_header_at-Goes = Goes-if (t / 16 == 9) _ _ one (
      Goes-if (t == 0xDC) _ _ (after _ (λ n. n) Goes-u16)
        (Goes-if (t == 0xDD) _ _ (after _ (λ n. n) Goes-u32) stay))

  map_header_at-Goes : Goes r (map_header_at (t, r)).1
  unfolding map_header_at
  map_header_at-Goes = Goes-if (t / 16 == 8) _ _ one (
      Goes-if (t == 0xDE) _ _ (after _ (λ n. n) Goes-u16)
        (Goes-if (t == 0xDF) _ _ (after _ (λ n. n) Goes-u32) stay))

raw_after-Goes : (p : Option ℕ × Reader) → Goes p.1 (raw_after p).1
unfolding raw_after
raw_after-Goes (none, r) = Goes-refl r
raw_after-Goes (some len, r) = Goes-raw len r

module _ (r : Reader) where
  abbrev tag : ℕ
  tag = (peek_tag r).0

  abbrev seen : Reader
  seen = (peek_tag r).1

  pub Goes-nil : Goes r (try_read_nil r).1
  unfolding try_read_nil
  Goes-nil = Goes-trans (Goes-peek r) (nil_at-Goes tag seen (peek_tag-IsReady r))

  pub Goes-bool : Goes r (try_read_bool r).1
  unfolding try_read_bool
  Goes-bool = Goes-trans (Goes-peek r) (bool_at-Goes tag seen (peek_tag-IsReady r))

  pub Goes-int64 : Goes r (try_read_int64 r).1
  unfolding try_read_int64
  Goes-int64 = Goes-trans (Goes-peek r) (int64_at-Goes tag seen (peek_tag-IsReady r))

  pub Goes-double : Goes r (try_read_double r).1
  unfolding try_read_double
  Goes-double = Goes-trans (Goes-peek r) (double_at-Goes tag seen (peek_tag-IsReady r))

  pub Goes-str : Goes r (try_read_str r).1
  unfolding try_read_str
  Goes-str =
      Goes-trans (Goes-trans (Goes-peek r) (str_length_at-Goes tag seen (peek_tag-IsReady r)))
        (raw_after-Goes (str_length_at (peek_tag r)))

  pub Goes-bin : Goes r (try_read_bin r).1
  unfolding try_read_bin
  Goes-bin =
      Goes-trans (Goes-trans (Goes-peek r) (bin_length_at-Goes tag seen (peek_tag-IsReady r)))
        (raw_after-Goes (bin_length_at (peek_tag r)))

  pub Goes-array_header : Goes r (try_read_array_header r).1
  unfolding try_read_array_header
  Goes-array_header = Goes-trans (Goes-peek r) (array_header_at-Goes tag seen (peek_tag-IsReady r))

  pub Goes-map_header : Goes r (try_read_map_header r).1
  unfolding try_read_map_header
  Goes-map_header = Goes-trans (Goes-peek r) (map_header_at-Goes tag seen (peek_tag-IsReady r))

  -- A header that is read consumes its tag.
  pub array_header_moves :
      {n : ℕ}
      → (try_read_array_header r).0 ≡ some n
      → (r.pos < length r.buf) × (r.pos < (try_read_array_header r).1.pos)
  unfolding try_read_array_header after_tag read_u16 read_u32 peek_tag advance fail
  array_header_moves e = ground arith

  pub map_header_moves :
      {n : ℕ}
      → (try_read_map_header r).0 ≡ some n
      → (r.pos < length r.buf) × (r.pos < (try_read_map_header r).1.pos)
  unfolding try_read_map_header after_tag read_u16 read_u32 peek_tag advance fail
  map_header_moves e = ground arith
