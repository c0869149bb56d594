-- ===== src/Mpack/Reads.antt =====
-- The readers of mpack_stub.h on the format: each `try` function takes its own encoding off any
-- input, and refuses the others'.
use callwire.Base.{
  ℕ, ◌+◌, ◌-◌, ◌^◌, ◌≤◌, ◌<◌, ◌≡◌, refl, ◌∙◌, subst, Bool, true, false, List, [], ◌∷◌, ◌++◌,
  append_assoc, Option, some, arith, ltb, leb, leb→le, ltb→lt, if◌then◌else◌, length, length-append,
  ℤ, pos, negsuc, to_signed, IsInt64,
}
use callwire.Mpack.Format.{
  be16, be32, be64, int_bytes, str_bytes, str_head, bin_head, array_head, map_head,
}
use callwire.Mpack.Reader.{
  Reader, advance, after_tag, read_u8, read_u16, read_u32, read_u64, peek_tag, try_read_bool,
  try_read_int64, try_read_double, try_read_str, try_read_bin, try_read_array_header,
  try_read_map_header, raw_after, str_length_at, bin_length_at,
}
use callwire.Mpack.Sees.{
  Sees, Sees-advance, Sees-advance_append, advance-advance, peek_tag-Sees, read_u8-Sees,
  read_u16-Sees, read_u32-Sees, read_u64-Sees, read_raw-Sees,
}

-- `f` takes `xs` off any input that begins with it, and returns `a`.
pub record Reads {ℓ} {A : Type ℓ} (f : Reader → A × Reader) (xs : List ℕ) (a : A) : Type ℓ where
  pub at : (r : Reader) (ys : List ℕ) → Sees r (xs ++ ys) → f r ≡ (a, advance (length xs) r)

module _ {ℓ} {A : Type ℓ} {f : Reader → A × Reader} {a : A} where
  pub Reads-if :
      (c : Bool) {xs ys : List ℕ}
      → (c ≡ true → Reads f xs a)
      → (c ≡ false → Reads f ys a)
      → Reads f (if c then xs else ys) a
  Reads-if true h k = h refl
  Reads-if false h k = k refl

  -- After the tag byte the reader goes on as `f` does.
  pub by_tag :
      (g : Reader → A × Reader) (t : ℕ) {xs : List ℕ}
      → ((r : Reader) → peek_tag r ≡ (t, r) → g r ≡ f r)
      → Reads f (t ∷ xs) a
      → Reads g (t ∷ xs) a
  by_tag g t {xs} e h = record { at = λ r ys s. e r (peek_tag-Sees r t (xs ++ ys) s) ∙ h.at r ys s }

module _ {ℓ} {A : Type ℓ} (f : ℕ → A) (t : ℕ) {v : ℕ} where
  after_u8 : Reads (after_tag read_u8 f) (t ∷ v ∷ []) (some (f v))
  unfolding after_tag
  after_u8 = record {
    at = λ r ys s.
        rw (
          read_u8-Sees (advance 1 r) v ys (Sees-advance 1 r s (omega arith)),
          advance-advance 1 1 r,
        );
  }

  after_u16 : v < 2 ^ 16 → Reads (after_tag read_u16 f) (t ∷ be16 v) (some (f v))
  unfolding after_tag
  after_u16 h = record {
    at = λ r ys s. rw (
      read_u16-Sees (advance 1 r) v ys h (Sees-advance 1 r s (omega arith)),
      advance-advance 1 2 r,
    );
  }

  after_u32 : v < 2 ^ 32 → Reads (after_tag read_u32 f) (t ∷ be32 v) (some (f v))
  unfolding after_tag
  after_u32 h = record {
    at = λ r ys s. rw (
      read_u32-Sees (advance 1 r) v ys h (Sees-advance 1 r s (omega arith)),
      advance-advance 1 4 r,
    );
  }

  after_u64 : v < 2 ^ 64 → Reads (after_tag read_u64 f) (t ∷ be64 v) (some (f v))
  unfolding after_tag
  after_u64 h = record {
    at = λ r ys s. rw (
      read_u64-Sees (advance 1 r) v ys h (Sees-advance 1 r s (omega arith)),
      advance-advance 1 8 r,
    );
  }

small_int : (n : ℕ) → n ≤ 0x7F → Reads try_read_int64 (n ∷ []) (some (pos n))
unfolding try_read_int64
small_int n h = record { at = λ r ys s. rw (peek_tag-Sees r n ys s) (ground arith) }

small_negative : (n : ℕ) → n ≤ 31 → Reads try_read_int64 ((0xFF - n) ∷ []) (some (negsuc n))
unfolding try_read_int64
small_negative n h = record { at = λ r ys s. rw (peek_tag-Sees r (0xFF - n) ys s) (ground arith) }

-- The value of a reader, by an equation.
valued {ℓ} :
    {A : Type ℓ} {f : Reader → A × Reader} {xs : List ℕ} {a b : A}
    → a ≡ b
    → Reads f xs a
    → Reads f xs b
valued {f = f} {xs} e h = subst (Reads f xs) e h

-- The pattern of a negative number is read back as that number.
signed :
    (half top n : ℕ)
    → top + 1 ≡ half + half
    → n < half
    → some (to_signed half (top - n)) ≡ some (negsuc n)
signed half top n e h = ground arith

unsigned : (half n : ℕ) → n < half → some (to_signed half n) ≡ some (pos n)
unsigned half n h = ground arith

pub try_read_int64-Reads : (v : ℤ) → IsInt64 v → Reads try_read_int64 (int_bytes v) (some v)
unfolding try_read_int64 int_bytes
try_read_int64-Reads (pos n) h =
    Reads-if (leb n 0x7F) (λ e. small_int n (leb→le n 0x7F e))
      λ _.
        Reads-if (leb n 0xFF) (λ e. by_tag _ 0xCC (λ r p. rw p) (after_u8 pos 0xCC))
          λ _.
            Reads-if (leb n 0xFFFF)
              (λ e.
                by_tag _ 0xCD (λ r p. rw p) (after_u16 pos 0xCD (omega (arith, leb→le n 0xFFFF e))))
              λ _.
                Reads-if (leb n 0xFFFFFFFF)
                  (λ e.
                    by_tag _ 0xCE (λ r p. rw p)
                      (after_u32 pos 0xCE (omega (arith, leb→le n 0xFFFFFFFF e))))
                  λ _.
                    by_tag _ 0xCF (λ r p. rw p)
                      (valued (unsigned (2 ^ 63) n h)
                        (after_u64 (to_signed (2 ^ 63)) 0xCF (omega arith)))
try_read_int64-Reads (negsuc n) h =
    Reads-if (leb n 31) (λ e. small_negative n (leb→le n 31 e))
      λ _.
        Reads-if (leb n 127)
          (λ e.
            by_tag _ 0xD0 (λ r p. rw p)
              (valued (signed (2 ^ 7) 0xFF n refl (omega (arith, leb→le n 127 e)))
                (after_u8 (to_signed (2 ^ 7)) 0xD0)))
          λ _.
            Reads-if (leb n 32767)
              (λ e.
                by_tag _ 0xD1 (λ r p. rw p)
                  (valued (signed (2 ^ 15) 0xFFFF n refl (omega (arith, leb→le n 32767 e)))
                    (after_u16 (to_signed (2 ^ 15)) 0xD1 (omega arith))))
              λ _.
                Reads-if (leb n 2147483647)
                  (λ e.
                    by_tag _ 0xD2 (λ r p. rw p)
                      (valued
                        (signed (2 ^ 31) 0xFFFFFFFF n refl (omega (arith, leb→le n 2147483647 e)))
                        (after_u32 (to_signed (2 ^ 31)) 0xD2 (omega arith))))
                  λ _.
                    by_tag _ 0xD3 (λ r p. rw p)
                      (valued (signed (2 ^ 63) 0xFFFFFFFFFFFFFFFF n refl h)
                        (after_u64 (to_signed (2 ^ 63)) 0xD3 (omega arith)))

pub try_read_bool-Reads :
    (b : Bool) → Reads try_read_bool ((if b then 0xC3 else 0xC2) ∷ []) (some b)
unfolding try_read_bool
try_read_bool-Reads false = record { at = λ r ys s. rw (peek_tag-Sees r 0xC2 ys s) }
try_read_bool-Reads true = record { at = λ r ys s. rw (peek_tag-Sees r 0xC3 ys s) }

pub try_read_double-Reads : (u : ℕ) → u < 2 ^ 64 → Reads try_read_double (0xCB ∷ be64 u) (some u)
unfolding try_read_double
try_read_double-Reads u h = by_tag _ 0xCB (λ r p. rw p) (after_u64 (λ n. n) 0xCB h)

str_length : Reader → Option ℕ × Reader
str_length r = str_length_at (peek_tag r)

bin_length : Reader → Option ℕ × Reader
bin_length r = bin_length_at (peek_tag r)

-- A header that carries its number in the low bits of the tag.
fix_header :
    (g : Reader → Option ℕ × Reader) (t n : ℕ)
    → ((r : Reader) → peek_tag r ≡ (t, r) → g r ≡ (some n, advance 1 r))
    → Reads g (t ∷ []) (some n)
fix_header g t n e = record { at = λ r ys s. e r (peek_tag-Sees r t ys s) }

str_length-Reads : (n : ℕ) → n < 2 ^ 32 → Reads str_length (str_head n) (some n)
unfolding str_length str_length_at str_head
str_length-Reads n h =
    Reads-if (ltb n 32)
      (λ e. fix_header _ (0xA0 + n) n (λ r p. rw p (ground (arith, ltb→lt n 32 e))))
      λ _.
        Reads-if (leb n 0xFF) (λ e. by_tag _ 0xD9 (λ r p. rw p) (after_u8 (λ k. k) 0xD9))
          λ _.
            Reads-if (leb n 0xFFFF)
              (λ e.
                by_tag _ 0xDA (λ r p. rw p)
                  (after_u16 (λ k. k) 0xDA (omega (arith, leb→le n 0xFFFF e))))
              λ _. by_tag _ 0xDB (λ r p. rw p) (after_u32 (λ k. k) 0xDB h)

bin_length-Reads : (n : ℕ) → n < 2 ^ 32 → Reads bin_length (bin_head n) (some n)
unfolding bin_length bin_length_at bin_head
bin_length-Reads n h =
    Reads-if (leb n 0xFF) (λ e. by_tag _ 0xC4 (λ r p. rw p) (after_u8 (λ k. k) 0xC4))
      λ _.
        Reads-if (leb n 0xFFFF)
          (λ e.
            by_tag _ 0xC5 (λ r p. rw p)
              (after_u16 (λ k. k) 0xC5 (omega (arith, leb→le n 0xFFFF e))))
          λ _. by_tag _ 0xC6 (λ r p. rw p) (after_u32 (λ k. k) 0xC6 h)

pub try_read_array_header-Reads :
    (n : ℕ) → n < 2 ^ 32 → Reads try_read_array_header (array_head n) (some n)
unfolding try_read_array_header array_head
try_read_array_header-Reads n h =
    Reads-if (ltb n 16)
      (λ e. fix_header _ (0x90 + n) n (λ r p. rw p (ground (arith, ltb→lt n 16 e))))
      λ _.
        Reads-if (leb n 0xFFFF)
          (λ e.
            by_tag _ 0xDC (λ r p. rw p)
              (after_u16 (λ k. k) 0xDC (omega (arith, leb→le n 0xFFFF e))))
          λ _. by_tag _ 0xDD (λ r p. rw p) (after_u32 (λ k. k) 0xDD h)

pub try_read_map_header-Reads :
    (n : ℕ) → n < 2 ^ 32 → Reads try_read_map_header (map_head n) (some n)
unfolding try_read_map_header map_head
try_read_map_header-Reads n h =
    Reads-if (ltb n 16)
      (λ e. fix_header _ (0x80 + n) n (λ r p. rw p (ground (arith, ltb→lt n 16 e))))
      λ _.
        Reads-if (leb n 0xFFFF)
          (λ e.
            by_tag _ 0xDE (λ r p. rw p)
              (after_u16 (λ k. k) 0xDE (omega (arith, leb→le n 0xFFFF e))))
          λ _. by_tag _ 0xDF (λ r p. rw p) (after_u32 (λ k. k) 0xDF h)

-- A length and then that many bytes.
raw_after-Reads :
    (g : Reader → Option ℕ × Reader) (head bs : List ℕ)
    → Reads g head (some (length bs))
    → Reads (λ r. raw_after (g r)) (head ++ bs) (some bs)
unfolding raw_after
raw_after-Reads g head bs h = record {
  at = λ r ys s.
      let s' = subst (Sees r) (append_assoc head bs ys) s in
      rw (
        h.at r (bs ++ ys) s',
        read_raw-Sees (advance (length head) r) bs ys (Sees-advance_append head r s'),
        advance-advance (length head) (length bs) r,
        length-append head bs,
      );
}

pub try_read_str-Reads :
    (bs : List ℕ) → length bs < 2 ^ 32 → Reads try_read_str (str_bytes bs) (some bs)
unfolding try_read_str str_length
try_read_str-Reads bs h =
    raw_after-Reads str_length (str_head (length bs)) bs (str_length-Reads (length bs) h)

pub try_read_bin-Reads :
    (bs : List ℕ) → length bs < 2 ^ 32 → Reads try_read_bin (bin_head (length bs) ++ bs) (some bs)
unfolding try_read_bin bin_length
try_read_bin-Reads bs h =
    raw_after-Reads bin_length (bin_head (length bs)) bs (bin_length-Reads (length bs) h)
