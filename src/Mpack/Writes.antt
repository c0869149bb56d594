-- ===== src/Mpack/Writes.antt =====
-- What the writer of mpack_stub.h appends, against the format.
use callwire.Base.{
  ℕ, ◌+◌, ◌/◌, ◌%◌, ◌^◌, ◌≤◌, ◌<◌, ◌≡◌, refl, ap, sym, ◌∙◌, subst, Bool, true, false, List, [], ◌∷◌,
  ◌++◌, append_assoc, append-nil, arith, ltb, leb, leb→le, if◌then◌else◌, length, length-append, ℤ,
  pos, negsuc, ◌⊎◌, inl, inr, IsInt64,
}
use callwire.Mpack.Writer.{
  Writer, Write, ◌>>◌, write_raw, write_u8, write_u16, write_u32, write_u64, write_nil, write_bool,
  write_int64, write_double, str_header, bin_header, write_str, write_bin, write_array_header,
  write_map_header,
}
use callwire.Mpack.Format.{
  be16, be32, be64, int_bytes, str_bytes, str_head, bin_head, array_head, map_head,
}

-- `f` appends exactly `bs` if the buffer has room for it, and sets the flag otherwise (of a writer
-- whose position is in the buffer); it never clears the flag.
pub record Appends (f : Write) (bs : List ℕ) : Type 0 where
  pub fits :
      (w : Writer)
      → length w.written + length bs ≤ w.cap
      → f w ≡ record w { written = w.written ++ bs }
  pub over :
      (w : Writer)
      → length w.written ≤ w.cap
      → w.cap < length w.written + length bs
      → (f w).overflow ≡ true
  pub sticky : (w : Writer) → w.overflow ≡ true → (f w).overflow ≡ true

pub Appends-raw : (bs : List ℕ) → Appends (write_raw bs) bs
unfolding write_raw
Appends-raw bs = record {
  fits = λ w h. ground arith;
  over = λ w k h. ground arith;
  sticky = λ w h. ground arith;
}

pub Appends->> :
    {f g : Write} {xs ys : List ℕ} → Appends f xs → Appends g ys → Appends (f >> g) (xs ++ ys)
Appends->> {f} {g} {xs} {ys} a b = record {
  fits = fits;
  over = over;
  sticky = λ w h. b.sticky (f w) (a.sticky w h);
}
  where
    fits :
        (w : Writer)
        → length w.written + length (xs ++ ys) ≤ w.cap
        → g (f w) ≡ record w { written = w.written ++ (xs ++ ys) }
    fits w h =
        ap g (a.fits w (omega (arith, length-append xs ys)))
        ∙ b.fits (record w { written = w.written ++ xs })
            (omega (arith, length-append xs ys, length-append w.written xs))
        ∙ ap (λ t. record w { written = t }) (append_assoc w.written xs ys)

    tail :
        (w : Writer)
        → w.cap < length w.written + length (xs ++ ys)
        → length w.written + length xs ≤ w.cap
        → (g (f w)).overflow ≡ true
    tail w h r = rw (a.fits w r) (
        b.over (record w { written = w.written ++ xs }) (omega (arith, length-append w.written xs))
          (omega (arith, length-append xs ys, length-append w.written xs)))

    over :
        (w : Writer)
        → length w.written ≤ w.cap
        → w.cap < length w.written + length (xs ++ ys)
        → (g (f w)).overflow ≡ true
    over w k h = elim (le_or_lt (length w.written + length xs) w.cap) [
      | inl r ↦ tail w h r
      | inr r ↦ b.sticky (f w) (a.over w k r)
    ]
      where
        le_or_lt : (m n : ℕ) → (m ≤ n) ⊎ (n < m)
        le_or_lt m n = omega arith

pub Appends-if :
    (c : Bool) {f g : Write} {xs ys : List ℕ}
    → (c ≡ true → Appends f xs)
    → (c ≡ false → Appends g ys)
    → Appends (if c then f else g) (if c then xs else ys)
Appends-if true a b = a refl
Appends-if false a b = b refl

Appends-eq : {f : Write} {xs ys : List ℕ} → xs ≡ ys → Appends f xs → Appends f ys
Appends-eq {f} e a = subst (Appends f) e a

Appends-u8 : (v : ℕ) → Appends (write_u8 v) (v ∷ [])
unfolding write_u8
Appends-u8 v = Appends-raw (v ∷ [])

Appends-u16 : (v : ℕ) → Appends (write_u16 v) (be16 v)
unfolding write_u16
Appends-u16 v = Appends-raw (be16 v)

Appends-u32 : (v : ℕ) → Appends (write_u32 v) (be32 v)
unfolding write_u32
Appends-u32 v = Appends-raw (be32 v)

Appends-u64 : (v : ℕ) → v < 2 ^ 64 → Appends (write_u64 v) (be64 v)
unfolding write_u64
Appends-u64 v h =
    Appends-eq (ap (λ t. be32 t ++ be32 (v % 2 ^ 32)) (omega arith))
      (Appends->> (Appends-u32 (v / 2 ^ 32 % 2 ^ 32)) (Appends-u32 (v % 2 ^ 32)))

-- A tag byte and a length, cast to the width that its test allows.
Appends-tag8 :
    (t n : ℕ) → leb n 0xFF ≡ true → Appends (write_u8 t >> write_u8 (n % 2 ^ 8)) (t ∷ n ∷ [])
Appends-tag8 t n h =
    Appends->> (Appends-u8 t) (Appends-eq (ap (λ k. k ∷ []) small) (Appends-u8 (n % 2 ^ 8)))
  where
    small : n % 2 ^ 8 ≡ n
    small = omega (arith, leb→le n 0xFF h)

Appends-tag16 :
    (t n : ℕ) → leb n 0xFFFF ≡ true → Appends (write_u8 t >> write_u16 (n % 2 ^ 16)) (t ∷ be16 n)
Appends-tag16 t n h =
    Appends->> (Appends-u8 t) (Appends-eq (ap be16 small) (Appends-u16 (n % 2 ^ 16)))
  where
    small : n % 2 ^ 16 ≡ n
    small = omega (arith, leb→le n 0xFFFF h)

Appends-tag32 : (t n : ℕ) → n < 2 ^ 32 → Appends (write_u8 t >> write_u32 (n % 2 ^ 32)) (t ∷ be32 n)
Appends-tag32 t n h =
    Appends->> (Appends-u8 t) (Appends-eq (ap be32 small) (Appends-u32 (n % 2 ^ 32)))
  where
    small : n % 2 ^ 32 ≡ n
    small = omega arith

Appends-str_head : (n : ℕ) → n < 2 ^ 32 → Appends (str_header n) (str_head n)
unfolding str_header str_head
Appends-str_head n h =
    Appends-if (ltb n 32) (λ _. Appends-u8 (0xA0 + n))
      λ _.
        Appends-if (leb n 0xFF) (Appends-tag8 0xD9 n)
          λ _. Appends-if (leb n 0xFFFF) (Appends-tag16 0xDA n) λ _. Appends-tag32 0xDB n h

Appends-bin_head : (n : ℕ) → n < 2 ^ 32 → Appends (bin_header n) (bin_head n)
unfolding bin_header bin_head
Appends-bin_head n h =
    Appends-if (leb n 0xFF) (Appends-tag8 0xC4 n)
      λ _. Appends-if (leb n 0xFFFF) (Appends-tag16 0xC5 n) λ _. Appends-tag32 0xC6 n h

pub Appends-array_head : (n : ℕ) → Appends (write_array_header n) (array_head n)
unfolding write_array_header array_head
Appends-array_head n =
    Appends-if (ltb n 16) (λ _. Appends-u8 (0x90 + n))
      λ _.
        Appends-if (leb n 0xFFFF) (Appends-tag16 0xDC n)
          λ _. Appends->> (Appends-u8 0xDD) (Appends-u32 n)

pub Appends-map_head : (n : ℕ) → Appends (write_map_header n) (map_head n)
unfolding write_map_header map_head
Appends-map_head n =
    Appends-if (ltb n 16) (λ _. Appends-u8 (0x80 + n))
      λ _.
        Appends-if (leb n 0xFFFF) (Appends-tag16 0xDE n)
          λ _. Appends->> (Appends-u8 0xDF) (Appends-u32 n)

pub Appends-str : (bs : List ℕ) → length bs < 2 ^ 32 → Appends (write_str bs) (str_bytes bs)
unfolding write_str
Appends-str bs h = Appends->> (Appends-str_head (length bs) h) (Appends-raw bs)

pub Appends-bin :
    (bs : List ℕ) → length bs < 2 ^ 32 → Appends (write_bin bs) (bin_head (length bs) ++ bs)
unfolding write_bin
Appends-bin bs h = Appends->> (Appends-bin_head (length bs) h) (Appends-raw bs)

pub Appends-nil : Appends write_nil (0xC0 ∷ [])
unfolding write_nil
Appends-nil = Appends-u8 0xC0

pub Appends-bool : (b : Bool) → Appends (write_bool b) ((if b then 0xC3 else 0xC2) ∷ [])
unfolding write_bool
Appends-bool b = Appends-u8 (if b then 0xC3 else 0xC2)

pub Appends-double : (u : ℕ) → u < 2 ^ 64 → Appends (write_double u) (0xCB ∷ be64 u)
unfolding write_double
Appends-double u h = Appends->> (Appends-u8 0xCB) (Appends-u64 u h)

leb_zero : (n : ℕ) → leb 0 n ≡ true
leb_zero n = ground arith

Appends-byte : {v w : ℕ} → v ≡ w → Appends (write_u8 v) (w ∷ [])
Appends-byte {v} {w} e = Appends-eq (ap (λ k. k ∷ []) e) (Appends-u8 v)

Appends-int_tag8 : (t : ℕ) {v w : ℕ} → v ≡ w → Appends (write_u8 t >> write_u8 v) (t ∷ w ∷ [])
Appends-int_tag8 t e = Appends->> (Appends-u8 t) (Appends-byte e)

Appends-int_tag16 : (t : ℕ) {v w : ℕ} → v ≡ w → Appends (write_u8 t >> write_u16 v) (t ∷ be16 w)
Appends-int_tag16 t {v} e = Appends->> (Appends-u8 t) (Appends-eq (ap be16 e) (Appends-u16 v))

Appends-int_tag32 : (t : ℕ) {v w : ℕ} → v ≡ w → Appends (write_u8 t >> write_u32 v) (t ∷ be32 w)
Appends-int_tag32 t {v} e = Appends->> (Appends-u8 t) (Appends-eq (ap be32 e) (Appends-u32 v))

Appends-int_tag64 :
    (t : ℕ) {v w : ℕ} → v ≡ w → v < 2 ^ 64 → Appends (write_u8 t >> write_u64 v) (t ∷ be64 w)
Appends-int_tag64 t {v} e h = Appends->> (Appends-u8 t) (Appends-eq (ap be64 e) (Appends-u64 v h))

pub Appends-int64 : (v : ℤ) → IsInt64 v → Appends (write_int64 v) (int_bytes v)
unfolding write_int64 int_bytes
Appends-int64 (pos n) h = rw (leb_zero n) (
    Appends-if (leb n 0x7F) (λ e. Appends-byte (omega (arith, leb→le n 0x7F e)))
      λ _.
        Appends-if (leb n 0xFF) (λ e. Appends-int_tag8 0xCC (omega (arith, leb→le n 0xFF e)))
          λ _.
            Appends-if (leb n 0xFFFF)
              (λ e. Appends-int_tag16 0xCD (omega (arith, leb→le n 0xFFFF e)))
              λ _.
                Appends-if (leb n 0xFFFFFFFF)
                  (λ e. Appends-int_tag32 0xCE (omega (arith, leb→le n 0xFFFFFFFF e)))
                  λ _. Appends-int_tag64 0xCF (omega arith) (omega arith))
Appends-int64 (negsuc n) h = rw (leb_zero n) (
    Appends-if (leb n 31) (λ e. Appends-byte (omega (arith, leb→le n 31 e)))
      λ _.
        Appends-if (leb n 127) (λ e. Appends-int_tag8 0xD0 (omega (arith, leb→le n 127 e)))
          λ _.
            Appends-if (leb n 32767) (λ e. Appends-int_tag16 0xD1 (omega (arith, leb→le n 32767 e)))
              λ _.
                Appends-if (leb n 2147483647)
                  (λ e. Appends-int_tag32 0xD2 (omega (arith, leb→le n 2147483647 e)))
                  λ _. Appends-int_tag64 0xD3 (omega arith) (omega arith))

pub Appends-none : Appends (λ w. w) []
Appends-none = record {
  fits = λ w h. ap (λ t. record w { written = t }) (sym (append-nil w.written));
  over = λ w k h. absurd (omega arith);
  sticky = λ w h. h;
}
