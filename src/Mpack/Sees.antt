-- ===== src/Mpack/Sees.antt =====
-- The reader of mpack_stub.h at a known position: what the bounds-checked reads return there.
use callwire.Base.{
  ℕ, ◌+◌, ◌-◌, ◌/◌, ◌%◌, ◌^◌, ◌≤◌, ◌<◌, ◌≡◌, refl, ap, sym, ◌∙◌, false, List, ◌∷◌, ◌++◌, some,
  arith, length, get_or, take, drop, length-drop, length-append, drop-add, drop-append, take-append,
  get_or-drop,
}
use callwire.Mpack.Format.{be16, be32, be64}
use callwire.Mpack.Reader.{
  Reader, advance, read_u8, read_u16, read_u32, read_u64, read_raw, peek_tag,
}

-- The position is in the buffer, the unread bytes are `bs`, and no error is set.
abbrev pub Sees : Reader → List ℕ → Type 0
Sees r bs = (r.pos ≤ length r.buf) × (drop r.pos r.buf ≡ bs) × (r.error ≡ false)

Sees-length : (r : Reader) {bs : List ℕ} → Sees r bs → length r.buf - r.pos ≡ length bs
Sees-length r s = sym (length-drop r.pos r.buf) ∙ ap length s.1

pub Sees-advance :
    (n : ℕ) (r : Reader) {bs : List ℕ} → Sees r bs → n ≤ length bs → Sees (advance n r) (drop n bs)
unfolding advance
Sees-advance n r s h =
    (omega (arith, Sees-length r s), drop-add r.pos n r.buf ∙ ap (drop n) s.1, s.2)

pub Sees-advance_append :
    (xs : List ℕ) (r : Reader) {ys : List ℕ} → Sees r (xs ++ ys) → Sees (advance (length xs) r) ys
unfolding advance
Sees-advance_append xs r {ys} s = (
  omega (arith, Sees-length r s, length-append xs ys),
  drop-add r.pos (length xs) r.buf ∙ ap (drop (length xs)) s.1 ∙ drop-append xs ys,
  s.2,
)

pub advance-advance : (m n : ℕ) (r : Reader) → advance n (advance m r) ≡ advance (m + n) r
unfolding advance
advance-advance m n r = ground arith

Sees-get :
    (i : ℕ) (r : Reader) {bs ys : List ℕ} {y : ℕ}
    → Sees r bs
    → drop i bs ≡ y ∷ ys
    → get_or r.buf (r.pos + i) 0 ≡ y
Sees-get i r s e = get_or-drop (r.pos + i) r.buf 0 (drop-add r.pos i r.buf ∙ ap (drop i) s.1 ∙ e)

pub peek_tag-Sees : (r : Reader) (t : ℕ) (bs : List ℕ) → Sees r (t ∷ bs) → peek_tag r ≡ (t, r)
unfolding peek_tag
peek_tag-Sees r t bs s = ground (arith, Sees-length r s, get_or-drop r.pos r.buf 0 s.1)

pub read_u8-Sees :
    (r : Reader) (b : ℕ) (bs : List ℕ) → Sees r (b ∷ bs) → read_u8 r ≡ (b, advance 1 r)
unfolding read_u8
read_u8-Sees r b bs s = ground (arith, Sees-length r s, get_or-drop r.pos r.buf 0 s.1)

pub read_u16-Sees :
    (r : Reader) (v : ℕ) (bs : List ℕ)
    → v < 2 ^ 16
    → Sees r (be16 v ++ bs)
    → read_u16 r ≡ (v, advance 2 r)
unfolding read_u16
read_u16-Sees r v bs h s =
    ground (arith, Sees-length r s, get_or-drop r.pos r.buf 0 s.1, Sees-get 1 r s refl)

pub read_u32-Sees :
    (r : Reader) (v : ℕ) (bs : List ℕ)
    → v < 2 ^ 32
    → Sees r (be32 v ++ bs)
    → read_u32 r ≡ (v, advance 4 r)
unfolding read_u32
read_u32-Sees r v bs h s = ground (
  arith,
  Sees-length r s,
  get_or-drop r.pos r.buf 0 s.1,
  Sees-get 1 r s refl,
  Sees-get 2 r s refl,
  Sees-get 3 r s refl,
)

pub read_u64-Sees :
    (r : Reader) (v : ℕ) (bs : List ℕ)
    → v < 2 ^ 64
    → Sees r (be64 v ++ bs)
    → read_u64 r ≡ (v, advance 8 r)
unfolding read_u64
read_u64-Sees r v bs h s =
    rw
      (
        read_u32-Sees r (v / 2 ^ 32) (be32 (v % 2 ^ 32) ++ bs) (omega arith) s,
        read_u32-Sees (advance 4 r) (v % 2 ^ 32) bs (omega arith)
            (Sees-advance 4 r s (omega arith)),
        advance-advance 4 4 r,
      )
      (ap (λ t. (t, advance 8 r)) (omega arith))

pub read_raw-Sees :
    (r : Reader) (xs ys : List ℕ)
    → Sees r (xs ++ ys)
    → read_raw (length xs) r ≡ (some xs, advance (length xs) r)
unfolding read_raw
read_raw-Sees r xs ys s =
    ground
      (arith, Sees-length r s, length-append xs ys, ap (take (length xs)) s.1, take-append xs ys)
