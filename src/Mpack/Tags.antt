-- ===== src/Mpack/Tags.antt =====
-- The tag bytes of the format, and the readers of mpack_stub.h that refuse them.
use callwire.Base.{
  ℕ, ◌+◌, ◌-◌, ◌≤◌, ◌<◌, ◌≡◌, refl, ap, ◌∙◌, subst, ◌≢◌, ◌⊎◌, inl, Bool, true, false, List, ◌∷◌,
  ◌++◌, none, arith, leb, ltb, leb→le, ltb→lt, if◌then◌else◌, ℤ, pos, negsuc,
}
use callwire.Mpack.Format.{int_bytes, str_head, bin_head, array_head, map_head}
use callwire.Mpack.Reader.{
  Reader, peek_tag, try_read_nil, try_read_bool, try_read_int64, try_read_double, try_read_str,
  try_read_bin, try_read_array_header,
}
use callwire.Mpack.Sees.{Sees, peek_tag-Sees}
use callwire.Mpack.Reads.{Reads}

abbrev pub IsIntTag : ℕ → Type 0
IsIntTag t = (t ≤ 0x7F) ⊎ (0xE0 ≤ t) ⊎ ((0xCC ≤ t) × (t ≤ 0xD3))

abbrev pub IsStrTag : ℕ → Type 0
IsStrTag t = ((0xA0 ≤ t) × (t ≤ 0xBF)) ⊎ ((0xD9 ≤ t) × (t ≤ 0xDB))

abbrev pub IsBinTag : ℕ → Type 0
IsBinTag t = (0xC4 ≤ t) × (t ≤ 0xC6)

abbrev pub IsArrayTag : ℕ → Type 0
IsArrayTag t = ((0x90 ≤ t) × (t ≤ 0x9F)) ⊎ ((0xDC ≤ t) × (t ≤ 0xDD))

abbrev pub IsMapTag : ℕ → Type 0
IsMapTag t = ((0x80 ≤ t) × (t ≤ 0x8F)) ⊎ ((0xDE ≤ t) × (t ≤ 0xDF))

-- The bytes begin with a tag of the class `P`.
pub record Starts (P : ℕ → Type 0) (xs : List ℕ) : Type 0 where
  pub tag : ℕ
  pub rest : List ℕ
  pub eq : xs ≡ tag ∷ rest
  pub class : P tag

module _ {P : ℕ → Type 0} where
  pub Starts-here : (t : ℕ) {ts : List ℕ} → P t → Starts P (t ∷ ts)
  Starts-here t {ts} p = record { tag = t; rest = ts; eq = refl; class = p }

  Starts-if :
      (c : Bool) {xs ys : List ℕ}
      → (c ≡ true → Starts P xs)
      → (c ≡ false → Starts P ys)
      → Starts P (if c then xs else ys)
  Starts-if true h k = h refl
  Starts-if false h k = k refl

  pub Starts-append : {xs : List ℕ} (ys : List ℕ) → Starts P xs → Starts P (xs ++ ys)
  Starts-append ys s = record {
    tag = s.tag;
    rest = s.rest ++ ys;
    eq = ap (λ t. t ++ ys) s.eq;
    class = s.class;
  }

pub int_bytes-Starts : (v : ℤ) → Starts IsIntTag (int_bytes v)
unfolding int_bytes
int_bytes-Starts (pos n) =
    Starts-if (leb n 0x7F) (λ e. Starts-here n (inl (leb→le n 0x7F e)))
      λ _.
        Starts-if (leb n 0xFF) (λ _. Starts-here 0xCC (omega arith))
          λ _.
            Starts-if (leb n 0xFFFF) (λ _. Starts-here 0xCD (omega arith))
              λ _.
                Starts-if (leb n 0xFFFFFFFF) (λ _. Starts-here 0xCE (omega arith))
                  λ _. Starts-here 0xCF (omega arith)
int_bytes-Starts (negsuc n) =
    Starts-if (leb n 31) (λ e. Starts-here (0xFF - n) (omega (arith, leb→le n 31 e)))
      λ _.
        Starts-if (leb n 127) (λ _. Starts-here 0xD0 (omega arith))
          λ _.
            Starts-if (leb n 32767) (λ _. Starts-here 0xD1 (omega arith))
              λ _.
                Starts-if (leb n 2147483647) (λ _. Starts-here 0xD2 (omega arith))
                  λ _. Starts-here 0xD3 (omega arith)

pub str_head-Starts : (n : ℕ) → Starts IsStrTag (str_head n)
unfolding str_head
str_head-Starts n =
    Starts-if (ltb n 32) (λ e. Starts-here (0xA0 + n) (omega (arith, ltb→lt n 32 e)))
      λ _.
        Starts-if (leb n 0xFF) (λ _. Starts-here 0xD9 (omega arith))
          λ _.
            Starts-if (leb n 0xFFFF) (λ _. Starts-here 0xDA (omega arith))
              λ _. Starts-here 0xDB (omega arith)

pub bin_head-Starts : (n : ℕ) → Starts IsBinTag (bin_head n)
unfolding bin_head
bin_head-Starts n =
    Starts-if (leb n 0xFF) (λ _. Starts-here 0xC4 (omega arith))
      λ _.
        Starts-if (leb n 0xFFFF) (λ _. Starts-here 0xC5 (omega arith))
          λ _. Starts-here 0xC6 (omega arith)

pub array_head-Starts : (n : ℕ) → Starts IsArrayTag (array_head n)
unfolding array_head
array_head-Starts n =
    Starts-if (ltb n 16) (λ e. Starts-here (0x90 + n) (omega (arith, ltb→lt n 16 e)))
      λ _.
        Starts-if (leb n 0xFFFF) (λ _. Starts-here 0xDC (omega arith))
          λ _. Starts-here 0xDD (omega arith)

pub map_head-Starts : (n : ℕ) → Starts IsMapTag (map_head n)
unfolding map_head
map_head-Starts n =
    Starts-if (ltb n 16) (λ e. Starts-here (0x80 + n) (omega (arith, ltb→lt n 16 e)))
      λ _.
        Starts-if (leb n 0xFFFF) (λ _. Starts-here 0xDE (omega arith))
          λ _. Starts-here 0xDF (omega arith)

-- A reader that goes on as `f` does at every tag of the class reads what `f` reads.
pub by_class {ℓ} :
    {A : Type ℓ} {f : Reader → A × Reader} {a : A} {P : ℕ → Type 0} {xs : List ℕ}
    (g : Reader → A × Reader)
    → Starts P xs
    → ((r : Reader) (t : ℕ) → r.error ≡ false → P t → peek_tag r ≡ (t, r) → g r ≡ f r)
    → Reads f xs a
    → Reads g xs a
by_class {xs = xs} g st e h = record {
  at = λ r ys s.
      let s' = subst (λ zs. Sees r (zs ++ ys)) st.eq s in
      e r st.tag s.2 st.class (peek_tag-Sees r st.tag (st.rest ++ ys) s') ∙ h.at r ys s;
}

-- The refusals, at a tag of another class.
module _ (r : Reader) (t : ℕ) (p : peek_tag r ≡ (t, r)) where
  pub no_nil : t ≢ 0xC0 → try_read_nil r ≡ (false, r)
  unfolding try_read_nil
  no_nil h = rw p (ground arith)

  pub no_bool : t ≢ 0xC2 → t ≢ 0xC3 → try_read_bool r ≡ (none, r)
  unfolding try_read_bool
  no_bool h k = rw p (ground arith)

  pub no_int64 : 0x7F < t → t < 0xE0 → (t < 0xCC) ⊎ (0xD3 < t) → try_read_int64 r ≡ (none, r)
  unfolding try_read_int64
  no_int64 h k m = rw p (ground arith)

  pub no_double : t ≢ 0xCA → t ≢ 0xCB → try_read_double r ≡ (none, r)
  unfolding try_read_double
  no_double h k = rw p (ground arith)

  pub no_str : (t < 0xA0) ⊎ (0xBF < t) → (t < 0xD9) ⊎ (0xDB < t) → try_read_str r ≡ (none, r)
  unfolding try_read_str
  no_str h k = rw p (ground arith)

  pub no_bin : (t < 0xC4) ⊎ (0xC6 < t) → try_read_bin r ≡ (none, r)
  unfolding try_read_bin
  no_bin h = rw p (ground arith)

  pub no_array_header :
      (t < 0x90) ⊎ (0x9F < t) → (t < 0xDC) ⊎ (0xDD < t) → try_read_array_header r ≡ (none, r)
  unfolding try_read_array_header
  no_array_header h k = rw p (ground arith)
