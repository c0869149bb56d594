-- ===== src/Cobol/Text.antt =====
-- Texts that pass through the buffers of cobol/src/cobol_shim.c.
use callwire.Base.{
  ℕ, zero, suc, ◌+◌, ◌-◌, ◌≤◌, ◌<◌, ◌≡◌, refl, ap, sym, ◌∙◌, subst, ◌≢◌, List, [], ◌∷◌, ◌++◌,
  Option, some, arith, ◌==◌, if_true, if_false, length, take, replicate, get_or,
}
use callwire.Value.{string, no_items, item}
use callwire.Cobol.{text_size, blank, padded, trimmed_length, trimmed, text_of, str1_trampoline}

get_or-replicate : (n m : ℕ) → n < m → get_or (replicate m blank) n 0 ≡ blank
get_or-replicate n zero h = absurd (omega arith)
get_or-replicate zero (suc m) h = refl
get_or-replicate (suc n) (suc m) h = get_or-replicate n m (omega arith)

get_or-blank :
    (bs : List ℕ) (m n : ℕ)
    → length bs ≤ n
    → n < length bs + m
    → get_or (bs ++ replicate m blank) n 0 ≡ blank
get_or-blank [] m n l h = get_or-replicate n m (omega arith)
get_or-blank (b ∷ bs) m zero l h = absurd (omega arith)
get_or-blank (b ∷ bs) m (suc n) l h = get_or-blank bs m n (omega arith) (omega arith)

get_or-append : (bs cs : List ℕ) (n : ℕ) → n < length bs → get_or (bs ++ cs) n 0 ≡ get_or bs n 0
get_or-append [] cs n h = absurd (omega arith)
get_or-append (b ∷ bs) cs zero h = refl
get_or-append (b ∷ bs) cs (suc n) h = get_or-append bs cs n (omega arith)

take-append : (bs cs : List ℕ) → take (length bs) (bs ++ cs) ≡ bs
take-append [] cs = refl
take-append (b ∷ bs) cs = ap (◌∷◌ b) (take-append bs cs)

take_all : (n : ℕ) (bs : List ℕ) → length bs ≤ n → take n bs ≡ bs
take_all zero [] h = refl
take_all zero (b ∷ bs) h = absurd (omega arith)
take_all (suc n) [] h = refl
take_all (suc n) (b ∷ bs) h = ap (◌∷◌ b) (take_all n bs (omega arith))

stops_at :
    (n : ℕ) (bs cs : List ℕ)
    → n ≡ length bs
    → get_or bs (length bs - 1) 0 ≢ blank
    → trimmed_length n (bs ++ cs) ≡ n
unfolding trimmed_length
stops_at zero bs cs e h = refl
stops_at (suc n) bs cs e h =
    let last : get_or (bs ++ cs) n 0 ≢ blank =
      subst (λ z. z ≢ blank)
        (ap (λ k. get_or bs k 0) (omega arith) ∙ sym (get_or-append bs cs n (omega arith))) h in
    if_false (get_or (bs ++ cs) n 0 == blank) _ _ (ground arith)

trimmed_length-padded :
    (bs : List ℕ) (k m : ℕ)
    → k ≤ m
    → get_or bs (length bs - 1) 0 ≢ blank
    → (n : ℕ) → n ≡ length bs + k
    → trimmed_length n (bs ++ replicate m blank) ≡ length bs
unfolding trimmed_length
trimmed_length-padded bs zero m h l n e =
    stops_at n bs (replicate m blank) (omega arith) l ∙ omega arith
trimmed_length-padded bs (suc k) m h l zero e = absurd (omega arith)
trimmed_length-padded bs (suc k) m h l (suc n) e =
    let here : get_or (bs ++ replicate m blank) n 0 ≡ blank =
      get_or-blank bs m n (omega arith) (omega arith) in
    if_true (get_or (bs ++ replicate m blank) n 0 == blank) _ _ (ground arith)
    ∙ trimmed_length-padded bs k m (omega arith) l n (omega arith)

-- A text that is filled up with blanks loses them again.
pub trimmed_blanks :
    (bs : List ℕ)
    → length bs ≤ text_size
    → get_or bs (length bs - 1) 0 ≢ blank
    → trimmed (bs ++ replicate (text_size - length bs) blank) ≡ bs
unfolding trimmed
trimmed_blanks bs fits last =
    ap (λ n. take n (bs ++ replicate (text_size - length bs) blank))
      (trimmed_length-padded bs (text_size - length bs) (text_size - length bs) (omega arith) last
        text_size (omega arith))
    ∙ take-append bs (replicate (text_size - length bs) blank)

-- For a COBOL program that copies its input buffer to its output buffer, the trampoline for texts
-- returns a text of up to 256 bytes that does not end in a blank as it was.
pub str1_trampoline-padded :
    (cob_str1 : List ℕ → List ℕ → Option (List ℕ)) (program bs : List ℕ)
    → length bs ≤ text_size
    → get_or bs (length bs - 1) 0 ≢ blank
    → cob_str1 program (padded bs) ≡ some (padded bs)
    → str1_trampoline cob_str1 program (item (string bs) no_items) ≡ some (string bs)
unfolding str1_trampoline padded
str1_trampoline-padded cob_str1 program bs fits last copies =
    ap text_of copies
    ∙ ap (λ z. some (string z))
        (ap (λ t. trimmed (t ++ replicate (text_size - length bs) blank))
            (take_all text_size bs fits)
          ∙ trimmed_blanks bs fits last)
