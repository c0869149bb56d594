-- ===== src/Framing/Receive.antt =====
-- recv_all of c/src/framing.c does not depend on how the stream is cut into segments.
use callwire.Base.{
  ℕ, zero, suc, ◌+◌, ◌-◌, ◌≤◌, ◌<◌, ◌≡◌, refl, ap, sym, ◌∙◌, subst, ◌⊎◌, inl, inr, List, [], ◌∷◌,
  ◌++◌, append_assoc, Option, none, some, arith, ltb, if_true, if_false, lt→ltb, le→ltb, length,
  length-append, take-append-drop, take, drop,
}
use callwire.Framing.{put_back, recv, recv_more, recv_all}

-- The bytes of a stream, in order.
abbrev pub bytes : List (List ℕ) → List ℕ
bytes [] = []
bytes (s ∷ ss) = s ++ bytes ss

-- No segment is empty: the other end keeps the connection open until the stream ends.
abbrev pub IsOpen : List (List ℕ) → Type 0
IsOpen [] = Unit
IsOpen (s ∷ ss) = (0 < length s) × IsOpen ss

-- A read of `len` bytes of the stream `all`: they are its first and the rest is left, or it is too
-- short.
abbrev pub Read : ℕ → List ℕ → Option (List ℕ) × List (List ℕ) → Type 0
Read len all (some got, left) = (length got ≡ len) × (got ++ bytes left ≡ all) × IsOpen left
Read len all (none, left) = length all < len

append_cancel :
    (cs bs xs ys : List ℕ) → length cs ≡ length bs → cs ++ xs ≡ bs ++ ys → (cs ≡ bs) × (xs ≡ ys)
append_cancel [] [] xs ys l e = (refl, e)
append_cancel [] (b ∷ bs) xs ys l e = absurd (omega arith)
append_cancel (a ∷ cs) [] xs ys l e = absurd (omega arith)
append_cancel (a ∷ cs) (b ∷ bs) xs ys l e =
    let rest = append_cancel cs bs xs ys (omega arith) (cc) in (cc (rest.0), rest.1)

bytes-put_back : (bs : List ℕ) (ss : List (List ℕ)) → bytes (put_back bs ss) ≡ bs ++ bytes ss
bytes-put_back [] ss = refl
bytes-put_back (b ∷ bs) ss = refl

put_back-IsOpen : (bs : List ℕ) (ss : List (List ℕ)) → IsOpen ss → IsOpen (put_back bs ss)
put_back-IsOpen [] ss h = h
put_back-IsOpen (b ∷ bs) ss h = (omega arith, h)

-- One recv(): some bytes, at most `len`, off the front; nothing only at the end of the stream.
abbrev Got : ℕ → List (List ℕ) → Option (List ℕ) × List (List ℕ) → Type 0
Got len ss (some got, left) =
    (0 < length got) × (length got ≤ len) × (got ++ bytes left ≡ bytes ss) × IsOpen left
Got len ss (none, left) = bytes ss ≡ []

length-take_le : (n : ℕ) (xs : List ℕ) → length (take n xs) ≤ n
length-take_le zero xs = omega arith
length-take_le (suc n) [] = omega arith
length-take_le (suc n) (x ∷ xs) = omega (arith, length-take_le n xs)

recv-Got : (len : ℕ) (ss : List (List ℕ)) → 0 < len → IsOpen ss → Got len ss (recv len ss)
unfolding recv
recv-Got zero ss pos h = absurd (omega arith)
recv-Got (suc len) [] pos h = refl
recv-Got (suc len) ([] ∷ ss) pos h = absurd (omega arith)
recv-Got (suc len) ((b ∷ bs) ∷ ss) pos h =
    (omega arith, omega (arith, length-take_le len bs), whole, put_back-IsOpen (drop len bs) ss h.1)
  where
    whole : (b ∷ take len bs) ++ bytes (put_back (drop len bs) ss) ≡ b ∷ (bs ++ bytes ss)
    whole =
        ap (λ t. (b ∷ take len bs) ++ t) (bytes-put_back (drop len bs) ss)
        ∙ ap (◌∷◌ b) (
            sym (append_assoc (take len bs) (drop len bs) (bytes ss))
            ∙ ap (λ t. t ++ bytes ss) (take-append-drop len bs))

-- The loop, with `done` read before it.
recv_more-Read :
    (fuel len : ℕ) (done : List ℕ) (ss : List (List ℕ)) (p : Option (List ℕ) × List (List ℕ))
    {total : ℕ} {all : List ℕ}
    → len ≤ fuel
    → 0 < len
    → Got len ss p
    → length done + len ≡ total
    → done ++ bytes ss ≡ all
    → Read total all (recv_more fuel len done p)
unfolding recv_more
recv_more-Read fuel len done ss (none, left) h pos g t e =
    omega (arith, ap length e, length-append done (bytes ss), ap length g)
recv_more-Read zero len done ss (some got, left) h pos g t e = absurd (omega arith)
recv_more-Read (suc fuel) len done ss (some got, left) {total} {all} h pos g t e =
    elim (lt_or_le (length got) len) [
      | inl more ↦
          subst (Read total all) (sym (if_true (ltb (length got) len) _ _ (lt→ltb _ _ more))) (
            recv_more-Read fuel (len - length got) (done ++ got) left (recv (len - length got) left)
              (omega arith) (omega arith) (recv-Got (len - length got) left (omega arith) g.3)
              (omega (arith, length-append done got)) joined)
      | inr full ↦
          subst (Read total all) (sym (if_false (ltb (length got) len) _ _ (le→ltb _ _ full)))
            (omega (arith, length-append done got), joined, g.3)
    ]
  where
    joined : (done ++ got) ++ bytes left ≡ all
    joined = append_assoc done got (bytes left) ∙ ap (◌++◌ done) g.2 ∙ e

    lt_or_le : (m n : ℕ) → (m < n) ⊎ (n ≤ m)
    lt_or_le m n = omega arith

-- On a stream that stays open, however it is cut into segments, recv_all returns its first `len`
-- bytes and leaves the rest, and fails exactly if it has fewer.
pub recv_all-Read :
    (len : ℕ) (ss : List (List ℕ)) → IsOpen ss → Read len (bytes ss) (recv_all len ss)
unfolding recv_all
recv_all-Read zero ss h = (refl, refl, h)
recv_all-Read (suc len) ss h =
    subst (Read (suc len) (bytes ss))
      (sym (if_true (ltb 0 (suc len)) _ _ (lt→ltb _ _ (omega arith))))
      (recv_more-Read (suc len) (suc len) [] ss (recv (suc len) ss) (omega arith) (omega arith)
        (recv-Got (suc len) ss (omega arith) h) (omega arith) refl)

-- The read, where the stream begins with the bytes asked for.
pub recv_all-prefix :
    (xs ys : List ℕ) (ss : List (List ℕ))
    → IsOpen ss
    → bytes ss ≡ xs ++ ys
    → (left : List (List ℕ)) × (recv_all (length xs) ss ≡ (some xs, left))
      × (bytes left ≡ ys)
      × IsOpen left
recv_all-prefix xs ys ss h e =
    of_read (recv_all (length xs) ss) refl (recv_all-Read (length xs) ss h)
  where
    of_read :
        (p : Option (List ℕ) × List (List ℕ))
        → recv_all (length xs) ss ≡ p
        → Read (length xs) (bytes ss) p
        → (left : List (List ℕ)) × (recv_all (length xs) ss ≡ (some xs, left))
          × (bytes left ≡ ys)
          × IsOpen left
    of_read (none, left) q r = absurd (omega (arith, ap length e, length-append xs ys))
    of_read (some got, left) q r =
        let both = append_cancel got xs (bytes left) ys r.0 (r.1 ∙ e) in
        (left, q ∙ ap (λ t. (some t, left)) both.0, both.1, r.2)
