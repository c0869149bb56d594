-- ===== src/Framing/Send.antt =====
-- send_all and callwire_framing_write_frame of c/src/framing.c: what goes out.
use callwire.Base.{
  ℕ, zero, suc, ◌≤◌, ◌<◌, ◌≡◌, refl, ap, sym, ◌∙◌, subst, inl, inr, Bool, true, false, not, List,
  [], ◌∷◌, ◌++◌, append_assoc, append-nil, arith, ltb, ◌==◌, if◌then◌else◌, if_true, if_false,
  lt→ltb, le→ltb, ltb→le, length, length-append, length-drop, take-append-drop, take, drop,
  Bool-cases,
}
use callwire.Mpack.Format.{be32}
use callwire.Framing.{Socket, max_frame_size, send_to, send, send_more, send_all, write_frame}

-- `true`: all of `bs` went out. `false`: a proper prefix of it did.
abbrev pub Sent : List ℕ → Socket → Bool × Socket → Type 0
Sent bs s (true, s') = (s'.sent ≡ s.sent ++ bs) × (s'.incoming ≡ s.incoming)
Sent bs s (false, s') =
    (xs : List ℕ) × (ys : List ℕ) × (bs ≡ xs ++ ys)
    × (0 < length ys)
    × (s'.sent ≡ s.sent ++ xs)
    × (s'.incoming ≡ s.incoming)

Sent-more :
    (xs ys : List ℕ) (s s' : Socket) (p : Bool × Socket)
    → s'.sent ≡ s.sent ++ xs
    → s'.incoming ≡ s.incoming
    → Sent ys s' p
    → Sent (xs ++ ys) s p
Sent-more xs ys s s' (true, t) e i h =
    (h.0 ∙ ap (λ z. z ++ ys) e ∙ append_assoc s.sent xs ys, h.1 ∙ i)
Sent-more xs ys s s' (false, t) e i h = (
  xs ++ h.0,
  h.1,
  ap (◌++◌ xs) h.2 ∙ sym (append_assoc xs h.0 h.1),
  h.3,
  h.4 ∙ ap (λ z. z ++ h.0) e ∙ append_assoc s.sent xs h.0,
  h.5 ∙ i,
)

pub length_zero : (xs : List ℕ) → length xs ≤ 0 → xs ≡ []
length_zero [] h = refl
length_zero (x ∷ xs) h = absurd (omega arith)

take_taken : (n : ℕ) (bs : List ℕ) → take (length (take n bs)) bs ≡ take n bs
take_taken zero bs = refl
take_taken (suc n) [] = refl
take_taken (suc n) (b ∷ bs) = ap (◌∷◌ b) (take_taken n bs)

-- One send(): the bytes that it reports taken went out, and nothing else.
abbrev Takes : List ℕ → Socket → ℕ × Socket → Type 0
Takes bs s (n, s') = (s'.sent ≡ s.sent ++ take n bs) × (s'.incoming ≡ s.incoming)

send_to-Takes : (ns bs : List ℕ) (s : Socket) → Takes bs s (send_to ns bs s)
unfolding send_to
send_to-Takes [] bs s = (sym (append-nil s.sent), refl)
send_to-Takes (n ∷ ns) bs s = (ap (λ t. s.sent ++ t) (sym (take_taken n bs)), refl)

send_more-Sent :
    (fuel : ℕ) (bs : List ℕ) (s : Socket) → length bs ≤ fuel → Sent bs s (send_more fuel bs s)
unfolding send_more send
send_more-Sent zero [] s h = (sym (append-nil s.sent), refl)
send_more-Sent zero (b ∷ bs) s h = absurd (omega arith)
send_more-Sent (suc fuel) [] s h = (sym (append-nil s.sent), refl)
send_more-Sent (suc fuel) (b ∷ bs) s h =
    step (send (b ∷ bs) s) (send_to-Takes s.accepts (b ∷ bs) s)
      (λ n s' small. send_more-Sent fuel (drop n (b ∷ bs)) s' small)
  where
    step :
        (p : ℕ × Socket)
        → Takes (b ∷ bs) s p
        → ((n : ℕ) (s' : Socket)
            → length (drop n (b ∷ bs)) ≤ fuel
            → Sent (drop n (b ∷ bs)) s' (send_more fuel (drop n (b ∷ bs)) s'))
        → Sent (b ∷ bs) s (
            if ltb 0 (length (b ∷ bs))
            then (if p.0 == 0 then (false, p.1) else send_more fuel (drop p.0 (b ∷ bs)) p.1)
            else (true, s))
    step (zero, s') t again =
        subst (Sent (b ∷ bs) s)
          (sym (if_true (ltb 0 (length (b ∷ bs))) _ _ (lt→ltb _ _ (omega arith))))
          ([], b ∷ bs, refl, omega arith, t.0, t.1)
    step (suc n, s') t again =
        subst (Sent (b ∷ bs) s)
          (sym (
            if_true (ltb 0 (length (b ∷ bs))) _ _ (lt→ltb _ _ (omega arith))
            ∙ if_false (suc n == 0) _ _ (ground arith)))
          (subst (λ z. Sent z s (send_more fuel (drop n bs) s'))
            (ap (◌∷◌ b) (take-append-drop n bs))
            (Sent-more (b ∷ take n bs) (drop n bs) s s' _ t.0 t.1
              (again (suc n) s' (omega (arith, length-drop n bs)))))

-- send_all either sends all of its bytes or reports that only a proper prefix of them went out.
pub send_all-Sent : (bs : List ℕ) (s : Socket) → Sent bs s (send_all bs s)
unfolding send_all
send_all-Sent bs s = send_more-Sent (length bs) bs s (omega arith)

-- The frame of a payload.
abbrev pub frame : List ℕ → List ℕ
frame payload = be32 (length payload) ++ payload

-- write_frame refuses a payload above 16 MB and sends nothing.
pub write_frame-oversized :
    (payload : List ℕ) (s : Socket)
    → max_frame_size < length payload
    → write_frame payload s ≡ (false, s)
unfolding write_frame
write_frame-oversized payload s h = if_true _ _ _ (lt→ltb _ _ h)

-- write_frame sends the frame of a payload of up to 16 MB whole when it returns success, and only a
-- proper prefix of it when it returns failure.
pub write_frame-Sent :
    (payload : List ℕ) (s : Socket)
    → length payload ≤ max_frame_size
    → Sent (frame payload) s (write_frame payload s)
unfolding write_frame
write_frame-Sent payload s h =
    subst (Sent (frame payload) s) (sym (if_false _ _ _ (le→ltb _ _ h)))
      (joined (send_all (be32 (length payload)) s) (send_all-Sent (be32 (length payload)) s))
  where
    at_end : ltb 0 (length payload) ≡ false → be32 (length payload) ≡ frame payload
    at_end e =
        sym (append-nil (be32 (length payload)))
        ∙ ap (λ t. be32 (length payload) ++ t) (sym (length_zero payload (ltb→le _ _ e)))

    joined :
        (p : Bool × Socket)
        → Sent (be32 (length payload)) s p
        → Sent (frame payload) s (
            if not p.0
            then (false, p.1)
            else if ltb 0 (length payload)
            then ((send_all payload p.1).0, (send_all payload p.1).1)
            else (true, p.1))
    joined (false, s₁) h = (
      h.0,
      h.1 ++ payload,
      ap (λ t. t ++ payload) h.2 ∙ append_assoc h.0 h.1 payload,
      omega (arith, h.3, length-append h.1 payload),
      h.4,
      h.5,
    )
    joined (true, s₁) h = elim (Bool-cases (ltb 0 (length payload))) [
      | inl some_bytes ↦ rw some_bytes (
          Sent-more (be32 (length payload)) payload s s₁ (send_all payload s₁) h.0 h.1
            (send_all-Sent payload s₁))
      | inr no_bytes ↦ rw no_bytes (h.0 ∙ ap (λ t. s.sent ++ t) (at_end no_bytes), h.1)
    ]
