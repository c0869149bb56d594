-- ===== src/Codec/Outcome.antt =====
-- The result of a decoding step of c/src/codec.c, and the steps in sequence.
use callwire.Mpack.Reader.{Reader}

-- `failed` is the return value -1, and `crashed` a write through a null pointer. `out_of_fuel` has
-- no counterpart in the code.
pub data Outcome {ℓ} (A : Type ℓ) : Type ℓ where
  ok : A → Outcome A
  failed crashed out_of_fuel : Outcome A

abbrev pub Decoder : Type 0 → Type 0
Decoder A = Reader → Outcome A × Reader

abbrev pub bind : {A B : Type 0} → Outcome A × Reader → (A → Decoder B) → Outcome B × Reader
bind (ok a, r) k = k a r
bind (failed, r) k = (failed, r)
bind (crashed, r) k = (crashed, r)
bind (out_of_fuel, r) k = (out_of_fuel, r)

infixl 5 ◌>>=◌
abbrev pub ◌>>=◌ : {A B : Type 0} → Decoder A → (A → Decoder B) → Decoder B
(d >>= k) r = bind (d r) k

abbrev pub pure : {A : Type 0} → A → Decoder A
pure a r = (ok a, r)

infixl 5 ◌>>◌
abbrev pub ◌>>◌ : {A B : Type 0} → Decoder A → Decoder B → Decoder B
(d >> e) r = bind (d r) (λ _. e)
