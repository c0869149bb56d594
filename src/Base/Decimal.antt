-- ===== src/Base/Decimal.antt =====
-- The conversion `%d` of printf.
use Prim.Native.Nat.{ℕ, zero, suc, ◌+◌, ◌/◌, ◌%◌}
use mathlib.Core.List.{List, [], ◌∷◌}
use callwire.Base.Tests.{ltb, if◌then◌else◌}
use callwire.Base.Int.{ℤ, pos, negsuc}

-- The digits of n before `rest`. A number has fewer digits than its value, so fuel of n is enough.
unfoldable pub digits : ℕ → ℕ → List ℕ → List ℕ
digits zero n rest = (48 + n % 10) ∷ rest
digits (suc fuel) n rest =
    let more = digits fuel (n / 10) ((48 + n % 10) ∷ rest) in
    if ltb n 10 then (48 + n) ∷ rest else more

unfoldable pub decimal : ℤ → List ℕ
unfolding digits
decimal (pos n) = digits n n []
decimal (negsuc n) = 45 ∷ digits n (n + 1) []
