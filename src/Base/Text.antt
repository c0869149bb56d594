-- ===== src/Base/Text.antt =====
-- C strings. A text in memory is the list of the bytes before the zero that closes its buffer; the
-- string functions of C read it up to its first zero.
use Prim.Native.Nat.{ℕ}
use Prim.Native.Char.{code}
use Prim.Native.String.{String}
use mathlib.Core.Path.{◌≡◌, refl}
use mathlib.Core.Logic.{◌≢◌}
use mathlib.Core.Bool.{Bool, true, false}
use mathlib.Core.List.{List, [], ◌∷◌, ◌++◌}
use native.Mathlib.Omega.{arith}
use callwire.Base.Tests.{◌==◌, if◌then◌else◌, bytes_eq, bytes_eq_refl}

-- A string literal.
abbrev pub text : String → List ℕ
text String.[] = []
text (String.◌∷◌ c s) = code c ∷ text s

-- The first strlen(s) bytes.
unfoldable pub c_string : List ℕ → List ℕ
c_string [] = []
c_string (b ∷ bs) = if b == 0 then [] else b ∷ c_string bs

-- strcmp(s, t) == 0.
unfoldable pub same_string : List ℕ → List ℕ → Bool
unfolding c_string bytes_eq
same_string s t = bytes_eq (c_string s) (c_string t)

-- No zero inside.
abbrev pub NoZero : List ℕ → Type 0
NoZero [] = Unit
NoZero (b ∷ bs) = (b ≢ 0) × NoZero bs

pub c_string-NoZero : (bs : List ℕ) → NoZero bs → c_string bs ≡ bs
unfolding c_string
c_string-NoZero [] h = refl
c_string-NoZero (b ∷ bs) h = ground (arith, c_string-NoZero bs h.1)

pub same_string_refl : (s : List ℕ) → same_string s s ≡ true
unfolding same_string
same_string_refl s = bytes_eq_refl (c_string s)

pub NoZero-append : (xs ys : List ℕ) → NoZero xs → NoZero ys → NoZero (xs ++ ys)
NoZero-append [] ys h k = k
NoZero-append (x ∷ xs) ys h k = (h.0, NoZero-append xs ys h.1 k)

abbrev pub no_zero : List ℕ → Bool
no_zero [] = true
no_zero (b ∷ bs) = if b == 0 then false else no_zero bs

-- For literals, where the test computes.
pub no_zero-NoZero : (bs : List ℕ) → no_zero bs ≡ true → NoZero bs
no_zero-NoZero [] h = tt
no_zero-NoZero (b ∷ bs) h = ground (arith, no_zero-NoZero bs)
