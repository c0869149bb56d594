-- ===== src/Errors.antt =====
-- c/src/errors.c: the thread-local message buffer. It is kept as the bytes before its closing zero.
use callwire.Base.{ℕ, ◌-◌, List, [], ◌∷◌, take, text, c_string}

abbrev pub error_max : ℕ
error_max = 256

-- What vsnprintf leaves of the formatted text.
unfoldable pub error_set : List ℕ → List ℕ
error_set formatted = take (error_max - 1) (c_string formatted)

unfoldable pub error : List ℕ → List ℕ
error [] = text "unknown error"
error (b ∷ bs) = b ∷ bs
