-- ===== src/Cpp.antt =====
-- cpp/include/callwire/callwire.hpp, the C++ wrapper of the C library. What a call of it comes to: its
-- value, an exception with its text, or undefined behaviour; `unfinished` has no counterpart in the
-- code. A std::string is its bytes, a std::vector a list. The destructors of values and the failures
-- of their allocations are not modelled.
pub mod Values
pub mod Copies
pub mod Keys
pub mod Calls
pub mod Handlers
pub mod Exports
pub mod Typed
mod Tests
use callwire.Base.{ℕ, List}

pub data Answer {ℓ} (A : Type ℓ) : Type ℓ where
  value : A → Answer A
  exception : List ℕ → Answer A
  undefined unfinished : Answer A

infixl 5 ◌>>=◌
abbrev pub ◌>>=◌ {ℓ} : {A B : Type ℓ} → Answer A → (A → Answer B) → Answer B
value a >>= k = k a
exception e >>= k = exception e
undefined >>= k = undefined
unfinished >>= k = unfinished

abbrev pub pure {ℓ} : {A : Type ℓ} → A → Answer A
pure a = value a
