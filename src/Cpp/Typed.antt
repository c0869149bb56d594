-- ===== src/Cpp/Typed.antt =====
-- Typed calls and typed handlers of cpp/include/callwire/callwire.hpp.
use callwire.Base.{
  ℕ, suc, ◌≡◌, ◌≢◌, refl, ap, sym, ◌∙◌, subst, Bool, true, false, not, List, [], ◌∷◌, arith, ◌==◌,
  if_true, length, text,
}
use callwire.Value.{Value, null, Items, no_items, item, count_items}
use callwire.Cpp.{Answer, value, exception, undefined, unfinished, ◌>>=◌}
use callwire.Cpp.Values.{
  Wrapped, deep_copy, deep_copy_items, as_bool, as_int64, as_double, as_string,
}
use callwire.Cpp.Calls.{raw_args}
use callwire.Cpp.Copies.{HasStringKeysItems, wrap}
use callwire.Cpp.Keys.{deep_copy-sorts}
use callwire.Cpp.Handlers.{
  Scalar, bool_t, int64_t, double_t, string_t, Element, Arguments, of_element, as_type, converted,
  make_typed_handler, caught, trampoline,
}

-- The arguments of a typed call, each as a value.
abbrev pub of_arguments : (ts : List Scalar) → Arguments ts → List Wrapped
of_arguments [] xs = []
of_arguments (t ∷ ts) (x, xs) = of_element t x ∷ of_arguments ts xs

pub as_type-of_element : (t : Scalar) (x : Element t) → as_type t (of_element t x).raw ≡ value x
unfolding as_type of_element as_bool as_int64 as_double as_string
as_type-of_element bool_t x = refl
as_type-of_element int64_t x = refl
as_type-of_element double_t x = refl
as_type-of_element string_t x = refl

deep_copy-of_element :
    (t : Scalar) (x : Element t) → deep_copy (of_element t x).raw ≡ value (of_element t x)
unfolding of_element deep_copy
deep_copy-of_element bool_t x = refl
deep_copy-of_element int64_t x = refl
deep_copy-of_element double_t x = refl
deep_copy-of_element string_t x = refl

deep_copy_items-of_arguments :
    (ts : List Scalar) (xs : Arguments ts)
    → deep_copy_items (raw_args (of_arguments ts xs)) ≡ value (of_arguments ts xs)
unfolding deep_copy_items
deep_copy_items-of_arguments [] xs = refl
deep_copy_items-of_arguments (t ∷ ts) (x, xs) =
    rw (deep_copy-of_element t x, deep_copy_items-of_arguments ts xs) refl

converted-of_arguments :
    (ts : List Scalar) (xs : Arguments ts) → converted ts (of_arguments ts xs) ≡ value xs
unfolding converted
converted-of_arguments [] xs = refl
converted-of_arguments (t ∷ ts) (x, xs) =
    rw (as_type-of_element t x, converted-of_arguments ts xs) refl

length-of_arguments :
    (ts : List Scalar) (xs : Arguments ts) → length (of_arguments ts xs) ≡ length ts
length-of_arguments [] xs = refl
length-of_arguments (t ∷ ts) (x, xs) = ap suc (length-of_arguments ts xs)

deep_copy_items-length :
    (vs : Items)
    → HasStringKeysItems vs
    → (ws : List Wrapped) × (deep_copy_items vs ≡ value ws) × (length ws ≡ count_items vs)
unfolding deep_copy_items
deep_copy_items-length no_items h = ([], refl, refl)
deep_copy_items-length (item v vs) h =
    let (w, e, _) = deep_copy-sorts v h.0 in
    let (ws, f, n) = deep_copy_items-length vs h.1 in (wrap w ∷ ws, rw (e, f) refl, ap suc n)

module _ (ts : List Scalar) (r : Scalar) (lambda : Arguments ts → Answer (Element r)) where
  -- What the C library gets of what the lambda comes to: an exception is a return value other
  -- than 0.
  abbrev pub answer : Answer (Element r) → Answer (Bool × Value)
  answer (value y) = value (true, (of_element r y).raw)
  answer (exception e) = value (false, null)
  answer undefined = undefined
  answer unfinished = unfinished

  caught-answer : (a : Answer (Element r)) → caught (a >>= λ y. value (of_element r y)) ≡ answer a
  unfolding caught
  caught-answer (value y) = refl
  caught-answer (exception e) = refl
  caught-answer undefined = refl
  caught-answer unfinished = refl

  right_number :
      (n : ℕ) (ws : List Wrapped)
      → length ws ≡ n
      → n ≡ length ts
      → make_typed_handler ts r lambda ws
        ≡ (converted ts ws >>= λ xs. lambda xs >>= λ y. value (of_element r y))
  unfolding make_typed_handler
  right_number n ws e f = rw (e ∙ f, same (length ts)) refl
    where
      same : (n : ℕ) → (n == n) ≡ true
      same n = ground arith

  wrong_number :
      (ws : List Wrapped)
      → length ws ≢ length ts
      → make_typed_handler ts r lambda ws ≡ exception (text "wrong number of arguments")
  unfolding make_typed_handler
  wrong_number ws differ = if_true (not (length ws == length ts)) _ _ (ground arith)

  -- The trampoline on the handler of a lambda with typed arguments, given one value for each of
  -- them, made from an argument of its type, calls the lambda with these arguments: it returns 0
  -- with the value of its result, or another number and null if it throws. Given any other number
  -- of values, whose maps have strings as keys, it returns another number and null.
  pub trampoline-make_typed_handler :
      ((xs : Arguments ts)
        → trampoline (make_typed_handler ts r lambda) (raw_args (of_arguments ts xs))
          ≡ answer (lambda xs))
      × ((vs : Items)
          → HasStringKeysItems vs
          → count_items vs ≢ length ts
          → trampoline (make_typed_handler ts r lambda) vs ≡ value (false, null))
  unfolding trampoline caught
  trampoline-make_typed_handler = (
    λ xs.
        rw
          (
            deep_copy_items-of_arguments ts xs,
            right_number _ (of_arguments ts xs) (length-of_arguments ts xs) refl,
            converted-of_arguments ts xs,
          )
          (caught-answer (lambda xs)),
    λ vs h differ.
        let (ws, e, n) = deep_copy_items-length vs h in
        rw (e, wrong_number ws (subst (λ k. k ≢ length ts) (sym n) differ)) refl,
  )
