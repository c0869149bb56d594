-- ===== src/Cpp/Handlers.antt =====
-- The handlers of cpp/include/callwire/callwire.hpp and the trampolines that the C library calls. A
-- handler is a function without a state of its own; the exceptions that it throws are those that
-- are caught, std::exception.
use callwire.Base.{
  ℕ, Bool, true, false, not, List, [], ◌∷◌, Option, none, some, ◌==◌, if◌then◌else◌, length, text,
  ℤ,
}
use callwire.Value.{Value, null, Items}
use callwire.Server.Dispatch.{Program}
use callwire.Cpp.{Answer, value, exception, undefined, unfinished, ◌>>=◌, pure}
use callwire.Cpp.Values.{
  Wrapped, of_bool, of_int64, of_double, of_string, adopt, as_bool, as_int64, as_double, as_string,
  deep_copy_items,
}

abbrev pub Handler : Type 0
Handler = List Wrapped → Answer Wrapped

-- The types of arguments and results that are deduced from a lambda.
pub data Scalar : Type 0 where
  bool_t int64_t double_t string_t : Scalar

abbrev pub Element : Scalar → Type 0
Element bool_t = Bool
Element int64_t = ℤ
Element double_t = ℕ
Element string_t = List ℕ

abbrev pub Arguments : List Scalar → Type 0
Arguments [] = Unit
Arguments (t ∷ ts) = Element t × Arguments ts

unfoldable pub of_element : (t : Scalar) → Element t → Wrapped
of_element bool_t b = of_bool b
of_element int64_t n = of_int64 n
of_element double_t d = of_double d
of_element string_t s = of_string s

unfoldable pub as_type : (t : Scalar) → Value → Answer (Element t)
unfolding as_bool as_int64 as_double as_string
as_type bool_t = as_bool
as_type int64_t = as_int64
as_type double_t = as_double
as_type string_t = as_string

-- `args[I].as<...>()...`; an index beyond the end is undefined.
unfoldable pub converted : (ts : List Scalar) → List Wrapped → Answer (Arguments ts)
unfolding as_type
converted [] args = value tt
converted (t ∷ ts) [] = undefined
converted (t ∷ ts) (w ∷ ws) = do x ← as_type t w.raw; xs ← converted ts ws; pure (x, xs)

unfoldable pub make_typed_handler :
    (ts : List Scalar) (r : Scalar) → (Arguments ts → Answer (Element r)) → Handler
unfolding converted of_element
make_typed_handler ts r lambda args =
    if not (length args == length ts)
    then exception (text "wrong number of arguments")
    else do xs ← converted ts args; y ← lambda xs; pure (of_element r y)

-- The end of a trampoline with a result: whether it returns 0, and result_out.
unfoldable pub caught : Answer Wrapped → Answer (Bool × Value)
caught (value w) = value (true, w.raw)
caught (exception e) = value (false, null)
caught undefined = undefined
caught unfinished = unfinished

unfoldable pub trampoline : Handler → Items → Answer (Bool × Value)
unfolding caught deep_copy_items
trampoline handler args = deep_copy_items args >>= λ ws. caught (handler ws)

-- What a handler does that is given emit or recv: it returns, with a value where it has one, or
-- throws; it calls emit, which returns nothing; or it calls recv, and goes on with the chunk, or
-- none where that returned false.
pub data Script : Type 0 where
  returns : Wrapped → Script
  throws : List ℕ → Script
  emits : Wrapped → Script → Script
  receives : (Option Wrapped → Script) → Script

abbrev pub adopt_chunk : Option Value → Option Wrapped
adopt_chunk none = none
adopt_chunk (some v) = some (adopt v)

-- The handler, emitFn and recvFn, as the C library sees them. What emit returns is not used.
unfoldable pub script_program : Script → Program
script_program (returns w) = Program.returns true w.raw
script_program (throws e) = Program.returns false null
script_program (emits w rest) = Program.emits (some w.raw) (λ done. script_program rest)
script_program (receives k) = Program.receives (λ got. script_program (k (adopt_chunk got)))

unfoldable pub stream_trampoline : (List Wrapped → Script) → Items → Answer Program
unfolding script_program deep_copy_items
stream_trampoline handler args = deep_copy_items args >>= λ ws. pure (script_program (handler ws))

unfoldable pub client_stream_trampoline : Script → Program
unfolding script_program
client_stream_trampoline handler = script_program handler

unfoldable pub bidi_trampoline : Script → Program
unfolding script_program
bidi_trampoline handler = script_program handler
