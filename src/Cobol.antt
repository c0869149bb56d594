-- ===== src/Cobol.antt =====
-- cobol/src/cobol_shim.c: the calls and the handlers of COBOL programs. The programs are not part of
-- the repository: `cob_int2` and `cob_str1` say what cob_call does for the program with a name, and
-- give none where it does not return 0. The contexts that the exports allocate are their program
-- names, which a handler finds by its userdata. The allocation of a text result is taken to succeed.
pub mod Exports
pub mod Text
mod Tests
use callwire.Base.{
  ℕ, zero, suc, ◌+◌, ◌-◌, Bool, true, false, ◌||◌, not, List, [], ◌∷◌, ◌++◌, Option, none, some,
  ltb, ◌==◌, if◌then◌else◌, length, take, replicate, get_or, c_string, ℤ,
}
use callwire.Value.{Value, int64, string, Items, no_items, item}
use callwire.Codec.Outcome.{Outcome, ok, failed}
use callwire.Client.{Session, M, bind, is_some, call}
use callwire.Convenience.{silent, int_items, int_result, str_result, arg_items, usable, buffer}

abbrev pub cobol_max_args : ℕ
cobol_max_args = 16

unfoldable pub cobol_call_ints : (ℕ → Bool) → Bool → Option (List ℕ) → List ℤ → M ℤ
cobol_call_ints alloc present func args s =
    if not present || not (is_some func) || ltb cobol_max_args (length args)
    then silent s
    else bind (call alloc true func (int_items args) s) int_result

unfoldable pub cobol_call_str :
    (ℕ → Bool) → Bool → Option (List ℕ) → Option (List ℕ) → Option ℕ → M (List ℕ)
cobol_call_str alloc present func arg buf_len s =
    if not present || not (is_some func) || not (usable buf_len)
    then silent s
    else bind (call alloc true func (arg_items arg) s) (str_result (buffer buf_len))

-- sizeof(in_buf), and a blank.
abbrev pub text_size : ℕ
text_size = 256

abbrev pub blank : ℕ
blank = 32

-- The text in a buffer that is filled up with blanks.
unfoldable pub padded : List ℕ → List ℕ
padded bs = take text_size bs ++ replicate (text_size - length bs) blank

-- The loop that trims the blanks at the end.
unfoldable pub trimmed_length : ℕ → List ℕ → ℕ
trimmed_length zero out = 0
trimmed_length (suc n) out =
    let shorter = trimmed_length n out in if get_or out n 0 == blank then shorter else suc n

unfoldable pub trimmed : List ℕ → List ℕ
unfolding trimmed_length
trimmed out = take (trimmed_length text_size out) out

abbrev pub int_of : Option ℤ → Option Value
int_of none = none
int_of (some n) = some (int64 n)

unfoldable pub int2_trampoline : (List ℕ → ℤ → ℤ → Option ℤ) → List ℕ → Items → Option Value
int2_trampoline cob_int2 program (item (int64 a) (item (int64 b) no_items)) =
    int_of (cob_int2 program a b)
int2_trampoline cob_int2 program _ = none

abbrev pub text_of : Option (List ℕ) → Option Value
text_of none = none
text_of (some out) = some (string (trimmed out))

unfoldable pub str1_trampoline : (List ℕ → List ℕ → Option (List ℕ)) → List ℕ → Items → Option Value
unfolding padded trimmed
str1_trampoline cob_str1 program (item (string bs) no_items) =
    text_of (cob_str1 program (padded bs))
str1_trampoline cob_str1 program _ = none
