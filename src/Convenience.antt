-- ===== src/Convenience.antt =====
-- c/src/convenience.c: calls with integers or with a string, over the client's call.
pub mod Results
mod Tests
use callwire.Base.{
  ℕ, ◌-◌, Bool, true, false, ◌&&◌, ◌||◌, not, List, [], ◌∷◌, Option, none, some, ltb, ◌==◌,
  if◌then◌else◌, length, take, c_string, ℤ,
}
use callwire.Value.{
  Value, null, bool, int64, float64, string, binary, array, map, Items, no_items, item,
}
use callwire.Codec.Outcome.{Outcome, ok, failed}
use callwire.Client.{Session, M, bind, is_some, call}

abbrev pub max_convenience_args : ℕ
max_convenience_args = 8

-- A failure that leaves the error text as it is.
abbrev pub silent : {A : Type 0} → M A
silent s = (failed, s)

abbrev pub int_items : List ℤ → Items
int_items [] = no_items
int_items (n ∷ ns) = item (int64 n) (int_items ns)

-- Only an integer is a result.
unfoldable pub int_result : Value → M ℤ
int_result (int64 n) s = (ok n, s)
int_result null s = (failed, s)
int_result (bool b) s = (failed, s)
int_result (float64 u) s = (failed, s)
int_result (string bs) s = (failed, s)
int_result (binary bs) s = (failed, s)
int_result (array vs) s = (failed, s)
int_result (map ps) s = (failed, s)

-- What is copied to a buffer of `len` > 0 bytes, without the closing zero.
unfoldable pub copied : List ℕ → ℕ → List ℕ
copied bs len = if ltb (length bs) len then bs else take (len - 1) bs

-- Only a string is a result.
unfoldable pub str_result : ℕ → Value → M (List ℕ)
unfolding copied
str_result len (string bs) s = (ok (copied bs len), s)
str_result len null s = (failed, s)
str_result len (bool b) s = (failed, s)
str_result len (int64 n) s = (failed, s)
str_result len (float64 u) s = (failed, s)
str_result len (binary bs) s = (failed, s)
str_result len (array vs) s = (failed, s)
str_result len (map ps) s = (failed, s)

-- `arg && arg[0] != '\0'`: a null pointer and the empty string are no argument.
abbrev pub str_items : List ℕ → Items
str_items [] = no_items
str_items (b ∷ bs) = item (string (b ∷ bs)) no_items

abbrev pub arg_items : Option (List ℕ) → Items
arg_items none = no_items
arg_items (some arg) = str_items (c_string arg)

-- `present`: the client pointer is not null.
unfoldable pub call_ints : (ℕ → Bool) → Bool → Option (List ℕ) → List ℤ → M ℤ
unfolding int_result
call_ints alloc present func args s =
    if not present || not (is_some func) || ltb max_convenience_args (length args)
    then silent s
    else bind (call alloc true func (int_items args) s) int_result

-- `buf_len` is none for a null result buffer.
abbrev pub usable : Option ℕ → Bool
usable none = false
usable (some len) = ltb 0 len

abbrev pub buffer : Option ℕ → ℕ
buffer none = 0
buffer (some len) = len

unfoldable pub call_str :
    (ℕ → Bool) → Bool → Option (List ℕ) → Option (List ℕ) → Option ℕ → M (List ℕ)
unfolding str_result
call_str alloc present func arg buf_len s =
    if not present || not (is_some func) || not (usable buf_len)
    then silent s
    else bind (call alloc true func (arg_items arg) s) (str_result (buffer buf_len))
