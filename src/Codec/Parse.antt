-- ===== src/Codec/Parse.antt =====
-- c/src/codec.c: callwire_codec_decode, from a payload to a message.
use callwire.Base.{
  ℕ, zero, suc, ◌+◌, ◌*◌, ◌^◌, Bool, false, ◌&&◌, not, List, Option, none, some, ltb, if◌then◌else◌,
  length, bytes_eq, text, to_unsigned,
}
use callwire.Value.{Value, Items, null, no_items, item, Message}
use callwire.Mpack.Reader.{
  Reader, init, try_read_bool, try_read_int64, try_read_str, try_read_array_header,
  try_read_map_header,
}
use callwire.Mpack.Skip.{skip_value}
use callwire.Codec.Outcome.{Outcome, ok, failed, crashed, out_of_fuel, Decoder, bind, ◌>>◌, pure}
use callwire.Codec.Decode.{value_size, attempt, decode_value}

-- After memset.
abbrev pub empty_message : Message
empty_message = record {
  id = 0;
  type = none;
  func = none;
  args = no_items;
  stream = false;
  result = null;
  error_type = none;
  message = none;
}

-- One element of `args`: a failed decode_value leaves the zeroed element, which is null, and the
-- loop goes on.
unfoldable pub keep_element : Outcome Value × Reader → Decoder Items → Outcome Items × Reader
keep_element (ok v, r) rest = bind (rest r) (λ vs. pure (item v vs))
keep_element (failed, r) rest = bind (rest r) (λ vs. pure (item null vs))
keep_element (crashed, r) rest = (crashed, r)
keep_element (out_of_fuel, r) rest = (out_of_fuel, r)

unfoldable pub decode_args : Decoder Value → ℕ → Decoder Items
unfolding keep_element
decode_args decode zero r = (ok no_items, r)
decode_args decode (suc n) r = keep_element (decode r) (decode_args decode n)

-- The same loop where calloc failed and `items` is null: the first element that decodes is stored
-- through it.
unfoldable pub store_nowhere : Outcome Value × Reader → Decoder Items → Outcome Items × Reader
store_nowhere (ok v, r) rest = (crashed, r)
store_nowhere (failed, r) rest = rest r
store_nowhere (crashed, r) rest = (crashed, r)
store_nowhere (out_of_fuel, r) rest = (out_of_fuel, r)

unfoldable pub decode_args_nowhere : Decoder Value → ℕ → Decoder Items
unfolding store_nowhere
decode_args_nowhere decode zero r = (ok no_items, r)
decode_args_nowhere decode (suc n) r = store_nowhere (decode r) (decode_args_nowhere decode n)

-- `decode_value(&r, &msg_out->result)`, whose return value is not read.
unfoldable pub keep_result : Outcome Value × Reader → Message → Outcome Message × Reader
keep_result (ok v, r) msg = (ok (record msg { result = v }), r)
keep_result (failed, r) msg = (ok msg, r)
keep_result (crashed, r) msg = (crashed, r)
keep_result (out_of_fuel, r) msg = (out_of_fuel, r)

-- `if (try_read(&r, &a)) store(a); else mpack_skip_value(&r);`
unfoldable pub read_or_skip :
    {A : Type 0}
    → (Reader → Option A × Reader)
    → (A → Message)
    → Decoder (Unit {0})
    → Message
    → Decoder Message
read_or_skip try store skip msg r =
    attempt (try r) (λ a. pure (store a)) λ r₁. bind (skip r₁) (λ _. pure msg)

-- The return value at the end.
unfoldable pub finish : Outcome Message × Reader → Outcome Message
finish (ok msg, r) = if r.error then failed else ok msg
finish (failed, r) = failed
finish (crashed, r) = crashed
finish (out_of_fuel, r) = out_of_fuel

module _ (alloc : ℕ → Bool) where
  unfoldable pub dup_str : List ℕ → Option (List ℕ)
  dup_str bs = if alloc (length bs + 1) then some bs else none

  unfoldable pub args_field : ℕ → Message → ℕ → Decoder Message
  unfolding decode_args decode_args_nowhere
  args_field fuel msg count r =
      let decode = decode_value alloc fuel in
      bind
        (if ltb 0 count && not (alloc (count * value_size))
          then decode_args_nowhere decode count r
          else decode_args decode count r)
        (λ vs. pure (record msg { args = vs }))

  unfoldable pub field : ℕ → List ℕ → Message → Decoder Message
  unfolding dup_str args_field keep_result read_or_skip
  field fuel key msg r =
      let skip = skip_value fuel in
      if bytes_eq key (text "id")
      then read_or_skip try_read_int64 (λ v. record msg { id = to_unsigned (2 ^ 64) v }) skip msg r
      else if bytes_eq key (text "type")
      then read_or_skip try_read_str (λ s. record msg { type = dup_str s }) skip msg r
      else if bytes_eq key (text "func")
      then read_or_skip try_read_str (λ s. record msg { func = dup_str s }) skip msg r
      else if bytes_eq key (text "args")
      then attempt (try_read_array_header r) (args_field fuel msg)
          (λ r₁. bind (skip r₁) (λ _. pure msg))
      else if bytes_eq key (text "stream")
      then read_or_skip try_read_bool (λ b. record msg { stream = b }) skip msg r
      else if bytes_eq key (text "result")
      then keep_result (decode_value alloc fuel r) msg
      else if bytes_eq key (text "error_type")
      then read_or_skip try_read_str (λ s. record msg { error_type = dup_str s }) skip msg r
      else if bytes_eq key (text "message")
      then read_or_skip try_read_str (λ s. record msg { message = dup_str s }) skip msg r
      else bind (skip r) (λ _. pure msg)

  -- The loop over the map's entries. An entry whose key is no string is skipped, and the error flag
  -- is not tested after it.
  unfoldable pub decode_fields : ℕ → ℕ → Message → Decoder Message
  decode_fields fuel zero msg r = (ok msg, r)
  decode_fields fuel (suc n) msg r =
      attempt (try_read_str r)
        (λ key r₁. bind (field fuel key msg r₁) λ msg' r₂.
          let next = decode_fields fuel n msg' r₂ in if r₂.error then (failed, r₂) else next)
        (λ r₁. bind ((skip_value fuel >> skip_value fuel) r₁) λ _. decode_fields fuel n msg)

  unfoldable pub codec_decode : List ℕ → Outcome Message
  unfolding field decode_fields finish
  codec_decode payload =
      attempt (try_read_map_header (init payload))
        (λ count r. finish (decode_fields (suc (length payload)) count empty_message r))
        (λ r. failed)
