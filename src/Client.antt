-- ===== src/Client.antt =====
-- c/src/client.c: the calls of a client. One call is in flight at a time, so a client is its socket
-- and its counter; the thread's error buffer goes along with them. `present` says that the client
-- pointer is not null: where it is, only the error buffer of the session is meaningful. The buffers
-- that the calls free are not modelled.
pub mod Lifecycle
pub mod Replies
pub mod Streams
mod Tests
use callwire.Base.{
  ℕ, ◌+◌, ◌%◌, ◌^◌, Bool, true, false, ◌&&◌, List, [], ◌++◌, Option, none, some, if◌then◌else◌,
  text, c_string, same_string,
}
use callwire.Value.{Value, Items, no_items, Message}
use callwire.Errors.{error_set}
use callwire.Codec.Outcome.{Outcome, ok, failed, crashed, out_of_fuel}
use callwire.Codec.Encode.{
  Encoded, or_default, encode_request, encode_bidi_request, encode_stream_chunk, encode_stream_end,
  encode_stream_close,
}
use callwire.Codec.Parse.{codec_decode}
use callwire.Framing.{Socket, read_frame, write_frame}

pub record Session : Type 0 where
  pub socket : Socket
  pub next_id : ℕ
  pub error : List ℕ

-- The return value -1 (0 where an id is returned) is `failed`.
abbrev pub M : Type 0 → Type 0
M A = Session → Outcome A × Session

infixl 5 ◌>>=◌ ◌>>◌
abbrev pub bind : {A B : Type 0} → Outcome A × Session → (A → M B) → Outcome B × Session
bind (ok a, s) k = k a s
bind (failed, s) k = (failed, s)
bind (crashed, s) k = (crashed, s)
bind (out_of_fuel, s) k = (out_of_fuel, s)

abbrev pub ◌>>=◌ : {A B : Type 0} → M A → (A → M B) → M B
(m >>= k) s = bind (m s) k

abbrev pub ◌>>◌ : {A B : Type 0} → M A → M B → M B
(m >> k) s = bind (m s) (λ _. k)

abbrev pub pure : {A : Type 0} → A → M A
pure a s = (ok a, s)

-- callwire_error_set, and the failure that is returned.
unfoldable pub fail : {A : Type 0} → List ℕ → M A
fail message s = (failed, record s { error = error_set message })

-- The guard on the arguments.
abbrev pub require : Bool → M (Unit {0})
require c = if c then pure tt else fail (text "invalid argument")

abbrev pub is_some : Option (List ℕ) → Bool
is_some none = false
is_some (some bs) = true

unfoldable pub next_id : M ℕ
next_id s = let id = (s.next_id + 1) % 2 ^ 64 in (ok id, record s { next_id = id })

-- `if (encode(...) != 0) { error_set(message); return -1; }`
abbrev pub encoded : Encoded → List ℕ → M (List ℕ)
encoded (ok payload) message s = (ok payload, s)
encoded failed message s = fail message s
encoded crashed message s = (crashed, s)
encoded out_of_fuel message s = (out_of_fuel, s)

-- `msg.type && strcmp(msg.type, name) == 0`
unfoldable pub has_type : Message → List ℕ → Bool
has_type msg name = elim msg.type [ none ↦ false | some t ↦ same_string t name ]

-- The format "%s: %s" of an error reply.
unfoldable pub error_text : Message → List ℕ
error_text msg =
    c_string (or_default msg.error_type (text "Error"))
    ++ (text ": " ++ c_string (or_default msg.message (text "unknown error")))

pub data Chunk : Type 0 where
  chunk : Value → Chunk
  ended : Chunk

-- The result of a call that ends: any type but `error` is taken for a response.
unfoldable pub final_reply : Message → M Value
final_reply msg = if has_type msg (text "error") then fail (error_text msg) else pure msg.result

unfoldable pub stream_reply : Message → M Chunk
stream_reply msg =
    if has_type msg (text "stream_chunk")
    then pure (chunk msg.result)
    else if has_type msg (text "stream_end")
    then pure ended
    else if has_type msg (text "error")
    then fail (error_text msg)
    else fail (text "unexpected message type during stream recv")

module _ (alloc : ℕ → Bool) where
  unfoldable pub decoded : Outcome Message → M Message
  decoded (ok msg) s = (ok msg, s)
  decoded failed s = fail (text "failed to decode server response") s
  decoded crashed s = (crashed, s)
  decoded out_of_fuel s = (out_of_fuel, s)

  unfoldable pub received : Option (List ℕ) → M Message
  unfolding decoded
  received none = fail (text "connection read failed or closed")
  received (some payload) = decoded (codec_decode alloc payload)

  unfoldable pub read_wire_message : M Message
  unfolding received
  read_wire_message s =
      let (payload, socket) = read_frame alloc s.socket in
      received payload (record s { socket = socket })

  unfoldable pub write_payload : List ℕ → M (Unit {0})
  write_payload payload s =
      let (done, socket) = write_frame payload s.socket in
      let s' = record s { socket = socket } in
      if done then (ok tt, s') else fail (text "connection write failed") s'

  unfoldable pub call : Bool → Option (List ℕ) → Items → M Value
  unfolding next_id write_payload read_wire_message final_reply fail
  call present func args = do
    require (present && is_some func)
    id ← next_id
    payload ← encoded (encode_request alloc id func args) (text "failed to encode request")
    write_payload payload
    msg ← read_wire_message
    final_reply msg

  unfoldable pub stream_begin : Bool → Option (List ℕ) → Items → M ℕ
  unfolding next_id write_payload fail
  stream_begin present func args = do
    require (present && is_some func)
    id ← next_id
    payload ← encoded (encode_request alloc id func args) (text "failed to encode request")
    write_payload payload
    pure id

  unfoldable pub stream_recv : Bool → M Chunk
  unfolding read_wire_message stream_reply fail
  stream_recv present = do require present; msg ← read_wire_message; stream_reply msg

  unfoldable pub export_stream_begin : Bool → Option (List ℕ) → M ℕ
  unfolding next_id write_payload fail
  export_stream_begin present func = do
    require (present && is_some func)
    id ← next_id
    payload ← encoded (encode_request alloc id func no_items) (text "failed to encode request")
    write_payload payload
    pure id

  unfoldable pub export_stream_send : Bool → ℕ → Option Value → M (Unit {0})
  unfolding write_payload fail
  export_stream_send present stream_id value = do
    require present
    payload ←
        encoded (encode_stream_chunk alloc stream_id value) (text "failed to encode stream chunk")
    write_payload payload

  unfoldable pub export_stream_close : Bool → ℕ → M Value
  unfolding write_payload read_wire_message final_reply fail
  export_stream_close present stream_id = do
    require present
    payload ← encoded (encode_stream_close alloc stream_id) (text "failed to encode stream close")
    write_payload payload
    msg ← read_wire_message
    final_reply msg

  unfoldable pub bidi_stream_begin : Bool → Option (List ℕ) → M ℕ
  unfolding next_id write_payload fail
  bidi_stream_begin present func = do
    require (present && is_some func)
    id ← next_id
    payload ←
        encoded (encode_bidi_request alloc id func no_items) (text "failed to encode bidi request")
    write_payload payload
    pure id

  unfoldable pub bidi_stream_send : Bool → ℕ → Option Value → M (Unit {0})
  unfolding write_payload fail
  bidi_stream_send present stream_id value = do
    require present
    payload ←
        encoded (encode_stream_chunk alloc stream_id value) (text "failed to encode stream chunk")
    write_payload payload

  unfoldable pub bidi_stream_recv : Bool → M Chunk
  unfolding stream_recv
  bidi_stream_recv present = stream_recv present

  unfoldable pub bidi_stream_close_send : Bool → ℕ → M (Unit {0})
  unfolding write_payload fail
  bidi_stream_close_send present stream_id = do
    require present
    payload ← encoded (encode_stream_end alloc stream_id) (text "failed to encode stream end")
    write_payload payload
