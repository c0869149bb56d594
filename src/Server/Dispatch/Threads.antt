-- ===== src/Server/Dispatch/Threads.antt =====
-- The replies of the dispatch threads of c/src/server.c.
use callwire.Base.{
  ℕ, ◌^◌, ◌≤◌, ◌<◌, ◌≡◌, refl, ap, Bool, true, false, List, ◌++◌, some, arith, if◌then◌else◌, not,
  length, text, Bool-cases, inl, inr, no_zero-NoZero,
}
use callwire.Value.{Value, Items, IsValid, Message}
use callwire.Mpack.Format.{map_head}
use callwire.Codec.Parse.{empty_message}
use callwire.Codec.Message.{result_rest}
use callwire.Codec.Carries.{
  error_reply, encode_response-codec_decode, encode_stream_end-codec_decode,
}
use callwire.Client.Streams.{end_payload, end_payload-fits}
use callwire.Framing.{max_frame_size}
use callwire.Server.Registry.{HandlerKind, RegistryEntry}
use callwire.Server.Connection.{Conn}
use callwire.Server.Connection.Writes.{
  Writes, error_payload, write_encoded-Writes, write_encoded-oversized, write_error-Writes,
}
use callwire.Server.Dispatch.{Program, has_result, reply}

-- What a client is told of a handler that returned `result`, with 0 or not.
abbrev pub reply_message : ℕ → HandlerKind → Bool → Value → Message
reply_message id kind ok result =
    if not ok
    then error_reply id (text "Error") (text "handler returned an error")
    else if has_result kind
    then record empty_message { id = id; type = some (text "response"); result = result }
    else record empty_message { id = id; type = some (text "stream_end") }

abbrev pub response_payload : ℕ → Value → List ℕ
response_payload id v = map_head 3 ++ result_rest (text "response") id v

abbrev pub reply_payload : ℕ → HandlerKind → Bool → Value → List ℕ
reply_payload id kind ok result =
    if not ok
    then error_payload id (text "Error") (text "handler returned an error")
    else if has_result kind
    then response_payload id result
    else end_payload id

module _ (alloc : ℕ → Bool) (unary_fn : RegistryEntry → Items → Bool × Value)
    (program : RegistryEntry → Items → Program) (enough : (n : ℕ) → alloc n ≡ true) (conn : Conn)
    (id : ℕ) (small : id < 2 ^ 64) where
  -- Where every allocation succeeds: the reply of a dispatch thread, of any kind, is one call of
  -- write_frame and nothing else, on the payload of an error if the handler did not return 0, else
  -- of its result, or of a stream end where the kind has no result, under the id of the request.
  -- The payload decodes to that message, and its frame goes out whole where write_frame returns 0,
  -- and else a proper prefix of it. The result is valid and its response has at most 16 MB.
  pub reply-Writes :
      (kind : HandlerKind) (ok : Bool) (result : Value)
      → IsValid result
      → length (response_payload id result) ≤ max_frame_size
      → Writes alloc
          (reply_message id kind ok result)
          (reply_payload id kind ok result)
          conn
          (reply alloc unary_fn program conn id kind ok result)
  unfolding reply
  reply-Writes kind false result v fits =
      write_error-Writes alloc enough conn id small (text "Error")
        (text "handler returned an error") (no_zero-NoZero (text "Error") refl)
        (no_zero-NoZero (text "handler returned an error") refl) (omega arith)
  reply-Writes kind true result v fits = elim (Bool-cases (has_result kind)) [
    | inl k ↦ rw k (
        write_encoded-Writes alloc conn _ _ _
          (encode_response-codec_decode alloc enough id small (some result) v).0 fits)
    | inr k ↦ rw k (
        write_encoded-Writes alloc conn _ _ _
          (encode_stream_end-codec_decode alloc enough id small).0 (end_payload-fits id))
  ]

  -- Where every allocation succeeds: a handler of a kind with a result that returns 0 with a valid
  -- result, whose response has more than 16 MB, is not answered: nothing is written, no error
  -- message either.
  pub reply-oversized :
      (kind : HandlerKind) (result : Value)
      → has_result kind ≡ true
      → IsValid result
      → max_frame_size < length (response_payload id result)
      → reply alloc unary_fn program conn id kind true result ≡ conn
  unfolding reply
  reply-oversized kind result k v large = rw k (
      ap (λ p. p.1)
        (write_encoded-oversized alloc conn _ _ _
          (encode_response-codec_decode alloc enough id small (some result) v).0 large))
