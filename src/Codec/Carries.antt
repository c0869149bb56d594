-- ===== src/Codec/Carries.antt =====
-- Every message encoder of c/src/codec.c against callwire_codec_decode.
use callwire.Base.{
  ℕ, suc, ◌^◌, ◌<◌, ◌≡◌, Bool, true, false, List, [], ◌++◌, arith, Option, some, if◌then◌else◌, leb,
  length, text, c_string, ap, sym, ◌∙◌, subst, NoZero, c_string-NoZero,
}
use callwire.Value.{Value, Items, count_items, IsValid, IsValidItems, Message}
use callwire.Mpack.Format.{map_head}
use callwire.Mpack.Writer.{Write}
use callwire.Mpack.Writes.{Appends}
use callwire.Mpack.Reads.{Reads}
use callwire.Codec.Outcome.{ok, failed}
use callwire.Codec.Encode.{
  Encoded, buf_limit, or_default, encode_with_growth, encode_request, encode_bidi_request,
  request_message, result_message, encode_response, encode_error, encode_stream_chunk,
  encode_stream_end, encode_stream_close,
}
use callwire.Codec.EncodeValue.{pointed}
use callwire.Codec.Growth.{encode_with_growth_lem}
use callwire.Codec.Parse.{codec_decode, decode_fields, empty_message}
use callwire.Codec.Fields.{payload_decoded}
use callwire.Codec.Depth.{depth-le-length, depth_items-le-length, lengths}
use callwire.Codec.Message.{
  request_rest, result_rest, error_rest, id_only_rest, request_count, request_message-Appends,
  result_message-Appends, error_message-Appends, id_only_message-Appends,
}
use callwire.Codec.RoundTrip.{
  result-Reads_rest, error-Reads_rest, id_only-Reads_rest, request-Reads_rest,
}

-- The encoder returns `payload` if it has at most 64 MB and fails otherwise, and `payload` decodes
-- to `msg`.
abbrev pub Carries : (ℕ → Bool) → Encoded → List ℕ → Message → Type 0
Carries alloc e payload msg =
    (e ≡ (if leb (length payload) buf_limit then ok payload else failed))
    × (codec_decode alloc payload ≡ ok msg)

carried :
    (alloc : ℕ → Bool)
    → ((n : ℕ) → alloc n ≡ true)
    → (fn : Write) (n : ℕ) (rest : List ℕ) {msg : Message} → n < 2 ^ 32
    → Appends fn (map_head n ++ rest)
    → Reads (decode_fields alloc (suc (length (map_head n ++ rest))) n empty_message) rest (ok msg)
    → Carries alloc (encode_with_growth alloc fn) (map_head n ++ rest) msg
carried alloc enough fn n rest h a r = (
  encode_with_growth_lem alloc enough fn (map_head n ++ rest) a,
  payload_decoded alloc n rest h r,
)

-- The message of an error reply.
abbrev pub error_reply : ℕ → List ℕ → List ℕ → Message
error_reply id error_type message = record empty_message {
  id = id;
  type = some (text "error");
  error_type = some error_type;
  message = some message;
}

module _ (alloc : ℕ → Bool) (enough : (n : ℕ) → alloc n ≡ true) (id : ℕ) (small : id < 2 ^ 64) where
  result-Carries :
      (type : List ℕ) (o : Option Value)
      → length type < 2 ^ 32
      → IsValid (pointed o)
      → Carries alloc
          (encode_with_growth alloc (result_message type id o))
          (map_head 3 ++ result_rest type id (pointed o))
          (record empty_message { id = id; type = some type; result = pointed o })
  result-Carries type o t v =
      carried alloc enough _ 3 _ (omega arith) (result_message-Appends type id o t small v) (
        result-Reads_rest alloc enough _ id small type (pointed o) t v
          (omega (lengths, depth-le-length (pointed o))))

  -- Where every allocation succeeds: a response, and likewise a stream chunk, with a valid value is
  -- encoded if its payload has at most 64 MB, and its payload decodes to the message with the same
  -- id, its type and the same value (null for a null pointer).
  pub encode_response-codec_decode :
      (o : Option Value)
      → IsValid (pointed o)
      → Carries alloc
          (encode_response alloc id o)
          (map_head 3 ++ result_rest (text "response") id (pointed o))
          (record empty_message { id = id; type = some (text "response"); result = pointed o })
        × Carries alloc
            (encode_stream_chunk alloc id o)
            (map_head 3 ++ result_rest (text "stream_chunk") id (pointed o))
            (record empty_message {
              id = id;
              type = some (text "stream_chunk");
              result = pointed o;
            })
  unfolding encode_response encode_stream_chunk
  encode_response-codec_decode o v = (
    result-Carries (text "response") o (omega arith) v,
    result-Carries (text "stream_chunk") o (omega arith) v,
  )

  -- Where every allocation succeeds: an error message is encoded if its payload has at most 64 MB,
  -- and its payload decodes to the same id, with the error type and the message that were given, up
  -- to their first zero and shorter than 2^32 bytes; `Error` and the empty text stand for null
  -- pointers.
  pub encode_error-codec_decode :
      (error_type message : Option (List ℕ))
      → length (c_string (or_default error_type (text "Error"))) < 2 ^ 32
      → length (c_string (or_default message [])) < 2 ^ 32
      → Carries alloc
          (encode_error alloc id error_type message)
          (map_head 4
            ++ error_rest id
                (c_string (or_default error_type (text "Error")))
                (c_string (or_default message [])))
          (record empty_message {
            id = id;
            type = some (text "error");
            error_type = some (c_string (or_default error_type (text "Error")));
            message = some (c_string (or_default message []));
          })
  unfolding encode_error
  encode_error-codec_decode error_type message t m =
      carried alloc enough _ 4 _ (omega arith)
        (error_message-Appends id error_type message small t m)
        (error-Reads_rest alloc enough _ id small _ _ t m)

  -- The same for texts without a zero.
  pub error-Carries :
      (error_type message : List ℕ)
      → NoZero error_type
      → NoZero message
      → length error_type < 2 ^ 32
      → length message < 2 ^ 32
      → Carries alloc
          (encode_error alloc id (some error_type) (some message))
          (map_head 4 ++ error_rest id error_type message)
          (error_reply id error_type message)
  error-Carries error_type message t m t_fits m_fits =
      let et = c_string-NoZero error_type t in
      let em = c_string-NoZero message m in
      subst
        (λ (p : List ℕ × List ℕ).
          Carries alloc (encode_error alloc id (some error_type) (some message))
            (map_head 4 ++ error_rest id p.0 p.1) (error_reply id p.0 p.1))
        (ap (λ z. (z, c_string message)) et ∙ ap (λ z. (error_type, z)) em)
        (encode_error-codec_decode (some error_type) (some message)
          (subst (λ z. length z < 2 ^ 32) (sym et) t_fits)
          (subst (λ z. length z < 2 ^ 32) (sym em) m_fits))

  -- Where every allocation succeeds: a stream end and a stream close are encoded if their payloads
  -- have at most 64 MB, and these decode to messages with the same id, their type and nothing else.
  pub encode_stream_end-codec_decode :
      Carries alloc
        (encode_stream_end alloc id)
        (map_head 2 ++ id_only_rest (text "stream_end") id)
        (record empty_message { id = id; type = some (text "stream_end") })
      × Carries alloc
          (encode_stream_close alloc id)
          (map_head 2 ++ id_only_rest (text "stream_close") id)
          (record empty_message { id = id; type = some (text "stream_close") })
  unfolding encode_stream_end encode_stream_close
  encode_stream_end-codec_decode = (
    carried alloc enough _ 2 _ (omega arith)
        (id_only_message-Appends id (text "stream_end") small (omega arith))
        (id_only-Reads_rest alloc enough _ id small (text "stream_end") (omega arith)),
    carried alloc enough _ 2 _ (omega arith)
        (id_only_message-Appends id (text "stream_close") small (omega arith))
        (id_only-Reads_rest alloc enough _ id small (text "stream_close") (omega arith)),
  )

  -- The message that a request decodes to.
  abbrev pub requested : Option (List ℕ) → Items → Bool → Message
  requested func args stream = record empty_message {
    id = id;
    type = some (text "request");
    func = some (c_string (or_default func []));
    args = args;
    stream = stream;
  }

  request-Carries :
      (func : Option (List ℕ)) (args : Items) (stream : Bool)
      → length (c_string (or_default func [])) < 2 ^ 32
      → count_items args < 2 ^ 32
      → IsValidItems args
      → Carries alloc
          (encode_with_growth alloc (request_message id func args stream))
          (map_head (request_count stream)
            ++ request_rest id (c_string (or_default func [])) args stream)
          (requested func args stream)
  request-Carries func args stream n c v =
      carried alloc enough _ (request_count stream) _ (ground arith)
        (request_message-Appends id func args stream small n c v)
        (request-Reads_rest alloc enough _ id small _ args stream n c v
          (omega (lengths, depth_items-le-length args)))

  -- Where every allocation succeeds: a request with valid arguments, plain or bidirectional, is
  -- encoded if its payload has at most 64 MB, and its payload decodes to the same id, function name
  -- (up to its first zero) and arguments, with the stream flag set exactly for the bidirectional
  -- one.
  pub encode_request-codec_decode :
      (func : Option (List ℕ)) (args : Items)
      → length (c_string (or_default func [])) < 2 ^ 32
      → count_items args < 2 ^ 32
      → IsValidItems args
      → Carries alloc
          (encode_request alloc id func args)
          (map_head 4 ++ request_rest id (c_string (or_default func [])) args false)
          (requested func args false)
        × Carries alloc
            (encode_bidi_request alloc id func args)
            (map_head 5 ++ request_rest id (c_string (or_default func [])) args true)
            (requested func args true)
  unfolding encode_request encode_bidi_request
  encode_request-codec_decode func args n c v =
      (request-Carries func args false n c v, request-Carries func args true n c v)
