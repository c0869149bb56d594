-- ===== src/Codec/Tests.antt =====
-- Runs of c/src/codec.c on small inputs.
use callwire.Base.{
  ℕ, refl, Bool, true, false, [], ◌∷◌, ◌++◌, none, some, arith, text, c_string, pos, negsuc,
}
use callwire.Value.{bool, int64, string, array, map, Items, no_items, item, no_pairs, pair, Value}
use callwire.Mpack.Format.{map_head}
use callwire.Codec.Encode.{
  encode_request, encode_bidi_request, encode_response, encode_stream_chunk, encode_error,
  encode_stream_end, encode_stream_close,
}
use callwire.Codec.Parse.{codec_decode, empty_message}
use callwire.Codec.Message.{request_rest, result_rest, error_rest, id_only_rest}
use callwire.Codec.Carries.{
  Carries, requested, encode_request-codec_decode, encode_response-codec_decode,
  encode_error-codec_decode, encode_stream_end-codec_decode,
}
use callwire.Codec.TotalMessage.{codec_decode-IsReturn}
use callwire.Codec.Total.{IsReturn}

abbrev always : ℕ → Bool
always n = true

abbrev arguments : Items
arguments =
    item (int64 (negsuc 299))
      (item (map (pair (string (text "k")) (array no_items) no_pairs)) no_items)

abbrev answer : Value
answer = array (item (bool true) (item (int64 (pos 70000)) no_items))

encode_request-codec_decode_example :
    Carries always
      (encode_request always 42 (some (text "add")) arguments)
      (map_head 4 ++ request_rest 42 (c_string (text "add")) arguments false)
      (requested always (λ _. refl) 42 (omega arith) (some (text "add")) arguments false)
    × Carries always
        (encode_bidi_request always 42 (some (text "add")) arguments)
        (map_head 5 ++ request_rest 42 (c_string (text "add")) arguments true)
        (requested always (λ _. refl) 42 (omega arith) (some (text "add")) arguments true)
unfolding c_string
encode_request-codec_decode_example =
    encode_request-codec_decode always (λ _. refl) 42 (omega arith) (some (text "add")) arguments
      (omega arith) (omega arith)
      (omega arith, ((omega arith, (omega arith, (omega arith, tt), tt)), tt))

encode_response-codec_decode_example :
    Carries always
      (encode_response always 7 (some answer))
      (map_head 3 ++ result_rest (text "response") 7 answer)
      (record empty_message { id = 7; type = some (text "response"); result = answer })
    × Carries always
        (encode_stream_chunk always 7 (some answer))
        (map_head 3 ++ result_rest (text "stream_chunk") 7 answer)
        (record empty_message { id = 7; type = some (text "stream_chunk"); result = answer })
encode_response-codec_decode_example =
    encode_response-codec_decode always (λ _. refl) 7 (omega arith) (some answer)
      (omega arith, (tt, (omega arith, tt)))

encode_error-codec_decode_example :
    Carries always
      (encode_error always 7 none (some (text "no")))
      (map_head 4 ++ error_rest 7 (c_string (text "Error")) (c_string (text "no")))
      (record empty_message {
        id = 7;
        type = some (text "error");
        error_type = some (c_string (text "Error"));
        message = some (c_string (text "no"));
      })
unfolding c_string
encode_error-codec_decode_example =
    encode_error-codec_decode always (λ _. refl) 7 (omega arith) none (some (text "no"))
      (omega arith) (omega arith)

encode_stream_end-codec_decode_example :
    Carries always
      (encode_stream_end always 7)
      (map_head 2 ++ id_only_rest (text "stream_end") 7)
      (record empty_message { id = 7; type = some (text "stream_end") })
    × Carries always
        (encode_stream_close always 7)
        (map_head 2 ++ id_only_rest (text "stream_close") 7)
        (record empty_message { id = 7; type = some (text "stream_close") })
encode_stream_end-codec_decode_example =
    encode_stream_end-codec_decode always (λ _. refl) 7 (omega arith)

-- A truncated map.
codec_decode-IsReturn_example : IsReturn (codec_decode always (0x82 ∷ 0xA2 ∷ 0x69 ∷ []))
codec_decode-IsReturn_example = codec_decode-IsReturn always (λ _. refl) (0x82 ∷ 0xA2 ∷ 0x69 ∷ [])
