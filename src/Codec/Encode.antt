-- ===== src/Codec/Encode.antt =====
-- c/src/codec.c: encode_value, and encode_with_growth over the message encoders.
use callwire.Base.{
  ℕ, zero, suc, ◌*◌, ◌%◌, ◌^◌, Bool, true, false, not, List, [], Option, none, some, ltb,
  if◌then◌else◌, text, c_string, to_signed,
}
use callwire.Value.{
  Value, Items, Pairs, null, bool, int64, float64, string, binary, array, map, no_items, item,
  no_pairs, pair, count_items, count_pairs,
}
use callwire.Mpack.Writer.{
  Writer, Write, ◌>>◌, init, write_nil, write_bool, write_int64, write_double, write_str, write_bin,
  write_array_header, write_map_header,
}
use callwire.Codec.Outcome.{Outcome, ok, failed, out_of_fuel}

unfoldable mutual
  pub encode_value : Value → Write
  encode_value null = write_nil
  encode_value (bool b) = write_bool b
  encode_value (int64 v) = write_int64 v
  encode_value (float64 u) = write_double u
  encode_value (string bs) = write_str bs
  encode_value (binary bs) = write_bin bs
  encode_value (array vs) = do write_array_header (count_items vs % 2 ^ 32); encode_items vs
  encode_value (map ps) = do write_map_header (count_pairs ps % 2 ^ 32); encode_pairs ps

  pub encode_items : Items → Write
  encode_items no_items w = w
  encode_items (item v vs) w = encode_items vs (encode_value v w)

  pub encode_pairs : Pairs → Write
  encode_pairs no_pairs w = w
  encode_pairs (pair k v ps) w = encode_pairs ps (encode_value v (encode_value k w))

-- A null pointer is written as nil.
unfoldable pub encode_pointer : Option Value → Write
encode_pointer none = write_nil
encode_pointer (some v) = encode_value v

abbrev pub buf_initial_size : ℕ
buf_initial_size = 4096

abbrev pub buf_limit : ℕ
buf_limit = 64 * 1024 * 1024

-- The payload, in a buffer of its own.
abbrev pub Encoded : Type 0
Encoded = Outcome (List ℕ)

-- `s ? s : d`.
abbrev pub or_default : Option (List ℕ) → List ℕ → List ℕ
or_default none d = d
or_default (some s) d = s

unfoldable pub request_message : ℕ → Option (List ℕ) → Items → Bool → Write
request_message id func args stream = do
  write_map_header (if stream then 5 else 4)
  write_str (text "id")
  write_int64 (to_signed (2 ^ 63) id)
  write_str (text "type")
  write_str (text "request")
  write_str (text "func")
  write_str (c_string (or_default func []))
  write_str (text "args")
  write_array_header (count_items args % 2 ^ 32)
  encode_items args
  if stream then (do write_str (text "stream"); write_bool true) else (λ w. w)

unfoldable pub result_message : List ℕ → ℕ → Option Value → Write
result_message type id result = do
  write_map_header 3
  write_str (text "id")
  write_int64 (to_signed (2 ^ 63) id)
  write_str (text "type")
  write_str type
  write_str (text "result")
  encode_pointer result

unfoldable pub error_message : ℕ → Option (List ℕ) → Option (List ℕ) → Write
error_message id error_type message = do
  write_map_header 4
  write_str (text "id")
  write_int64 (to_signed (2 ^ 63) id)
  write_str (text "type")
  write_str (text "error")
  write_str (text "error_type")
  write_str (c_string (or_default error_type (text "Error")))
  write_str (text "message")
  write_str (c_string (or_default message []))

unfoldable pub id_only_message : ℕ → List ℕ → Write
id_only_message id type = do
  write_map_header 2
  write_str (text "id")
  write_int64 (to_signed (2 ^ 63) id)
  write_str (text "type")
  write_str type

module _ (alloc : ℕ → Bool) where
  -- The loop of encode_with_growth. The capacity doubles up to `buf_limit`, so it is tried at most
  -- 15 times.
  unfoldable pub grow : (Writer → Writer) → ℕ → ℕ → Encoded
  grow fn zero cap = out_of_fuel
  grow fn (suc fuel) cap =
      let w = fn (init cap) in
      let bigger = grow fn fuel (cap * 2) in
      if not (alloc cap)
      then failed
      else if not w.overflow
      then ok w.written
      else if ltb buf_limit (cap * 2)
      then failed
      else bigger

  unfoldable pub encode_with_growth : (Writer → Writer) → Encoded
  encode_with_growth fn = grow fn 15 buf_initial_size

  unfoldable pub encode_request : ℕ → Option (List ℕ) → Items → Encoded
  encode_request id func args = encode_with_growth (request_message id func args false)

  unfoldable pub encode_bidi_request : ℕ → Option (List ℕ) → Items → Encoded
  encode_bidi_request id func args = encode_with_growth (request_message id func args true)

  unfoldable pub encode_response : ℕ → Option Value → Encoded
  encode_response id result = encode_with_growth (result_message (text "response") id result)

  unfoldable pub encode_error : ℕ → Option (List ℕ) → Option (List ℕ) → Encoded
  encode_error id error_type message = encode_with_growth (error_message id error_type message)

  unfoldable pub encode_stream_chunk : ℕ → Option Value → Encoded
  encode_stream_chunk id result =
      encode_with_growth (result_message (text "stream_chunk") id result)

  unfoldable pub encode_stream_end : ℕ → Encoded
  encode_stream_end id = encode_with_growth (id_only_message id (text "stream_end"))

  unfoldable pub encode_stream_close : ℕ → Encoded
  encode_stream_close id = encode_with_growth (id_only_message id (text "stream_close"))
