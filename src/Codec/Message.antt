-- ===== src/Codec/Message.antt =====
-- The payloads of the messages of c/src/codec.c, as byte strings, and the encoders that append them.
use callwire.Base.{
  ℕ, ◌^◌, ◌<◌, Bool, true, List, [], ◌∷◌, ◌++◌, arith, Option, if◌then◌else◌, length, text,
  c_string, to_signed,
}
use callwire.Value.{Value, Items, count_items, IsValid, IsValidItems}
use callwire.Mpack.Format.{int_bytes, str_bytes, array_head, map_head, value_bytes, items_bytes}
use callwire.Mpack.Writer.{Write, ◌>>◌, write_str, write_bool}
use callwire.Mpack.Writes.{
  Appends, Appends->>, Appends-int64, Appends-str, Appends-bool, Appends-map_head, Appends-none,
  Appends-if,
}
use callwire.Codec.Fields.{id-IsInt64}
use callwire.Codec.Encode.{
  or_default, request_message, result_message, error_message, id_only_message,
}
use callwire.Codec.EncodeValue.{
  pointed, Appends-array_count, encode_items-Appends, encode_pointer-Appends,
}

-- `key: value` in a payload.
abbrev pub text_entry : List ℕ → List ℕ → List ℕ
text_entry key bs = str_bytes key ++ str_bytes bs

abbrev pub stream_entry : Bool → List ℕ
stream_entry stream = if stream then str_bytes (text "stream") ++ (0xC3 ∷ []) else []

abbrev pub request_rest : ℕ → List ℕ → Items → Bool → List ℕ
request_rest id func args stream =
    str_bytes (text "id")
    ++ (int_bytes (to_signed (2 ^ 63) id)
        ++ (str_bytes (text "type")
            ++ (str_bytes (text "request")
                ++ (str_bytes (text "func")
                    ++ (str_bytes func
                        ++ (str_bytes (text "args")
                            ++ ((array_head (count_items args) ++ items_bytes args)
                                ++ stream_entry stream)))))))

abbrev pub result_rest : List ℕ → ℕ → Value → List ℕ
result_rest type id result =
    str_bytes (text "id")
    ++ (int_bytes (to_signed (2 ^ 63) id)
        ++ (str_bytes (text "type")
            ++ (str_bytes type ++ (str_bytes (text "result") ++ value_bytes result))))

abbrev pub error_rest : ℕ → List ℕ → List ℕ → List ℕ
error_rest id error_type message =
    str_bytes (text "id")
    ++ (int_bytes (to_signed (2 ^ 63) id)
        ++ (str_bytes (text "type")
            ++ (str_bytes (text "error")
                ++ (str_bytes (text "error_type")
                    ++ (str_bytes error_type
                        ++ (str_bytes (text "message") ++ str_bytes message))))))

abbrev pub id_only_rest : List ℕ → ℕ → List ℕ
id_only_rest type id =
    str_bytes (text "id")
    ++ (int_bytes (to_signed (2 ^ 63) id) ++ (str_bytes (text "type") ++ str_bytes type))

Appends-key :
    (key : List ℕ)
    → length key < 2 ^ 32
    → {f : Write} {xs : List ℕ} → Appends f xs
    → Appends (write_str key >> f) (str_bytes key ++ xs)
Appends-key key h a = Appends->> (Appends-str key h) a

pub result_message-Appends :
    (type : List ℕ) (id : ℕ) (result : Option Value)
    → length type < 2 ^ 32
    → id < 2 ^ 64
    → IsValid (pointed result)
    → Appends (result_message type id result) (map_head 3 ++ result_rest type id (pointed result))
unfolding result_message
result_message-Appends type id result t i v = Appends->> (Appends-map_head 3) (
    Appends-key (text "id") (omega arith) (
      Appends->> (Appends-int64 _ (id-IsInt64 id i)) (
        Appends-key (text "type") (omega arith) (
          Appends-key type t
            (Appends-key (text "result") (omega arith) (encode_pointer-Appends result v))))))

pub error_message-Appends :
    (id : ℕ) (error_type message : Option (List ℕ))
    → id < 2 ^ 64
    → length (c_string (or_default error_type (text "Error"))) < 2 ^ 32
    → length (c_string (or_default message [])) < 2 ^ 32
    → Appends (error_message id error_type message) (
        map_head 4
        ++ error_rest id
            (c_string (or_default error_type (text "Error")))
            (c_string (or_default message [])))
unfolding error_message
error_message-Appends id error_type message i t m = Appends->> (Appends-map_head 4) (
    Appends-key (text "id") (omega arith) (
      Appends->> (Appends-int64 _ (id-IsInt64 id i)) (
        Appends-key (text "type") (omega arith) (
          Appends-key (text "error") (omega arith) (
            Appends-key (text "error_type") (omega arith)
              (Appends-key _ t (Appends-key (text "message") (omega arith) (Appends-str _ m))))))))

pub id_only_message-Appends :
    (id : ℕ) (type : List ℕ)
    → id < 2 ^ 64
    → length type < 2 ^ 32
    → Appends (id_only_message id type) (map_head 2 ++ id_only_rest type id)
unfolding id_only_message
id_only_message-Appends id type i t = Appends->> (Appends-map_head 2) (
    Appends-key (text "id") (omega arith) (
      Appends->> (Appends-int64 _ (id-IsInt64 id i))
        (Appends-key (text "type") (omega arith) (Appends-str type t))))

stream-Appends :
    (stream : Bool)
    → Appends
        (if stream then (write_str (text "stream") >> write_bool true) else (λ w. w))
        (stream_entry stream)
stream-Appends stream =
    Appends-if stream (λ _. Appends-key (text "stream") (omega arith) (Appends-bool true))
      (λ _. Appends-none)

abbrev pub request_count : Bool → ℕ
request_count stream = if stream then 5 else 4

pub request_message-Appends :
    (id : ℕ) (func : Option (List ℕ)) (args : Items) (stream : Bool)
    → id < 2 ^ 64
    → length (c_string (or_default func [])) < 2 ^ 32
    → count_items args < 2 ^ 32
    → IsValidItems args
    → Appends (request_message id func args stream) (
        map_head (request_count stream)
        ++ request_rest id (c_string (or_default func [])) args stream)
unfolding request_message
request_message-Appends id func args stream i n c v =
    Appends->> (Appends-map_head (request_count stream)) (
      Appends-key (text "id") (omega arith) (
        Appends->> (Appends-int64 _ (id-IsInt64 id i)) (
          Appends-key (text "type") (omega arith) (
            Appends-key (text "request") (omega arith) (
              Appends-key (text "func") (omega arith) (
                Appends-key _ n (
                  Appends-key (text "args") (omega arith) (
                    Appends->>
                      (Appends->> (Appends-array_count (count_items args) c)
                        (encode_items-Appends args v))
                      (stream-Appends stream)))))))))
