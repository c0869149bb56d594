-- ===== src/Codec/RoundTrip.antt =====
-- What the encoders of c/src/codec.c write, callwire_codec_decode reads back.
use callwire.Base.{
  ℕ, suc, ◌^◌, ◌≤◌, ◌<◌, ◌≡◌, Bool, true, false, List, ◌++◌, arith, some, length, text, to_signed,
}
use callwire.Value.{Value, Items, count_items, IsValid, IsValidItems, Message}
use callwire.Mpack.Format.{int_bytes, str_bytes}
use callwire.Mpack.Reads.{Reads}
use callwire.Codec.Outcome.{ok}
use callwire.Codec.Parse.{decode_fields, empty_message}
use callwire.Codec.Fields.{
  entry-Reads, last-Reads, done-Reads, id-Reads, type-Reads, func-Reads, args-Reads, stream-Reads,
  result-Reads, error_type-Reads, message-Reads,
}
use callwire.Codec.ReadValue.{depth, depth_items}
use callwire.Codec.Message.{request_rest, result_rest, error_rest, id_only_rest, request_count}

module _ (alloc : ℕ → Bool) (enough : (n : ℕ) → alloc n ≡ true) where
  module _ (fuel id : ℕ) (small : id < 2 ^ 64) where
    -- The entries `id` and `type`, with which every message begins.
    head-Reads :
        (n : ℕ) (type : List ℕ) {rest : List ℕ} {msg : Message}
        → length type < 2 ^ 32
        → Reads
            (decode_fields alloc fuel n (record empty_message { id = id; type = some type }))
            rest
            (ok msg)
        → Reads
            (decode_fields alloc fuel (suc (suc n)) empty_message)
            (str_bytes (text "id")
              ++ (int_bytes (to_signed (2 ^ 63) id)
                  ++ (str_bytes (text "type") ++ (str_bytes type ++ rest))))
            (ok msg)
    head-Reads n type t h =
        entry-Reads alloc enough fuel (suc n) empty_message (text "id") (omega arith)
          (id-Reads alloc enough fuel empty_message id small)
          (entry-Reads alloc enough fuel n _ (text "type") (omega arith)
            (type-Reads alloc enough fuel _ type t) h)

    pub result-Reads_rest :
        (type : List ℕ) (v : Value)
        → length type < 2 ^ 32
        → IsValid v
        → depth v ≤ fuel
        → Reads
            (decode_fields alloc fuel 3 empty_message)
            (result_rest type id v)
            (ok (record empty_message { id = id; type = some type; result = v }))
    result-Reads_rest type v t h d = head-Reads 1 type t (
        last-Reads alloc enough fuel _ (text "result") (omega arith)
          (result-Reads alloc enough fuel _ v h d))

    pub error-Reads_rest :
        (error_type message : List ℕ)
        → length error_type < 2 ^ 32
        → length message < 2 ^ 32
        → Reads (decode_fields alloc fuel 4 empty_message) (error_rest id error_type message) (
            ok (record empty_message {
              id = id;
              type = some (text "error");
              error_type = some error_type;
              message = some message;
            }))
    error-Reads_rest error_type message t m = head-Reads 2 (text "error") (omega arith) (
        entry-Reads alloc enough fuel 1 _ (text "error_type") (omega arith)
          (error_type-Reads alloc enough fuel _ error_type t)
          (last-Reads alloc enough fuel _ (text "message") (omega arith)
            (message-Reads alloc enough fuel _ message m)))

    pub id_only-Reads_rest :
        (type : List ℕ)
        → length type < 2 ^ 32
        → Reads
            (decode_fields alloc fuel 2 empty_message)
            (id_only_rest type id)
            (ok (record empty_message { id = id; type = some type }))
    id_only-Reads_rest type t =
        entry-Reads alloc enough fuel 1 empty_message (text "id") (omega arith)
          (id-Reads alloc enough fuel empty_message id small)
          (last-Reads alloc enough fuel _ (text "type") (omega arith)
            (type-Reads alloc enough fuel _ type t))

    module _ (func : List ℕ) (args : Items) where
      abbrev pub requested : Bool → Message
      requested stream = record empty_message {
        id = id;
        type = some (text "request");
        func = some func;
        args = args;
        stream = stream;
      }

      pub request-Reads_rest :
          (stream : Bool)
          → length func < 2 ^ 32
          → count_items args < 2 ^ 32
          → IsValidItems args
          → depth_items args ≤ fuel
          → Reads
              (decode_fields alloc fuel (request_count stream) empty_message)
              (request_rest id func args stream)
              (ok (requested stream))
      request-Reads_rest true n c v d = head-Reads 3 (text "request") (omega arith) (
          entry-Reads alloc enough fuel 2 _ (text "func") (omega arith)
            (func-Reads alloc enough fuel _ func n)
            (entry-Reads alloc enough fuel 1 _ (text "args") (omega arith)
              (args-Reads alloc enough fuel _ args c v d)
              (last-Reads alloc enough fuel _ (text "stream") (omega arith)
                (stream-Reads alloc enough fuel _ true))))
      request-Reads_rest false n c v d = head-Reads 2 (text "request") (omega arith) (
          entry-Reads alloc enough fuel 1 _ (text "func") (omega arith)
            (func-Reads alloc enough fuel _ func n)
            (entry-Reads alloc enough fuel 0 _ (text "args") (omega arith)
              (args-Reads alloc enough fuel _ args c v d) (done-Reads alloc enough fuel _)))
