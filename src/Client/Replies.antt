-- ===== src/Client/Replies.antt =====
-- The calls of c/src/client.c that wait for a reply, against the frames that the other end sends.
use callwire.Base.{
  ℕ, ◌+◌, ◌%◌, ◌^◌, ◌≤◌, ◌<◌, ◌≡◌, refl, ap, sym, ◌∙◌, subst, Bool, true, false, List, ◌++◌, some,
  arith, if_true, leb, length, text, c_string, same_string, NoZero, c_string-NoZero, NoZero-append,
  take,
}
use callwire.Value.{Value, Items, count_items, IsValid, IsValidItems, Message}
use callwire.Mpack.Format.{map_head}
use callwire.Errors.{error_set}
use callwire.Codec.Outcome.{ok, failed}
use callwire.Codec.Encode.{buf_limit, encode_request}
use callwire.Codec.Parse.{codec_decode}
use callwire.Codec.Message.{request_rest, result_rest, error_rest}
use callwire.Codec.Carries.{
  encode_request-codec_decode, encode_response-codec_decode, error_reply, error-Carries,
}
use callwire.Framing.{Socket, max_frame_size, write_frame}
use callwire.Framing.Receive.{bytes, IsOpen}
use callwire.Framing.Send.{frame, Sent, write_frame-Sent}
use callwire.Framing.Frames.{Leaves, read_frame-frame}
use callwire.Client.{
  Session, fail, next_id, final_reply, decoded, received, read_wire_message, write_payload,
  has_type, error_text, call, stream_begin,
}

-- The session after an exchange.
abbrev pub after : Session → ℕ → Socket → Session
after s id socket = record s { next_id = id; socket = socket }

pub final_reply-error :
    (id : ℕ) (error_type message : List ℕ)
    → NoZero error_type
    → NoZero message
    → (s : Session)
    → final_reply (error_reply id error_type message) s
      ≡ (failed, record s { error = take 255 (error_type ++ (text ": " ++ message)) })
unfolding final_reply has_type same_string error_text fail error_set
final_reply-error id error_type message t m s =
    rw
      (
        c_string-NoZero error_type t,
        c_string-NoZero message m,
        c_string-NoZero (error_type ++ (text ": " ++ message))
            (NoZero-append error_type _ t (ground arith, (ground arith, m))),
      )
      refl

module _ (alloc : ℕ → Bool) (enough : (n : ℕ) → alloc n ≡ true) where
  pub read_wire_message-frame :
      (s : Session) (payload rest : List ℕ) (msg : Message)
      → IsOpen s.socket.incoming
      → length payload ≤ max_frame_size
      → bytes s.socket.incoming ≡ frame payload ++ rest
      → codec_decode alloc payload ≡ ok msg
      → (socket : Socket) × (read_wire_message alloc s ≡ (ok msg, record s { socket = socket }))
        × Leaves rest s.socket socket
  unfolding read_wire_message received decoded
  read_wire_message-frame s payload rest msg connected small e d =
      let read = read_frame-frame alloc enough s.socket connected payload rest small e in
      (read.0, rw (read.1, d) refl, read.2)

  -- The request of a call, and the socket once it is written.
  module _ (s : Session) (func : List ℕ) (args : Items) where
    abbrev pub new_id : ℕ
    new_id = (s.next_id + 1) % 2 ^ 64

    abbrev pub request : List ℕ
    request = map_head 4 ++ request_rest new_id (c_string func) args false

    abbrev pub requested : Bool × Socket
    requested = write_frame request s.socket

    module _ (connected : IsOpen s.socket.incoming) (name_fits : length (c_string func) < 2 ^ 32)
        (args_fit : count_items args < 2 ^ 32) (valid : IsValidItems args)
        (request_fits : length request ≤ max_frame_size) (written : requested.0 ≡ true) where
      request_encoded : encode_request alloc new_id (some func) args ≡ ok request
      request_encoded =
          (encode_request-codec_decode alloc enough new_id (omega arith) (some func) args name_fits
            args_fit valid).0.0
          ∙ if_true (leb (length request) buf_limit) _ _ (ground arith)

      pub request-Sent : Sent (frame request) s.socket (true, requested.1)
      request-Sent =
          subst (λ b. Sent (frame request) s.socket (b, requested.1)) written
            (write_frame-Sent request s.socket request_fits)

      -- A stream whose request goes out is begun under the next id.
      pub stream_begin-request :
          stream_begin alloc true (some func) args s ≡ (ok new_id, after s new_id requested.1)
      unfolding stream_begin next_id write_payload
      stream_begin-request = rw (request_encoded, written) refl

      -- A call whose request goes out ends with final_reply of the first message that comes in,
      -- whatever its id.
      pub call_answered :
          (payload rest : List ℕ) (msg : Message)
          → length payload ≤ max_frame_size
          → bytes s.socket.incoming ≡ frame payload ++ rest
          → codec_decode alloc payload ≡ ok msg
          → (socket : Socket) × (call alloc true (some func) args s
              ≡ final_reply msg (after s new_id socket))
            × (bytes socket.incoming ≡ rest)
            × (socket.sent ≡ s.socket.sent ++ frame request)
      unfolding call next_id write_payload final_reply
      call_answered payload rest msg small e d =
          let read =
            read_wire_message-frame (after s new_id requested.1) payload rest msg
              (subst IsOpen (sym request-Sent.1) connected) small (ap bytes request-Sent.1 ∙ e) d in
          (read.0, rw (request_encoded, written, read.1) refl, read.2.0, read.2.2 ∙ request-Sent.0)

      -- Where every allocation succeeds, the stream stays open, and the name, the arguments and the
      -- request fit the format and a frame, however the stream is cut: a call whose request goes
      -- out, and whose stream then begins with the frame of a response with a valid value, returns
      -- this value whatever the id of the response, leaves the rest of the stream, and has sent the
      -- frame of its request under the next id.
      pub call-response :
          (reply : ℕ) (v : Value) (rest : List ℕ)
          → reply < 2 ^ 64
          → IsValid v
          → length (map_head 3 ++ result_rest (text "response") reply v) ≤ max_frame_size
          → bytes s.socket.incoming
            ≡ frame (map_head 3 ++ result_rest (text "response") reply v) ++ rest
          → (socket : Socket) × (call alloc true (some func) args s ≡ (ok v, after s new_id socket))
            × (bytes socket.incoming ≡ rest)
            × (socket.sent ≡ s.socket.sent ++ frame request)
      unfolding final_reply has_type same_string
      call-response reply v rest id_fits v_valid small e =
          call_answered _ rest _ small e
            (encode_response-codec_decode alloc enough reply id_fits (some v) v_valid).0.1

      -- Under the conditions of call-response, a call whose request goes out, and whose stream then
      -- begins with the frame of an error message with texts without a zero, fails, with the error
      -- text `type: message` cut to 255 bytes.
      pub call-error :
          (reply : ℕ) (error_type message rest : List ℕ)
          → reply < 2 ^ 64
          → NoZero error_type
          → NoZero message
          → length error_type < 2 ^ 32
          → length message < 2 ^ 32
          → length (map_head 4 ++ error_rest reply error_type message) ≤ max_frame_size
          → bytes s.socket.incoming
            ≡ frame (map_head 4 ++ error_rest reply error_type message) ++ rest
          → (socket : Socket) × (call alloc true (some func) args s ≡ (
            failed,
            record (after s new_id socket) {
              error = take 255 (error_type ++ (text ": " ++ message));
            },
          ))
            × (bytes socket.incoming ≡ rest)
            × (socket.sent ≡ s.socket.sent ++ frame request)
      call-error reply error_type message rest id_fits t m t_fits m_fits small e =
          let answer =
            call_answered _ rest _ small e
              (error-Carries alloc enough reply id_fits error_type message t m t_fits m_fits).1 in
          (
            answer.0,
            answer.1 ∙ final_reply-error reply error_type message t m (after s new_id answer.0),
            answer.2,
            answer.3,
          )
