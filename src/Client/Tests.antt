-- ===== src/Client/Tests.antt =====
-- Runs of c/src/client.c on small inputs.
use callwire.Base.{
  ℕ, ◌≡◌, refl, Bool, true, false, List, [], ◌∷◌, ◌++◌, some, arith, text, pos, no_zero-NoZero,
  c_string,
}
use callwire.Value.{Value, int64, Items, no_items, item}
use callwire.Mpack.Format.{map_head, str_head, array_head, int_bytes, value_bytes}
use callwire.Codec.Outcome.{ok, failed}
use callwire.Codec.Message.{result_rest, error_rest}
use callwire.Framing.{Socket, send_to, send, send_all, write_frame}
use callwire.Framing.Receive.{bytes}
use callwire.Framing.Send.{frame}
use callwire.Framing.Frames.{Leaves}
use callwire.Client.{Session, call}
use callwire.Client.Lifecycle.{Network, client_connect, client_close, client_connect-client_close}
use callwire.Client.Replies.{after, request, call-response, call-error}
use callwire.Client.Streams.{Receives, stream_bytes, stream_recv-stream}

abbrev always : ℕ → Bool
always n = true

-- A session whose other end has sent `incoming`.
abbrev session : List ℕ → Session
session incoming = record {
  socket = record { incoming = incoming ∷ []; accepts = 1000 ∷ 1000 ∷ []; sent = [] };
  next_id = 0;
  error = [];
}

abbrev arguments : Items
arguments = item (int64 (pos 2)) (item (int64 (pos 3)) no_items)

-- The reply has another id than the request.
abbrev response : List ℕ
response = map_head 3 ++ result_rest (text "response") 9 (int64 (pos 5))

call-response_example :
    (socket : Socket) × (call always true (some (text "add")) arguments (session (frame response))
      ≡ (ok (int64 (pos 5)), after (session (frame response)) 1 socket))
    × (bytes socket.incoming ≡ [])
    × (socket.sent
        ≡ frame (request always (λ _. refl) (session (frame response)) (text "add") arguments))
unfolding c_string map_head str_head array_head int_bytes value_bytes write_frame send_all send
    send_to
call-response_example =
    call-response always (λ _. refl) (session (frame response)) (text "add") arguments
      (omega arith, tt) (omega arith) (omega arith) (omega arith, (omega arith, tt)) (omega arith)
      refl 9 (int64 (pos 5)) [] (omega arith) (omega arith) (omega arith) refl

abbrev refusal : List ℕ
refusal = map_head 4 ++ error_rest 1 (text "NotFoundError") (text "function not exported")

call-error_example :
    (socket : Socket) × (call always true (some (text "add")) arguments (session (frame refusal))
      ≡ (
        failed,
        record (after (session (frame refusal)) 1 socket) {
          error = text "NotFoundError: function not exported";
        },
      ))
    × (bytes socket.incoming ≡ [])
    × (socket.sent
        ≡ frame (request always (λ _. refl) (session (frame refusal)) (text "add") arguments))
unfolding c_string map_head str_head array_head int_bytes value_bytes write_frame send_all send
    send_to
call-error_example =
    call-error always (λ _. refl) (session (frame refusal)) (text "add") arguments (omega arith, tt)
      (omega arith) (omega arith) (omega arith, (omega arith, tt)) (omega arith) refl 1
      (text "NotFoundError") (text "function not exported") [] (omega arith)
      (no_zero-NoZero (text "NotFoundError") refl)
      (no_zero-NoZero (text "function not exported") refl) (omega arith) (omega arith) (omega arith)
      refl

abbrev chunks : List Value
chunks = int64 (pos 1) ∷ int64 (pos 2) ∷ []

stream_recv-stream_example :
    (socket : Socket) × Receives always chunks
      (session (stream_bytes 3 chunks))
      (record (session (stream_bytes 3 chunks)) { socket = socket })
    × Leaves [] (session (stream_bytes 3 chunks)).socket socket
unfolding map_head str_head int_bytes value_bytes
stream_recv-stream_example =
    stream_recv-stream always (λ _. refl) 3 (omega arith) chunks []
      (session (stream_bytes 3 chunks)) (omega arith, tt)
      (omega arith, omega arith, (omega arith, omega arith, tt)) refl

-- A host that is found and does not answer.
abbrev net : Network
net = record {
  resolves = λ host. some (127 ∷ 0 ∷ 0 ∷ 1 ∷ []);
  socket = some 4;
  connects = λ host port. false;
}

client_connect-client_close_example :
    client_close
      (client_connect always net
        (text "localhost")
        (pos 9090)
        (record { sockets = 3 ∷ []; blocks = 7 })
        []).0
      (client_connect always net
        (text "localhost")
        (pos 9090)
        (record { sockets = 3 ∷ []; blocks = 7 })
        []).1
    ≡ record { sockets = 3 ∷ []; blocks = 7 }
client_connect-client_close_example =
    client_connect-client_close net (text "localhost") (pos 9090)
      (record { sockets = 3 ∷ []; blocks = 7 }) [] always
