-- ===== src/Server/Tests.antt =====
-- Runs of c/src/server.c on small inputs.
use callwire.Base.{
  ℕ, ◌^◌, ◌≡◌, refl, Bool, true, false, List, [], ◌∷◌, none, some, arith, inr, length,
  length-replicate, replicate, text, pos, c_string, same_string,
}
use callwire.Value.{Value, null, binary, int64, Items, no_items, item, Message}
use callwire.Mpack.Format.{map_head, str_head, array_head, int_bytes, value_bytes}
use callwire.Mpack.Reader.{try_read_map_header, peek_tag, init}
use callwire.Codec.Depth.{lengths}
use callwire.Codec.Parse.{codec_decode, empty_message}
use callwire.Codec.Carries.{error_reply}
use callwire.Client.Streams.{chunk_payload, end_payload}
use callwire.Framing.{Socket}
use callwire.Framing.Send.{frame}
use callwire.Framing.Frames.{Leaves}
use callwire.Server.Registry.{
  Server, RegistryEntry, unary, stream_ctx, bidi_ctx, export_kind, find_entry, find_handler,
}
use callwire.Server.Registry.Laws.{
  Registered, named, export_kind-Registered, find_handler-export_kind,
}
use callwire.Server.Input.{ChunkNode, StreamInput}
use callwire.Server.Connection.{
  Conn, conn_register_input, find_id, conn_find_input, conn_remove_input, find_address,
}
use callwire.Server.Connection.Writes.{Writes, error_payload}
use callwire.Server.Connection.Invariant.{IsConn}
use callwire.Server.Connection.Ids.{
  Removed, Ended, conn_register_input-conn_find_input, conn_remove_input-Removed,
}
use callwire.Server.Dispatch.{Program, returns, finished, reply, dispatch_request, thread_step}
use callwire.Server.Dispatch.Threads.{
  reply_message, response_payload, reply-Writes, reply-oversized,
}
use callwire.Server.Dispatch.Refusals.{not_bidi_call, dispatch_request-Refused}
use callwire.Server.Loop.{goes_on, handle_frame, end_connection}
use callwire.Server.Loop.Frames.{
  reading, Delivers, handle_frame-malformed, handle_frame-chunk, handle_frame-end,
  end_connection-Ended,
}
use callwire.Server.Loop.Requests.{request_payload, unary_thread, handle_frame-thread_step}

abbrev always : ℕ → Bool
always n = true

-- A server with a unary function and a bidirectional one.
abbrev add : RegistryEntry
add = record { name = text "add"; kind = unary; fn = 1; userdata = 0 }

abbrev chat : RegistryEntry
chat = record { name = text "chat"; kind = bidi_ctx; fn = 2; userdata = 0 }

abbrev server : Server
server = record { running = true; entries = add ∷ chat ∷ []; entry_cap = 8; error = []; blocks = 4 }

export_kind-Registered_example :
    Registered
      (named stream_ctx (text "count") 0 5)
      server
      (export_kind stream_ctx always true (some (text "count")) 0 5 server)
export_kind-Registered_example =
    export_kind-Registered stream_ctx always true (text "count") 0 5 server
      (omega arith, inr (0, refl))

-- The second export of `add` is not found.
find_handler-export_kind_example :
    find_handler (export_kind stream_ctx always true (some (text "add")) 0 5 server).1 (text "add")
    ≡ some add
unfolding find_handler find_entry same_string c_string
find_handler-export_kind_example =
    find_handler-export_kind stream_ctx always true (text "add") 0 5 server
      (omega arith, inr (0, refl)) (text "add")

-- A connection with two calls that read a stream, and what comes in on it.
abbrev chunk_of : ℕ → ChunkNode
chunk_of n = record { value = int64 (pos n); is_end = false }

abbrev input : StreamInput
input = record { address = 2; id = 6; nodes = chunk_of 1 ∷ [] }

abbrev conn : List ℕ → Conn
conn incoming = record {
  socket = record { incoming = incoming ∷ []; accepts = 1000 ∷ 1000 ∷ []; sent = [] };
  inputs = record { address = 1; id = 5; nodes = [] } ∷ input ∷ [];
  inputs_cap = 8;
  next_address = 3;
}

conn-IsConn : {incoming : List ℕ} → IsConn (conn incoming)
conn-IsConn = record {
  distinct = ((ground arith, tt), (tt, tt));
  below = (omega arith, (omega arith, tt));
  fits = omega arith;
}

-- A third call, with the id of the second one: the id leads to the input of the second.
conn_register_input-conn_find_input_example :
    (conn' : Conn) × (conn_register_input always (conn []) 6 ≡ some conn')
    × (conn_find_input conn' 6 ≡ some input)
unfolding conn_find_input find_id
conn_register_input-conn_find_input_example =
    conn_register_input-conn_find_input always (conn []) 6 (λ _. refl) 6

conn_remove_input-Removed_example :
    Removed (conn_find_input (conn []) 5) (conn []).inputs (conn_remove_input (conn []) 5).inputs
conn_remove_input-Removed_example = conn_remove_input-Removed (conn []) 5

-- `add` gives 5, `chat` returns at once.
abbrev unary_fn : RegistryEntry → Items → Bool × Value
unary_fn entry args = (true, int64 (pos 5))

abbrev program : RegistryEntry → Items → Program
program entry args = returns true null

reply-Writes_example :
    Writes always
      (reply_message 4 unary true (int64 (pos 5)))
      (response_payload 4 (int64 (pos 5)))
      (conn [])
      (reply always unary_fn program (conn []) 4 unary true (int64 (pos 5)))
unfolding map_head str_head int_bytes value_bytes
reply-Writes_example =
    reply-Writes always unary_fn program (λ _. refl) (conn []) 4 (omega arith) unary true
      (int64 (pos 5)) (omega arith) (omega arith)

unfoldable zeros : ℕ → List ℕ
zeros n = replicate n 0

length-zeros : (n : ℕ) → length (zeros n) ≡ n
unfolding zeros
length-zeros n = length-replicate n 0

-- A result of 16 MB.
reply-oversized_example :
    reply always unary_fn program (conn []) 4 unary true (binary (zeros (2 ^ 24))) ≡ conn []
unfolding map_head str_head int_bytes value_bytes
reply-oversized_example =
    reply-oversized always unary_fn program (λ _. refl) (conn []) 4 (omega arith) unary
      (binary (zeros (2 ^ 24))) refl (omega (arith, length-zeros (2 ^ 24)))
      (omega (lengths, length-zeros (2 ^ 24)))

abbrev request_of : List ℕ → Bool → Message
request_of func stream = record empty_message {
  id = 4;
  type = some (text "request");
  func = some func;
  stream = stream;
}

dispatch_request-Refused_example :
    (conn' : Conn) × (dispatch_request always true server (conn []) (request_of (text "chat") false)
      ≡ some (conn', none))
    × Writes always
        (error_reply 4 (text "TypeError") (text "function requires stream:true (bidi call)"))
        (error_payload 4 (text "TypeError") (text "function requires stream:true (bidi call)"))
        (conn [])
        conn'
unfolding find_handler find_entry same_string c_string
dispatch_request-Refused_example =
    dispatch_request-Refused always (λ _. refl) server (conn []) (request_of (text "chat") false)
      true (text "TypeError") (text "function requires stream:true (bidi call)") (omega arith)
      (not_bidi_call {func = text "chat"} {entry = chat} refl refl refl refl)

-- A payload that is no map.
abbrev nonsense : List ℕ
nonsense = 1 ∷ []

handle_frame-malformed_example :
    (socket : Socket) × (handle_frame always true server (conn (frame nonsense))
      ≡ goes_on (reading (conn (frame nonsense)) socket) none)
    × Leaves [] (conn (frame nonsense)).socket socket
unfolding codec_decode try_read_map_header peek_tag init
handle_frame-malformed_example =
    handle_frame-malformed always (λ _. refl) true server (conn (frame nonsense)) (omega arith, tt)
      nonsense [] (omega arith) refl refl

abbrev chunk_frame : List ℕ
chunk_frame = frame (chunk_payload 6 (int64 (pos 9)))

handle_frame-chunk_example :
    Delivers always
      (λ _. refl)
      true
      server
      (conn chunk_frame)
      (omega arith, tt)
      input
      (int64 (pos 9))
      false
      []
unfolding map_head str_head int_bytes value_bytes conn_find_input find_id find_address
handle_frame-chunk_example =
    handle_frame-chunk always (λ _. refl) true server (conn chunk_frame) (omega arith, tt) 6
      (omega arith) input refl conn-IsConn (int64 (pos 9)) [] (omega arith) (omega arith) refl

handle_frame-end_example :
    Delivers always
      (λ _. refl)
      true
      server
      (conn (frame (end_payload 6)))
      (omega arith, tt)
      input
      null
      true
      []
unfolding map_head str_head int_bytes value_bytes conn_find_input find_id find_address
handle_frame-end_example =
    handle_frame-end always (λ _. refl) true server (conn (frame (end_payload 6))) (omega arith, tt)
      6 (omega arith) input refl conn-IsConn [] refl

end_connection-Ended_example :
    (conn' : Conn) × (end_connection always (conn []) ≡ some conn')
    × Ended (conn []).inputs conn'.inputs
    × (conn'.socket ≡ (conn []).socket)
end_connection-Ended_example = end_connection-Ended always (conn []) refl

abbrev arguments : Items
arguments = item (int64 (pos 2)) (item (int64 (pos 3)) no_items)

abbrev request_frame : List ℕ
request_frame = frame (request_payload 4 (text "add") arguments)

handle_frame-thread_step_example :
    (socket : Socket) × (handle_frame always true server (conn request_frame)
      ≡ goes_on (reading (conn request_frame) socket) (some (unary_thread 4 add arguments)))
    × (socket.sent ≡ [])
    × (socket.accepts ≡ (conn request_frame).socket.accepts)
    × (conn' : Conn) × (thread_step always unary_fn program
          (unary_thread 4 add arguments)
          (reading (conn request_frame) socket)
        ≡ some (record (unary_thread 4 add arguments) { stage = finished }, conn'))
    × Writes always
        (reply_message 4 unary true (int64 (pos 5)))
        (response_payload 4 (int64 (pos 5)))
        (reading (conn request_frame) socket)
        conn'
unfolding map_head str_head array_head int_bytes value_bytes find_handler find_entry same_string
    c_string
handle_frame-thread_step_example =
    handle_frame-thread_step always (λ _. refl) server (conn request_frame) (omega arith, tt) 4
      (omega arith) unary_fn program (text "add") arguments [] add refl refl (omega arith)
      (omega arith) (omega arith, (omega arith, tt)) (omega arith) refl (omega arith) (omega arith)
