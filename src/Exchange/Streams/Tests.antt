-- ===== src/Exchange/Streams/Tests.antt =====
-- A stream of two chunks, on small inputs.
use callwire.Base.{ℕ, ◌≡◌, refl, Bool, true, List, [], ◌∷◌, some, arith, text, pos, replicate}
use callwire.Value.{Value, null, int64, Items, no_items}
use callwire.Framing.{Socket, send, send_all, write_frame}
use callwire.Framing.Frames.{Leaves}
use callwire.Mpack.Format.{int_bytes, str_head, map_head, value_bytes}
use callwire.Mpack.Writer.{init, write_raw, write_u8, write_int64, write_str, write_map_header}
use callwire.Codec.Encode.{
  encode_pointer, result_message, id_only_message, grow, encode_with_growth, encode_stream_chunk,
  encode_stream_end, encode_value,
}
use callwire.Client.{Session}
use callwire.Client.Streams.{Receives, stream_bytes}
use callwire.Server.Registry.{RegistryEntry, stream_ctx}
use callwire.Server.Connection.{Conn, emit_chunk}
use callwire.Server.Dispatch.{Program, Thread, finished, thread_step}
use callwire.Base.{same_string}
use callwire.Framing.{recv, recv_all, read_body, read_frame}
use callwire.Framing.Send.{frame}
use callwire.Framing.Incoming.{write_frames}
use callwire.Mpack.Format.{array_head, items_bytes}
use callwire.Mpack.Reader.{
  read_raw, peek_tag, try_read_nil, try_read_bool, try_read_int64, try_read_str,
  try_read_array_header, try_read_map_header,
}
use callwire.Codec.Outcome.{ok}
use callwire.Codec.Decode.{from_int64, from_nil, decode_value}
use callwire.Codec.Parse.{codec_decode}
use callwire.Client.{stream_begin}
use callwire.Client.Replies.{request}
use callwire.Server.Registry.{Server, find_handler}
use callwire.Server.Dispatch.{dispatch_request}
use callwire.Server.Loop.{handle_frame}
use callwire.Server.Loop.Requests.{unary_thread}
use callwire.Exchange.Streams.{emit_all, emit_steps}
use callwire.Exchange.Streams.Begun.{run_steps, stream_begin-emit_all}

abbrev always : ℕ → Bool
always n = true

abbrev count : RegistryEntry
count = record { name = text "count"; kind = stream_ctx; fn = 1; userdata = 7 }

abbrev unary_fn : RegistryEntry → Items → Bool × Value
unary_fn entry args = (true, null)

abbrev chunks : List Value
chunks = int64 (pos 1) ∷ int64 (pos 2) ∷ []

abbrev program : RegistryEntry → Items → Program
program entry args = emit_all chunks

abbrev server : Server
server = record { running = true; entries = count ∷ []; entry_cap = 8; error = []; blocks = 3 }

abbrev session : Session
session = record {
  socket = record { incoming = stream_bytes 1 chunks ∷ []; accepts = 1000 ∷ 1000 ∷ []; sent = [] };
  next_id = 0;
  error = [];
}

abbrev request_frame : List ℕ
request_frame = frame (request always (λ _. refl) session (text "count") no_items)

abbrev conn : List (List ℕ) → List ℕ → List ℕ → Conn
conn incoming accepts sent = record {
  socket = record { incoming = incoming; accepts = accepts; sent = sent };
  inputs = [];
  inputs_cap = 0;
  next_address = 1;
}

abbrev served : Thread
served = record (unary_thread 1 count no_items) { stage = finished }

ran :
    run_steps always unary_fn program
      (emit_steps (null ∷ chunks))
      (handle_frame always true server (conn (request_frame ∷ []) (replicate 6 1000) []))
    ≡ some (served, conn [] [] (stream_bytes 1 chunks))
unfolding thread_step send send_all write_frame int_bytes str_head map_head init write_raw write_u8
    write_int64 write_str write_map_header encode_pointer result_message id_only_message grow
    encode_with_growth encode_stream_chunk encode_stream_end encode_value emit_chunk value_bytes
    same_string recv recv_all read_body read_frame array_head items_bytes read_raw peek_tag
    try_read_nil try_read_bool try_read_int64 try_read_str try_read_array_header try_read_map_header
    from_int64 from_nil decode_value codec_decode dispatch_request handle_frame
    callwire.Mpack.Reader.init
ran = refl

stream_begin-emit_all_example :
    (s' : Session) × (stream_begin always true (some (text "count")) no_items session ≡ (ok 1, s'))
    × (s'.socket.sent ≡ request_frame)
    × (served.stage ≡ finished)
    × (socket : Socket) × Receives always chunks s' (record s' { socket = socket })
    × Leaves [] s'.socket socket
unfolding int_bytes str_head map_head value_bytes array_head items_bytes write_frame send_all send
    same_string find_handler write_frames
stream_begin-emit_all_example =
    stream_begin-emit_all always (λ _. refl) unary_fn program session (omega arith, tt) server
      (conn (request_frame ∷ []) (replicate 6 1000) []) (omega arith, tt) (text "count") no_items
      count chunks [] [] (stream_bytes 1 chunks) served (conn [] [] (stream_bytes 1 chunks)) refl
      refl refl (omega arith, omega arith, (omega arith, omega arith, tt)) (omega arith)
      (omega arith) tt (omega arith) refl refl refl ran refl refl
