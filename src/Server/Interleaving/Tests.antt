-- ===== src/Server/Interleaving/Tests.antt =====
-- A bidirectional call on a connection of c/src/server.c, on a small input.
use callwire.Base.{
  ℕ, ◌≡◌, refl, sym, subst, Bool, true, false, List, [], ◌∷◌, ◌++◌, none, some, text, pos,
  same_string,
}
use callwire.Value.{Value, null, int64, Items, no_items}
use callwire.Framing.{Socket, recv, recv_all, read_body, read_frame}
use callwire.Framing.Send.{frame}
use callwire.Mpack.Format.{int_bytes, str_head, array_head, map_head, items_bytes, value_bytes}
use callwire.Mpack.Reader.{
  init, read_raw, peek_tag, try_read_nil, try_read_bool, try_read_int64, try_read_str,
  try_read_array_header, try_read_map_header,
}
use callwire.Codec.Decode.{from_int64, from_nil, decode_value}
use callwire.Codec.Parse.{codec_decode}
use callwire.Codec.Message.{request_rest}
use callwire.Server.Registry.{RegistryEntry, Server, bidi_ctx}
use callwire.Server.Connection.{
  Conn, conn_find_input, conn_remove_input, remove_id, replace_front, push_at, push_found,
  find_address,
}
use callwire.Server.Dispatch.{
  Program, returns, receives, Thread, starting, running, has_input, thread_step, dispatch_request,
}
use callwire.Server.Loop.{new_conn, goes_on, to_push, round_ends, take_frame}
use callwire.Server.Interleaving.{accepted, LoopStage, at_push, reads, finds, runs, Reachable}
use callwire.Server.Interleaving.Pending.{CanPush}
use callwire.Server.Interleaving.Kept.{Reachable-IsConn}
use callwire.Server.Connection.Invariant.{IsConn}
use callwire.Server.Connection.Kept.{Grown}
use callwire.Client.Streams.{chunk_payload}
use callwire.Server.Interleaving.Holds.{Sends}
use callwire.Server.Interleaving.Safe.{accept_connection, step, thread_step-Distinct}

abbrev always : ℕ → Bool
always n = true

abbrev chat : RegistryEntry
chat = record { name = text "chat"; kind = bidi_ctx; fn = 2; userdata = 0 }

abbrev server : Server
server = record { running = true; entries = chat ∷ []; entry_cap = 8; error = []; blocks = 3 }

abbrev unary_fn : RegistryEntry → Items → Bool × Value
unary_fn entry args = (true, null)

-- A handler that is given recv waits for a chunk, and then returns.
abbrev waits : Bool → Program
waits true = receives (λ got. returns true null)
waits false = returns true null

abbrev program : RegistryEntry → Items → Program
program entry args = waits (has_input entry.kind)

quiet :
    (entry : RegistryEntry) (args : Items)
    → has_input entry.kind ≡ false
    → Sends (program entry args)
quiet entry args e = subst (λ b. Sends (waits b)) (sym e) tt

abbrev request : List ℕ
request = frame (map_head 5 ++ request_rest 1 (text "chat") no_items true)

abbrev chunk_frame : List ℕ
chunk_frame = frame (chunk_payload 1 (int64 (pos 9)))

abbrev socket : Socket
socket = record { incoming = request ∷ chunk_frame ∷ []; accepts = 1000 ∷ []; sent = [] }

-- The connection with the input of the call, and the segments that are still to come.
abbrev conn : List (List ℕ) → Conn
conn incoming = record {
  socket = record { incoming = incoming; accepts = 1000 ∷ []; sent = [] };
  inputs = record { address = 1; id = 1; nodes = [] } ∷ [];
  inputs_cap = 8;
  next_address = 2;
}

abbrev thread : Thread
thread = record { id = 1; entry = chat; args = no_items; stage = starting }

abbrev waiting : Thread
waiting = record thread { stage = running (some 1) (program chat no_items) }

abbrev chunk_found : LoopStage
chunk_found = at_push 1 1 (int64 (pos 9)) false

taken :
    take_frame always true server (accepted socket).conn
    ≡ round_ends (goes_on (conn (chunk_frame ∷ [])) (some thread))
unfolding same_string recv recv_all read_body read_frame int_bytes str_head array_head map_head
    read_raw peek_tag try_read_nil try_read_bool try_read_int64 try_read_str try_read_array_header
    try_read_map_header from_int64 from_nil decode_value codec_decode take_frame init new_conn
    dispatch_request items_bytes
taken = refl

found :
    take_frame always true server (conn (chunk_frame ∷ []))
    ≡ to_push (conn []) 1 1 (int64 (pos 9)) false
unfolding same_string recv recv_all read_body read_frame int_bytes str_head array_head map_head
    read_raw peek_tag try_read_nil try_read_bool try_read_int64 try_read_str try_read_array_header
    try_read_map_header from_int64 from_nil decode_value codec_decode take_frame init new_conn
    conn_find_input items_bytes value_bytes
found = refl

begun :
    thread_step always unary_fn program thread (conn (chunk_frame ∷ []))
    ≡ some (waiting, conn (chunk_frame ∷ []))
unfolding thread_step
begun = refl

-- The thread waits in recv, and the loop has found the input for a chunk.
thread_step-Distinct_example :
    ((r : Thread × Conn) × (thread_step always unary_fn program waiting (conn []) ≡ some r))
    × CanPush always (conn []) (waiting ∷ []) chunk_found
thread_step-Distinct_example =
    thread_step-Distinct always server unary_fn program socket quiet
      (record { conn = conn []; threads = waiting ∷ []; loop = chunk_found }) [] [] waiting refl
      (step
        (step (step accept_connection (reads true (some thread) taken) (tt, tt))
          (runs [] [] thread waiting begun) (tt, tt))
        (finds true found) (tt, tt))
      refl

Reachable-IsConn_example : IsConn (conn []) × Grown 8
Reachable-IsConn_example =
    Reachable-IsConn always server unary_fn program socket
      (record { conn = conn []; threads = waiting ∷ []; loop = chunk_found })
      (Reachable.step
        (Reachable.step
          (Reachable.step Reachable.accept_connection (reads true (some thread) taken))
          (runs [] [] thread waiting begun))
        (finds true found))

-- Where the call ends between the search and the push, the pointer of the loop leads to no input.
ended_in_between : push_at always (conn_remove_input (conn []) 1) 1 (int64 (pos 9)) false ≡ none
unfolding push_at push_found find_address conn_remove_input remove_id replace_front
ended_in_between = refl
