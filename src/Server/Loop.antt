-- ===== src/Server/Loop.antt =====
-- handle_connection of c/src/server.c: the loop that reads a connection, and its end.
pub mod Frames
pub mod Kept
pub mod Stays
pub mod Requests
use callwire.Base.{
  ℕ, Bool, true, false, ◌||◌, List, [], ◌∷◌, Option, none, some, if◌then◌else◌, text, same_string,
}
use callwire.Value.{Value, null, Message}
use callwire.Codec.Outcome.{Outcome, ok, failed, crashed, out_of_fuel}
use callwire.Codec.Parse.{codec_decode}
use callwire.Framing.{Socket, read_frame}
use callwire.Client.{has_type}
use callwire.Server.Registry.{Server}
use callwire.Server.Input.{StreamInput}
use callwire.Server.Connection.{Conn, conn_find_input, push_at, push_ends}
use callwire.Server.Dispatch.{Thread, dispatch_request}

unfoldable pub new_conn : Socket → Conn
new_conn socket = record { socket = socket; inputs = []; inputs_cap = 0; next_address = 1 }

-- One round of the loop.
pub data Round : Type 0 where
  -- The connection, and the thread that is started.
  goes_on : Conn → Option Thread → Round
  stops : Conn → Round
  -- A write through a null pointer.
  crashes : Round

abbrev pub or_crash : Option Conn → Round
or_crash none = crashes
or_crash (some conn) = goes_on conn none

abbrev pub dispatched : Option (Conn × Option Thread) → Round
dispatched none = crashes
dispatched (some (conn, t)) = goes_on conn t

-- How far a round gets until it adds to an input. It holds no mutex there: threads run between
-- conn_find_input and stream_input_push.
pub data Taken : Type 0 where
  -- The connection, the id of the message, the pointer that conn_find_input gave for it, and what is
  -- to be added there.
  to_push : Conn → ℕ → ℕ → Value → Bool → Taken
  round_ends : Round → Taken

unfoldable pub found_input : Conn → Message → Option StreamInput → Taken
unfolding has_type
found_input conn msg none = round_ends (goes_on conn none)
found_input conn msg (some input) =
    if has_type msg (text "stream_chunk")
    then to_push conn msg.id input.address msg.result false
    else to_push conn msg.id input.address null true

unfoldable pub handle_message : (ℕ → Bool) → Bool → Server → Conn → Message → Taken
unfolding has_type found_input conn_find_input dispatch_request
handle_message alloc spawns server conn msg =
    if has_type msg (text "stream_chunk")
      || has_type msg (text "stream_close")
      || has_type msg (text "stream_end")
    then found_input conn msg (conn_find_input conn msg.id)
    else if has_type msg (text "request")
    then round_ends (dispatched (dispatch_request alloc spawns server conn msg))
    else round_ends (goes_on conn none)

unfoldable pub handle_decoded : (ℕ → Bool) → Bool → Server → Conn → Outcome Message → Taken
unfolding handle_message
handle_decoded alloc spawns server conn (ok msg) = handle_message alloc spawns server conn msg
handle_decoded alloc spawns server conn failed = round_ends (goes_on conn none)
handle_decoded alloc spawns server conn crashed = round_ends crashes
handle_decoded alloc spawns server conn out_of_fuel = round_ends crashes

unfoldable pub handle_payload : (ℕ → Bool) → Bool → Server → Conn → Option (List ℕ) → Taken
unfolding handle_decoded
handle_payload alloc spawns server conn none = round_ends (stops conn)
handle_payload alloc spawns server conn (some payload) =
    handle_decoded alloc spawns server conn (codec_decode alloc payload)

unfoldable pub take_frame : (ℕ → Bool) → Bool → Server → Conn → Taken
unfolding handle_payload
take_frame alloc spawns server conn =
    let (payload, socket) = read_frame alloc conn.socket in
    handle_payload alloc spawns server (record conn { socket = socket }) payload

abbrev pub push_taken : (ℕ → Bool) → Taken → Round
push_taken alloc (round_ends round) = round
push_taken alloc (to_push conn id a value is_end) = or_crash (push_at alloc conn a value is_end)

-- A round in which no thread runs in between.
unfoldable pub handle_frame : (ℕ → Bool) → Bool → Server → Conn → Round
unfolding take_frame push_at
handle_frame alloc spawns server conn = push_taken alloc (take_frame alloc spawns server conn)

abbrev pub with_inputs : Conn → Option (List StreamInput) → Option Conn
with_inputs conn none = none
with_inputs conn (some inputs) = some (record conn { inputs = inputs })

-- What follows the loop. Closing the socket is not modelled.
unfoldable pub end_connection : (ℕ → Bool) → Conn → Option Conn
unfolding push_ends
end_connection alloc conn = with_inputs conn (push_ends alloc conn.inputs)
