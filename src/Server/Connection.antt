-- ===== src/Server/Connection.antt =====
-- conn_state_t of c/src/server.c, and what is done under its mutexes. The code does not check the
-- allocations here: `none` is a write through the null pointer that a failed one returns, or a use
-- of an input that is freed.
pub mod Inputs
pub mod Ids
pub mod Invariant
pub mod Kept
pub mod Present
pub mod Writes
use callwire.Base.{
  ℕ, zero, suc, ◌+◌, ◌*◌, Bool, true, false, ◌&&◌, not, List, [], ◌∷◌, ◌++◌, Option, none, some,
  ◌==◌, if◌then◌else◌, length,
}
use callwire.Value.{Value, null}
use callwire.Codec.Outcome.{ok, failed, crashed, out_of_fuel}
use callwire.Codec.Encode.{Encoded, encode_error, encode_stream_chunk}
use callwire.Framing.{Socket, write_frame}
use callwire.Server.Registry.{new_cap}
use callwire.Server.Input.{
  StreamInput, stream_input_new, stream_input_push, stream_input_recv, Received,
}

-- `next_address` is the address of the next input, above those of all inputs.
pub record Conn : Type 0 where
  pub socket : Socket
  pub inputs : List StreamInput
  pub inputs_cap : ℕ
  pub next_address : ℕ

-- sizeof of stream_input_t, of a pointer and of chunk_node_t
abbrev pub input_size : ℕ
input_size = 112

abbrev pub pointer_size : ℕ
pointer_size = 8

abbrev pub node_size : ℕ
node_size = 48

unfoldable pub conn_register_input : (ℕ → Bool) → Conn → ℕ → Option Conn
unfolding new_cap stream_input_new
conn_register_input alloc conn id =
    let cap = new_cap conn.inputs_cap in
    let conn' = record conn {
      inputs = conn.inputs ++ (stream_input_new conn.next_address id ∷ []);
      next_address = suc conn.next_address;
    } in
    if not (alloc input_size)
    then none
    else if length conn.inputs == conn.inputs_cap
    then (if alloc (cap * pointer_size) then some (record conn' { inputs_cap = cap }) else none)
    else some conn'

-- The loop of conn_find_input.
unfoldable pub find_id : List StreamInput → ℕ → Option StreamInput
find_id [] id = none
find_id (i ∷ is) id = if i.id == id then some i else find_id is id

unfoldable pub conn_find_input : Conn → ℕ → Option StreamInput
unfolding find_id
conn_find_input conn id = find_id conn.inputs id

-- The last of i ∷ is, and what is before it.
abbrev pub last : StreamInput → List StreamInput → StreamInput
last i [] = i
last i (j ∷ is) = last j is

abbrev pub before_last : StreamInput → List StreamInput → List StreamInput
before_last i [] = []
before_last i (j ∷ is) = i ∷ before_last j is

-- inputs[i] = inputs[inputs_count - 1]; inputs_count--, at the front of the list.
unfoldable pub replace_front : List StreamInput → List StreamInput
replace_front [] = []
replace_front (j ∷ is) = last j is ∷ before_last j is

-- The loop of conn_remove_input.
unfoldable pub remove_id : List StreamInput → ℕ → List StreamInput
unfolding replace_front
remove_id [] id = []
remove_id (i ∷ is) id = if i.id == id then replace_front is else i ∷ remove_id is id

unfoldable pub conn_remove_input : Conn → ℕ → Conn
unfolding remove_id
conn_remove_input conn id = record conn { inputs = remove_id conn.inputs id }

-- A pointer to an input is followed.
unfoldable pub find_address : List StreamInput → ℕ → Option StreamInput
find_address [] a = none
find_address (i ∷ is) a = if i.address == a then some i else find_address is a

unfoldable pub store : List StreamInput → StreamInput → List StreamInput
store [] input = []
store (i ∷ is) input = if i.address == input.address then input ∷ is else i ∷ store is input

unfoldable pub push_found : (ℕ → Bool) → Conn → Option StreamInput → Value → Bool → Option Conn
unfolding store stream_input_push
push_found alloc conn none value is_end = none
push_found alloc conn (some input) value is_end =
    if alloc node_size
    then some (record conn { inputs = store conn.inputs (stream_input_push input value is_end) })
    else none

-- stream_input_push and stream_input_recv through a pointer.
unfoldable pub push_at : (ℕ → Bool) → Conn → ℕ → Value → Bool → Option Conn
unfolding push_found find_address
push_at alloc conn a value is_end = push_found alloc conn (find_address conn.inputs a) value is_end

unfoldable pub recv_found : Conn → Option StreamInput → Option (Received × Conn)
unfolding store stream_input_recv
recv_found conn none = none
recv_found conn (some input) =
    let (got, input') = stream_input_recv input in
    some (got, record conn { inputs = store conn.inputs input' })

unfoldable pub recv_at : Conn → ℕ → Option (Received × Conn)
unfolding recv_found find_address
recv_at conn a = recv_found conn (find_address conn.inputs a)

-- The end marker for every input, at the end of handle_connection.
unfoldable pub push_ends : (ℕ → Bool) → List StreamInput → Option (List StreamInput)
unfolding stream_input_push
push_ends alloc [] = some []
push_ends alloc (i ∷ is) = elim (push_ends alloc is) [
  | none ↦ none
  | some is' ↦ if alloc node_size then some (stream_input_push i null true ∷ is') else none
]

unfoldable pub conn_write_frame : Conn → List ℕ → Bool × Conn
conn_write_frame conn payload =
    let (done, socket) = write_frame payload conn.socket in (done, record conn { socket = socket })

-- `if (encode(...) == 0) { conn_write_frame(...); }`; An encoder neither crashes nor runs
-- out of fuel.
unfoldable pub write_encoded : Conn → Encoded → Bool × Conn
unfolding conn_write_frame
write_encoded conn (ok payload) = conn_write_frame conn payload
write_encoded conn failed = (false, conn)
write_encoded conn crashed = (false, conn)
write_encoded conn out_of_fuel = (false, conn)

unfoldable pub write_error : (ℕ → Bool) → Conn → ℕ → List ℕ → List ℕ → Conn
unfolding write_encoded
write_error alloc conn id error_type message =
    (write_encoded conn (encode_error alloc id (some error_type) (some message))).1

-- The flag says that 0 is returned.
unfoldable pub emit_chunk : (ℕ → Bool) → Conn → ℕ → Option Value → Bool × Conn
unfolding write_encoded
emit_chunk alloc conn id chunk = write_encoded conn (encode_stream_chunk alloc id chunk)
