-- ===== src/Server/Input.antt =====
-- stream_input_t of c/src/server.c: the chunks that the read loop hands to a handler. The linked list
-- from `head` to `tail` is the list of its nodes; an input has an address, by which it is pointed to.
use callwire.Base.{ℕ, Bool, List, [], ◌∷◌, ◌++◌, if◌then◌else◌}
use callwire.Value.{Value}

pub record ChunkNode : Type 0 where
  pub value : Value
  pub is_end : Bool

pub record StreamInput : Type 0 where
  pub address : ℕ
  pub id : ℕ
  pub nodes : List ChunkNode

unfoldable pub stream_input_new : ℕ → ℕ → StreamInput
stream_input_new address id = record { address = address; id = id; nodes = [] }

unfoldable pub stream_input_push : StreamInput → Value → Bool → StreamInput
stream_input_push input value is_end = record input {
  nodes = input.nodes ++ (record { value = value; is_end = is_end } ∷ []);
}

pub data Received : Type 0 where
  -- No node yet: the caller waits.
  blocked : Received
  -- The return values 0, with the chunk, and 1.
  chunk : Value → Received
  ended : Received

unfoldable pub received : ChunkNode → Received
received node = if node.is_end then ended else chunk node.value

unfoldable pub recv_node : List ChunkNode → StreamInput → Received × StreamInput
unfolding received
recv_node [] input = (blocked, input)
recv_node (node ∷ nodes) input = (received node, record input { nodes = nodes })

unfoldable pub stream_input_recv : StreamInput → Received × StreamInput
unfolding recv_node
stream_input_recv input = recv_node input.nodes input
