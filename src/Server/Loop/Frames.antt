-- ===== src/Server/Loop/Frames.antt =====
-- One round of handle_connection of c/src/server.c, from the bytes that come in to what they cause.
use callwire.Base.{
  ℕ, ◌^◌, ◌≤◌, ◌<◌, ◌≡◌, refl, ap, ◌∙◌, Bool, true, false, List, [], ◌∷◌, ◌++◌, none, some, length,
  same_string,
}
use callwire.Value.{Value, null, IsValid, Message}
use callwire.Codec.Outcome.{ok, failed}
use callwire.Codec.Parse.{codec_decode}
use callwire.Codec.Carries.{encode_response-codec_decode, encode_stream_end-codec_decode}
use callwire.Client.{has_type}
use callwire.Client.Streams.{chunk_payload, end_payload, end_payload-fits}
use callwire.Framing.{Socket, max_frame_size}
use callwire.Framing.Receive.{bytes, IsOpen}
use callwire.Framing.Send.{frame}
use callwire.Framing.Frames.{Leaves, read_frame-frame}
use callwire.Server.Registry.{Server}
use callwire.Server.Input.{StreamInput}
use callwire.Server.Connection.{Conn, node_size, conn_find_input}
use callwire.Server.Connection.Inputs.{Queues, push_at-recv_at}
use callwire.Server.Connection.Invariant.{IsConn, conn_find_input-found}
use callwire.Server.Connection.Ids.{Ended, push_ends-Ended}
use callwire.Server.Loop.{
  goes_on, push_taken, found_input, handle_message, handle_decoded, handle_payload, take_frame,
  handle_frame, with_inputs, end_connection,
}

-- The connection once a frame is read.
abbrev pub reading : Conn → Socket → Conn
reading conn socket = record conn { socket = socket }

module _ (alloc : ℕ → Bool) (enough : (n : ℕ) → alloc n ≡ true) (spawns : Bool) (server : Server)
    (conn : Conn) (connected : IsOpen conn.socket.incoming) where
  handle_frame-payload :
      (payload rest : List ℕ)
      → length payload ≤ max_frame_size
      → bytes conn.socket.incoming ≡ frame payload ++ rest
      → (socket : Socket) × (handle_frame alloc spawns server conn
          ≡ push_taken alloc (
              handle_decoded alloc spawns server
                (reading conn socket)
                (codec_decode alloc payload)))
        × Leaves rest conn.socket socket
  unfolding handle_frame take_frame handle_payload
  handle_frame-payload payload rest small e =
      let read = read_frame-frame alloc enough conn.socket connected payload rest small e in
      (read.0, rw read.1 refl, read.2)

  -- Where every allocation succeeds and the stream stays open: a frame of at most 16 MB whose
  -- payload does not decode is skipped: the loop goes on behind it, starts no thread, writes
  -- nothing and changes no input.
  pub handle_frame-malformed :
      (payload rest : List ℕ)
      → length payload ≤ max_frame_size
      → codec_decode alloc payload ≡ failed
      → bytes conn.socket.incoming ≡ frame payload ++ rest
      → (socket : Socket) × (handle_frame alloc spawns server conn
          ≡ goes_on (reading conn socket) none)
        × Leaves rest conn.socket socket
  unfolding handle_decoded
  handle_frame-malformed payload rest small d e =
      let read = handle_frame-payload payload rest small e in
      (
        read.0,
        read.1
            ∙ ap
                (λ o. push_taken alloc (handle_decoded alloc spawns server (reading conn read.0) o))
                d,
        read.2,
      )

  pub handle_frame-message :
      (payload rest : List ℕ) (msg : Message)
      → length payload ≤ max_frame_size
      → codec_decode alloc payload ≡ ok msg
      → bytes conn.socket.incoming ≡ frame payload ++ rest
      → (socket : Socket) × (handle_frame alloc spawns server conn
          ≡ push_taken alloc (handle_message alloc spawns server (reading conn socket) msg))
        × Leaves rest conn.socket socket
  unfolding handle_decoded
  handle_frame-message payload rest msg small d e =
      let read = handle_frame-payload payload rest small e in
      (
        read.0,
        read.1
            ∙ ap
                (λ o. push_taken alloc (handle_decoded alloc spawns server (reading conn read.0) o))
                d,
        read.2,
      )

  -- What a round leaves that adds a chunk to an input.
  abbrev pub Delivers : StreamInput → Value → Bool → List ℕ → Type 0
  Delivers i value is_end rest =
      (conn' : Conn) × (handle_frame alloc spawns server conn ≡ goes_on conn' none)
      × Queues i.address (i.nodes ++ (record { value = value; is_end = is_end } ∷ [])) conn conn'
      × (bytes conn'.socket.incoming ≡ rest)
      × (conn'.socket.sent ≡ conn.socket.sent)

  module _ (id : ℕ) (small : id < 2 ^ 64) (i : StreamInput)
      (found : conn_find_input conn id ≡ some i) (invariant : IsConn conn) where
    -- Where every allocation succeeds and the stream stays open, on a connection that satisfies the
    -- invariant: the frame of a valid stream chunk of at most 16 MB, for an id that leads to an
    -- input, adds the value at the end of that input. The queues of all other inputs stay as they
    -- are, nothing is written, and the loop goes on behind the frame.
    pub handle_frame-chunk :
        (v : Value) (rest : List ℕ)
        → IsValid v
        → length (chunk_payload id v) ≤ max_frame_size
        → bytes conn.socket.incoming ≡ frame (chunk_payload id v) ++ rest
        → Delivers i v false rest
    unfolding handle_message has_type same_string conn_find_input found_input
    handle_frame-chunk v rest valid fits e =
        let read =
          handle_frame-message (chunk_payload id v) rest _ fits
            (encode_response-codec_decode alloc enough id small (some v) valid).1.1 e in
        let push =
          (push_at-recv_at alloc (reading conn read.0) i (enough node_size)
              (conn_find_input-found conn id i invariant found)).0
            v false in
        (
          push.0,
          read.1 ∙ rw (found, push.1) refl,
          push.2.0,
          ap (λ k. bytes k.incoming) push.2.1 ∙ read.2.0,
          ap (λ k. k.sent) push.2.1 ∙ read.2.2,
        )

    -- Under the same conditions, the frame of a stream end adds an end marker at the end of the
    -- input that its id leads to. The queues of all other inputs stay as they are, nothing is
    -- written, and the loop goes on behind the frame.
    pub handle_frame-end :
        (rest : List ℕ)
        → bytes conn.socket.incoming ≡ frame (end_payload id) ++ rest
        → Delivers i null true rest
    unfolding handle_message has_type same_string conn_find_input found_input
    handle_frame-end rest e =
        let read =
          handle_frame-message (end_payload id) rest _ (end_payload-fits id)
            (encode_stream_end-codec_decode alloc enough id small).0.1 e in
        let push =
          (push_at-recv_at alloc (reading conn read.0) i (enough node_size)
              (conn_find_input-found conn id i invariant found)).0
            null true in
        (
          push.0,
          read.1 ∙ rw (found, push.1) refl,
          push.2.0,
          ap (λ k. bytes k.incoming) push.2.1 ∙ read.2.0,
          ap (λ k. k.sent) push.2.1 ∙ read.2.2,
        )

-- At the end of a connection, where the chunk nodes can be allocated, every input that is
-- registered gets an end marker as its last chunk, and nothing else changes in the inputs.
pub end_connection-Ended :
    (alloc : ℕ → Bool) (conn : Conn)
    → alloc node_size ≡ true
    → (conn' : Conn) × (end_connection alloc conn ≡ some conn')
      × Ended conn.inputs conn'.inputs
      × (conn'.socket ≡ conn.socket)
unfolding end_connection
end_connection-Ended alloc conn got =
    let r = push_ends-Ended alloc conn.inputs got in
    (record conn { inputs = r.0 }, ap (with_inputs conn) r.1, r.2, refl)
