-- ===== src/Server/Dispatch.antt =====
-- The threads of c/src/server.c that run handlers, and dispatch_request, which starts them. The
-- exported functions are not part of the repository: `unary_fn` says what one returns for its
-- arguments, and `program` what one does that is given emit or recv. The frees are not modelled.
pub mod Refusals
pub mod Threads
use callwire.Base.{
  ℕ, ◌+◌, Bool, true, false, ◌&&◌, not, List, [], ◌∷◌, ◌++◌, Option, none, some, if◌then◌else◌,
  length, text,
}
use callwire.Value.{Value, null, Items, Message}
use callwire.Codec.Encode.{encode_response, encode_stream_end}
use callwire.Server.Registry.{
  HandlerKind, unary, unary_ctx, stream_ctx, client_stream_ctx, bidi_ctx, RegistryEntry, Server,
  find_handler,
}
use callwire.Server.Input.{StreamInput, Received, blocked, chunk, ended}
use callwire.Server.Connection.{
  Conn, conn_register_input, conn_find_input, conn_remove_input, recv_at, write_encoded,
  write_error, emit_chunk,
}

-- What a handler does next: it returns, whether 0, and with which result; it calls emit, and goes on
-- with whether that returned 0; or it calls recv, and goes on with the chunk or the end.
pub data Program : Type 0 where
  returns : Bool → Value → Program
  emits : Option Value → (Bool → Program) → Program
  receives : (Option Value → Program) → Program

pub data Stage : Type 0 where
  starting : Stage
  -- `recv_ctx`, where there is one, and the rest of the handler.
  running : Option ℕ → Program → Stage
  -- The reply is written.
  closing : Stage
  finished : Stage

-- A thread that dispatch_request starts, with its dispatch_ctx_t.
pub record Thread : Type 0 where
  pub id : ℕ
  pub entry : RegistryEntry
  pub args : Items
  pub stage : Stage

abbrev pub has_input : HandlerKind → Bool
has_input unary = false
has_input unary_ctx = false
has_input stream_ctx = false
has_input client_stream_ctx = true
has_input bidi_ctx = true

-- The kinds that reply with a value, and not with a stream end.
abbrev pub has_result : HandlerKind → Bool
has_result unary = true
has_result unary_ctx = true
has_result stream_ctx = false
has_result client_stream_ctx = true
has_result bidi_ctx = false

abbrev pub is_unary : HandlerKind → Bool
is_unary unary = true
is_unary unary_ctx = true
is_unary stream_ctx = false
is_unary client_stream_ctx = false
is_unary bidi_ctx = false

abbrev pub address_of : Option StreamInput → Option ℕ
address_of none = none
address_of (some i) = some i.address

module _ (alloc : ℕ → Bool) (unary_fn : RegistryEntry → Items → Bool × Value)
    (program : RegistryEntry → Items → Program) where
  -- The reply of each dispatch thread to what its handler returned.
  unfoldable pub reply : Conn → ℕ → HandlerKind → Bool → Value → Conn
  unfolding write_error write_encoded
  reply conn id kind ok result =
      if not ok
      then write_error alloc conn id (text "Error") (text "handler returned an error")
      else if has_result kind
      then (write_encoded conn (encode_response alloc id (some result))).1
      else (write_encoded conn (encode_stream_end alloc id)).1

  -- dispatch_unary_thread
  unfoldable pub dispatch_unary : Conn → Thread → Conn
  unfolding reply
  dispatch_unary conn t =
      let (ok, result) = unary_fn t.entry t.args in reply conn t.id t.entry.kind ok result

  -- The beginning of the other three threads. A client-stream or bidi handler gets no arguments.
  unfoldable pub begin : Conn → Thread → Stage
  unfolding conn_find_input
  begin conn t =
      if has_input t.entry.kind
      then running (address_of (conn_find_input conn t.id)) (program t.entry Items.no_items)
      else running none (program t.entry t.args)

  unfoldable pub received : (Option Value → Program) → ℕ → Thread → Received × Conn → Thread × Conn
  received k a t (blocked, conn) = (t, conn)
  received k a t (chunk v, conn) = (record t { stage = running (some a) (k (some v)) }, conn)
  received k a t (ended, conn) = (record t { stage = running (some a) (k none) }, conn)

  -- One call of a handler: `none` is a use of a null pointer or of an input that is freed.
  unfoldable pub run_step : Option ℕ → Program → Thread → Conn → Option (Thread × Conn)
  unfolding reply emit_chunk recv_at received
  run_step ctx (returns ok result) t conn =
      some (record t { stage = closing }, reply conn t.id t.entry.kind ok result)
  run_step ctx (emits v k) t conn =
      let (done, conn') = emit_chunk alloc conn t.id v in
      some (record t { stage = running ctx (k done) }, conn')
  run_step none (receives k) t conn = none
  run_step (some a) (receives k) t conn = elim (recv_at conn a) [
    | none ↦ none
    | some r ↦ some (received k a t r)
  ]

  -- One step of a thread; the other threads and the read loop run between its steps.
  unfoldable pub step_stage : Stage → Thread → Conn → Option (Thread × Conn)
  unfolding dispatch_unary begin run_step conn_remove_input
  step_stage starting t conn =
      if is_unary t.entry.kind
      then some (record t { stage = finished }, dispatch_unary conn t)
      else some (record t { stage = begin conn t }, conn)
  step_stage (running ctx p) t conn = run_step ctx p t conn
  step_stage closing t conn = some (
    record t { stage = finished },
    if has_input t.entry.kind then conn_remove_input conn t.id else conn,
  )
  step_stage finished t conn = some (t, conn)

  unfoldable pub thread_step : Thread → Conn → Option (Thread × Conn)
  unfolding step_stage
  thread_step t conn = step_stage t.stage t conn

-- sizeof(dispatch_ctx_t)
abbrev pub context_size : ℕ
context_size = 72

abbrev pub context : Message → RegistryEntry → Thread
context msg entry = record { id = msg.id; entry = entry; args = msg.args; stage = starting }

-- The end of dispatch_request: `spawns` says whether pthread_create succeeds. The allocations of the
-- context and of its name are not checked.
unfoldable pub spawn : Bool → Thread → Conn → Conn × Option Thread
spawn spawns t conn = (conn, if spawns then some t else none)

unfoldable pub start :
    (ℕ → Bool) → Bool → Conn → Message → RegistryEntry → Option (Conn × Option Thread)
unfolding spawn conn_register_input
start alloc spawns conn msg entry =
    let t = context msg entry in
    if not (alloc context_size && alloc (length entry.name + 1))
    then none
    else if has_input entry.kind
    then elim (conn_register_input alloc conn msg.id) [
      | none ↦ none
      | some conn' ↦ some (spawn spawns t conn')
    ]
    else some (spawn spawns t conn)

abbrev pub is_bidi : HandlerKind → Bool
is_bidi unary = false
is_bidi unary_ctx = false
is_bidi stream_ctx = false
is_bidi client_stream_ctx = false
is_bidi bidi_ctx = true

abbrev pub is_client_stream : HandlerKind → Bool
is_client_stream unary = false
is_client_stream unary_ctx = false
is_client_stream stream_ctx = false
is_client_stream client_stream_ctx = true
is_client_stream bidi_ctx = false

unfoldable pub dispatch_found :
    (ℕ → Bool) → Bool → Conn → Message → Option RegistryEntry → Option (Conn × Option Thread)
unfolding write_error start
dispatch_found alloc spawns conn msg none =
    some (write_error alloc conn msg.id (text "NotFoundError") (text "function not exported"), none)
dispatch_found alloc spawns conn msg (some entry) =
    if is_bidi entry.kind && not msg.stream
    then some (
      write_error alloc conn msg.id (text "TypeError")
          (text "function requires stream:true (bidi call)"),
      none,
    )
    else if is_client_stream entry.kind && msg.stream
    then some (
      write_error alloc conn msg.id (text "TypeError")
          (text "function is client-streaming, not bidi"),
      none,
    )
    else start alloc spawns conn msg entry

-- The connection and the thread that is started; `none` is a write through a null pointer.
unfoldable pub dispatch_named :
    (ℕ → Bool) → Bool → Server → Conn → Message → Option (List ℕ) → Option (Conn × Option Thread)
unfolding write_error dispatch_found find_handler
dispatch_named alloc spawns server conn msg none =
    some (write_error alloc conn msg.id (text "TypeError") (text "missing func field"), none)
dispatch_named alloc spawns server conn msg (some func) =
    dispatch_found alloc spawns conn msg (find_handler server func)

unfoldable pub dispatch_request :
    (ℕ → Bool) → Bool → Server → Conn → Message → Option (Conn × Option Thread)
unfolding dispatch_named
dispatch_request alloc spawns server conn msg = dispatch_named alloc spawns server conn msg msg.func
