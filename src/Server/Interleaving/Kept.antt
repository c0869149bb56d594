-- ===== src/Server/Interleaving/Kept.antt =====
-- The invariant of a connection of c/src/server.c in every state that its steps reach.
use callwire.Base.{refl, inl, if_keeps, ℕ, subst, Bool, not, Option, none, some, arith}
use callwire.Value.{Value, Items}
use callwire.Codec.Encode.{encode_response, encode_stream_chunk, encode_stream_end}
use callwire.Framing.{Socket}
use callwire.Server.Registry.{HandlerKind, Server, RegistryEntry}
use callwire.Server.Input.{Received, blocked, chunk, ended}
use callwire.Server.Connection.{Conn, recv_at, emit_chunk}
use callwire.Server.Connection.Invariant.{IsConn}
use callwire.Server.Connection.Kept.{
  IsServed, IsServed-IsConn, Grown, Keeps, KeepsReceived, push_at-Keeps, recv_at-Keeps,
  conn_remove_input-IsServed, write_encoded-IsServed,
}
use callwire.Server.Dispatch.{
  Program, returns, emits, receives, Stage, starting, running, closing, finished, Thread, has_input,
  has_result, is_unary, reply, dispatch_unary, received, run_step, step_stage, thread_step,
}
use callwire.Server.Loop.{new_conn}
use callwire.Server.Interleaving.{
  Serving, Step, reads, finds, pushes, closes, runs, Reachable, accept_connection, step,
}
use callwire.Server.Loop.Kept.{
  KeepsTaken, write_error-IsServed, take_frame-Keeps, end_connection-Keeps,
}

module _ (alloc : ℕ → Bool) (server : Server) (unary_fn : RegistryEntry → Items → Bool × Value)
    (program : RegistryEntry → Items → Program) where
  abbrev KeepsRun : Option (Thread × Conn) → Type 0
  KeepsRun none = Unit
  KeepsRun (some r) = IsServed r.1

  reply-IsServed :
      (conn : Conn) (id : ℕ) (kind : HandlerKind) (success : Bool) (result : Value)
      → IsServed conn
      → IsServed (reply alloc unary_fn program conn id kind success result)
  unfolding reply
  reply-IsServed conn id kind success result h =
      if_keeps IsServed (not success) _ _ (write_error-IsServed alloc conn id _ _ h) (
        if_keeps IsServed (has_result kind) _ _
          (write_encoded-IsServed conn (encode_response alloc id (some result)) h)
          (write_encoded-IsServed conn (encode_stream_end alloc id) h))

  thread_step-Keeps :
      (t : Thread) (conn : Conn)
      → IsServed conn
      → KeepsRun (thread_step alloc unary_fn program t conn)
  unfolding thread_step step_stage run_step dispatch_unary emit_chunk
  thread_step-Keeps t conn h = on_stage t.stage
    where
      taken :
          (k : Option Value → Program) (a : ℕ) (r : Received × Conn)
          → IsServed r.1
          → IsServed (received alloc unary_fn program k a t r).1
      taken k a (blocked, c) g = g
      taken k a (chunk v, c) g = g
      taken k a (ended, c) g = g

      on_recv :
          (k : Option Value → Program) (a : ℕ) (o : Option (Received × Conn))
          → KeepsReceived o
          → KeepsRun
              (elim o [ none ↦ none | some r ↦ some (received alloc unary_fn program k a t r) ])
      on_recv k a none g = tt
      on_recv k a (some r) g = taken k a r g

      on_program :
          (ctx : Option ℕ) (p : Program) → KeepsRun (run_step alloc unary_fn program ctx p t conn)
      on_program ctx (returns success result) =
          reply-IsServed conn t.id t.entry.kind success result h
      on_program ctx (emits v k) = write_encoded-IsServed conn (encode_stream_chunk alloc t.id v) h
      on_program none (receives k) = tt
      on_program (some a) (receives k) = on_recv k a (recv_at conn a) (recv_at-Keeps conn a h)

      on_stage : (s : Stage) → KeepsRun (step_stage alloc unary_fn program s t conn)
      on_stage starting =
          if_keeps KeepsRun (is_unary t.entry.kind) _ _
            (reply-IsServed conn t.id t.entry.kind _ _ h) h
      on_stage (running ctx p) = on_program ctx p
      on_stage closing =
          if_keeps IsServed (has_input t.entry.kind) _ _ (conn_remove_input-IsServed conn t.id h) h
      on_stage finished = h

  Step-IsServed :
      (s s' : Serving)
      → Step alloc server unary_fn program s s'
      → IsServed s.conn
      → IsServed s'.conn
  Step-IsServed s s' (reads spawns t e) h =
      subst KeepsTaken e (take_frame-Keeps alloc spawns server s.conn h)
  Step-IsServed s s' (finds spawns e) h =
      subst KeepsTaken e (take_frame-Keeps alloc spawns server s.conn h)
  Step-IsServed s s' (pushes {a = a} {value = value} {is_end = is_end} e) h =
      subst Keeps e (push_at-Keeps alloc s.conn a value is_end h)
  Step-IsServed s s' (closes spawns conn' e d) h = subst Keeps d (
      end_connection-Keeps alloc conn'
        (subst KeepsTaken e (take_frame-Keeps alloc spawns server s.conn h)))
  Step-IsServed s s' (runs before behind t t' e) h = subst KeepsRun e (thread_step-Keeps t s.conn h)

  Reachable-IsServed :
      (socket : Socket) (s : Serving)
      → Reachable alloc server unary_fn program socket s
      → IsServed s.conn
  unfolding new_conn
  Reachable-IsServed socket s accept_connection = record {
    distinct = tt;
    below = tt;
    fits = omega arith;
    grown = inl refl;
  }
  Reachable-IsServed socket s (step {s = s₀} r e) =
      Step-IsServed s₀ s e (Reachable-IsServed socket s₀ r)

  -- In every state that the steps of the read loop and of the threads reach, in any order, also
  -- between the search of the loop for an input and its push, from a connection that is just
  -- accepted and while the loop adds to no freed input, the inputs have distinct addresses below
  -- the next one, and their array holds them and has a capacity of zero or 8 doubled some times.
  pub Reachable-IsConn :
      (socket : Socket) (s : Serving)
      → Reachable alloc server unary_fn program socket s
      → IsConn s.conn × Grown s.conn.inputs_cap
  Reachable-IsConn socket s r =
      let h = Reachable-IsServed socket s r in (IsServed-IsConn s.conn h, h.grown)
