-- ===== src/Exchange/Streams/Begun.antt =====
-- A server-streaming call of c/src/client.c, from callwire_client_stream_begin to the end of the stream.
use callwire.Base.{
  ℕ, suc, ◌^◌, ◌≤◌, ◌<◌, ◌≡◌, refl, ap, sym, ◌∙◌, subst, Bool, true, List, ◌++◌, Option, none, some,
  arith, length, c_string,
}
use callwire.Value.{Value, Items, IsValidItems, count_items}
use callwire.Codec.Outcome.{ok}
use callwire.Framing.{Socket, max_frame_size}
use callwire.Framing.Incoming.{write_frames, write_frames-reading}
use callwire.Framing.Receive.{bytes, IsOpen}
use callwire.Framing.Send.{frame}
use callwire.Framing.Frames.{Leaves}
use callwire.Client.{Session, stream_begin}
use callwire.Client.Replies.{after, new_id, request, requested, request-Sent, stream_begin-request}
use callwire.Client.Streams.{Receives, Fit}
use callwire.Server.Registry.{Server, RegistryEntry, stream_ctx, find_handler}
use callwire.Server.Connection.{Conn}
use callwire.Server.Dispatch.{Program, Thread, finished, has_input}
use callwire.Server.Loop.{Round, goes_on, stops, crashes, handle_frame}
use callwire.Server.Loop.Frames.{reading}
use callwire.Server.Loop.Requests.{unary_thread, handle_frame-request}
use callwire.Exchange.Streams.{emit_all, emit_steps, stream_payloads, steps, stream_recv-emit_all}

-- The server takes a frame, and the thread that it starts takes a number of steps.
abbrev pub run_steps :
    (ℕ → Bool)
    → (RegistryEntry → Items → Bool × Value)
    → (RegistryEntry → Items → Program)
    → ℕ
    → Round
    → Option (Thread × Conn)
run_steps alloc unary_fn program n (goes_on conn none) = none
run_steps alloc unary_fn program n (goes_on conn (some t)) = steps alloc unary_fn program n t conn
run_steps alloc unary_fn program n (stops conn) = none
run_steps alloc unary_fn program n crashes = none

module _ (alloc : ℕ → Bool) (enough : (n : ℕ) → alloc n ≡ true)
    (unary_fn : RegistryEntry → Items → Bool × Value) (program : RegistryEntry → Items → Program)
    (s : Session) (client_open : IsOpen s.socket.incoming) (server : Server) (conn : Conn)
    (server_open : IsOpen conn.socket.incoming) where
  -- Where every allocation succeeds, threads can be made, and both streams stay open, however they
  -- are cut: a client begins a stream of a function that the server exports with a server-streaming
  -- handler, which emits some chunks, each valid and of at most 16 MB, whatever emit returns, and
  -- then returns 0; the name, the arguments and the request fit the format and a frame; the request
  -- goes out; the stream of the server begins with it, the server takes this frame, and the thread
  -- that it starts takes one step for each chunk and three more; writing the chunks and the end one
  -- after the other succeeds on the socket of the server. Then the client has the next id and has
  -- sent exactly its request, and the thread has finished; and if the stream of the client begins
  -- with what the thread wrote, then the client that calls stream_recv again and again gets these
  -- chunks in this order and then the end, and has read exactly what the thread wrote.
  pub stream_begin-emit_all :
      (func : List ℕ) (args : Items) (entry : RegistryEntry) (vs : List Value)
      (more rest wire : List ℕ) (t' : Thread) (conn' : Conn)
      → find_handler server (c_string func) ≡ some entry
      → entry.kind ≡ stream_ctx
      → program entry args ≡ emit_all vs
      → Fit (new_id alloc enough s func args) vs
      → length (c_string func) < 2 ^ 32
      → count_items args < 2 ^ 32
      → IsValidItems args
      → length (request alloc enough s func args) ≤ max_frame_size
      → (requested alloc enough s func args).0 ≡ true
      → (write_frames (stream_payloads (new_id alloc enough s func args) vs) conn.socket).0 ≡ true
      → bytes conn.socket.incoming ≡ frame (request alloc enough s func args) ++ more
      → run_steps alloc unary_fn program (suc (emit_steps vs)) (handle_frame alloc true server conn)
        ≡ some (t', conn')
      → conn'.socket.sent ≡ conn.socket.sent ++ wire
      → bytes s.socket.incoming ≡ wire ++ rest
      → (s' : Session) × (stream_begin alloc true (some func) args s
          ≡ (ok (new_id alloc enough s func args), s'))
        × (s'.socket.sent ≡ s.socket.sent ++ frame (request alloc enough s func args))
        × (t'.stage ≡ finished)
        × (socket : Socket) × Receives alloc vs s' (record s' { socket = socket })
        × Leaves rest s'.socket socket
  stream_begin-emit_all func args entry vs more rest wire t' conn' found kind emitting fit name_fits
        args_fit valid fits written writes asked ran sent incoming =
      let id = new_id alloc enough s func args in
      let out =
        request-Sent alloc enough s func args client_open name_fits args_fit valid fits written in
      let s' = after s id (requested alloc enough s func args).1 in
      let (socket, taken, _, unsent, accepts) =
        handle_frame-request alloc enough server conn server_open id (omega arith) func args more
          entry found (ap has_input kind) name_fits args_fit valid fits asked in
      let received =
        stream_recv-emit_all alloc enough unary_fn program (unary_thread id entry args) kind
          (omega arith) s' (subst IsOpen (sym out.1) client_open) vs (reading conn socket) conn' t'
          wire rest refl emitting fit
          (write_frames-reading (stream_payloads id vs) conn.socket socket unsent accepts ∙ writes)
          (sym (ap (run_steps alloc unary_fn program (suc (emit_steps vs))) taken) ∙ ran)
          (sent ∙ ap (λ z. z ++ wire) (sym unsent)) (ap bytes out.1 ∙ incoming) in
      (
        s',
        stream_begin-request alloc enough s func args client_open name_fits args_fit valid fits
            written,
        out.0,
        received.0,
        received.1,
        received.2,
        received.3,
      )
