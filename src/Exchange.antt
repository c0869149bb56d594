-- ===== src/Exchange.antt =====
-- A call of c/src/client.c that the server of c/src/server.c answers: the two ends of a connection.
pub mod Streams
pub mod Typed
mod Tests
use callwire.Base.{
  ℕ, suc, ◌+◌, ◌%◌, ◌^◌, ◌≤◌, ◌<◌, ◌≡◌, refl, ap, sym, ◌∙◌, subst, ◌⊎◌, inl, inr, Bool, true, false,
  List, [], ◌∷◌, ◌++◌, Option, none, some, arith, length, drop, text, c_string, same_string,
  no_zero-NoZero,
}
use callwire.Value.{Value, Items, IsValid, IsValidItems, count_items, Message}
use callwire.Codec.Outcome.{Outcome, ok, failed}
use callwire.Codec.Parse.{codec_decode}
use callwire.Framing.{Socket, max_frame_size, write_frame}
use callwire.Framing.Incoming.{write_frame-reading}
use callwire.Framing.Receive.{bytes, IsOpen}
use callwire.Framing.Send.{frame, Sent}
use callwire.Client.{Session, call, final_reply, has_type}
use callwire.Client.Replies.{after, new_id, request, requested, call_answered, final_reply-error}
use callwire.Server.Registry.{
  HandlerKind, unary, unary_ctx, stream_ctx, client_stream_ctx, bidi_ctx, Server, RegistryEntry,
  find_handler,
}
use callwire.Server.Connection.{Conn}
use callwire.Server.Connection.Writes.{Writes}
use callwire.Server.Dispatch.{Program, Thread, is_unary, thread_step}
use callwire.Server.Dispatch.Threads.{reply_message, reply_payload, response_payload}
use callwire.Server.Loop.{Round, goes_on, stops, crashes, handle_frame}
use callwire.Server.Loop.Frames.{reading}
use callwire.Server.Loop.Requests.{unary_thread, handle_frame-thread_step}

-- The server takes a frame, and the thread that it starts runs: the connection then.
module _ (alloc : ℕ → Bool) (unary_fn : RegistryEntry → Items → Bool × Value)
    (program : RegistryEntry → Items → Program) where
  abbrev pub ran : Option (Thread × Conn) → Option Conn
  ran none = none
  ran (some (t, conn)) = some conn

  abbrev pub run_thread : Round → Option Conn
  run_thread (goes_on conn none) = some conn
  run_thread (goes_on conn (some t)) = ran (thread_step alloc unary_fn program t conn)
  run_thread (stops conn) = some conn
  run_thread crashes = none

  abbrev pub answer_frame : Server → Conn → Option Conn
  answer_frame server conn = run_thread (handle_frame alloc true server conn)

-- What the caller is told of a handler that returned `result`, with 0 or not.
abbrev pub told : Bool → Value → Session → Outcome Value × Session
told true result s = (ok result, s)
told false result s = (failed, record s { error = text "Error: handler returned an error" })

pub append_cancel : (xs ys zs : List ℕ) → xs ++ ys ≡ xs ++ zs → ys ≡ zs
append_cancel [] ys zs e = e
append_cancel (x ∷ xs) ys zs e = append_cancel xs ys zs (ap (drop 1) e)

final_reply-told :
    (id : ℕ) (kind : HandlerKind) (done : Bool) (result : Value) (s : Session)
    → is_unary kind ≡ true
    → final_reply (reply_message id kind done result) s ≡ told done result s
unfolding final_reply has_type same_string
final_reply-told id unary true result s h = refl
final_reply-told id unary_ctx true result s h = refl
final_reply-told id stream_ctx true result s h = cc
final_reply-told id client_stream_ctx true result s h = cc
final_reply-told id bidi_ctx true result s h = cc
final_reply-told id kind false result s h =
    final_reply-error id (text "Error") (text "handler returned an error")
      (no_zero-NoZero (text "Error") refl) (no_zero-NoZero (text "handler returned an error") refl)
      s

-- A write that succeeds puts the frame on the wire.
Writes-frame :
    (alloc : ℕ → Bool) (msg : Message) (payload : List ℕ) (conn conn' : Conn) (wire : List ℕ)
    → Writes alloc msg payload conn conn'
    → (write_frame payload conn.socket).0 ≡ true
    → conn'.socket.sent ≡ conn.socket.sent ++ wire
    → wire ≡ frame payload
Writes-frame alloc msg payload conn conn' wire (w, sent, _, _) done e =
    let whole =
      subst (λ b. Sent (frame payload) conn.socket (b, (write_frame payload conn.socket).1)) done
        sent in
    append_cancel conn.socket.sent wire (frame payload)
      (sym e ∙ ap (λ c. c.socket.sent) w ∙ whole.0)

module _ (alloc : ℕ → Bool) (enough : (n : ℕ) → alloc n ≡ true)
    (unary_fn : RegistryEntry → Items → Bool × Value) (program : RegistryEntry → Items → Program)
    (s : Session) (client_open : IsOpen s.socket.incoming) (server : Server) (conn : Conn)
    (server_open : IsOpen conn.socket.incoming) where
  -- Where every allocation succeeds, threads can be made, and both streams stay open: a client
  -- calls a function that the server exports with a unary handler; its name, its arguments, the
  -- result of the handler and both messages fit the format and a frame; the request goes out, and
  -- so does the reply of the server; the stream of the server begins with the request, the server
  -- takes this frame, the thread that it starts runs, and the stream of the client begins with what
  -- this wrote. Then the call returns the result of the handler for these arguments, or, if the
  -- handler did not return 0, fails with `Error: handler returned an error`, and the client has
  -- read exactly what the server wrote.
  pub call-answer_frame :
      (func : List ℕ) (args : Items) (entry : RegistryEntry) (more rest wire : List ℕ)
      (conn' : Conn)
      → find_handler server (c_string func) ≡ some entry
      → is_unary entry.kind ≡ true
      → length (c_string func) < 2 ^ 32
      → count_items args < 2 ^ 32
      → IsValidItems args
      → length (request alloc enough s func args) ≤ max_frame_size
      → IsValid (unary_fn entry args).1
      → length (response_payload (new_id alloc enough s func args) (unary_fn entry args).1)
        ≤ max_frame_size
      → (requested alloc enough s func args).0 ≡ true
      → (write_frame
          (reply_payload
            (new_id alloc enough s func args)
            entry.kind
            (unary_fn entry args).0
            (unary_fn entry args).1)
          conn.socket).0
        ≡ true
      → bytes conn.socket.incoming ≡ frame (request alloc enough s func args) ++ more
      → answer_frame alloc unary_fn program server conn ≡ some conn'
      → conn'.socket.sent ≡ conn.socket.sent ++ wire
      → bytes s.socket.incoming ≡ wire ++ rest
      → (socket : Socket) × (call alloc true (some func) args s
          ≡ told
              (unary_fn entry args).0
              (unary_fn entry args).1
              (after s (new_id alloc enough s func args) socket))
        × (bytes socket.incoming ≡ rest)
  call-answer_frame func args entry more rest wire conn' found kind name_fits args_fit valid fits v
        v_fits written replies asked answered sent incoming =
      let id = new_id alloc enough s func args in
      let served =
        handle_frame-thread_step alloc enough server conn server_open id (omega arith) unary_fn
          program func args more entry found kind name_fits args_fit valid fits asked v v_fits in
      let (socket, taken, unsent, accepts, conn₂, ran_to, writes) = served in
      let same : some conn₂ ≡ some conn' =
        sym (ap (run_thread alloc unary_fn program) taken ∙ ap (ran alloc unary_fn program) ran_to)
        ∙ answered in
      let same_conn : conn₂ ≡ conn' = cc in
      let msg = reply_message id entry.kind (unary_fn entry args).0 (unary_fn entry args).1 in
      let payload = reply_payload id entry.kind (unary_fn entry args).0 (unary_fn entry args).1 in
      let whole =
        Writes-frame alloc msg payload (reading conn socket) conn' wire
          (subst (λ c. Writes alloc msg payload (reading conn socket) c) same_conn writes)
          (write_frame-reading payload conn.socket socket unsent accepts ∙ replies)
          (sent ∙ ap (λ z. z ++ wire) (sym unsent)) in
      let answer =
        call_answered alloc enough s func args client_open name_fits args_fit valid fits written
          payload rest msg writes.3 (incoming ∙ ap (λ z. z ++ rest) whole) writes.2 in
      (
        answer.0,
        answer.1
            ∙ final_reply-told _ entry.kind (unary_fn entry args).0 (unary_fn entry args).1 _ kind,
        answer.2,
      )
