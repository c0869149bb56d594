-- ===== src/Server/Loop/Requests.antt =====
-- A request to a unary function, from its frame to the reply, in c/src/server.c.
use callwire.Base.{
  ℕ, ◌+◌, ◌^◌, ◌≤◌, ◌<◌, ◌≡◌, refl, ◌∙◌, ◌⊎◌, inl, inr, Bool, true, false, List, ◌++◌, some,
  if_true, length, c_string, same_string,
}
use callwire.Value.{Value, Items, IsValid, IsValidItems, count_items}
use callwire.Mpack.Format.{map_head}
use callwire.Codec.Message.{request_rest}
use callwire.Codec.Carries.{encode_request-codec_decode}
use callwire.Client.{has_type}
use callwire.Framing.{Socket, max_frame_size}
use callwire.Framing.Receive.{bytes, IsOpen}
use callwire.Framing.Send.{frame}
use callwire.Server.Registry.{
  HandlerKind, unary, unary_ctx, stream_ctx, client_stream_ctx, bidi_ctx, Server, RegistryEntry,
  find_handler,
}
use callwire.Server.Connection.{Conn}
use callwire.Server.Connection.Writes.{Writes}
use callwire.Server.Dispatch.{
  Program, Thread, starting, finished, is_unary, has_input, spawn, start, dispatch_found,
  dispatch_named, dispatch_request, dispatch_unary, step_stage, thread_step, reply,
}
use callwire.Server.Dispatch.Threads.{reply_message, reply_payload, response_payload, reply-Writes}
use callwire.Server.Loop.{goes_on, handle_message, handle_frame}
use callwire.Server.Loop.Frames.{reading, handle_frame-message}

-- A request for a function, and the thread that it starts.
abbrev pub request_payload : ℕ → List ℕ → Items → List ℕ
request_payload id func args = map_head 4 ++ request_rest id (c_string func) args false

abbrev pub unary_thread : ℕ → RegistryEntry → Items → Thread
unary_thread id entry args = record { id = id; entry = entry; args = args; stage = starting }

no_input-cases :
    (kind : HandlerKind)
    → has_input kind ≡ false
    → (kind ≡ unary) ⊎ (kind ≡ unary_ctx) ⊎ (kind ≡ stream_ctx)
no_input-cases unary h = inl refl
no_input-cases unary_ctx h = inr (inl refl)
no_input-cases stream_ctx h = inr (inr refl)
no_input-cases client_stream_ctx h = cc
no_input-cases bidi_ctx h = cc

is_unary-has_input : (kind : HandlerKind) → is_unary kind ≡ true → has_input kind ≡ false
is_unary-has_input unary h = refl
is_unary-has_input unary_ctx h = refl
is_unary-has_input stream_ctx h = cc
is_unary-has_input client_stream_ctx h = cc
is_unary-has_input bidi_ctx h = cc

module _ (alloc : ℕ → Bool) (enough : (n : ℕ) → alloc n ≡ true) (server : Server) (conn : Conn)
    (connected : IsOpen conn.socket.incoming) (id : ℕ) (small : id < 2 ^ 64) where
  -- The frame of a request for a function that is exported with a handler that reads no stream makes the loop start
  -- one thread, with the id and the arguments of the request, and go on behind the frame; it writes
  -- nothing and changes no input.
  pub handle_frame-request :
      (func : List ℕ) (args : Items) (rest : List ℕ) (entry : RegistryEntry)
      → find_handler server (c_string func) ≡ some entry
      → has_input entry.kind ≡ false
      → length (c_string func) < 2 ^ 32
      → count_items args < 2 ^ 32
      → IsValidItems args
      → length (request_payload id func args) ≤ max_frame_size
      → bytes conn.socket.incoming ≡ frame (request_payload id func args) ++ rest
      → (socket : Socket) × (handle_frame alloc true server conn
          ≡ goes_on (reading conn socket) (some (unary_thread id entry args)))
        × (bytes socket.incoming ≡ rest)
        × (socket.sent ≡ conn.socket.sent)
        × (socket.accepts ≡ conn.socket.accepts)
  unfolding handle_message has_type same_string dispatch_request dispatch_named dispatch_found start
      spawn
  handle_frame-request func args rest entry found kind name_fits args_fit valid fits e =
      let read =
        handle_frame-message alloc enough true server conn connected (request_payload id func args)
          rest _ fits
          (encode_request-codec_decode alloc enough id small (some func) args name_fits args_fit
            valid).0.1
          e in
      (
        read.0,
        read.1 ∙ elim (no_input-cases entry.kind kind) [
          | inl k ↦ rw (found, k, enough 72, enough (length entry.name + 1)) refl
          | inr (inl k) ↦ rw (found, k, enough 72, enough (length entry.name + 1)) refl
          | inr (inr k) ↦ rw (found, k, enough 72, enough (length entry.name + 1)) refl
        ],
        read.2.0,
        read.2.2,
        read.2.3,
      )

  -- Where every allocation succeeds, threads can be made, and the stream stays open: on the frame
  -- of a valid request for a function that is exported with a unary handler, the loop starts one
  -- thread, which applies the handler to the arguments of the request and writes, by one call of
  -- write_frame and nothing else, the payload of the result or of an error under the id of the
  -- request. This payload decodes to that message, and its frame goes out whole where write_frame
  -- returns 0, and else a proper prefix of it. The result is valid and its response has at most 16
  -- MB.
  pub handle_frame-thread_step :
      (unary_fn : RegistryEntry → Items → Bool × Value) (program : RegistryEntry → Items → Program)
      (func : List ℕ) (args : Items) (rest : List ℕ) (entry : RegistryEntry)
      → find_handler server (c_string func) ≡ some entry
      → is_unary entry.kind ≡ true
      → length (c_string func) < 2 ^ 32
      → count_items args < 2 ^ 32
      → IsValidItems args
      → length (request_payload id func args) ≤ max_frame_size
      → bytes conn.socket.incoming ≡ frame (request_payload id func args) ++ rest
      → IsValid (unary_fn entry args).1
      → length (response_payload id (unary_fn entry args).1) ≤ max_frame_size
      → (socket : Socket) × (handle_frame alloc true server conn
          ≡ goes_on (reading conn socket) (some (unary_thread id entry args)))
        × (socket.sent ≡ conn.socket.sent)
        × (socket.accepts ≡ conn.socket.accepts)
        × (conn' : Conn) × (thread_step alloc unary_fn program
              (unary_thread id entry args)
              (reading conn socket)
            ≡ some (record (unary_thread id entry args) { stage = finished }, conn'))
        × Writes alloc
            (reply_message id entry.kind (unary_fn entry args).0 (unary_fn entry args).1)
            (reply_payload id entry.kind (unary_fn entry args).0 (unary_fn entry args).1)
            (reading conn socket)
            conn'
  unfolding thread_step step_stage dispatch_unary
  handle_frame-thread_step unary_fn program func args rest entry found kind name_fits args_fit valid
        fits e v small_result =
      let read =
        handle_frame-request func args rest entry found (is_unary-has_input entry.kind kind)
          name_fits args_fit valid fits e in
      let answer =
        reply-Writes alloc unary_fn program enough (reading conn read.0) id small entry.kind
          (unary_fn entry args).0 (unary_fn entry args).1 v small_result in
      (
        read.0,
        read.1,
        read.3,
        read.4,
        reply alloc unary_fn program (reading conn read.0) id entry.kind (unary_fn entry args).0
            (unary_fn entry args).1,
        if_true (is_unary entry.kind) _ _ kind,
        answer,
      )
