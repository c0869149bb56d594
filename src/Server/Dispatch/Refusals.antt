-- ===== src/Server/Dispatch/Refusals.antt =====
-- The requests that dispatch_request of c/src/server.c refuses, and those that it starts a thread for.
use callwire.Base.{
  ℕ, ◌+◌, ◌^◌, ◌<◌, ◌≡◌, refl, Bool, true, false, List, none, some, arith, length, text, no_zero,
  no_zero-NoZero,
}
use callwire.Value.{Message}
use callwire.Codec.Carries.{error_reply}
use callwire.Server.Registry.{client_stream_ctx, bidi_ctx, Server, RegistryEntry, find_handler}
use callwire.Server.Connection.{Conn, write_error}
use callwire.Server.Connection.Writes.{Writes, error_payload, write_error-Writes}
use callwire.Server.Dispatch.{dispatch_found, dispatch_named, dispatch_request}

-- Why a request is refused, and what its caller is told.
pub data Refused (server : Server) (msg : Message) : List ℕ → List ℕ → Type 0 where
  missing_func : msg.func ≡ none → Refused server msg (text "TypeError") (text "missing func field")
  not_exported :
      {func : List ℕ}
      → msg.func ≡ some func
      → find_handler server func ≡ none
      → Refused server msg (text "NotFoundError") (text "function not exported")
  not_bidi_call :
      {func : List ℕ} {entry : RegistryEntry}
      → msg.func ≡ some func
      → find_handler server func ≡ some entry
      → entry.kind ≡ bidi_ctx
      → msg.stream ≡ false
      → Refused server msg (text "TypeError") (text "function requires stream:true (bidi call)")
  not_bidi_function :
      {func : List ℕ} {entry : RegistryEntry}
      → msg.func ≡ some func
      → find_handler server func ≡ some entry
      → entry.kind ≡ client_stream_ctx
      → msg.stream ≡ true
      → Refused server msg (text "TypeError") (text "function is client-streaming, not bidi")

module _ (alloc : ℕ → Bool) (enough : (n : ℕ) → alloc n ≡ true) (server : Server) (conn : Conn)
    (msg : Message) where
  refusal :
      (spawns : Bool) (error_type message : List ℕ)
      → msg.id < 2 ^ 64
      → no_zero error_type ≡ true
      → no_zero message ≡ true
      → length error_type + length message < 2 ^ 16
      → dispatch_request alloc spawns server conn msg
        ≡ some (write_error alloc conn msg.id error_type message, none)
      → (conn' : Conn) × (dispatch_request alloc spawns server conn msg ≡ some (conn', none))
        × Writes alloc
            (error_reply msg.id error_type message)
            (error_payload msg.id error_type message)
            conn
            conn'
  refusal spawns error_type message small t m fits e = (
    write_error alloc conn msg.id error_type message,
    e,
    write_error-Writes alloc enough conn msg.id small error_type message
        (no_zero-NoZero error_type t) (no_zero-NoZero message m) fits,
  )

  -- Where every allocation succeeds: a request that is refused, since it names no function, or none
  -- that is exported, or its stream flag does not fit the function, starts no thread and changes no
  -- input; its caller is sent, by one call of write_frame and nothing else, the payload of an error
  -- message with the id of the request and the reason. The payload decodes to this message, and its
  -- frame goes out whole where write_frame returns 0, and else a proper prefix of it.
  pub dispatch_request-Refused :
      (spawns : Bool) (error_type message : List ℕ)
      → msg.id < 2 ^ 64
      → Refused server msg error_type message
      → (conn' : Conn) × (dispatch_request alloc spawns server conn msg ≡ some (conn', none))
        × Writes alloc
            (error_reply msg.id error_type message)
            (error_payload msg.id error_type message)
            conn
            conn'
  unfolding dispatch_request dispatch_named dispatch_found
  dispatch_request-Refused spawns error_type message small (missing_func f) =
      refusal spawns error_type message small refl refl (omega arith) (rw f refl)
  dispatch_request-Refused spawns error_type message small (not_exported f found) =
      refusal spawns error_type message small refl refl (omega arith) (rw (f, found) refl)
  dispatch_request-Refused spawns error_type message small (not_bidi_call f found kind stream) =
      refusal spawns error_type message small refl refl (omega arith)
        (rw (f, found, kind, stream) refl)
  dispatch_request-Refused spawns error_type message small (not_bidi_function f found kind stream) =
      refusal spawns error_type message small refl refl (omega arith)
        (rw (f, found, kind, stream) refl)
