-- ===== src/Exchange/Streams.antt =====
-- A stream of c/src/server.c, from the handler that emits its chunks to the client that receives them.
pub mod Begun
mod Tests
use callwire.Base.{
  ℕ, suc, ◌+◌, ◌^◌, ◌≤◌, ◌<◌, ◌≡◌, refl, ap, sym, ◌∙◌, subst, Bool, true, false, not, ◌&&◌, List,
  [], ◌∷◌, ◌++◌, append-nil, append_assoc, Option, none, some, arith, length, length-append, text,
  if_true, if_false, leb, if◌then◌else◌,
}
use callwire.Value.{Value, null, Items, Message}
use callwire.Codec.Outcome.{ok, failed}
use callwire.Codec.Encode.{Encoded, buf_limit, encode_stream_chunk, encode_stream_end}
use callwire.Codec.Carries.{Carries, encode_response-codec_decode, encode_stream_end-codec_decode}
use callwire.Framing.{Socket, write_frame}
use callwire.Framing.Incoming.{write_frames}
use callwire.Server.Connection.Writes.{write_encoded-Writes}
use callwire.Server.Loop.Frames.{reading}
use callwire.Framing.Receive.{bytes, IsOpen}
use callwire.Framing.Send.{frame, Sent, write_frame-Sent}
use callwire.Framing.Frames.{Leaves}
use callwire.Client.{Session}
use callwire.Client.Streams.{
  Receives, chunk_payload, end_payload, stream_bytes, Fit, end_payload-fits, stream_recv-stream,
}
use callwire.Server.Registry.{RegistryEntry, HandlerKind, stream_ctx}
use callwire.Server.Connection.{Conn, conn_write_frame, write_encoded, emit_chunk}
use callwire.Server.Dispatch.{
  Program, returns, emits, Thread, starting, running, closing, finished, is_unary, has_input,
  has_result, reply, begin, run_step, step_stage, thread_step,
}
use callwire.Exchange.{append_cancel}

-- A handler that emits some chunks and returns 0, whatever emit returns.
abbrev pub emit_all : List Value → Program
emit_all [] = returns true null
emit_all (v ∷ vs) = emits (some v) (λ done. emit_all vs)

-- The steps that it takes until its thread ends.
abbrev pub emit_steps : List Value → ℕ
emit_steps [] = 2
emit_steps (v ∷ vs) = suc (emit_steps vs)

module _ (alloc : ℕ → Bool) (unary_fn : RegistryEntry → Items → Bool × Value)
    (program : RegistryEntry → Items → Program) where
  -- A number of steps of a thread.
  abbrev pub steps : ℕ → Thread → Conn → Option (Thread × Conn)
  steps ℕ.zero t conn = some (t, conn)
  steps (suc n) t conn = elim (thread_step alloc unary_fn program t conn) [
    | none ↦ none
    | some r ↦ steps n r.0 r.1
  ]

some_injective : (p q : Thread × Conn) → some p ≡ some q → p ≡ q
some_injective p q e = cc

-- The payloads of a stream: its chunks, then its end.
abbrev pub stream_payloads : ℕ → List Value → List (List ℕ)
stream_payloads id [] = end_payload id ∷ []
stream_payloads id (v ∷ vs) = chunk_payload id v ∷ stream_payloads id vs

both_true : (b c : Bool) → b && c ≡ true → (b ≡ true) × (c ≡ true)
both_true true true e = (refl, refl)
both_true true false e = cc
both_true false c e = cc

-- If every write succeeds, the frames have gone out.
write_frames-stream_bytes :
    (id : ℕ) (vs : List Value) (s : Socket)
    → Fit id vs
    → (write_frames (stream_payloads id vs) s).0 ≡ true
    → (write_frames (stream_payloads id vs) s).1.sent ≡ s.sent ++ stream_bytes id vs
unfolding write_frames
write_frames-stream_bytes id [] s fit h =
    (subst (λ b. Sent (frame (end_payload id)) s (b, (write_frame (end_payload id) s).1))
      (both_true _ _ h).0 (write_frame-Sent (end_payload id) s (end_payload-fits id))).0
write_frames-stream_bytes id (v ∷ vs) s fit h =
    let written =
      subst (λ b. Sent (frame (chunk_payload id v)) s (b, (write_frame (chunk_payload id v) s).1))
        (both_true _ _ h).0 (write_frame-Sent (chunk_payload id v) s fit.1) in
    write_frames-stream_bytes id vs (write_frame (chunk_payload id v) s).1 fit.2 (both_true _ _ h).1
    ∙ ap (λ z. z ++ stream_bytes id vs) written.0
    ∙ append_assoc s.sent (frame (chunk_payload id v)) (stream_bytes id vs)

module _ (alloc : ℕ → Bool) (enough : (n : ℕ) → alloc n ≡ true)
    (unary_fn : RegistryEntry → Items → Bool × Value) (program : RegistryEntry → Items → Program)
    (t : Thread) (kind : t.entry.kind ≡ stream_ctx) (small : t.id < 2 ^ 64) where
  abbrev at : List Value → Thread
  at vs = record t { stage = running none (emit_all vs) }

  -- A thread that has still to emit some chunks, run to its end.
  emit_all-steps :
      (vs : List Value) (conn : Conn)
      → Fit t.id vs
      → (conn' : Conn) × (steps alloc unary_fn program (emit_steps vs) (at vs) conn
          ≡ some (record t { stage = finished }, conn'))
        × (conn' ≡ reading conn (write_frames (stream_payloads t.id vs) conn.socket).1)
  unfolding thread_step step_stage run_step reply emit_chunk write_frames
  emit_all-steps [] conn fit =
      let end =
        write_encoded-Writes alloc conn (encode_stream_end alloc t.id) (end_payload t.id) _
          (encode_stream_end-codec_decode alloc enough t.id small).0 (end_payload-fits t.id) in
      ((write_encoded conn (encode_stream_end alloc t.id)).1, rw kind refl, end.0)
  emit_all-steps (v ∷ vs) conn fit =
      let written =
        write_encoded-Writes alloc conn (encode_stream_chunk alloc t.id (some v))
          (chunk_payload t.id v) _
          (encode_response-codec_decode alloc enough t.id small (some v) fit.0).1 fit.1 in
      let (conn', ran, more) =
        emit_all-steps vs (write_encoded conn (encode_stream_chunk alloc t.id (some v))).1 fit.2 in
      (
        conn',
        ran,
        more ∙ ap (λ c. reading c (write_frames (stream_payloads t.id vs) c.socket).1) written.0,
      )

  begins :
      (vs : List Value) (conn : Conn)
      → t.stage ≡ starting
      → program t.entry t.args ≡ emit_all vs
      → thread_step alloc unary_fn program t conn ≡ some (at vs, conn)
  unfolding thread_step step_stage begin
  begins vs conn start emitting =
      ap (λ s. step_stage alloc unary_fn program s t conn) start
      ∙ if_false (is_unary t.entry.kind) _ _ (ap is_unary kind)
      ∙ ap (λ s. some (record t { stage = s }, conn))
          (if_false (has_input t.entry.kind) _ _ (ap has_input kind) ∙ ap (running none) emitting)

  -- The same from the start of the thread.
  started-steps :
      (vs : List Value) (conn : Conn)
      → t.stage ≡ starting
      → program t.entry t.args ≡ emit_all vs
      → Fit t.id vs
      → (conn' : Conn) × (steps alloc unary_fn program (suc (emit_steps vs)) t conn
          ≡ some (record t { stage = finished }, conn'))
        × (conn' ≡ reading conn (write_frames (stream_payloads t.id vs) conn.socket).1)
  started-steps vs conn start emitting fit =
      let (conn', ran, writes) = emit_all-steps vs conn fit in
      (
        conn',
        ap
              (λ o. elim o [
                | none ↦ none
                | some r ↦ steps alloc unary_fn program (emit_steps vs) r.0 r.1
              ])
              (begins vs conn start emitting)
            ∙ ran,
        writes,
      )

  -- Where every allocation succeeds and the stream of the client stays open, however it is cut: a
  -- thread of a server-streaming call runs a handler that emits some chunks, each valid and of at
  -- most 16 MB, whatever emit returns, and then returns 0; writing the chunks and the end one after
  -- the other succeeds on the socket. After one step for each chunk and three more, the thread has
  -- finished; and if the stream of the client begins with what it wrote, then the client that calls
  -- stream_recv again and again gets these chunks in this order and then the end, and has read
  -- exactly what the thread wrote.
  pub stream_recv-emit_all :
      (s : Session) (client_open : IsOpen s.socket.incoming) (vs : List Value) (conn conn' : Conn)
      (t' : Thread) (wire rest : List ℕ)
      → t.stage ≡ starting
      → program t.entry t.args ≡ emit_all vs
      → Fit t.id vs
      → (write_frames (stream_payloads t.id vs) conn.socket).0 ≡ true
      → steps alloc unary_fn program (suc (emit_steps vs)) t conn ≡ some (t', conn')
      → conn'.socket.sent ≡ conn.socket.sent ++ wire
      → bytes s.socket.incoming ≡ wire ++ rest
      → (t'.stage ≡ finished)
        × (socket : Socket) × Receives alloc vs s (record s { socket = socket })
        × Leaves rest s.socket socket
  stream_recv-emit_all s client_open vs conn conn' t' wire rest start emitting fit writes ran sent
        incoming =
      let (conn₂, ran₂, wrote) = started-steps vs conn start emitting fit in
      let same = some_injective _ _ (sym ran ∙ ran₂) in
      let whole : wire ≡ stream_bytes t.id vs =
        append_cancel conn.socket.sent wire (stream_bytes t.id vs) (
          sym sent
          ∙ ap (λ p. p.1.socket.sent) same
          ∙ ap (λ c. c.socket.sent) wrote
          ∙ write_frames-stream_bytes t.id vs conn.socket fit writes) in
      let received =
        stream_recv-stream alloc enough t.id small vs rest s client_open fit
          (incoming ∙ ap (λ z. z ++ rest) whole) in
      (ap (λ p. p.0.stage) same, received.0, received.1, received.2)
