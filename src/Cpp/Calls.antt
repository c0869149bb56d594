-- ===== src/Cpp/Calls.antt =====
-- The class Client of cpp/include/callwire/callwire.hpp. A client is the session of its pointer;
-- `present` says that the pointer is not null, as it is after a move. A ServerStream, an ExportStream
-- or a BidiStream is the id of its stream.
use callwire.Base.{ℕ, ◌==◌, Bool, List, [], ◌∷◌, ◌++◌, Option, none, some, text, ℤ, if◌then◌else◌}
use callwire.Value.{Value, Items, no_items, item}
use callwire.Errors.{error}
use callwire.Resources.{Resources}
use callwire.Codec.Outcome.{Outcome, ok, failed, crashed, out_of_fuel}
use callwire.Client.{
  Session, Chunk, chunk, ended, call, stream_begin, stream_recv, export_stream_begin,
  export_stream_send, export_stream_close, bidi_stream_begin, bidi_stream_send, bidi_stream_recv,
  bidi_stream_close_send,
}
use callwire.Client.Lifecycle.{Network, Handle, client_connect, client_close}
use callwire.Cpp.{Answer, value, exception, undefined, unfinished, ◌>>=◌, pure}
use callwire.Cpp.Values.{Wrapped, adopt}

-- The constructor, and the destructor of a client that was not moved from.
unfoldable pub connect :
    (ℕ → Bool) → Network → List ℕ → ℤ → Resources → List ℕ → Answer Handle × Resources × List ℕ
unfolding client_connect error
connect alloc net addr port r e =
    let p = client_connect alloc net addr port r e in
    (
      elim p.0 [
        | none ↦ exception (text "connect failed: " ++ error p.2)
        | some client ↦ value client
      ],
      p.1,
      p.2,
    )

unfoldable pub destroy : Option Handle → Resources → Resources
unfolding client_close
destroy none r = r
destroy (some client) r = client_close (some client) r

-- The assignment by move, to a client that is another one: its pointer, and that of the other.
unfoldable pub assign :
    Option Handle → Option Handle → Resources → Option Handle × Option Handle × Resources
unfolding destroy
assign client other r = (other, none, destroy client r)

-- `if (rc != 0) throw CallwireException(callwire_error());`
unfoldable pub or_throw : {A : Type 0} → Outcome A × Session → Answer A × Session
unfolding error
or_throw (ok a, s) = (value a, s)
or_throw (failed, s) = (exception (error s.error), s)
or_throw (crashed, s) = (undefined, s)
or_throw (out_of_fuel, s) = (unfinished, s)

-- raw_args
abbrev pub raw_args : List Wrapped → Items
raw_args [] = no_items
raw_args (w ∷ ws) = item w.raw (raw_args ws)

-- `return Value::adopt(result);`
abbrev pub adopted : Answer Value × Session → Answer Wrapped × Session
adopted (a, s) = (a >>= λ v. pure (adopt v), s)

-- An id of zero is a failure.
abbrev pub nonzero : Outcome ℕ × Session → Outcome ℕ × Session
nonzero (ok id, s) = (if id == 0 then failed else ok id, s)
nonzero (failed, s) = (failed, s)
nonzero (crashed, s) = (crashed, s)
nonzero (out_of_fuel, s) = (out_of_fuel, s)

-- What recv leaves in chunk_out where it returns true; none where it returns false.
abbrev pub received : Answer Chunk × Session → Answer (Option Wrapped) × Session
received (a, s) = (a >>= λ c. elim c [ chunk v ↦ pure (some (adopt v)) | ended ↦ pure none ], s)

module _ (alloc : ℕ → Bool) (present : Bool) where
  unfoldable pub call_value : List ℕ → List Wrapped → Session → Answer Wrapped × Session
  unfolding or_throw
  call_value func args s = adopted (or_throw (call alloc present (some func) (raw_args args) s))

  -- call<R>(func, args...), for the accessor of R.
  unfoldable pub call_as :
      {R : Type 0} → (Value → Answer R) → List ℕ → List Wrapped → Session → Answer R × Session
  unfolding call_value
  call_as as_type func args s =
      let (a, s') = call_value func args s in (a >>= λ w. as_type w.raw, s')

  unfoldable pub begin_stream : List ℕ → List Wrapped → Session → Answer ℕ × Session
  unfolding or_throw
  begin_stream func args s =
      or_throw (nonzero (stream_begin alloc present (some func) (raw_args args) s))

  unfoldable pub recv : Session → Answer (Option Wrapped) × Session
  unfolding or_throw
  recv s = received (or_throw (stream_recv alloc present s))

  unfoldable pub export_stream : List ℕ → Session → Answer ℕ × Session
  unfolding or_throw
  export_stream func s = or_throw (nonzero (export_stream_begin alloc present (some func) s))

  unfoldable pub send : ℕ → Wrapped → Session → Answer (Unit {0}) × Session
  unfolding or_throw
  send id w s = or_throw (export_stream_send alloc present id (some w.raw) s)

  unfoldable pub close_and_recv : ℕ → Session → Answer Wrapped × Session
  unfolding or_throw
  close_and_recv id s = adopted (or_throw (export_stream_close alloc present id s))

  unfoldable pub bidi_stream : List ℕ → Session → Answer ℕ × Session
  unfolding or_throw
  bidi_stream func s = or_throw (nonzero (bidi_stream_begin alloc present (some func) s))

  unfoldable pub bidi_send : ℕ → Wrapped → Session → Answer (Unit {0}) × Session
  unfolding or_throw
  bidi_send id w s = or_throw (bidi_stream_send alloc present id (some w.raw) s)

  unfoldable pub bidi_recv : Session → Answer (Option Wrapped) × Session
  unfolding or_throw
  bidi_recv s = received (or_throw (bidi_stream_recv alloc present s))

  unfoldable pub close_send : ℕ → Session → Answer (Unit {0}) × Session
  unfolding or_throw
  close_send id s = or_throw (bidi_stream_close_send alloc present id s)
