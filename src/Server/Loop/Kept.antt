-- ===== src/Server/Loop/Kept.antt =====
-- The read loop of c/src/server.c keeps the invariant of a connection.
use callwire.Base.{
  if_keeps, ℕ, suc, ◌+◌, ◌≡◌, refl, ap, sym, subst, ◌≢◌, Bool, true, ◌&&◌, ◌||◌, not, List, [], ◌∷◌,
  Option, none, some, arith, if◌then◌else◌, length, text,
}
use callwire.Value.{null, Message}
use callwire.Codec.Outcome.{Outcome, ok, failed, crashed, out_of_fuel}
use callwire.Codec.Encode.{encode_error}
use callwire.Codec.Parse.{codec_decode}
use callwire.Framing.{Socket, read_frame}
use callwire.Client.{has_type}
use callwire.Server.Registry.{Server, RegistryEntry, find_handler}
use callwire.Server.Input.{StreamInput, stream_input_push}
use callwire.Server.Connection.{
  Conn, node_size, conn_register_input, conn_find_input, push_ends, write_error,
}
use callwire.Server.Connection.Invariant.{All, Distinct}
use callwire.Server.Connection.Kept.{
  IsServed, Keeps, conn_register_input-Keeps, write_encoded-IsServed,
}
use callwire.Server.Dispatch.{
  Thread, has_input, is_bidi, is_client_stream, context, context_size, spawn, start, dispatch_found,
  dispatch_named, dispatch_request,
}
use callwire.Server.Loop.{
  Round, goes_on, stops, crashes, Taken, to_push, round_ends, dispatched, found_input,
  handle_message, handle_decoded, handle_payload, take_frame, with_inputs, end_connection,
}

abbrev KeepsStarted : Option (Conn × Option Thread) → Type 0
KeepsStarted none = Unit
KeepsStarted (some r) = IsServed r.0

abbrev pub KeepsRound : Round → Type 0
KeepsRound (goes_on conn t) = IsServed conn
KeepsRound (stops conn) = IsServed conn
KeepsRound crashes = Unit

abbrev pub KeepsTaken : Taken → Type 0
KeepsTaken (to_push conn id a value is_end) = IsServed conn
KeepsTaken (round_ends round) = KeepsRound round

-- The socket does not matter.
on_socket :
    (conn : Conn) (socket : Socket) → IsServed conn → IsServed (record conn { socket = socket })
on_socket conn socket h = record {
  distinct = h.distinct;
  below = h.below;
  fits = h.fits;
  grown = h.grown;
}

-- The same addresses.
abbrev Like : List StreamInput → List StreamInput → Type 0
Like [] [] = Unit
Like [] (j ∷ js) = ⊥
Like (i ∷ is) [] = ⊥
Like (i ∷ is) (j ∷ js) = (j.address ≡ i.address) × Like is js

abbrev LikeOption : List StreamInput → Option (List StreamInput) → Type 0
LikeOption is none = Unit
LikeOption is (some js) = Like is js

All-Like : (p : ℕ → Type 0) (is js : List StreamInput) → Like is js → All p is → All p js
All-Like p [] [] l h = tt
All-Like p [] (j ∷ js) l h = absurd l
All-Like p (i ∷ is) [] l h = absurd l
All-Like p (i ∷ is) (j ∷ js) l h = (subst p (sym l.0) h.0, All-Like p is js l.1 h.1)

Distinct-Like : (is js : List StreamInput) → Like is js → Distinct is → Distinct js
Distinct-Like [] [] l d = tt
Distinct-Like [] (j ∷ js) l d = absurd l
Distinct-Like (i ∷ is) [] l d = absurd l
Distinct-Like (i ∷ is) (j ∷ js) l d = (
  subst (λ a. All (λ b. b ≢ a) js) (sym l.0) (All-Like _ is js l.1 d.0),
  Distinct-Like is js l.1 d.1,
)

length-Like : (is js : List StreamInput) → Like is js → length js ≡ length is
length-Like [] [] l = refl
length-Like [] (j ∷ js) l = absurd l
length-Like (i ∷ is) [] l = absurd l
length-Like (i ∷ is) (j ∷ js) l = ap suc (length-Like is js l.1)

module _ (alloc : ℕ → Bool) where
  pub write_error-IsServed :
      (conn : Conn) (id : ℕ) (error_type message : List ℕ)
      → IsServed conn
      → IsServed (write_error alloc conn id error_type message)
  unfolding write_error
  write_error-IsServed conn id error_type message h =
      write_encoded-IsServed conn (encode_error alloc id (some error_type) (some message)) h

  start-Keeps :
      (spawns : Bool) (conn : Conn) (msg : Message) (entry : RegistryEntry)
      → IsServed conn
      → KeepsStarted (start alloc spawns conn msg entry)
  unfolding start spawn
  start-Keeps spawns conn msg entry h =
      if_keeps KeepsStarted (not (alloc context_size && alloc (length entry.name + 1))) _ _ tt (
        if_keeps KeepsStarted (has_input entry.kind) _ _
          (after_register (conn_register_input alloc conn msg.id)
            (conn_register_input-Keeps alloc conn msg.id h))
          h)
    where
      after_register :
          (o : Option Conn)
          → Keeps o
          → KeepsStarted
              (elim o [ none ↦ none | some conn' ↦ some (spawn spawns (context msg entry) conn') ])
      after_register none k = tt
      after_register (some conn') k = k

  dispatch_request-Keeps :
      (spawns : Bool) (server : Server) (conn : Conn) (msg : Message)
      → IsServed conn
      → KeepsStarted (dispatch_request alloc spawns server conn msg)
  unfolding dispatch_request dispatch_named dispatch_found
  dispatch_request-Keeps spawns server conn msg h = named msg.func
    where
      found : (o : Option RegistryEntry) → KeepsStarted (dispatch_found alloc spawns conn msg o)
      found none = write_error-IsServed conn msg.id _ _ h
      found (some entry) =
          if_keeps KeepsStarted (is_bidi entry.kind && not msg.stream) _ _
            (write_error-IsServed conn msg.id _ _ h)
            (if_keeps KeepsStarted (is_client_stream entry.kind && msg.stream) _ _
              (write_error-IsServed conn msg.id _ _ h) (start-Keeps spawns conn msg entry h))

      named : (o : Option (List ℕ)) → KeepsStarted (dispatch_named alloc spawns server conn msg o)
      named none = write_error-IsServed conn msg.id _ _ h
      named (some func) = found (find_handler server func)

  dispatched-Keeps :
      (o : Option (Conn × Option Thread)) → KeepsStarted o → KeepsRound (dispatched o)
  dispatched-Keeps none h = tt
  dispatched-Keeps (some r) h = h

  pub take_frame-Keeps :
      (spawns : Bool) (server : Server) (conn : Conn)
      → IsServed conn
      → KeepsTaken (take_frame alloc spawns server conn)
  unfolding take_frame handle_payload handle_decoded handle_message found_input
  take_frame-Keeps spawns server conn h =
      on_payload (read_frame alloc conn.socket).0 _
        (on_socket conn (read_frame alloc conn.socket).1 h)
    where
      found :
          (c : Conn) (msg : Message) (o : Option StreamInput)
          → IsServed c
          → KeepsTaken (found_input c msg o)
      found c msg none k = k
      found c msg (some i) k = if_keeps KeepsTaken (has_type msg (text "stream_chunk")) _ _ k k

      on_message :
          (o : Outcome Message) (c : Conn)
          → IsServed c
          → KeepsTaken (handle_decoded alloc spawns server c o)
      on_message (ok msg) c k =
          if_keeps KeepsTaken
            (has_type msg (text "stream_chunk")
              || has_type msg (text "stream_close")
              || has_type msg (text "stream_end"))
            _ _ (found c msg (conn_find_input c msg.id) k)
            (if_keeps KeepsTaken (has_type msg (text "request")) _ _
              (dispatched-Keeps _ (dispatch_request-Keeps spawns server c msg k)) k)
      on_message failed c k = k
      on_message crashed c k = tt
      on_message out_of_fuel c k = tt

      on_payload :
          (o : Option (List ℕ)) (c : Conn)
          → IsServed c
          → KeepsTaken (handle_payload alloc spawns server c o)
      on_payload none c k = k
      on_payload (some payload) c k = on_message (codec_decode alloc payload) c k

  push_ends-Like : (is : List StreamInput) → LikeOption is (push_ends alloc is)
  unfolding push_ends stream_input_push
  push_ends-Like [] = tt
  push_ends-Like (i ∷ is) = added (push_ends alloc is) (push_ends-Like is)
    where
      added :
          (o : Option (List StreamInput))
          → LikeOption is o
          → LikeOption (i ∷ is) (elim o [
            | none ↦ none
            | some is' ↦
                if alloc node_size then some (stream_input_push i null true ∷ is') else none
          ])
      added none l = tt
      added (some js) l = if_keeps (LikeOption (i ∷ is)) (alloc node_size) _ _ (refl, l) tt

  pub end_connection-Keeps : (conn : Conn) → IsServed conn → Keeps (end_connection alloc conn)
  unfolding end_connection
  end_connection-Keeps conn h = with_like (push_ends alloc conn.inputs) (push_ends-Like conn.inputs)
    where
      with_like :
          (o : Option (List StreamInput)) → LikeOption conn.inputs o → Keeps (with_inputs conn o)
      with_like none l = tt
      with_like (some js) l = record {
        distinct = Distinct-Like conn.inputs js l h.distinct;
        below = All-Like _ conn.inputs js l h.below;
        fits = omega (arith, length-Like conn.inputs js l, h.fits);
        grown = h.grown;
      }
