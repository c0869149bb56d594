-- ===== src/Server/Loop/Stays.antt =====
-- Which inputs the read loop of c/src/server.c leaves registered, and the threads that it starts.
use callwire.Base.{
  if_keeps, ℕ, ◌+◌, ◌≡◌, refl, sym, subst, Bool, true, false, ◌&&◌, ◌||◌, not, List, Option, none,
  some, if◌then◌else◌, length, text,
}
use callwire.Value.{Message}
use callwire.Codec.Outcome.{Outcome, ok, failed, crashed, out_of_fuel}
use callwire.Codec.Encode.{Encoded, encode_error}
use callwire.Codec.Parse.{codec_decode}
use callwire.Framing.{read_frame}
use callwire.Client.{has_type}
use callwire.Server.Registry.{Server, RegistryEntry, find_handler}
use callwire.Server.Input.{StreamInput}
use callwire.Server.Connection.{
  Conn, conn_register_input, conn_find_input, conn_write_frame, write_encoded, write_error,
  push_ends,
}
use callwire.Server.Connection.Present.{
  Present, find_id-Present, Stays, StaysOption, Adds, conn_register_input-Adds, PresentEnds,
  push_ends-Present,
}
use callwire.Server.Dispatch.{
  Thread, starting, has_input, is_bidi, is_client_stream, context, context_size, spawn, start,
  dispatch_found, dispatch_named, dispatch_request,
}
use callwire.Server.Loop.{
  Round, goes_on, stops, crashes, Taken, to_push, round_ends, dispatched, found_input,
  handle_message, handle_decoded, handle_payload, take_frame, with_inputs, end_connection,
}

-- A thread that reads a stream has an input.
abbrev pub HasInput : Bool → Conn → ℕ → Type 0
HasInput false conn id = Unit
HasInput true conn id = (a : ℕ) × Present a id conn.inputs

-- A thread that is started.
abbrev pub Starts : Conn → Option Thread → Type 0
Starts conn none = Unit
Starts conn (some t) = (t.stage ≡ starting) × HasInput (has_input t.entry.kind) conn t.id

abbrev StaysStarted : Conn → Option (Conn × Option Thread) → Type 0
StaysStarted conn none = Unit
StaysStarted conn (some r) = Stays conn r.0 × Starts r.0 r.1

abbrev pub StaysRound : Conn → Round → Type 0
StaysRound conn (goes_on conn' t) = Stays conn conn' × Starts conn' t
StaysRound conn (stops conn') = Stays conn conn'
StaysRound conn crashes = Unit

abbrev pub StaysTaken : Conn → Taken → Type 0
StaysTaken conn (to_push conn' id a value is_end) = Stays conn conn' × Present a id conn'.inputs
StaysTaken conn (round_ends round) = StaysRound conn round

Stays-refl : (conn : Conn) → Stays conn conn
Stays-refl conn a id h = h

pub write_encoded-Stays : (conn : Conn) (e : Encoded) → Stays conn (write_encoded conn e).1
unfolding write_encoded conn_write_frame
write_encoded-Stays conn (ok payload) a id h = h
write_encoded-Stays conn failed a id h = h
write_encoded-Stays conn crashed a id h = h
write_encoded-Stays conn out_of_fuel a id h = h

module _ (alloc : ℕ → Bool) where
  pub write_error-Stays :
      (conn : Conn) (id : ℕ) (error_type message : List ℕ)
      → Stays conn (write_error alloc conn id error_type message)
  unfolding write_error
  write_error-Stays conn id error_type message =
      write_encoded-Stays conn (encode_error alloc id (some error_type) (some message))

  start-Stays :
      (spawns : Bool) (conn : Conn) (msg : Message) (entry : RegistryEntry)
      → StaysStarted conn (start alloc spawns conn msg entry)
  unfolding start spawn
  start-Stays spawns conn msg entry =
      if_keeps (StaysStarted conn) (not (alloc context_size && alloc (length entry.name + 1))) _ _
        tt (by_kind (has_input entry.kind) refl)
    where
      started :
          (b : Bool) (c : Conn)
          → Stays conn c
          → HasInput (has_input entry.kind) c msg.id
          → StaysStarted conn (some (c, if b then some (context msg entry) else none))
      started true c s h = (s, (refl, h))
      started false c s h = (s, tt)

      registered :
          (o : Option Conn)
          → has_input entry.kind ≡ true
          → Adds conn msg.id o
          → StaysStarted conn
              (elim o [ none ↦ none | some conn' ↦ some (spawn spawns (context msg entry) conn') ])
      registered none e k = tt
      registered (some c) e k = started spawns c k.0 (subst (λ b. HasInput b c msg.id) (sym e) k.1)

      by_kind :
          (b : Bool)
          → has_input entry.kind ≡ b
          → StaysStarted conn (
              if b
              then elim (conn_register_input alloc conn msg.id) [
                | none ↦ none
                | some conn' ↦ some (spawn spawns (context msg entry) conn')
              ]
              else some (spawn spawns (context msg entry) conn))
      by_kind true e =
          registered (conn_register_input alloc conn msg.id) e
            (conn_register_input-Adds alloc conn msg.id)
      by_kind false e =
          started spawns conn (Stays-refl conn) (subst (λ b. HasInput b conn msg.id) (sym e) tt)

  dispatch_request-Stays :
      (spawns : Bool) (server : Server) (conn : Conn) (msg : Message)
      → StaysStarted conn (dispatch_request alloc spawns server conn msg)
  unfolding dispatch_request dispatch_named dispatch_found
  dispatch_request-Stays spawns server conn msg = named msg.func
    where
      refused :
          (error_type message : List ℕ)
          → StaysStarted conn (some (write_error alloc conn msg.id error_type message, none))
      refused error_type message = (write_error-Stays conn msg.id error_type message, tt)

      found :
          (o : Option RegistryEntry) → StaysStarted conn (dispatch_found alloc spawns conn msg o)
      found none = refused _ _
      found (some entry) =
          if_keeps (StaysStarted conn) (is_bidi entry.kind && not msg.stream) _ _ (refused _ _) (
            if_keeps (StaysStarted conn) (is_client_stream entry.kind && msg.stream) _ _
              (refused _ _) (start-Stays spawns conn msg entry))

      named :
          (o : Option (List ℕ)) → StaysStarted conn (dispatch_named alloc spawns server conn msg o)
      named none = refused _ _
      named (some func) = found (find_handler server func)

  dispatched-Stays :
      (conn : Conn) (o : Option (Conn × Option Thread))
      → StaysStarted conn o
      → StaysRound conn (dispatched o)
  dispatched-Stays conn none h = tt
  dispatched-Stays conn (some r) h = h

  pub take_frame-Stays :
      (spawns : Bool) (server : Server) (conn : Conn)
      → StaysTaken conn (take_frame alloc spawns server conn)
  unfolding take_frame handle_payload handle_decoded handle_message found_input conn_find_input
  take_frame-Stays spawns server conn =
      on_payload (read_frame alloc conn.socket).0
        (record conn { socket = (read_frame alloc conn.socket).1 })
    where
      found :
          (c : Conn) (msg : Message) (o : Option StreamInput)
          → conn_find_input c msg.id ≡ o
          → StaysTaken c (found_input c msg o)
      found c msg none e = (Stays-refl c, tt)
      found c msg (some i) e =
          let registered : Stays c c × Present i.address msg.id c.inputs =
            (Stays-refl c, find_id-Present msg.id c.inputs i e) in
          if_keeps (StaysTaken c) (has_type msg (text "stream_chunk")) _ _ registered registered

      on_message :
          (o : Outcome Message) (c : Conn) → StaysTaken c (handle_decoded alloc spawns server c o)
      on_message (ok msg) c =
          if_keeps (StaysTaken c)
            (has_type msg (text "stream_chunk")
              || has_type msg (text "stream_close")
              || has_type msg (text "stream_end"))
            _ _ (found c msg (conn_find_input c msg.id) refl)
            (if_keeps (StaysTaken c) (has_type msg (text "request")) _ _
              (dispatched-Stays c _ (dispatch_request-Stays spawns server c msg))
              (Stays-refl c, tt))
      on_message failed c = (Stays-refl c, tt)
      on_message crashed c = tt
      on_message out_of_fuel c = tt

      on_payload :
          (o : Option (List ℕ)) (c : Conn) → StaysTaken c (handle_payload alloc spawns server c o)
      on_payload none c = Stays-refl c
      on_payload (some payload) c = on_message (codec_decode alloc payload) c

  pub end_connection-Stays : (conn : Conn) → StaysOption conn (end_connection alloc conn)
  unfolding end_connection
  end_connection-Stays conn =
      with_ends (push_ends alloc conn.inputs) (push_ends-Present alloc conn.inputs)
    where
      with_ends :
          (o : Option (List StreamInput))
          → PresentEnds conn.inputs o
          → StaysOption conn (with_inputs conn o)
      with_ends none l = tt
      with_ends (some js) l = l
