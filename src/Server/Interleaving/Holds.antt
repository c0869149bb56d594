-- ===== src/Server/Interleaving/Holds.antt =====
-- The inputs that the threads of a connection of c/src/server.c point to, while no two running calls
-- that read a stream have the same id.
use callwire.Base.{
  ℕ, ◌≡◌, refl, sym, ap, subst, ◌≢◌, Bool, true, false, ◌&&◌, not, Option, none, some, if_keeps,
  if◌then◌else◌,
}
use callwire.Value.{Value, Items}
use callwire.Codec.Encode.{encode_response, encode_stream_chunk, encode_stream_end}
use callwire.Server.Registry.{HandlerKind, RegistryEntry}
use callwire.Server.Input.{Received, blocked, chunk, ended}
use callwire.Server.Connection.{
  Conn, conn_find_input, conn_remove_input, recv_at, recv_found, emit_chunk,
}
use callwire.Server.Connection.Present.{
  Present, Stays, StaysReceived, recv_at-Stays, Present-find_address, Present-find_id,
  conn_remove_input-Present,
}
use callwire.Server.Dispatch.{
  Program, returns, emits, receives, Stage, starting, running, closing, finished, Thread, has_input,
  has_result, is_unary, reply, dispatch_unary, begin, received, run_step, step_stage, thread_step,
}
use callwire.Server.Loop.Stays.{write_encoded-Stays, write_error-Stays}

-- A handler that is not given recv does not call it.
abbrev pub Sends : Program → Type 0
Sends (returns success result) = Unit
Sends (emits v k) = (b : Bool) → Sends (k b)
Sends (receives k) = ⊥

-- What a thread may use: its input until it has removed it.
abbrev pub HoldsStage : Bool → Conn → ℕ → Stage → Type 0
HoldsStage false conn id starting = Unit
HoldsStage false conn id (running ctx p) = Sends p
HoldsStage false conn id closing = Unit
HoldsStage false conn id finished = Unit
HoldsStage true conn id starting = (a : ℕ) × Present a id conn.inputs
HoldsStage true conn id (running none p) = ⊥
HoldsStage true conn id (running (some a) p) = Present a id conn.inputs
HoldsStage true conn id closing = Unit
HoldsStage true conn id finished = Unit

abbrev pub Holds : Conn → Thread → Type 0
Holds conn t = HoldsStage (has_input t.entry.kind) conn t.id t.stage

-- A thread that has an input to remove.
abbrev pub is_live : Stage → Bool
is_live finished = false
is_live starting = true
is_live (running ctx p) = true
is_live closing = true

abbrev pub reads_stream : Thread → Bool
reads_stream t = has_input t.entry.kind && is_live t.stage

pub HoldsStage-Stays :
    (b : Bool) (conn conn' : Conn) (id : ℕ) (s : Stage)
    → ((a : ℕ) → Present a id conn.inputs → Present a id conn'.inputs)
    → HoldsStage b conn id s
    → HoldsStage b conn' id s
HoldsStage-Stays false conn conn' id starting f h = tt
HoldsStage-Stays false conn conn' id (running ctx p) f h = h
HoldsStage-Stays false conn conn' id closing f h = tt
HoldsStage-Stays false conn conn' id finished f h = tt
HoldsStage-Stays true conn conn' id starting f h = (h.0, f h.0 h.1)
HoldsStage-Stays true conn conn' id (running none p) f h = h
HoldsStage-Stays true conn conn' id (running (some a) p) f h = f a h
HoldsStage-Stays true conn conn' id closing f h = tt
HoldsStage-Stays true conn conn' id finished f h = tt

-- A thread without an input to remove needs none.
pub HoldsStage-idle :
    (b : Bool) (conn conn' : Conn) (id : ℕ) (s : Stage)
    → (b && is_live s) ≡ false
    → HoldsStage b conn id s
    → HoldsStage b conn' id s
HoldsStage-idle false conn conn' id starting e h = tt
HoldsStage-idle false conn conn' id (running ctx p) e h = h
HoldsStage-idle false conn conn' id closing e h = tt
HoldsStage-idle false conn conn' id finished e h = tt
HoldsStage-idle true conn conn' id starting e h = cc
HoldsStage-idle true conn conn' id (running ctx p) e h = cc
HoldsStage-idle true conn conn' id closing e h = tt
HoldsStage-idle true conn conn' id finished e h = tt

-- What stays where an input with the id `gone` may be removed.
abbrev pub StaysBut : Bool → ℕ → Conn → Conn → Type 0
StaysBut b gone conn conn' =
    (a id : ℕ) → (b ≡ true → id ≢ gone) → Present a id conn.inputs → Present a id conn'.inputs

pub weaken_but :
    (b c : Bool) (gone : ℕ) (conn conn' : Conn)
    → StaysBut (b && c) gone conn conn'
    → StaysBut b gone conn conn'
weaken_but true c gone conn conn' f a id other present = f a id (λ e. other refl) present
weaken_but false c gone conn conn' f a id other present = f a id other present

but : (b : Bool) (gone : ℕ) (conn conn' : Conn) → Stays conn conn' → StaysBut b gone conn conn'
but b gone conn conn' f a id other h = f a id h

recv_at-found :
    (conn : Conn) (a id : ℕ)
    → Present a id conn.inputs
    → (r : Received × Conn) × (recv_at conn a ≡ some r)
unfolding recv_at recv_found
recv_at-found conn a id h =
    let (i, found) = Present-find_address a id conn.inputs h in (_, ap (recv_found conn) found)

module _ (alloc : ℕ → Bool) (unary_fn : RegistryEntry → Items → Bool × Value)
    (program : RegistryEntry → Items → Program)
    (quiet : (entry : RegistryEntry) (args : Items)
      → has_input entry.kind ≡ false
      → Sends (program entry args)) where
  reply-Stays :
      (conn : Conn) (id : ℕ) (kind : HandlerKind) (success : Bool) (result : Value)
      → Stays conn (reply alloc unary_fn program conn id kind success result)
  unfolding reply
  reply-Stays conn id kind success result =
      if_keeps (Stays conn) (not success) _ _ (write_error-Stays alloc conn id _ _) (
        if_keeps (Stays conn) (has_result kind) _ _
          (write_encoded-Stays conn (encode_response alloc id (some result)))
          (write_encoded-Stays conn (encode_stream_end alloc id)))

  -- A step that uses no null pointer and no freed input. It removes an input only where it is the
  -- last step of a thread that reads a stream, and one with the id of that thread.
  abbrev pub GoodRun : Thread → Conn → Option (Thread × Conn) → Type 0
  GoodRun t conn none = ⊥
  GoodRun t conn (some r) =
      StaysBut (reads_stream t && not (is_live r.0.stage)) t.id conn r.1
      × Holds r.1 r.0
      × (r.0.id ≡ t.id)
      × (r.0.entry ≡ t.entry)

  module _ (t : Thread) (conn : Conn) (b : Bool) (e : has_input t.entry.kind ≡ b) where
    good :
        (conn' : Conn) (s : Stage)
        → Stays conn conn'
        → HoldsStage b conn' t.id s
        → GoodRun t conn (some (record t { stage = s }, conn'))
    good conn' s f h =
        (but _ _ conn conn' f, subst (λ x. HoldsStage x conn' t.id s) (sym e) h, refl, refl)

  begin-Holds :
      (t : Thread) (conn : Conn) (b : Bool)
      → has_input t.entry.kind ≡ b
      → HoldsStage b conn t.id starting
      → HoldsStage b conn t.id (begin alloc unary_fn program conn t)
  unfolding begin conn_find_input
  begin-Holds t conn false e h = rw e (quiet t.entry t.args e)
  begin-Holds t conn true e h =
      let (i, found, registered) = Present-find_id h.0 t.id conn.inputs h.1 in
      rw (e, found) registered

  ended-Holds :
      (b : Bool) (conn : Conn) (id : ℕ)
      → HoldsStage b conn id finished × HoldsStage b conn id closing
  ended-Holds true conn id = (tt, tt)
  ended-Holds false conn id = (tt, tt)

  run_step-Holds :
      (t : Thread) (conn : Conn) (b : Bool) (ctx : Option ℕ) (p : Program)
      → has_input t.entry.kind ≡ b
      → t.stage ≡ running ctx p
      → HoldsStage b conn t.id (running ctx p)
      → GoodRun t conn (run_step alloc unary_fn program ctx p t conn)
  unfolding run_step emit_chunk
  run_step-Holds t conn b ctx (returns success result) e s h =
      good t conn b e _ closing (reply-Stays conn t.id t.entry.kind success result)
        (ended-Holds b _ t.id).1
  run_step-Holds t conn false ctx (emits v k) e s h =
      good t conn false e _ (running ctx (k _))
        (write_encoded-Stays conn (encode_stream_chunk alloc t.id v)) (h _)
  run_step-Holds t conn true none (emits v k) e s h = absurd h
  run_step-Holds t conn true (some a) (emits v k) e s h =
      good t conn true e _ (running (some a) (k _))
        (write_encoded-Stays conn (encode_stream_chunk alloc t.id v))
        (write_encoded-Stays conn (encode_stream_chunk alloc t.id v) a t.id h)
  run_step-Holds t conn false ctx (receives k) e s h = absurd h
  run_step-Holds t conn true none (receives k) e s h = absurd h
  run_step-Holds t conn true (some a) (receives k) e s h =
      let (r, got) = recv_at-found conn a t.id h in
      let stays : Stays conn r.1 = subst (StaysReceived conn) got (recv_at-Stays conn a) in
      subst
        (λ o.
          GoodRun t conn
            (elim o [ none ↦ none | some got ↦ some (received alloc unary_fn program k a t got) ]))
        (sym got) (on_recv r stays (stays a t.id h))
    where
      on_recv :
          (r : Received × Conn)
          → Stays conn r.1
          → Present a t.id r.1.inputs
          → GoodRun t conn (some (received alloc unary_fn program k a t r))
      on_recv (blocked, c) f g = (
        but _ _ conn c f,
        subst (λ x. HoldsStage x c t.id t.stage) (sym e) (subst (HoldsStage true c t.id) (sym s) g),
        refl,
        refl,
      )
      on_recv (chunk v, c) f g = good t conn true e c (running (some a) (k (some v))) f g
      on_recv (ended, c) f g = good t conn true e c (running (some a) (k none)) f g

  pub thread_step-Holds :
      (t : Thread) (conn : Conn)
      → Holds conn t
      → GoodRun t conn (thread_step alloc unary_fn program t conn)
  unfolding thread_step step_stage dispatch_unary
  thread_step-Holds t conn h = on_stage (has_input t.entry.kind) refl t.stage refl h
    where
      closed :
          (b : Bool)
          → has_input t.entry.kind ≡ b
          → t.stage ≡ closing
          → GoodRun t conn (
              some (record t { stage = finished }, if b then conn_remove_input conn t.id else conn))
      closed true e s = (
        λ a id other present.
            conn_remove_input-Present conn t.id a id (other (rw (e, s) refl)) present,
        subst (λ x. HoldsStage x (conn_remove_input conn t.id) t.id finished) (sym e) tt,
        refl,
        refl,
      )
      closed false e s = good t conn false e conn finished (λ a id present. present) tt

      on_stage :
          (b : Bool)
          → has_input t.entry.kind ≡ b
          → (s : Stage) → t.stage ≡ s
          → HoldsStage b conn t.id s
          → GoodRun t conn (step_stage alloc unary_fn program s t conn)
      on_stage b e starting s g =
          if_keeps (GoodRun t conn) (is_unary t.entry.kind) _ _
            (good t conn b e _ finished (reply-Stays conn t.id t.entry.kind _ _)
              (ended-Holds b _ t.id).0)
            (good t conn b e conn (begin alloc unary_fn program conn t) (λ a id present. present)
              (begin-Holds t conn b e g))
      on_stage b e (running ctx p) s g = run_step-Holds t conn b ctx p e s g
      on_stage b e closing s g =
          subst
            (λ x. GoodRun t conn (
              some
                (record t { stage = finished }, if x then conn_remove_input conn t.id else conn)))
            (sym e) (closed b e s)
      on_stage b e finished s g = (but _ _ conn conn (λ a id present. present), h, refl, refl)
