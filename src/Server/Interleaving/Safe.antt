-- ===== src/Server/Interleaving/Safe.antt =====
-- No thread of a connection of c/src/server.c uses a null pointer or a freed input, while no two
-- running calls that read a stream have the same id.
use callwire.Base.{
  ℕ, ◌≡◌, refl, sym, subst, Bool, true, false, List, ◌∷◌, ◌++◌, Option, none, some, inl,
}
use callwire.Value.{Value, Items}
use callwire.Framing.{Socket}
use callwire.Server.Registry.{Server, RegistryEntry}
use callwire.Server.Connection.{Conn, node_size}
use callwire.Server.Connection.Present.{StaysOption, push_at-Stays}
use callwire.Server.Dispatch.{Program, Thread, has_input, thread_step}
use callwire.Server.Loop.Stays.{
  HasInput, Starts, StaysTaken, take_frame-Stays, end_connection-Stays,
}
use callwire.Server.Interleaving.{
  Serving, with_thread, accepted, Step, reads, finds, pushes, closes, runs,
}
use callwire.Server.Interleaving.Holds.{
  Sends, HoldsStage, reads_stream, weaken_but, GoodRun, thread_step-Holds,
}
use callwire.Server.Interleaving.Pending.{Pending, Pending-run, CanPush, Pending-CanPush}
use callwire.Server.Interleaving.Others.{
  DistinctIds, AllHold, AllHold-Stays, Holds-middle, AllHold-run,
}

module _ (alloc : ℕ → Bool) (server : Server) (unary_fn : RegistryEntry → Items → Bool × Value)
    (program : RegistryEntry → Items → Program) (socket : Socket) where
  -- Steps through states in which no two threads that still read streams have the same id.
  pub data Distinct : Serving → Type 0 where
    accept_connection : Distinct (accepted socket)
    step :
        {s s' : Serving}
        → Distinct s
        → Step alloc server unary_fn program s s'
        → DistinctIds s'.threads
        → Distinct s'

  module _
      (quiet : (entry : RegistryEntry) (args : Items)
        → has_input entry.kind ≡ false
        → Sends (program entry args)) where
    started-Holds :
        (conn : Conn) (ts : List Thread) (o : Option Thread)
        → Starts conn o
        → AllHold conn ts
        → AllHold conn (with_thread ts o)
    started-Holds conn ts none h k = k
    started-Holds conn ts (some t) h k = (by_input (has_input t.entry.kind) h.1, k)
      where
        by_input : (b : Bool) → HasInput b conn t.id → HoldsStage b conn t.id t.stage
        by_input true g = subst (HoldsStage true conn t.id) (sym h.0) g
        by_input false g = subst (HoldsStage false conn t.id) (sym h.0) tt

    -- What every state keeps.
    abbrev Safe : Serving → Type 0
    Safe s = AllHold s.conn s.threads × Pending s.conn s.threads s.loop

    Step-Safe :
        (s s' : Serving)
        → Step alloc server unary_fn program s s'
        → DistinctIds s.threads
        → Safe s
        → Safe s'
    Step-Safe s s' (reads spawns t e) d h =
        let (stays, starts) =
          subst (StaysTaken s.conn) e (take_frame-Stays alloc spawns server s.conn) in
        (
          started-Holds s'.conn s.threads t starts
              (AllHold-Stays s.conn s'.conn s.threads stays h.0),
          tt,
        )
    Step-Safe s s' (finds spawns e) d h =
        let (stays, present) =
          subst (StaysTaken s.conn) e (take_frame-Stays alloc spawns server s.conn) in
        (AllHold-Stays s.conn s'.conn s.threads stays h.0, inl present)
    Step-Safe s s' (pushes {a = a} {value = value} {is_end = is_end} e) d h =
        let stays = subst (StaysOption s.conn) e (push_at-Stays alloc s.conn a value is_end) in
        (AllHold-Stays s.conn s'.conn s.threads stays h.0, tt)
    Step-Safe s s' (closes spawns conn' e f) d h =
        let stays = subst (StaysTaken s.conn) e (take_frame-Stays alloc spawns server s.conn) in
        let ends = subst (StaysOption conn') f (end_connection-Stays alloc conn') in
        (
          AllHold-Stays s.conn s'.conn s.threads (λ a id present. ends a id (stays a id present))
              h.0,
          tt,
        )
    Step-Safe s s' (runs {loop = loop} before behind t t' e) d h =
        let (stays, holds, same_id, same_entry) =
          subst (GoodRun alloc unary_fn program quiet t s.conn) e (
            thread_step-Holds alloc unary_fn program quiet t s.conn
              (Holds-middle s.conn before t behind h.0)) in
        (
          AllHold-run s.conn s'.conn before t t' behind d
              (weaken_but (reads_stream t) _ t.id s.conn s'.conn stays) holds h.0,
          Pending-run alloc unary_fn program s.conn s'.conn before t t' behind loop e stays same_id
              same_entry h.1,
        )

    Distinct-Safe : (s : Serving) → Distinct s → DistinctIds s.threads × Safe s
    Distinct-Safe s accept_connection = (tt, (tt, tt))
    Distinct-Safe s (step {s = s₀} r e d) =
        let (d₀, h) = Distinct-Safe s₀ r in (d, Step-Safe s₀ s e d₀ h)

    -- From a connection that is just accepted, through any steps of the read loop and of the
    -- threads in which the loop adds to no freed input and no two threads that still read a stream
    -- have the same id, with handlers that call recv only if they are given it, and where a chunk
    -- node can be allocated: the next step of every thread uses neither a null pointer nor an input
    -- that was freed; and where the loop has found an input for an id and not yet added to it, it
    -- can add to it, or a call with this id that read a stream has ended.
    pub thread_step-Distinct :
        (s : Serving) (before behind : List Thread) (t : Thread)
        → alloc node_size ≡ true
        → Distinct s
        → s.threads ≡ before ++ (t ∷ behind)
        → ((r : Thread × Conn) × (thread_step alloc unary_fn program t s.conn ≡ some r))
          × CanPush alloc s.conn s.threads s.loop
    thread_step-Distinct s before behind t enough r e =
        let (holds, pending) = (Distinct-Safe s r).1 in
        (
          ran (thread_step alloc unary_fn program t s.conn) (
              thread_step-Holds alloc unary_fn program quiet t s.conn
                (Holds-middle s.conn before t behind (subst (AllHold s.conn) e holds))),
          Pending-CanPush alloc s.conn s.threads s.loop enough pending,
        )
      where
        ran :
            (o : Option (Thread × Conn))
            → GoodRun alloc unary_fn program quiet t s.conn o
            → (r : Thread × Conn) × (o ≡ some r)
        ran none g = absurd g
        ran (some r) g = (r, refl)
