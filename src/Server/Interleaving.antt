-- ===== src/Server/Interleaving.antt =====
-- A connection of c/src/server.c with all its threads: the read loop and the dispatch threads take
-- steps in any order. A step is one operation under a mutex, with what comes before and after it that
-- no other step reads or writes: the bytes that come in are the loop's, and the argument and the
-- result of a handler its thread's. The loop pushes the end markers under inputs_mu, in one step.
pub mod Kept
pub mod Holds
pub mod Others
pub mod Pending
pub mod Safe
mod Tests
use callwire.Base.{ℕ, ◌≡◌, Bool, true, false, List, [], ◌∷◌, ◌++◌, Option, none, some}
use callwire.Value.{Value, Items}
use callwire.Framing.{Socket}
use callwire.Server.Registry.{Server, RegistryEntry}
use callwire.Server.Connection.{Conn, push_at}
use callwire.Server.Dispatch.{Program, Thread, thread_step}
use callwire.Server.Loop.{new_conn, goes_on, stops, to_push, round_ends, take_frame, end_connection}

-- Where the loop is. `at_push`: conn_find_input gave it a pointer for an id, and it is to add a value
-- there. At that point it holds no mutex.
pub data LoopStage : Type 0 where
  at_read : LoopStage
  at_push : ℕ → ℕ → Value → Bool → LoopStage
  at_end : LoopStage

-- The registry does not change while the server serves.
pub record Serving : Type 0 where
  pub conn : Conn
  pub threads : List Thread
  pub loop : LoopStage

abbrev pub with_thread : List Thread → Option Thread → List Thread
with_thread ts none = ts
with_thread ts (some t) = t ∷ ts

abbrev pub accepted : Socket → Serving
accepted socket = record { conn = new_conn socket; threads = []; loop = at_read }

module _ (alloc : ℕ → Bool) (server : Server) (unary_fn : RegistryEntry → Items → Bool × Value)
    (program : RegistryEntry → Items → Program) where
  pub data Step : Serving → Serving → Type 0 where
    -- A round of the loop that adds to no input; `spawns` says whether a thread can be made.
    reads :
        {conn conn' : Conn} {ts : List Thread}
        → (spawns : Bool) (t : Option Thread)
        → take_frame alloc spawns server conn ≡ round_ends (goes_on conn' t)
        → Step
            (record { conn = conn; threads = ts; loop = at_read })
            (record { conn = conn'; threads = with_thread ts t; loop = at_read })
    -- A round up to the point where it has the pointer to an input.
    finds :
        {conn conn' : Conn} {ts : List Thread} {id a : ℕ} {value : Value} {is_end : Bool}
        → (spawns : Bool) → take_frame alloc spawns server conn ≡ to_push conn' id a value is_end
        → Step
            (record { conn = conn; threads = ts; loop = at_read })
            (record { conn = conn'; threads = ts; loop = at_push id a value is_end })
    -- The rest of that round. Through a pointer to a freed input there is no step: what the code
    -- does then is undefined.
    pushes :
        {conn conn' : Conn} {ts : List Thread} {id a : ℕ} {value : Value} {is_end : Bool}
        → push_at alloc conn a value is_end ≡ some conn'
        → Step
            (record { conn = conn; threads = ts; loop = at_push id a value is_end })
            (record { conn = conn'; threads = ts; loop = at_read })
    -- The end of the loop.
    closes :
        {conn conn'' : Conn} {ts : List Thread}
        → (spawns : Bool) (conn' : Conn)
        → take_frame alloc spawns server conn ≡ round_ends (stops conn')
        → end_connection alloc conn' ≡ some conn''
        → Step
            (record { conn = conn; threads = ts; loop = at_read })
            (record { conn = conn''; threads = ts; loop = at_end })
    -- One step of a thread, wherever the loop is.
    runs :
        {conn conn' : Conn} {loop : LoopStage}
        → (before behind : List Thread) (t t' : Thread)
        → thread_step alloc unary_fn program t conn ≡ some (t', conn')
        → Step
            (record { conn = conn; threads = before ++ (t ∷ behind); loop = loop })
            (record { conn = conn'; threads = before ++ (t' ∷ behind); loop = loop })

  pub data Reachable (socket : Socket) : Serving → Type 0 where
    accept_connection : Reachable socket (accepted socket)
    step : {s s' : Serving} → Reachable socket s → Step s s' → Reachable socket s'
