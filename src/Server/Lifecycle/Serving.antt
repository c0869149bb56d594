-- ===== src/Server/Lifecycle/Serving.antt =====
-- The accepted sockets of callwire_server_serve of c/src/server.c.
use callwire.Base.{
  ℕ, ◌≡◌, refl, Bool, true, false, ◌&&◌, ◌||◌, not, List, [], ◌∷◌, Option, none, some,
  if◌then◌else◌,
}
use callwire.Server.Lifecycle.{Round, Served, leaves, serve_round, serve_loop}

-- Whether the loop is left in a round.
abbrev pub is_none : Option ℕ → Bool
is_none none = true
is_none (some sock) = false

abbrev pub stops : Round → Bool
stops round = not round.running || (is_none round.accepted && not round.still_running)

abbrev pub accepts : Option ℕ → List ℕ → List ℕ
accepts none socks = socks
accepts (some sock) socks = sock ∷ socks

-- The sockets that are accepted before it is left.
abbrev pub accepted : List Round → List ℕ
accepted [] = []
accepted (round ∷ more) =
    let rest = accepted more in if stops round then [] else accepts round.accepted rest

abbrev pub any_stops : List Round → Bool
any_stops [] = false
any_stops (round ∷ more) = stops round || any_stops more

-- Every element of a list is in exactly one of two, in its order.
pub data Split : List ℕ → List ℕ → List ℕ → Type 0 where
  split_nil : Split [] [] []
  split_left : {x : ℕ} {xs ls rs : List ℕ} → Split xs ls rs → Split (x ∷ xs) (x ∷ ls) rs
  split_right : {x : ℕ} {xs ls rs : List ℕ} → Split xs ls rs → Split (x ∷ xs) ls (x ∷ rs)

abbrev pub Serves : List Round → Served → Type 0
Serves rounds served =
    Split (accepted rounds) served.handed served.closed × (served.returned ≡ any_stops rounds)

serve_round-Serves :
    (running : Bool) (a : Option ℕ) (thread still : Bool) (more : List Round) (served : Served)
    → Serves more served
    → let round : Round = record {
      running = running;
      accepted = a;
      thread = thread;
      still_running = still;
    } in
      Serves (round ∷ more) (if not running then leaves else serve_round a round served)
unfolding serve_round
serve_round-Serves false a thread still more served h = (split_nil, refl)
serve_round-Serves true none thread false more served h = (split_nil, refl)
serve_round-Serves true none thread true more served h = h
serve_round-Serves true (some sock) true still more served h = (split_left h.0, h.1)
serve_round-Serves true (some sock) false still more served h = (split_right h.0, h.1)

-- Each socket that callwire_server_serve accepts before it leaves its loop is either handed to a
-- thread or closed, and not both; it leaves the loop exactly if the server is no longer running
-- before an accept or after one that failed.
pub serve_loop-Serves : (rounds : List Round) → Serves rounds (serve_loop rounds)
unfolding serve_loop
serve_loop-Serves [] = (split_nil, refl)
serve_loop-Serves (round ∷ more) =
    serve_round-Serves round.running round.accepted round.thread round.still_running more
      (serve_loop more) (serve_loop-Serves more)
