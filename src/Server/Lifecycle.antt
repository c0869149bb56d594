-- ===== src/Server/Lifecycle.antt =====
-- callwire_server_new, callwire_server_serve and callwire_server_close of c/src/server.c.
pub mod Accounts
pub mod Serving
mod Tests
use callwire.Base.{
  ℕ, suc, ◌+◌, ◌-◌, ◌%◌, ◌^◌, Bool, true, false, ◌&&◌, not, List, [], ◌∷◌, ◌++◌, Option, none, some,
  ◌==◌, if◌then◌else◌, length, text, ℤ, decimal, to_unsigned,
}
use callwire.Errors.{error_set}
use callwire.Resources.{Resources, open_socket, close_socket, allocate, release}
use callwire.Server.Registry.{RegistryEntry, Server}

-- What the system answers: a new socket, and for it whether setsockopt, bind to a port and listen
-- succeed.
pub record Listening : Type 0 where
  pub socket : Option ℕ
  pub reusable : ℕ → Bool
  pub binds : ℕ → ℕ → Bool
  pub listens : ℕ → Bool

-- The server, and the descriptor of its socket.
pub record Listener : Type 0 where
  pub listen_sock : ℕ
  pub server : Server

-- The new server, what the process holds, and the error text.
abbrev pub Started : Type 0
Started = Option Listener × Resources × List ℕ

-- sizeof(callwire_server_t)
abbrev pub server_size : ℕ
server_size = 72

-- A failure before there is a socket, and one after it.
unfoldable pub fail_early : List ℕ → Resources → Started
fail_early message r = (none, release r, error_set message)

unfoldable pub fail_late : List ℕ → ℕ → Resources → Started
fail_late message sock r = (none, release (close_socket sock r), error_set message)

abbrev pub new_server : List ℕ → Server
new_server error = record { running = true; entries = []; entry_cap = 0; error = error; blocks = 1 }

unfoldable pub listen_on : Listening → ℤ → Option ℕ → Resources → List ℕ → Started
unfolding fail_early fail_late
listen_on net port none r error = fail_early (text "socket() failed") r
listen_on net port (some sock) r error =
    let opened = open_socket sock r in
    if not (net.reusable sock)
    then fail_late (text "setsockopt(SO_REUSEADDR) failed") sock opened
    else if not (net.binds sock (to_unsigned (2 ^ 16) port))
    then fail_late (text "bind() to port " ++ (decimal port ++ text " failed")) sock opened
    else if not (net.listens sock)
    then fail_late (text "listen() failed") sock opened
    else (some (record { listen_sock = sock; server = new_server error }), opened, error)

-- The address is not used.
unfoldable pub server_new : (ℕ → Bool) → Listening → ℤ → Resources → List ℕ → Started
unfolding listen_on
server_new alloc net port r error =
    if not (alloc server_size)
    then (none, r, error_set (text "out of memory"))
    else listen_on net port net.socket (allocate r) error

-- The loop that frees the names.
unfoldable pub free_names : List RegistryEntry → ℕ → ℕ
free_names [] blocks = blocks
free_names (e ∷ es) blocks = free_names es (blocks - 1)

-- The allocations that are left of the server's after callwire_server_close; the array of entries
-- is null where the capacity is zero, and free ignores it.
unfoldable pub blocks_left : Server → ℕ
unfolding free_names
blocks_left s =
    let named = free_names s.entries s.blocks in
    let arrayed = if s.entry_cap == 0 then named else named - 1 in arrayed - 1

-- The server's allocations, from when it was made, are part of what the process holds.
unfoldable pub server_close : Option Listener → Resources → Resources
unfolding blocks_left
server_close none r = r
server_close (some l) r =
    let closed = close_socket l.listen_sock r in
    record closed { blocks = closed.blocks - l.server.blocks + blocks_left l.server }

-- A round of the loop of callwire_server_serve: whether the server is running, what accept returns,
-- whether pthread_create succeeds for it, and, where accept fails, whether the server is running then.
pub record Round : Type 0 where
  pub running : Bool
  pub accepted : Option ℕ
  pub thread : Bool
  pub still_running : Bool

-- The sockets that a thread got, those that were closed again, in their order, and whether the loop
-- was left.
pub record Served : Type 0 where
  pub handed : List ℕ
  pub closed : List ℕ
  pub returned : Bool

abbrev pub hands : ℕ → Served → Served
hands sock s = record s { handed = sock ∷ s.handed }

abbrev pub closes : ℕ → Served → Served
closes sock s = record s { closed = sock ∷ s.closed }

abbrev pub leaves : Served
leaves = record { handed = []; closed = []; returned = true }

unfoldable pub serve_round : Option ℕ → Round → Served → Served
serve_round none round rest = if not round.still_running then leaves else rest
serve_round (some sock) round rest = if round.thread then hands sock rest else closes sock rest

-- The allocation of the two pointers is taken to succeed.
unfoldable pub serve_loop : List Round → Served
unfolding serve_round
serve_loop [] = record { handed = []; closed = []; returned = false }
serve_loop (round ∷ more) =
    let rest = serve_loop more in
    if not round.running then leaves else serve_round round.accepted round rest

-- The flag says that 0 is returned; `present`, that the server pointer is not null.
unfoldable pub server_serve : Bool → List Round → List ℕ → Bool × Served × List ℕ
unfolding serve_loop
server_serve present rounds error =
    if not present
    then (
      false,
      record { handed = []; closed = []; returned = true },
      error_set (text "invalid argument"),
    )
    else (true, serve_loop rounds, error)
