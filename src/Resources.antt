-- ===== src/Resources.antt =====
-- What a process holds of the system: the open sockets and the number of its live allocations.
-- open_socket, close_socket, allocate and release are what socket or accept, close, malloc and free
-- do to it.
use callwire.Base.{ℕ, suc, ◌-◌, ◌≡◌, refl, ap, List, [], ◌∷◌, ◌==◌, if◌then◌else◌, if_true, arith}

pub record Resources : Type 0 where
  pub sockets : List ℕ
  pub blocks : ℕ

abbrev pub open_socket : ℕ → Resources → Resources
open_socket sock r = record r { sockets = sock ∷ r.sockets }

abbrev pub without : ℕ → List ℕ → List ℕ
without sock [] = []
without sock (s ∷ ss) = if s == sock then ss else s ∷ without sock ss

abbrev pub close_socket : ℕ → Resources → Resources
close_socket sock r = record r { sockets = without sock r.sockets }

abbrev pub allocate : Resources → Resources
allocate r = record r { blocks = suc r.blocks }

abbrev pub release : Resources → Resources
release r = record r { blocks = r.blocks - 1 }

-- A socket that is closed again, and an allocation that is freed again.
pub close_socket-open_socket :
    (sock : ℕ) (r : Resources) → close_socket sock (open_socket sock r) ≡ r
close_socket-open_socket sock r =
    rw (if_true (sock == sock) r.sockets (sock ∷ without sock r.sockets) (ground arith)) refl

pub release-allocate : (r : Resources) → release (allocate r) ≡ r
release-allocate r = ap (λ n. record { sockets = r.sockets; blocks = n }) (omega arith)
