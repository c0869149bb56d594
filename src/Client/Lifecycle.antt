-- ===== src/Client/Lifecycle.antt =====
-- callwire_client_connect and callwire_client_close of c/src/client.c.
use callwire.Base.{
  ℕ, ◌^◌, ◌≡◌, refl, ap, ◌∙◌, Bool, not, List, ◌++◌, Option, none, some, if◌then◌else◌, inl, inr,
  Bool-cases, Option-cases, text, c_string, ℤ, decimal, to_unsigned,
}
use callwire.Errors.{error_set}
use callwire.Resources.{
  Resources, open_socket, close_socket, allocate, release, close_socket-open_socket,
  release-allocate,
}

-- What the system answers: the address of a host, a new socket, and whether a connection to a port of
-- an address is made.
pub record Network : Type 0 where
  pub resolves : List ℕ → Option (List ℕ)
  pub socket : Option ℕ
  pub connects : List ℕ → ℕ → Bool

-- struct callwire_client, by the descriptor of its socket.
pub record Handle : Type 0 where
  pub sock : ℕ
  pub next_id : ℕ

-- The client, what the process holds, and the error text.
abbrev pub Connected : Type 0
Connected = Option Handle × Resources × List ℕ

-- sizeof(callwire_client_t)
abbrev pub client_size : ℕ
client_size = 16

-- A failure after the client is allocated frees it.
unfoldable pub give_up : List ℕ → Resources → Connected
give_up message r = (none, release r, error_set message)

-- The formats "could not resolve host '%s'" and "connect() to %s:%d failed".
abbrev pub unknown_host : List ℕ → List ℕ
unknown_host addr = text "could not resolve host '" ++ (c_string addr ++ text "'")

abbrev pub not_connected : List ℕ → ℤ → List ℕ
not_connected addr port =
    text "connect() to " ++ (c_string addr ++ (text ":" ++ (decimal port ++ text " failed")))

unfoldable pub connect_to :
    Network → List ℕ → ℤ → List ℕ → Option ℕ → Resources → List ℕ → Connected
unfolding give_up
connect_to net addr port host none r error = give_up (text "socket() failed") r
connect_to net addr port host (some sock) r error =
    if net.connects host (to_unsigned (2 ^ 16) port)
    then (some (record { sock = sock; next_id = 0 }), open_socket sock r, error)
    else give_up (not_connected addr port) (close_socket sock (open_socket sock r))

unfoldable pub connect_resolved :
    Network → List ℕ → ℤ → Option (List ℕ) → Resources → List ℕ → Connected
unfolding give_up connect_to
connect_resolved net addr port none r error = give_up (unknown_host addr) r
connect_resolved net addr port (some host) r error =
    connect_to net addr port host net.socket r error

unfoldable pub client_connect : (ℕ → Bool) → Network → List ℕ → ℤ → Resources → List ℕ → Connected
unfolding connect_resolved
client_connect alloc net addr port r error =
    if not (alloc client_size)
    then (none, r, error_set (text "out of memory"))
    else connect_resolved net addr port (net.resolves (c_string addr)) (allocate r) error

-- A null client is left alone; the descriptor of a client is never negative.
unfoldable pub client_close : Option Handle → Resources → Resources
client_close none r = r
client_close (some client) r = release (close_socket client.sock r)

module _ (net : Network) (addr : List ℕ) (port : ℤ) (r : Resources) (error : List ℕ) where
  give_up-close :
      (message : List ℕ) (r' : Resources)
      → r' ≡ allocate r
      → client_close (give_up message r').0 (give_up message r').1 ≡ r
  unfolding give_up client_close
  give_up-close message r' e = ap release e ∙ release-allocate r

  connect_to-close :
      (host : List ℕ) (sock : Option ℕ)
      → client_close
          (connect_to net addr port host sock (allocate r) error).0
          (connect_to net addr port host sock (allocate r) error).1
        ≡ r
  unfolding connect_to client_close
  connect_to-close host none = give_up-close (text "socket() failed") (allocate r) refl
  connect_to-close host (some sock) =
      elim (Bool-cases (net.connects host (to_unsigned (2 ^ 16) port))) [
        | inl made ↦
            rw made (ap release (close_socket-open_socket sock (allocate r)) ∙ release-allocate r)
        | inr refused ↦
            rw refused (
              give_up-close (not_connected addr port) _
                (close_socket-open_socket sock (allocate r)))
      ]

  -- Whatever the system answers and whether or not the client can be allocated: after
  -- callwire_client_connect, and callwire_client_close of the client if there is one, the process
  -- holds the sockets and allocations that it held before.
  pub client_connect-client_close :
      (alloc : ℕ → Bool)
      → client_close
          (client_connect alloc net addr port r error).0
          (client_connect alloc net addr port r error).1
        ≡ r
  unfolding client_connect connect_resolved client_close
  client_connect-client_close alloc = elim (Bool-cases (alloc client_size)) [
    | inr lost ↦ rw lost refl
    | inl got ↦ elim (Option-cases (net.resolves (c_string addr))) [
      | inl unknown ↦ rw (got, unknown) (give_up-close (unknown_host addr) (allocate r) refl)
      | inr (host, known) ↦ rw (got, known) (connect_to-close host net.socket)
    ]
  ]
