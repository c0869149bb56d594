-- ===== src/Server/Lifecycle/Accounts.antt =====
-- What a server of c/src/server.c holds from callwire_server_new to callwire_server_close.
use callwire.Base.{
  ℕ, zero, suc, ◌+◌, ◌-◌, ◌*◌, ◌^◌, ◌≤◌, ◌≡◌, refl, ap, sym, ◌∙◌, subst, Bool, true, false, List,
  [], ◌∷◌, ◌++◌, Option, none, some, arith, inl, inr, if◌then◌else◌, if_true, ◌==◌, Bool-cases,
  suc_nonzero, length, length-append, c_string, ℤ, to_unsigned,
}
use callwire.Resources.{
  Resources, without, open_socket, allocate, release, close_socket-open_socket, release-allocate,
}
use callwire.Server.Registry.{
  RegistryEntry, Server, HandlerKind, refused, new_cap, add_entry, register_entry, export_kind,
}
use callwire.Server.Registry.Laws.{
  IsServer, Registered, unchanged, added, named, new_cap-cases, export_kind-Registered,
}
use callwire.Server.Lifecycle.{
  Listening, Listener, server_size, fail_early, fail_late, new_server, listen_on, server_new,
  free_names, blocks_left, server_close,
}

-- A server holds itself, its names and, once it has a capacity, its array.
abbrev pub IsAccounted : Server → Type 0
IsAccounted s = s.blocks ≡ 1 + length s.entries + (if s.entry_cap == 0 then 0 else 1)

length-added :
    (es : List RegistryEntry) (e : RegistryEntry) → length (es ++ (e ∷ [])) ≡ suc (length es)
length-added es e = omega (arith, length-append es (e ∷ []))

add_entry-IsAccounted :
    (alloc : ℕ → Bool) (entry : RegistryEntry) (s : Server)
    → IsServer s
    → IsAccounted s
    → IsAccounted (add_entry alloc entry (record s { blocks = suc s.blocks })).1
unfolding add_entry refused
add_entry-IsAccounted alloc entry s h k = elim (Bool-cases (length s.entries == s.entry_cap)) [
  | inl full ↦ elim (Bool-cases (alloc (new_cap s.entry_cap * 32))) [
    | inl got ↦
        rw (full, got) (ground (arith, new_cap-cases s.entry_cap, length-added s.entries entry))
    | inr failed ↦ rw (full, failed) (omega (arith, k))
  ]
  | inr room ↦ rw room (omega (arith, length-added s.entries entry, k))
]

export_kind-IsAccounted :
    (kind : HandlerKind) (alloc : ℕ → Bool) (func : List ℕ) (userdata fn : ℕ) (s : Server)
    → IsServer s
    → IsAccounted s
    → IsAccounted (export_kind kind alloc true (some func) userdata fn s).1
unfolding export_kind register_entry refused
export_kind-IsAccounted kind alloc func userdata zero s h k = k
export_kind-IsAccounted kind alloc func userdata (suc fn) s h k =
    elim (Bool-cases (alloc (length (c_string func) + 1))) [
      | inl got ↦ rw (suc_nonzero fn, got) (add_entry-IsAccounted alloc _ s h k)
      | inr failed ↦ rw (suc_nonzero fn, failed) k
    ]

export_kind-IsServer :
    (kind : HandlerKind) (alloc : ℕ → Bool) (func : List ℕ) (userdata fn : ℕ) (s : Server)
    → IsServer s
    → IsServer (export_kind kind alloc true (some func) userdata fn s).1
export_kind-IsServer kind alloc func userdata fn s h =
    by_result (export_kind kind alloc true (some func) userdata fn s)
      (export_kind-Registered kind alloc true func userdata fn s h)
  where
    by_result : (p : Bool × Server) → Registered (named kind func userdata fn) s p → IsServer p.1
    by_result (false, s') (unchanged e c) =
        (subst (λ es. length es ≤ s'.entry_cap) (sym e) (omega (arith, c, h.0)), rw c h.1)
    by_result (true, s') (added _ k) = k

free_names-length : (es : List RegistryEntry) (n : ℕ) → free_names es n ≡ n - length es
unfolding free_names
free_names-length [] n = omega arith
free_names-length (e ∷ es) n = omega (arith, free_names-length es (n - 1))

blocks_left-IsAccounted : (s : Server) → IsAccounted s → blocks_left s ≡ 0
unfolding blocks_left
blocks_left-IsAccounted s k = ground (arith, free_names-length s.entries s.blocks)

-- An export by the program between the two.
pub record Export : Type 0 where
  pub kind : HandlerKind
  pub func : List ℕ
  pub userdata : ℕ
  pub fn : ℕ

-- It may succeed or fail; the process holds what the server now holds.
abbrev pub exports : (ℕ → Bool) → List Export → Listener × Resources → Listener × Resources
exports alloc [] (l, r) = (l, r)
exports alloc (e ∷ es) (l, r) =
    let after = (export_kind e.kind alloc true (some e.func) e.userdata e.fn l.server).1 in
    exports alloc es
      (record l { server = after }, record r { blocks = r.blocks - l.server.blocks + after.blocks })

abbrev pub export_all :
    (ℕ → Bool) → List Export → Option Listener → Resources → Option Listener × Resources
export_all alloc es none r = (none, r)
export_all alloc es (some l) r = let p = exports alloc es (l, r) in (some p.0, p.1)

-- What the process holds beyond `r` is the server's.
abbrev Holds : Resources → Listener × Resources → Type 0
Holds r (l, r') =
    IsServer l.server
    × IsAccounted l.server
    × (r'.sockets ≡ l.listen_sock ∷ r.sockets)
    × (r'.blocks ≡ r.blocks + l.server.blocks)

exports-Holds :
    (alloc : ℕ → Bool) (r : Resources) (es : List Export) (l : Listener) (r' : Resources)
    → Holds r (l, r')
    → Holds r (exports alloc es (l, r'))
exports-Holds alloc r [] l r' h = h
exports-Holds alloc r (e ∷ es) l r' (server, accounted, sockets, blocks) =
    let after = (export_kind e.kind alloc true (some e.func) e.userdata e.fn l.server).1 in
    exports-Holds alloc r es _ _ (
      export_kind-IsServer e.kind alloc e.func e.userdata e.fn l.server server,
      export_kind-IsAccounted e.kind alloc e.func e.userdata e.fn l.server server accounted,
      sockets,
      omega (arith, blocks),
    )

resources_eq : (r r' : Resources) → r.sockets ≡ r'.sockets → r.blocks ≡ r'.blocks → r ≡ r'
resources_eq r r' a b =
    ap (λ ss. record { sockets = ss; blocks = r.blocks }) a
    ∙ ap (λ n. record { sockets = r'.sockets; blocks = n }) b

without_first : (sock : ℕ) (ss : List ℕ) → without sock (sock ∷ ss) ≡ ss
without_first sock ss = if_true (sock == sock) ss (sock ∷ without sock ss) (ground arith)

server_close-Holds :
    (r : Resources) (p : Listener × Resources) → Holds r p → server_close (some p.0) p.1 ≡ r
unfolding server_close
server_close-Holds r p (server, accounted, sockets, blocks) =
    resources_eq _ r
      (ap (without p.0.listen_sock) sockets ∙ without_first p.0.listen_sock r.sockets)
      (omega (arith, blocks, blocks_left-IsAccounted p.0.server accounted))

listen_on-close :
    (alloc : ℕ → Bool) (es : List Export) (net : Listening) (port : ℤ) (sock : Option ℕ)
    (r : Resources) (error : List ℕ)
    → (let started = listen_on net port sock (allocate r) error in
        let exported = export_all alloc es started.0 started.1 in
        server_close exported.0 exported.1)
      ≡ r
unfolding listen_on fail_early fail_late server_close
listen_on-close alloc es net port none r error = release-allocate r
listen_on-close alloc es net port (some sock) r error =
    let failed = ap release (close_socket-open_socket sock (allocate r)) ∙ release-allocate r in
    elim (Bool-cases (net.reusable sock)) [
      | inr e ↦ rw e failed
      | inl reusable ↦ elim (Bool-cases (net.binds sock (to_unsigned (2 ^ 16) port))) [
        | inr e ↦ rw (reusable, e) failed
        | inl binds ↦ elim (Bool-cases (net.listens sock)) [
          | inr e ↦ rw (reusable, binds, e) failed
          | inl listens ↦
              rw (reusable, binds, listens)
                (server_close-Holds r
                  (exports alloc es (
                    record { listen_sock = sock; server = new_server error },
                    open_socket sock (allocate r),
                  ))
                  (exports-Holds alloc r es _ _ ((omega arith, inl refl), refl, refl, omega arith)))
        ]
      ]
    ]

-- Whatever the system answers and whichever allocations fail: after callwire_server_new, any
-- exports, each of which may succeed or fail, and callwire_server_close, if there is a server, the
-- process holds the sockets and allocations that it held before.
pub server_new-server_close :
    (alloc : ℕ → Bool) (net : Listening) (port : ℤ) (r : Resources) (error : List ℕ)
    (es : List Export)
    → (let started = server_new alloc net port r error in
        let exported = export_all alloc es started.0 started.1 in
        server_close exported.0 exported.1)
      ≡ r
unfolding server_new server_close
server_new-server_close alloc net port r error es = elim (Bool-cases (alloc server_size)) [
  | inr lost ↦ rw lost refl
  | inl got ↦ rw got (listen_on-close alloc es net port net.socket r error)
]
