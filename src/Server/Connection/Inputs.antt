-- ===== src/Server/Connection/Inputs.antt =====
-- The inputs of a connection in c/src/server.c: queues by address, and where an id leads.
use callwire.Base.{
  ℕ, ◌≡◌, refl, ap, sym, ◌∙◌, subst, ◌≢◌, inl, inr, Bool, true, List, [], ◌∷◌, ◌++◌, Option, none,
  some, arith, ◌==◌, ==_iff, if◌then◌else◌, if_true, if_false, Bool-cases,
}
use callwire.Value.{Value}
use callwire.Server.Input.{
  ChunkNode, StreamInput, stream_input_push, stream_input_recv, recv_node, Received, received,
  blocked,
}
use callwire.Server.Connection.{
  Conn, node_size, find_address, store, push_found, push_at, recv_found, recv_at,
}

-- The abstract view: the queue at an address, if the input there is not freed.
abbrev pub nodes_of : Option StreamInput → Option (List ChunkNode)
nodes_of none = none
nodes_of (some i) = some i.nodes

abbrev pub queue : Conn → ℕ → Option (List ChunkNode)
queue conn a = nodes_of (find_address conn.inputs a)

find_address-address :
    (is : List StreamInput) (a : ℕ) (i : StreamInput) → find_address is a ≡ some i → i.address ≡ a
unfolding find_address
find_address-address [] a i e = absurd (cc)
find_address-address (j ∷ is) a i e = elim (Bool-cases (j.address == a)) [
  | inl here ↦
      let same : i ≡ j = cc (e, if_true (j.address == a) (some j) (find_address is a) here) in
      ap (λ k. k.address) same ∙ (==_iff j.address a).0 here
  | inr there ↦ find_address-address is a i (sym (if_false _ _ _ there) ∙ e)
]

store-here :
    (is : List StreamInput) (i i' : StreamInput)
    → find_address is i'.address ≡ some i
    → find_address (store is i') i'.address ≡ some i'
unfolding find_address store
store-here [] i i' e = absurd (cc)
store-here (j ∷ is) i i' e = elim (Bool-cases (j.address == i'.address)) [
  | inl here ↦ rw here (if_true (i'.address == i'.address) _ _ (ground arith))
  | inr there ↦ rw (there, there) (store-here is i i' (sym (if_false _ _ _ there) ∙ e))
]

store-elsewhere :
    (is : List StreamInput) (i' : StreamInput) (b : ℕ)
    → b ≢ i'.address
    → find_address (store is i') b ≡ find_address is b
unfolding find_address store
store-elsewhere [] i' b h = refl
store-elsewhere (j ∷ is) i' b h = elim (Bool-cases (j.address == i'.address)) [
  | inl here ↦ rw here (
      if_false (i'.address == b) _ _ (ground arith)
      ∙ sym (if_false (j.address == b) _ _ (ground arith)))
  | inr there ↦
      rw there (ap (λ o. if j.address == b then some j else o) (store-elsewhere is i' b h))
]

-- The queue at `a` has become `nodes`; the others are as before.
abbrev pub Queues : ℕ → List ChunkNode → Conn → Conn → Type 0
Queues a nodes conn conn' = (b : ℕ) → queue conn' b ≡ (if b == a then some nodes else queue conn b)

-- And so is the socket.
abbrev pub Changes : ℕ → List ChunkNode → Conn → Conn → Type 0
Changes a nodes conn conn' = Queues a nodes conn conn' × (conn'.socket ≡ conn.socket)

store-Changes :
    (conn : Conn) (i i' : StreamInput)
    → find_address conn.inputs i'.address ≡ some i
    → Changes i'.address i'.nodes conn (record conn { inputs = store conn.inputs i' })
store-Changes conn i i' e = (by_address, refl)
  where
    by_address :
        (b : ℕ)
        → queue (record conn { inputs = store conn.inputs i' }) b
          ≡ (if b == i'.address then some i'.nodes else queue conn b)
    by_address b = elim (Bool-cases (b == i'.address)) [
      | inl here ↦
          subst (λ a. queue (record conn { inputs = store conn.inputs i' }) a ≡ some i'.nodes)
            (sym ((==_iff b i'.address).0 here)) (ap nodes_of (store-here conn.inputs i i' e))
          ∙ sym (if_true _ _ _ here)
      | inr elsewhere ↦
          ap nodes_of (store-elsewhere conn.inputs i' b (ground arith))
          ∙ sym (if_false _ _ _ elsewhere)
    ]

-- What recv does with a queue.
abbrev pub Takes : List ChunkNode → ℕ → Conn → Received × Conn → Type 0
Takes [] a conn (got, conn') = (got ≡ blocked) × Changes a [] conn conn'
Takes (node ∷ nodes) a conn (got, conn') = (got ≡ received node) × Changes a nodes conn conn'

recv_found-Takes :
    (conn : Conn) (i : StreamInput)
    → find_address conn.inputs i.address ≡ some i
    → (r : Received × Conn) × (recv_found conn (some i) ≡ some r) × Takes i.nodes i.address conn r
unfolding recv_found stream_input_recv recv_node
recv_found-Takes conn i e = by_nodes i.nodes refl
  where
    by_nodes :
        (nodes : List ChunkNode)
        → i.nodes ≡ nodes
        → (r : Received × Conn) × (some (
          (recv_node nodes i).0,
          record conn { inputs = store conn.inputs (recv_node nodes i).1 },
        )
            ≡ some r)
          × Takes nodes i.address conn r
    by_nodes [] h = (
      (blocked, record conn { inputs = store conn.inputs i }),
      refl,
      (
        refl,
        subst (λ nodes. Changes i.address nodes conn (record conn { inputs = store conn.inputs i }))
            h (store-Changes conn i i e),
      ),
    )
    by_nodes (node ∷ nodes) h = (
      (received node, record conn { inputs = store conn.inputs (record i { nodes = nodes }) }),
      refl,
      (refl, store-Changes conn i (record i { nodes = nodes }) e),
    )

pub push_at-recv_at :
    (alloc : ℕ → Bool) (conn : Conn) (i : StreamInput)
    → alloc node_size ≡ true
    → find_address conn.inputs i.address ≡ some i
    → ((value : Value) (is_end : Bool)
        → (conn' : Conn) × (push_at alloc conn i.address value is_end ≡ some conn')
          × Changes i.address
              (i.nodes ++ (record { value = value; is_end = is_end } ∷ []))
              conn
              conn')
      × ((r : Received × Conn) × (recv_at conn i.address ≡ some r) × Takes i.nodes i.address conn r)
unfolding push_at recv_at push_found stream_input_push
push_at-recv_at alloc conn i got e = (
  λ value is_end. (
    record conn { inputs = store conn.inputs (stream_input_push i value is_end) },
    rw (e, got) refl,
    store-Changes conn i (stream_input_push i value is_end) e,
  ),
  rw e (recv_found-Takes conn i e),
)
