-- ===== src/Server/Connection/Present.antt =====
-- Which inputs the operations of c/src/server.c leave registered on a connection.
use callwire.Base.{
  ◌*◌, not, length, if_keeps, ℕ, ◌≡◌, refl, ap, sym, ◌∙◌, ◌≢◌, ◌⊎◌, inl, inr, Bool, true, false,
  List, [], ◌∷◌, ◌++◌, Option, none, some, arith, ◌==◌, ==_iff, Bool-cases, Option-cases, if_true,
  if_false, if◌then◌else◌,
}
use callwire.Value.{Value, null}
use callwire.Server.Registry.{new_cap}
use callwire.Server.Input.{
  ChunkNode, StreamInput, stream_input_new, stream_input_push, stream_input_recv, Received,
  recv_node,
}
use callwire.Server.Connection.{
  Conn, input_size, pointer_size, node_size, last, before_last, find_id, replace_front, remove_id,
  conn_remove_input, conn_register_input, find_address, store, push_found, push_at, recv_found,
  recv_at, push_ends,
}

-- An input with an address and an id is registered.
abbrev pub Present : ℕ → ℕ → List StreamInput → Type 0
Present a id [] = ⊥
Present a id (i ∷ is) = ((i.address ≡ a) × (i.id ≡ id)) ⊎ Present a id is

pub find_id-Present :
    (id : ℕ) (is : List StreamInput) (i : StreamInput)
    → find_id is id ≡ some i
    → Present i.address id is
unfolding find_id
find_id-Present id [] i e = cc
find_id-Present id (j ∷ is) i e = elim (Bool-cases (j.id == id)) [
  | inl here ↦
      let same : j ≡ i = some_injective (sym (if_true (j.id == id) _ _ here) ∙ e) in
      inl (ap (λ k. k.address) same, (==_iff j.id id).0 here)
  | inr there ↦ inr (find_id-Present id is i (sym (if_false (j.id == id) _ _ there) ∙ e))
]
  where
    some_injective : {j k : StreamInput} → some j ≡ some k → j ≡ k
    some_injective e = cc

module _ (a id : ℕ) where
  pub Present-append : (is js : List StreamInput) → Present a id is → Present a id (is ++ js)
  Present-append [] js h = absurd h
  Present-append (i ∷ is) js (inl h) = inl h
  Present-append (i ∷ is) js (inr h) = inr (Present-append is js h)

  pub Present-find_address :
      (is : List StreamInput) → Present a id is → (i : StreamInput) × (find_address is a ≡ some i)
  unfolding find_address
  Present-find_address [] h = absurd h
  Present-find_address (i ∷ is) h = elim (Bool-cases (i.address == a)) [
    | inl here ↦ (i, if_true (i.address == a) _ _ here)
    | inr there ↦ elim h [
      | inl e ↦ absurd (ground arith)
      | inr later ↦
          let (j, found) = Present-find_address is later in
          (j, if_false (i.address == a) _ _ there ∙ found)
    ]
  ]

  pub Present-find_id :
      (is : List StreamInput)
      → Present a id is
      → (i : StreamInput) × (find_id is id ≡ some i) × Present i.address id is
  unfolding find_id
  Present-find_id [] h = absurd h
  Present-find_id (i ∷ is) h = elim (Bool-cases (i.id == id)) [
    | inl here ↦ (i, if_true (i.id == id) _ _ here, inl (refl, (==_iff i.id id).0 here))
    | inr there ↦ elim h [
      | inl e ↦ absurd (ground arith)
      | inr later ↦
          let (j, found, registered) = Present-find_id is later in
          (j, if_false (i.id == id) _ _ there ∙ found, inr registered)
    ]
  ]

  Present-last :
      (i : StreamInput) (is : List StreamInput)
      → Present a id (i ∷ is)
      → Present a id (last i is ∷ before_last i is)
  Present-last i [] h = h
  Present-last i (j ∷ is) (inl h) = inr (inl h)
  Present-last i (j ∷ is) (inr h) = elim (Present-last j is h) [
    | inl e ↦ inl e
    | inr e ↦ inr (inr e)
  ]

  Present-remove_id :
      (is : List StreamInput) (gone : ℕ)
      → id ≢ gone
      → Present a id is
      → Present a id (remove_id is gone)
  unfolding remove_id replace_front
  Present-remove_id [] gone other h = h
  Present-remove_id (i ∷ is) gone other h = elim (Bool-cases (i.id == gone)) [
    | inl here ↦ rw here (front is (elim h [ inl e ↦ absurd (ground arith) | inr later ↦ later ]))
    | inr there ↦
        rw there
          (elim h [ inl e ↦ inl e | inr later ↦ inr (Present-remove_id is gone other later) ])
  ]
    where
      front : (js : List StreamInput) → Present a id js → Present a id (replace_front js)
      front [] k = k
      front (j ∷ js) k = Present-last j js k

-- What is still registered.
abbrev pub Stays : Conn → Conn → Type 0
Stays conn conn' = (a id : ℕ) → Present a id conn.inputs → Present a id conn'.inputs

pub conn_remove_input-Present :
    (conn : Conn) (gone a id : ℕ)
    → id ≢ gone
    → Present a id conn.inputs
    → Present a id (conn_remove_input conn gone).inputs
unfolding conn_remove_input
conn_remove_input-Present conn gone a id other h = Present-remove_id a id conn.inputs gone other h

find_address-address :
    (is : List StreamInput) (b : ℕ) (i : StreamInput) → find_address is b ≡ some i → i.address ≡ b
unfolding find_address
find_address-address [] b i e = absurd cc
find_address-address (j ∷ is) b i e = elim (Bool-cases (j.address == b)) [
  | inl here ↦
      let same : i ≡ j = cc (e, if_true (j.address == b) (some j) (find_address is b) here) in
      ap (λ k. k.address) same ∙ (==_iff j.address b).0 here
  | inr there ↦ find_address-address is b i (sym (if_false (j.address == b) _ _ there) ∙ e)
]

-- An input that was found is replaced by one with its address and id.
Present-store :
    (a id : ℕ) (is : List StreamInput) (b : ℕ) (i j : StreamInput)
    → find_address is b ≡ some i
    → j.address ≡ b
    → j.id ≡ i.id
    → Present a id is
    → Present a id (store is j)
unfolding find_address store
Present-store a id [] b i j e address same_id h = h
Present-store a id (k ∷ is) b i j e address same_id h = elim (Bool-cases (k.address == b)) [
  | inl here ↦
      let same : i ≡ k = cc (e, if_true (k.address == b) (some k) (find_address is b) here) in
      let hit : (k.address == j.address) ≡ true = ground arith in
      rw hit (elim h [
        | inl (at, its) ↦ inl (
          address ∙ sym ((==_iff k.address b).0 here) ∙ at,
          same_id ∙ ap (λ i'. i'.id) same ∙ its,
        )
        | inr later ↦ inr later
      ])
  | inr there ↦
      let miss : (k.address == j.address) ≡ false = ground arith in
      rw miss (elim h [
        | inl e ↦ inl e
        | inr later ↦ inr (
            Present-store a id is b i j (sym (if_false (k.address == b) _ _ there) ∙ e) address
              same_id later)
      ])
]

-- What stays after an operation that may crash.
abbrev pub StaysOption : Conn → Option Conn → Type 0
StaysOption conn none = Unit
StaysOption conn (some conn') = Stays conn conn'

pub push_at-Stays :
    (alloc : ℕ → Bool) (conn : Conn) (b : ℕ) (value : Value) (is_end : Bool)
    → StaysOption conn (push_at alloc conn b value is_end)
unfolding push_at push_found stream_input_push
push_at-Stays alloc conn b value is_end = elim (Option-cases (find_address conn.inputs b)) [
  | inl missing ↦ rw missing tt
  | inr (i, found) ↦ elim (Bool-cases (alloc node_size)) [
    | inl got ↦
        rw (found, got)
          (λ a id h.
            Present-store a id conn.inputs b i (stream_input_push i value is_end) found
              (find_address-address conn.inputs b i found) refl h)
    | inr lost ↦ rw (found, lost) tt
  ]
]

abbrev pub StaysReceived : Conn → Option (Received × Conn) → Type 0
StaysReceived conn none = Unit
StaysReceived conn (some r) = Stays conn r.1

stream_input_recv-address :
    (i : StreamInput)
    → ((stream_input_recv i).1.address ≡ i.address) × ((stream_input_recv i).1.id ≡ i.id)
unfolding stream_input_recv recv_node
stream_input_recv-address i = on_nodes i.nodes
  where
    on_nodes :
        (nodes : List ChunkNode)
        → ((recv_node nodes i).1.address ≡ i.address) × ((recv_node nodes i).1.id ≡ i.id)
    on_nodes [] = (refl, refl)
    on_nodes (node ∷ nodes) = (refl, refl)

pub recv_at-Stays : (conn : Conn) (b : ℕ) → StaysReceived conn (recv_at conn b)
unfolding recv_at recv_found
recv_at-Stays conn b = elim (Option-cases (find_address conn.inputs b)) [
  | inl missing ↦ rw missing tt
  | inr (i, found) ↦ rw found (λ a id h.
      Present-store a id conn.inputs b i (stream_input_recv i).1 found
        ((stream_input_recv-address i).0 ∙ find_address-address conn.inputs b i found)
        (stream_input_recv-address i).1 h)
]

-- After a registration, the new input is there too.
abbrev pub Adds : Conn → ℕ → Option Conn → Type 0
Adds conn id none = Unit
Adds conn id (some conn') = Stays conn conn' × ((a : ℕ) × Present a id conn'.inputs)

Present-new : (is : List StreamInput) (j : StreamInput) → Present j.address j.id (is ++ (j ∷ []))
Present-new [] j = inl (refl, refl)
Present-new (i ∷ is) j = inr (Present-new is j)

pub conn_register_input-Adds :
    (alloc : ℕ → Bool) (conn : Conn) (id : ℕ) → Adds conn id (conn_register_input alloc conn id)
unfolding conn_register_input stream_input_new
conn_register_input-Adds alloc conn id = if_keeps (Adds conn id) (not (alloc input_size)) _ _ tt (
    if_keeps (Adds conn id) (length conn.inputs == conn.inputs_cap) _ _
      (if_keeps (Adds conn id) (alloc (new_cap conn.inputs_cap * pointer_size)) _ _ added tt) added)
  where
    added :
        ((a b : ℕ)
          → Present a b conn.inputs
          → Present a b (conn.inputs ++ (stream_input_new conn.next_address id ∷ [])))
        × ((a : ℕ) × Present a id (conn.inputs ++ (stream_input_new conn.next_address id ∷ [])))
    added = (
      λ a b h. Present-append a b conn.inputs (stream_input_new conn.next_address id ∷ []) h,
      (conn.next_address, Present-new conn.inputs (stream_input_new conn.next_address id)),
    )

-- The inputs with their end markers.
abbrev pub PresentEnds : List StreamInput → Option (List StreamInput) → Type 0
PresentEnds is none = Unit
PresentEnds is (some js) = (a id : ℕ) → Present a id is → Present a id js

pub push_ends-Present :
    (alloc : ℕ → Bool) (is : List StreamInput) → PresentEnds is (push_ends alloc is)
unfolding push_ends stream_input_push
push_ends-Present alloc [] = λ a id h. h
push_ends-Present alloc (i ∷ is) = added (push_ends alloc is) (push_ends-Present alloc is)
  where
    added :
        (o : Option (List StreamInput))
        → PresentEnds is o
        → PresentEnds (i ∷ is) (elim o [
          | none ↦ none
          | some is' ↦ if alloc node_size then some (stream_input_push i null true ∷ is') else none
        ])
    added none l = tt
    added (some js) l =
        if_keeps (PresentEnds (i ∷ is)) (alloc node_size) _ _
          (λ a id h. elim h [ inl e ↦ inl e | inr later ↦ inr (l a id later) ]) tt
