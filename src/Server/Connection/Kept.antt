-- ===== src/Server/Connection/Kept.antt =====
-- The operations on the inputs of a connection in c/src/server.c keep the invariant.
use callwire.Base.{
  ℕ, suc, ◌*◌, ◌^◌, ◌⊎◌, ◌≤◌, ◌<◌, ◌≡◌, refl, ap, inl, inr, Bool, List, [], ◌∷◌, ◌++◌, Option, none,
  some, arith, ◌==◌, Bool-cases, Option-cases, length, length-append,
}
use callwire.Value.{Value}
use callwire.Codec.Outcome.{ok, failed, crashed, out_of_fuel}
use callwire.Codec.Encode.{Encoded}
use callwire.Server.Registry.{new_cap}
use callwire.Server.Registry.Laws.{doubled}
use callwire.Server.Input.{
  StreamInput, stream_input_new, stream_input_push, stream_input_recv, Received,
}
use callwire.Server.Connection.{
  Conn, input_size, pointer_size, node_size, before_last, replace_front, conn_register_input,
  remove_id, conn_remove_input, find_address, store, push_found, push_at, recv_found, recv_at,
  conn_write_frame, write_encoded,
}
use callwire.Server.Connection.Invariant.{
  All, Distinct, IsConn, All-append, All-store, All-remove_id, All-weaken, Distinct-append,
  Distinct-store, Distinct-remove_id,
}

-- The invariant, and how the array grows: its capacity is zero or 8 doubled some times.
abbrev pub Grown : ℕ → Type 0
Grown cap = (cap ≡ 0) ⊎ ((k : ℕ) × (cap ≡ 8 * 2 ^ k))

pub record IsServed (conn : Conn) : Type 0 where
  pub distinct : Distinct conn.inputs
  pub below : All (λ a. a < conn.next_address) conn.inputs
  pub fits : length conn.inputs ≤ conn.inputs_cap
  pub grown : Grown conn.inputs_cap

pub IsServed-IsConn : (conn : Conn) → IsServed conn → IsConn conn
IsServed-IsConn conn h = record { distinct = h.distinct; below = h.below; fits = h.fits }

-- What is kept by an operation that may crash.
abbrev pub Keeps : Option Conn → Type 0
Keeps none = Unit
Keeps (some conn) = IsServed conn

length-store : (is : List StreamInput) (i : StreamInput) → length (store is i) ≡ length is
unfolding store
length-store [] i = refl
length-store (j ∷ is) i = elim (Bool-cases (j.address == i.address)) [
  | inl here ↦ rw here refl
  | inr there ↦ rw there (ap suc (length-store is i))
]

length-before_last :
    (i : StreamInput) (is : List StreamInput) → length (before_last i is) ≡ length is
length-before_last i [] = refl
length-before_last i (j ∷ is) = ap suc (length-before_last j is)

length-remove_id_le : (is : List StreamInput) (id : ℕ) → length (remove_id is id) ≤ length is
unfolding remove_id replace_front
length-remove_id_le [] id = omega arith
length-remove_id_le (i ∷ []) id = elim (Bool-cases (i.id == id)) [
  | inl here ↦ rw here (omega arith)
  | inr there ↦ rw there (omega arith)
]
length-remove_id_le (i ∷ j ∷ is) id = elim (Bool-cases (i.id == id)) [
  | inl here ↦ rw here (omega (arith, length-before_last j is))
  | inr there ↦ rw there (omega (arith, length-remove_id_le (j ∷ is) id))
]

pub conn_remove_input-IsServed :
    (conn : Conn) (id : ℕ) → IsServed conn → IsServed (conn_remove_input conn id)
unfolding conn_remove_input
conn_remove_input-IsServed conn id h = record {
  distinct = Distinct-remove_id conn.inputs id h.distinct;
  below = All-remove_id _ conn.inputs id h.below;
  fits = omega (arith, length-remove_id_le conn.inputs id, h.fits);
  grown = h.grown;
}

store-IsServed :
    (conn : Conn) (i : StreamInput)
    → IsServed conn
    → IsServed (record conn { inputs = store conn.inputs i })
store-IsServed conn i h = record {
  distinct = Distinct-store conn.inputs i h.distinct;
  below = All-store _ conn.inputs i h.below;
  fits = omega (arith, length-store conn.inputs i, h.fits);
  grown = h.grown;
}

pub push_at-Keeps :
    (alloc : ℕ → Bool) (conn : Conn) (a : ℕ) (value : Value) (is_end : Bool)
    → IsServed conn
    → Keeps (push_at alloc conn a value is_end)
unfolding push_at push_found
push_at-Keeps alloc conn a value is_end h = elim (Option-cases (find_address conn.inputs a)) [
  | inl missing ↦ rw missing tt
  | inr (i, found) ↦ elim (Bool-cases (alloc node_size)) [
    | inl got ↦ rw (found, got) (store-IsServed conn (stream_input_push i value is_end) h)
    | inr lost ↦ rw (found, lost) tt
  ]
]

abbrev pub KeepsReceived : Option (Received × Conn) → Type 0
KeepsReceived none = Unit
KeepsReceived (some r) = IsServed r.1

pub recv_at-Keeps : (conn : Conn) (a : ℕ) → IsServed conn → KeepsReceived (recv_at conn a)
unfolding recv_at recv_found
recv_at-Keeps conn a h = elim (Option-cases (find_address conn.inputs a)) [
  | inl missing ↦ rw missing tt
  | inr (i, found) ↦ rw found (store-IsServed conn (stream_input_recv i).1 h)
]

registered-IsServed :
    (conn : Conn) (id cap : ℕ)
    → IsServed conn
    → length conn.inputs < cap
    → Grown cap
    → IsServed (record conn {
      inputs = conn.inputs ++ (stream_input_new conn.next_address id ∷ []);
      inputs_cap = cap;
      next_address = suc conn.next_address;
    })
unfolding stream_input_new
registered-IsServed conn id cap h room more = record {
  grown = more;
  distinct = Distinct-append conn.inputs (stream_input_new conn.next_address id) h.distinct h.below;
  below =
      All-append _ conn.inputs (stream_input_new conn.next_address id)
        (All-weaken _ _ conn.inputs (λ a b. omega arith) h.below) (omega arith);
  fits =
      omega (arith, length-append conn.inputs (stream_input_new conn.next_address id ∷ []), room);
}

pub conn_register_input-Keeps :
    (alloc : ℕ → Bool) (conn : Conn) (id : ℕ)
    → IsServed conn
    → Keeps (conn_register_input alloc conn id)
unfolding conn_register_input
conn_register_input-Keeps alloc conn id h = elim (Bool-cases (alloc input_size)) [
  | inr lost ↦ rw lost tt
  | inl got ↦ elim (Bool-cases (length conn.inputs == conn.inputs_cap)) [
    | inr room ↦
        rw (got, room)
          (registered-IsServed conn id conn.inputs_cap h (ground (arith, h.fits)) h.grown)
    | inl full ↦ elim (Bool-cases (alloc (new_cap conn.inputs_cap * pointer_size))) [
      | inl more ↦
          rw (got, full, more)
            (let cap = doubled conn.inputs_cap h.grown in
              registered-IsServed conn id (new_cap conn.inputs_cap) h (omega (arith, h.fits, cap.0))
                (inr cap.1))
      | inr lost ↦ rw (got, full, lost) tt
    ]
  ]
]

-- A write leaves the inputs as they are.
pub write_encoded-IsServed :
    (conn : Conn) (e : Encoded) → IsServed conn → IsServed (write_encoded conn e).1
unfolding write_encoded conn_write_frame
write_encoded-IsServed conn (ok payload) h = record {
  distinct = h.distinct;
  below = h.below;
  fits = h.fits;
  grown = h.grown;
}
write_encoded-IsServed conn failed h = h
write_encoded-IsServed conn crashed h = h
write_encoded-IsServed conn out_of_fuel h = h
