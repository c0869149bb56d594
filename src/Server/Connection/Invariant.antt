-- ===== src/Server/Connection/Invariant.antt =====
-- What holds of every connection of c/src/server.c: its inputs have distinct addresses, below the next
-- one, and its array holds them.
use callwire.Base.{
  ℕ, ◌≤◌, ◌<◌, ◌≡◌, sym, ◌∙◌, subst, ◌≢◌, inl, inr, List, [], ◌∷◌, ◌++◌, some, arith, ◌==◌, ==_iff,
  if_true, if_false, Bool-cases, length,
}
use callwire.Server.Input.{StreamInput}
use callwire.Server.Connection.{
  Conn, last, before_last, replace_front, find_id, conn_find_input, remove_id, find_address, store,
}

-- A predicate of the addresses.
abbrev pub All : (ℕ → Type 0) → List StreamInput → Type 0
All p [] = Unit
All p (i ∷ is) = p i.address × All p is

abbrev pub Distinct : List StreamInput → Type 0
Distinct [] = Unit
Distinct (i ∷ is) = All (λ a. a ≢ i.address) is × Distinct is

module _ (p : ℕ → Type 0) where
  pub All-append :
      (is : List StreamInput) (i : StreamInput) → All p is → p i.address → All p (is ++ (i ∷ []))
  All-append [] i h k = (k, tt)
  All-append (j ∷ is) i h k = (h.0, All-append is i h.1 k)

  pub All-store : (is : List StreamInput) (i : StreamInput) → All p is → All p (store is i)
  unfolding store
  All-store [] i h = tt
  All-store (j ∷ is) i h = elim (Bool-cases (j.address == i.address)) [
    | inl here ↦ rw here (subst p ((==_iff j.address i.address).0 here) h.0, h.1)
    | inr there ↦ rw there (h.0, All-store is i h.1)
  ]

  pub All-last :
      (i : StreamInput) (is : List StreamInput)
      → All p (i ∷ is)
      → p (last i is).address × All p (before_last i is)
  All-last i [] h = h
  All-last i (j ∷ is) h = let rest = All-last j is h.1 in (rest.0, (h.0, rest.1))

  pub All-remove_id : (is : List StreamInput) (id : ℕ) → All p is → All p (remove_id is id)
  unfolding remove_id replace_front
  All-remove_id [] id h = tt
  All-remove_id (i ∷ []) id h = elim (Bool-cases (i.id == id)) [
    | inl here ↦ rw here tt
    | inr there ↦ rw there h
  ]
  All-remove_id (i ∷ j ∷ is) id h = elim (Bool-cases (i.id == id)) [
    | inl here ↦ rw here (All-last j is h.1)
    | inr there ↦ rw there (h.0, All-remove_id (j ∷ is) id h.1)
  ]

pub All-weaken :
    (p q : ℕ → Type 0) (is : List StreamInput) → ((a : ℕ) → p a → q a) → All p is → All q is
All-weaken p q [] f h = tt
All-weaken p q (i ∷ is) f h = (f i.address h.0, All-weaken p q is f h.1)

pub Distinct-append :
    (is : List StreamInput) (i : StreamInput)
    → Distinct is
    → All (λ a. a < i.address) is
    → Distinct (is ++ (i ∷ []))
Distinct-append [] i d b = (tt, tt)
Distinct-append (j ∷ is) i d b =
    (All-append _ is i d.0 (ground arith), Distinct-append is i d.1 b.1)

pub Distinct-store : (is : List StreamInput) (i : StreamInput) → Distinct is → Distinct (store is i)
unfolding store
Distinct-store [] i d = tt
Distinct-store (j ∷ is) i d = elim (Bool-cases (j.address == i.address)) [
  | inl here ↦
      rw here (subst (λ a. All (λ b. b ≢ a) is) ((==_iff j.address i.address).0 here) d.0, d.1)
  | inr there ↦ rw there (All-store _ is i d.0, Distinct-store is i d.1)
]

Distinct-last :
    (i : StreamInput) (is : List StreamInput)
    → Distinct (i ∷ is)
    → Distinct (last i is ∷ before_last i is)
Distinct-last i [] d = d
Distinct-last i (j ∷ is) d =
    let rest = Distinct-last j is d.1 in
    let other = All-last _ j is d.0 in ((λ e. other.0 (sym e), rest.0), (other.1, rest.1))

pub Distinct-remove_id : (is : List StreamInput) (id : ℕ) → Distinct is → Distinct (remove_id is id)
unfolding remove_id replace_front
Distinct-remove_id [] id d = tt
Distinct-remove_id (i ∷ []) id d = elim (Bool-cases (i.id == id)) [
  | inl here ↦ rw here tt
  | inr there ↦ rw there d
]
Distinct-remove_id (i ∷ j ∷ is) id d = elim (Bool-cases (i.id == id)) [
  | inl here ↦ rw here (Distinct-last j is d.1)
  | inr there ↦ rw there (All-remove_id _ (j ∷ is) id d.0, Distinct-remove_id (j ∷ is) id d.1)
]

-- The invariant.
pub record IsConn (conn : Conn) : Type 0 where
  pub distinct : Distinct conn.inputs
  pub below : All (λ a. a < conn.next_address) conn.inputs
  pub fits : length conn.inputs ≤ conn.inputs_cap

All-found :
    (p : ℕ → Type 0) (is : List StreamInput) (id : ℕ) (i : StreamInput)
    → All p is
    → find_id is id ≡ some i
    → p i.address
unfolding find_id
All-found p [] id i h e = absurd (cc)
All-found p (j ∷ is) id i h e = elim (Bool-cases (j.id == id)) [
  | inl here ↦
      let same : i ≡ j = cc (e, if_true (j.id == id) (some j) (find_id is id) here) in
      subst (λ k. p k.address) (sym same) h.0
  | inr there ↦ All-found p is id i h.1 (sym (if_false (j.id == id) _ _ there) ∙ e)
]

find_id-found :
    (is : List StreamInput) (id : ℕ) (i : StreamInput)
    → Distinct is
    → find_id is id ≡ some i
    → find_address is i.address ≡ some i
unfolding find_id find_address
find_id-found [] id i d e = absurd (cc)
find_id-found (j ∷ is) id i d e = elim (Bool-cases (j.id == id)) [
  | inl here ↦
      let same : i ≡ j = cc (e, if_true (j.id == id) (some j) (find_id is id) here) in
      rw same (if_true (j.address == j.address) _ _ (ground arith))
  | inr there ↦
      let further : find_id is id ≡ some i = sym (if_false (j.id == id) _ _ there) ∙ e in
      let other : i.address ≢ j.address = All-found (λ a. a ≢ j.address) is id i d.0 further in
      if_false (j.address == i.address) _ _ (ground arith) ∙ find_id-found is id i d.1 further
]

-- The pointer that conn_find_input returns leads to the input that it found.
pub conn_find_input-found :
    (conn : Conn) (id : ℕ) (i : StreamInput)
    → IsConn conn
    → conn_find_input conn id ≡ some i
    → find_address conn.inputs i.address ≡ some i
unfolding conn_find_input
conn_find_input-found conn id i h e = find_id-found conn.inputs id i h.distinct e
