-- ===== src/Server/Connection/Ids.antt =====
-- Inputs of a connection by their ids in c/src/server.c, and the end of a connection.
use callwire.Base.{
  ℕ, suc, ◌*◌, ◌≡◌, refl, ap, ◌∙◌, inl, inr, Bool, true, List, [], ◌∷◌, ◌++◌, Option, none, some,
  ◌==◌, if◌then◌else◌, Bool-cases, length,
}
use mathlib.Core.List.{Perm}
use mathlib.Core.List.Perm
use callwire.Value.{null}
use callwire.Server.Registry.{new_cap}
use callwire.Server.Input.{StreamInput, stream_input_new, stream_input_push}
use callwire.Server.Connection.{
  Conn, input_size, pointer_size, node_size, conn_register_input, find_id, conn_find_input, last,
  before_last, replace_front, remove_id, conn_remove_input, push_ends,
}

module _ (alloc : ℕ → Bool) (conn : Conn) (id : ℕ) where
  abbrev pub new_input : StreamInput
  new_input = stream_input_new conn.next_address id

  -- The input is added at the end; the socket does not change.
  pub conn_register_input-inputs :
      ((n : ℕ) → alloc n ≡ true)
      → (conn' : Conn) × (conn_register_input alloc conn id ≡ some conn')
        × (conn'.inputs ≡ conn.inputs ++ (new_input ∷ []))
        × (conn'.socket ≡ conn.socket)
  unfolding conn_register_input
  conn_register_input-inputs enough = elim (Bool-cases (length conn.inputs == conn.inputs_cap)) [
    | inl full ↦ (
      record conn {
        inputs = conn.inputs ++ (new_input ∷ []);
        inputs_cap = new_cap conn.inputs_cap;
        next_address = suc conn.next_address;
      },
      rw (full, enough input_size, enough (new_cap conn.inputs_cap * pointer_size)) refl,
      refl,
      refl,
    )
    | inr room ↦ (
      record conn {
        inputs = conn.inputs ++ (new_input ∷ []);
        next_address = suc conn.next_address;
      },
      rw (room, enough input_size) refl,
      refl,
      refl,
    )
  ]

  find_id-append :
      (is : List StreamInput) (asked : ℕ)
      → find_id (is ++ (new_input ∷ [])) asked ≡ elim (find_id is asked) [
        | some i ↦ some i
        | none ↦ if id == asked then some new_input else none
      ]
  unfolding find_id stream_input_new
  find_id-append [] asked = refl
  find_id-append (i ∷ is) asked = elim (Bool-cases (i.id == asked)) [
    | inl here ↦ rw here refl
    | inr there ↦ rw there (find_id-append is asked)
  ]

  -- Where every allocation succeeds: after conn_register_input, conn_find_input leads for every id
  -- to the input it led to before; for the new id, if it led nowhere, to the new input. So a second
  -- call under the id of one that still runs shares its input.
  pub conn_register_input-conn_find_input :
      ((n : ℕ) → alloc n ≡ true)
      → (asked : ℕ)
      → (conn' : Conn) × (conn_register_input alloc conn id ≡ some conn')
        × (conn_find_input conn' asked ≡ elim (conn_find_input conn asked) [
          | some i ↦ some i
          | none ↦ if id == asked then some new_input else none
        ])
  unfolding conn_find_input
  conn_register_input-conn_find_input enough asked =
      let r = conn_register_input-inputs enough in
      (r.0, r.1, ap (λ is. find_id is asked) r.2 ∙ find_id-append conn.inputs asked)

last-Perm : (i : StreamInput) (is : List StreamInput) → Perm (i ∷ is) (last i is ∷ before_last i is)
last-Perm i [] = Perm.refl (i ∷ [])
last-Perm i (j ∷ is) =
    Perm.trans (Perm.cons i (last-Perm j is)) (Perm.swap (last j is) i (before_last j is))

replace_front-Perm : (is : List StreamInput) → Perm is (replace_front is)
unfolding replace_front
replace_front-Perm [] = Perm.refl []
replace_front-Perm (j ∷ is) = last-Perm j is

-- The inputs before and after a removal, in any order: the one that the id leads to is taken out; if
-- it leads nowhere, nothing is.
abbrev pub Removed : Option StreamInput → List StreamInput → List StreamInput → Type 0
Removed none is is' = is' ≡ is
Removed (some i) is is' = Perm is (i ∷ is')

remove_id-Removed : (is : List StreamInput) (id : ℕ) → Removed (find_id is id) is (remove_id is id)
unfolding find_id remove_id
remove_id-Removed [] id = refl
remove_id-Removed (i ∷ is) id = elim (Bool-cases (i.id == id)) [
  | inl here ↦ rw here (Perm.cons i (replace_front-Perm is))
  | inr there ↦ rw there (deeper (find_id is id) (remove_id-Removed is id))
]
  where
    deeper :
        (o : Option StreamInput)
        → Removed o is (remove_id is id)
        → Removed o (i ∷ is) (i ∷ remove_id is id)
    deeper none e = ap (◌∷◌ i) e
    deeper (some k) p = Perm.trans (Perm.cons i p) (Perm.swap k i (remove_id is id))

-- conn_remove_input takes the input that the id leads to out of the inputs and keeps all others, in
-- some order; if the id leads nowhere the inputs stay as they are.
pub conn_remove_input-Removed :
    (conn : Conn) (id : ℕ)
    → Removed (conn_find_input conn id) conn.inputs (conn_remove_input conn id).inputs
unfolding conn_find_input conn_remove_input
conn_remove_input-Removed conn id = remove_id-Removed conn.inputs id

-- Every input of the list gets an end marker after what it holds.
abbrev pub Ended : List StreamInput → List StreamInput → Type 0
Ended [] is' = is' ≡ []
Ended (i ∷ is) [] = ⊥
Ended (i ∷ is) (j ∷ js) =
    (j ≡ record i { nodes = i.nodes ++ (record { value = null; is_end = true } ∷ []) })
    × Ended is js

pub push_ends-Ended :
    (alloc : ℕ → Bool) (is : List StreamInput)
    → alloc node_size ≡ true
    → (is' : List StreamInput) × (push_ends alloc is ≡ some is') × Ended is is'
unfolding push_ends stream_input_push
push_ends-Ended alloc [] got = ([], refl, refl)
push_ends-Ended alloc (i ∷ is) got =
    let rest = push_ends-Ended alloc is got in
    (stream_input_push i null true ∷ rest.0, rw (rest.1, got) refl, (refl, rest.2))
