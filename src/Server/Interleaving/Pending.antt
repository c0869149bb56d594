-- ===== src/Server/Interleaving/Pending.antt =====
-- The input that the read loop of c/src/server.c is about to add to, while no two running calls that
-- read a stream have the same id.
use callwire.Base.{
  ℕ, ◌≡◌, refl, ap, sym, ◌∙◌, subst, ◌⊎◌, inl, inr, Bool, true, false, ◌&&◌, not, arith, List, [],
  ◌∷◌, ◌++◌, some, ◌==◌, ==_iff, Bool-cases, if_true,
}
use callwire.Value.{Value, Items}
use callwire.Server.Registry.{RegistryEntry}
use callwire.Server.Connection.{Conn, node_size, push_at, push_found}
use callwire.Server.Connection.Present.{Present, Present-find_address}
use callwire.Server.Dispatch.{
  Program, Stage, starting, running, closing, finished, Thread, has_input, step_stage, thread_step,
}
use callwire.Server.Interleaving.{LoopStage, at_read, at_push, at_end}
use callwire.Server.Interleaving.Holds.{is_live, reads_stream, StaysBut}

-- A call with an id that read a stream and has ended.
abbrev pub Ended : ℕ → Thread → Type 0
Ended id t = (has_input t.entry.kind ≡ true) × (t.stage ≡ finished) × (t.id ≡ id)

abbrev pub HasEnded : ℕ → List Thread → Type 0
HasEnded id [] = ⊥
HasEnded id (t ∷ ts) = Ended id t ⊎ HasEnded id ts

-- The pointer of the loop leads to an input, unless a call with its id has ended.
abbrev pub Pending : Conn → List Thread → LoopStage → Type 0
Pending conn ts at_read = Unit
Pending conn ts (at_push id a value is_end) = Present a id conn.inputs ⊎ HasEnded id ts
Pending conn ts at_end = Unit

-- The loop can add to the input, unless a call with its id has ended.
abbrev pub CanPush : (ℕ → Bool) → Conn → List Thread → LoopStage → Type 0
CanPush alloc conn ts at_read = Unit
CanPush alloc conn ts (at_push id a value is_end) =
    ((conn' : Conn) × (push_at alloc conn a value is_end ≡ some conn')) ⊎ HasEnded id ts
CanPush alloc conn ts at_end = Unit

push_at-Present :
    (alloc : ℕ → Bool) (conn : Conn) (id a : ℕ) (value : Value) (is_end : Bool)
    → alloc node_size ≡ true
    → Present a id conn.inputs
    → (conn' : Conn) × (push_at alloc conn a value is_end ≡ some conn')
unfolding push_at push_found
push_at-Present alloc conn id a value is_end enough h =
    let (i, found) = Present-find_address a id conn.inputs h in
    (_, ap (λ o. push_found alloc conn o value is_end) found ∙ if_true (alloc node_size) _ _ enough)

pub Pending-CanPush :
    (alloc : ℕ → Bool) (conn : Conn) (ts : List Thread) (loop : LoopStage)
    → alloc node_size ≡ true
    → Pending conn ts loop
    → CanPush alloc conn ts loop
Pending-CanPush alloc conn ts at_read enough h = tt
Pending-CanPush alloc conn ts (at_push id a value is_end) enough (inl h) =
    inl (push_at-Present alloc conn id a value is_end enough h)
Pending-CanPush alloc conn ts (at_push id a value is_end) enough (inr h) = inr h
Pending-CanPush alloc conn ts at_end enough h = tt

HasEnded-middle :
    (id : ℕ) (before : List Thread) (t : Thread) (behind : List Thread)
    → Ended id t
    → HasEnded id (before ++ (t ∷ behind))
HasEnded-middle id [] t behind h = inl h
HasEnded-middle id (u ∷ before) t behind h = inr (HasEnded-middle id before t behind h)

HasEnded-run :
    (id : ℕ) (before : List Thread) (t t' : Thread) (behind : List Thread)
    → (Ended id t → Ended id t')
    → HasEnded id (before ++ (t ∷ behind))
    → HasEnded id (before ++ (t' ∷ behind))
HasEnded-run id [] t t' behind f (inl h) = inl (f h)
HasEnded-run id [] t t' behind f (inr h) = inr h
HasEnded-run id (u ∷ before) t t' behind f (inl h) = inl h
HasEnded-run id (u ∷ before) t t' behind f (inr h) = inr (HasEnded-run id before t t' behind f h)

last_step :
    (b : Bool) (s s' : Stage)
    → (b && is_live s) && not (is_live s') ≡ true
    → (b ≡ true) × (s' ≡ finished)
last_step true s finished e = (refl, refl)
last_step true starting starting e = cc
last_step true (running ctx p) starting e = cc
last_step true closing starting e = cc
last_step true finished starting e = cc
last_step true starting (running ctx' p') e = cc
last_step true (running ctx p) (running ctx' p') e = cc
last_step true closing (running ctx' p') e = cc
last_step true finished (running ctx' p') e = cc
last_step true starting closing e = cc
last_step true (running ctx p) closing e = cc
last_step true closing closing e = cc
last_step true finished closing e = cc
last_step false s s' e = cc

module _ (alloc : ℕ → Bool) (unary_fn : RegistryEntry → Items → Bool × Value)
    (program : RegistryEntry → Items → Program) where
  -- A thread that has ended stays as it is.
  thread_step-finished :
      (t : Thread) (conn : Conn)
      → t.stage ≡ finished
      → thread_step alloc unary_fn program t conn ≡ some (t, conn)
  unfolding thread_step step_stage
  thread_step-finished t conn e = ap (λ s. step_stage alloc unary_fn program s t conn) e

  pub Pending-run :
      (conn conn' : Conn) (before : List Thread) (t t' : Thread) (behind : List Thread)
      (loop : LoopStage)
      → thread_step alloc unary_fn program t conn ≡ some (t', conn')
      → StaysBut (reads_stream t && not (is_live t'.stage)) t.id conn conn'
      → t'.id ≡ t.id
      → t'.entry ≡ t.entry
      → Pending conn (before ++ (t ∷ behind)) loop
      → Pending conn' (before ++ (t' ∷ behind)) loop
  Pending-run conn conn' before t t' behind at_read e f same_id same_entry h = tt
  Pending-run conn conn' before t t' behind at_end e f same_id same_entry h = tt
  Pending-run conn conn' before t t' behind (at_push id a value is_end) e f same_id same_entry
        (inl present) =
      elim (Bool-cases (reads_stream t && not (is_live t'.stage))) [
        | inr stays ↦ inl (f a id (λ removes. absurd cc) present)
        | inl removes ↦ elim (Bool-cases (id == t.id)) [
          | inr other ↦ inl (f a id (λ removes same. absurd (ground arith)) present)
          | inl same ↦
              let (input, ended) = last_step (has_input t.entry.kind) t.stage t'.stage removes in
              inr (
                HasEnded-middle id before t' behind (
                  ap (λ entry. has_input entry.kind) same_entry ∙ input,
                  ended,
                  same_id ∙ sym ((==_iff id t.id).0 same),
                ))
        ]
      ]
  Pending-run conn conn' before t t' behind (at_push id a value is_end) e f same_id same_entry
        (inr ended) =
      inr (HasEnded-run id before t t' behind stays_ended ended)
    where
      some_injective : (p q : Thread × Conn) → some p ≡ some q → p ≡ q
      some_injective p q e = cc

      stays_ended : Ended id t → Ended id t'
      stays_ended (input, at_its_end, same) =
          let unchanged =
            ap (λ p. p.0)
              (some_injective (t, conn) (t', conn')
                (sym (thread_step-finished t conn at_its_end) ∙ e)) in
          subst (Ended id) unchanged (input, at_its_end, same)
