-- ===== src/Server/Registry/Laws.antt =====
-- What an export of c/src/server.c does to the registry.
use callwire.Base.{
  ℕ, zero, suc, ◌+◌, ◌*◌, ◌^◌, ◌≤◌, ◌<◌, ◌≡◌, refl, ap, ◌∙◌, ◌⊎◌, inl, inr, Bool, true, false, ◌&&◌,
  List, [], ◌∷◌, ◌++◌, none, some, arith, ◌==◌, suc_nonzero, if◌then◌else◌, Bool-cases,
  Option-cases, length, length-append, c_string, same_string,
}
use callwire.Server.Registry.{
  RegistryEntry, Server, HandlerKind, refused, new_cap, add_entry, register_entry, export_kind,
  find_entry, find_handler,
}

-- The array holds its entries, and its capacity is zero or 8 doubled some times.
abbrev pub IsServer : Server → Type 0
IsServer s =
    (length s.entries ≤ s.entry_cap) × ((s.entry_cap ≡ 0) ⊎ ((k : ℕ) × (s.entry_cap ≡ 8 * 2 ^ k)))

-- What an export leaves: an error, and the registry as it was; or the entry at the end of it.
pub data Registered (entry : RegistryEntry) (s : Server) : Bool × Server → Type 0 where
  unchanged :
      {s' : Server}
      → s'.entries ≡ s.entries
      → s'.entry_cap ≡ s.entry_cap
      → Registered entry s (false, s')
  added :
      {s' : Server}
      → s'.entries ≡ s.entries ++ (entry ∷ [])
      → IsServer s'
      → Registered entry s (true, s')

pub new_cap-cases :
    (cap : ℕ) → ((cap ≡ 0) × (new_cap cap ≡ 8)) ⊎ ((0 < cap) × (new_cap cap ≡ cap * 2))
unfolding new_cap
new_cap-cases zero = inl (refl, refl)
new_cap-cases (suc n) = inr (omega arith, rw (suc_nonzero n) refl)

power_positive : (k : ℕ) → 1 ≤ 2 ^ k
power_positive zero = omega arith
power_positive (suc k) = omega (arith, power_positive k)

pub doubled :
    (cap : ℕ)
    → (cap ≡ 0) ⊎ ((k : ℕ) × (cap ≡ 8 * 2 ^ k))
    → (cap < new_cap cap) × ((k : ℕ) × (new_cap cap ≡ 8 * 2 ^ k))
doubled cap power = elim (new_cap-cases cap) [
  | inl empty ↦ (omega arith, (0, empty.1))
  | inr used ↦ elim power [
    | inl e ↦ absurd (omega arith)
    | inr (k, e) ↦ (omega arith, (suc k, omega arith))
  ]
]

length-added :
    (xs : List RegistryEntry) (x : RegistryEntry) → length (xs ++ (x ∷ [])) ≡ suc (length xs)
length-added xs x = omega (arith, length-append xs (x ∷ []))

add_entry-Registered :
    (alloc : ℕ → Bool) (entry : RegistryEntry) (s : Server) (n : ℕ)
    → IsServer s
    → Registered entry s (add_entry alloc entry (record s { blocks = n }))
unfolding add_entry refused
add_entry-Registered alloc entry s n h = elim (Bool-cases (length s.entries == s.entry_cap)) [
  | inl full ↦ elim (Bool-cases (alloc (new_cap s.entry_cap * 32))) [
    | inl got ↦
        let cap = doubled s.entry_cap h.1 in
        rw (full, got)
          (added refl (omega (arith, length-added s.entries entry, cap.0, h.0), inr cap.1))
    | inr failed ↦ rw (full, failed) (unchanged refl refl)
  ]
  | inr room ↦ rw room (added refl (ground (arith, length-added s.entries entry, h.0), h.1))
]

-- The name that an export gives its entry.
abbrev pub named : HandlerKind → List ℕ → ℕ → ℕ → RegistryEntry
named kind func userdata fn = record {
  name = c_string func;
  kind = kind;
  fn = fn;
  userdata = userdata;
}

-- On a registry whose array holds its entries, every export either fails, and the entries and the
-- capacity stay as they were, or adds its entry, under a copy of the name, at the end; the array
-- then holds it, and its capacity is zero or 8 doubled some times.
pub export_kind-Registered :
    (kind : HandlerKind) (alloc : ℕ → Bool) (present : Bool) (func : List ℕ) (userdata fn : ℕ)
    (s : Server)
    → IsServer s
    → Registered
        (named kind func userdata fn)
        s
        (export_kind kind alloc present (some func) userdata fn s)
unfolding export_kind register_entry refused
export_kind-Registered kind alloc present func userdata zero s h = unchanged refl refl
export_kind-Registered kind alloc false func userdata (suc fn) s h =
    rw (suc_nonzero fn) (unchanged refl refl)
export_kind-Registered kind alloc true func userdata (suc fn) s h =
    elim (Bool-cases (alloc (length (c_string func) + 1))) [
      | inl got ↦ rw (suc_nonzero fn, got) (add_entry-Registered alloc _ s (suc s.blocks) h)
      | inr failed ↦ rw (suc_nonzero fn, failed) (unchanged refl refl)
    ]

find_entry-append :
    (es : List RegistryEntry) (entry : RegistryEntry) (func : List ℕ)
    → find_entry (es ++ (entry ∷ [])) func ≡ elim (find_entry es func) [
      | some e ↦ some e
      | none ↦ if same_string entry.name func then some entry else none
    ]
unfolding find_entry
find_entry-append [] entry func = refl
find_entry-append (e ∷ es) entry func = elim (Bool-cases (same_string e.name func)) [
  | inl same ↦ rw same refl
  | inr other ↦ rw other (find_entry-append es entry func)
]

-- On a registry whose array holds its entries, find_handler finds after an export what it found
-- before, for every name, since an export never overrides; if it found nothing, and the export
-- succeeded and was for this name, it finds its entry.
pub find_handler-export_kind :
    (kind : HandlerKind) (alloc : ℕ → Bool) (present : Bool) (func : List ℕ) (userdata fn : ℕ)
    (s : Server)
    → IsServer s
    → (asked : List ℕ)
    → find_handler (export_kind kind alloc present (some func) userdata fn s).1 asked
      ≡ elim (find_handler s asked) [
        | some e ↦ some e
        | none ↦
            if (export_kind kind alloc present (some func) userdata fn s).0
              && same_string (c_string func) asked
            then some (named kind func userdata fn)
            else none
      ]
unfolding find_handler
find_handler-export_kind kind alloc present func userdata fn s h asked =
    by_result (export_kind kind alloc present (some func) userdata fn s)
      (export_kind-Registered kind alloc present func userdata fn s h)
  where
    by_result :
        (p : Bool × Server)
        → Registered (named kind func userdata fn) s p
        → find_entry p.1.entries asked ≡ elim (find_entry s.entries asked) [
          | some e ↦ some e
          | none ↦
              if p.0 && same_string (c_string func) asked
              then some (named kind func userdata fn)
              else none
        ]
    by_result (false, s') (unchanged e c) = rw e (elim (Option-cases (find_entry s.entries asked)) [
      | inl missing ↦ rw missing refl
      | inr found ↦ rw found.1 refl
    ])
    by_result (true, s') (added e _) =
        ap (λ es. find_entry es asked) e ∙ find_entry-append s.entries _ asked
