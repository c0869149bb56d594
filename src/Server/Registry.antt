-- ===== src/Server/Registry.antt =====
-- The registry of c/src/server.c. A function pointer and the userdata are numbers, zero for null.
-- The thread's error buffer goes along with the server, and so does the number of the allocations
-- that the server holds: itself, the array of entries and their names.
pub mod Laws
use callwire.Base.{
  ℕ, zero, suc, ◌+◌, ◌-◌, ◌*◌, Bool, true, false, ◌&&◌, not, List, [], ◌∷◌, ◌++◌, Option, none,
  some, ◌==◌, if◌then◌else◌, length, text, c_string, same_string,
}
use callwire.Errors.{error_set}

pub data HandlerKind : Type 0 where
  unary unary_ctx stream_ctx client_stream_ctx bidi_ctx : HandlerKind

pub record RegistryEntry : Type 0 where
  pub name : List ℕ
  pub kind : HandlerKind
  pub fn : ℕ
  pub userdata : ℕ

pub record Server : Type 0 where
  pub running : Bool
  pub entries : List RegistryEntry
  pub entry_cap : ℕ
  pub error : List ℕ
  pub blocks : ℕ

-- callwire_error_set, and the return value -1.
unfoldable pub refused : List ℕ → Server → Bool × Server
refused message s = (false, record s { error = error_set message })

-- sizeof(registry_entry_t)
abbrev pub entry_size : ℕ
entry_size = 32

unfoldable pub new_cap : ℕ → ℕ
new_cap cap = if cap == 0 then 8 else cap * 2

-- The copy of the name is allocated. realloc allocates the array or replaces it; where it fails, the
-- name is freed. The entries after the last one that is used are not modelled.
unfoldable pub add_entry : (ℕ → Bool) → RegistryEntry → Server → Bool × Server
unfolding new_cap refused
add_entry alloc entry s =
    let cap = new_cap s.entry_cap in
    let added = s.entries ++ (entry ∷ []) in
    if length s.entries == s.entry_cap
    then (if alloc (cap * entry_size)
        then (
          true,
          record s {
            entries = added;
            entry_cap = cap;
            blocks = if s.entry_cap == 0 then suc s.blocks else s.blocks;
          },
        )
        else refused (text "out of memory") (record s { blocks = s.blocks - 1 }))
    else (true, record s { entries = added })

-- `present` says that the server pointer is not null; `true` is the return value 0.
unfoldable pub register_entry :
    (ℕ → Bool) → Bool → Option (List ℕ) → RegistryEntry → Server → Bool × Server
unfolding add_entry refused
register_entry alloc present none entry s = refused (text "invalid argument") s
register_entry alloc present (some func) entry s =
    if not present
    then refused (text "invalid argument") s
    else if not (alloc (length (c_string func) + 1))
    then refused (text "out of memory") s
    else add_entry alloc (record entry { name = c_string func })
        (record s { blocks = suc s.blocks })

-- callwire_server_export and its four variants, which differ in the kind and in whether there is a
-- userdata.
unfoldable pub export_kind :
    HandlerKind → (ℕ → Bool) → Bool → Option (List ℕ) → ℕ → ℕ → Server → Bool × Server
unfolding register_entry refused
export_kind kind alloc present func userdata fn s =
    if fn == 0
    then refused (text "invalid argument") s
    else register_entry alloc present func
        (record { name = []; kind = kind; fn = fn; userdata = userdata }) s

unfoldable pub export : (ℕ → Bool) → Bool → Option (List ℕ) → ℕ → Server → Bool × Server
unfolding export_kind
export alloc present func fn s = export_kind unary alloc present func 0 fn s

unfoldable pub export_ctx : (ℕ → Bool) → Bool → Option (List ℕ) → ℕ → ℕ → Server → Bool × Server
unfolding export_kind
export_ctx = export_kind unary_ctx

unfoldable pub export_stream_ctx :
    (ℕ → Bool) → Bool → Option (List ℕ) → ℕ → ℕ → Server → Bool × Server
unfolding export_kind
export_stream_ctx = export_kind stream_ctx

unfoldable pub export_client_stream_ctx :
    (ℕ → Bool) → Bool → Option (List ℕ) → ℕ → ℕ → Server → Bool × Server
unfolding export_kind
export_client_stream_ctx = export_kind client_stream_ctx

unfoldable pub export_bidi_ctx :
    (ℕ → Bool) → Bool → Option (List ℕ) → ℕ → ℕ → Server → Bool × Server
unfolding export_kind
export_bidi_ctx = export_kind bidi_ctx

-- The loop of find_handler.
unfoldable pub find_entry : List RegistryEntry → List ℕ → Option RegistryEntry
find_entry [] func = none
find_entry (e ∷ es) func = if same_string e.name func then some e else find_entry es func

unfoldable pub find_handler : Server → List ℕ → Option RegistryEntry
unfolding find_entry
find_handler s func = find_entry s.entries func
