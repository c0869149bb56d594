-- ===== src/Cobol/Exports.antt =====
-- The server side of cobol/src/cobol_shim.c, and its calls that only pass on to the C library. A
-- context is an allocation with the name of a program; the shim is the flag that cob_init was called
-- and the contexts, by their addresses, which are the userdata of the entries.
use callwire.Base.{
  ℕ, ◌≡◌, ◌≤◌, ◌≢◌, ◌-◌, ◌++◌, length, replicate, get_or, refl, ap, ◌∙◌, Bool, true, false, ◌||◌,
  not, List, [], ◌∷◌, Option, none, some, arith, ◌==◌, if◌then◌else◌, if_true, take, c_string,
  same_string_refl, ℤ,
}
use callwire.Value.{Value, int64, string, Items, no_items, item}
use callwire.Resources.{Resources}
use callwire.Client.{is_some}
use callwire.Client.Lifecycle.{Network, Handle, Connected, client_connect, client_close}
use callwire.Server.Registry.{RegistryEntry, Server, unary_ctx, export_ctx, find_handler}
use callwire.Server.Registry.Laws.{IsServer, named, find_handler-export_kind}
use callwire.Server.Lifecycle.{
  Listening, Listener, Started, server_new, server_close, Round, Served, server_serve,
}
use callwire.Cobol.Text.{trimmed_blanks}
use callwire.Cobol.{padded, text_of, int_of, int2_trampoline, str1_trampoline}

pub record Shim : Type 0 where
  pub initialized : Bool
  pub contexts : List (ℕ × List ℕ)

-- ensure_cob_init
unfoldable pub ensure_cob_init : Shim → Shim
ensure_cob_init shim = record shim { initialized = true }

-- sizeof(ctx->program_name)
abbrev pub name_size : ℕ
name_size = 64

-- What strncpy and the zero at the end leave of a name.
abbrev pub program_name : List ℕ → List ℕ
program_name program = take (name_size - 1) (c_string program)

-- The addresses of the two trampolines.
abbrev pub int2_fn : ℕ
int2_fn = 1

abbrev pub str1_fn : ℕ
str1_fn = 2

abbrev pub Exported : Type 0
Exported = Bool × Shim × Server

-- `context` is what malloc returns for the context.
unfoldable pub export_context :
    ℕ → (ℕ → Bool) → Option ℕ → Option (List ℕ) → List ℕ → Shim → Server → Exported
unfolding export_ctx
export_context fn alloc none func program shim s = (false, shim, s)
export_context fn alloc (some address) func program shim s =
    let p = export_ctx alloc true func address fn s in
    (p.0, record shim { contexts = (address, program_name program) ∷ shim.contexts }, p.1)

-- The two exports, which differ in the trampoline.
unfoldable pub cobol_export :
    ℕ → (ℕ → Bool) → Option ℕ → Bool → Option (List ℕ) → Option (List ℕ) → Shim → Server → Exported
unfolding export_context ensure_cob_init
cobol_export fn alloc context present func none shim s = (false, shim, s)
cobol_export fn alloc context present func (some program) shim s =
    if not present || not (is_some func)
    then (false, shim, s)
    else export_context fn alloc context func program (ensure_cob_init shim) s

unfoldable pub cobol_export_int2 :
    (ℕ → Bool) → Option ℕ → Bool → Option (List ℕ) → Option (List ℕ) → Shim → Server → Exported
unfolding cobol_export
cobol_export_int2 = cobol_export int2_fn

unfoldable pub cobol_export_str1 :
    (ℕ → Bool) → Option ℕ → Bool → Option (List ℕ) → Option (List ℕ) → Shim → Server → Exported
unfolding cobol_export
cobol_export_str1 = cobol_export str1_fn

-- The program of the context at an address.
abbrev pub program_at : List (ℕ × List ℕ) → ℕ → Option (List ℕ)
program_at [] address = none
program_at ((a, program) ∷ more) address =
    if a == address then some program else program_at more address

-- What the server's call of a handler does where the handler is one of the trampolines; `none` is
-- a return value other than 0.
abbrev pub run : Option (List ℕ) → (List ℕ → Option Value) → Option Value
run none trampoline = none
run (some program) trampoline = trampoline program

unfoldable pub cobol_call :
    (List ℕ → ℤ → ℤ → Option ℤ)
    → (List ℕ → List ℕ → Option (List ℕ))
    → Shim
    → RegistryEntry
    → Items
    → Option Value
unfolding int2_trampoline str1_trampoline
cobol_call cob_int2 cob_str1 shim entry args =
    let program = program_at shim.contexts entry.userdata in
    if entry.fn == int2_fn
    then run program (λ name. int2_trampoline cob_int2 name args)
    else run program (λ name. str1_trampoline cob_str1 name args)

unfoldable pub cobol_connect : (ℕ → Bool) → Network → List ℕ → ℤ → Resources → List ℕ → Connected
unfolding client_connect
cobol_connect = client_connect

unfoldable pub cobol_close : Option Handle → Resources → Resources
unfolding client_close
cobol_close none r = r
cobol_close (some client) r = client_close (some client) r

unfoldable pub cobol_server_new : (ℕ → Bool) → Listening → ℤ → Resources → List ℕ → Started
unfolding server_new
cobol_server_new = server_new

unfoldable pub cobol_server_serve : Bool → List Round → List ℕ → Bool × Served × List ℕ
unfolding server_serve
cobol_server_serve = server_serve

unfoldable pub cobol_server_close : Option Listener → Resources → Resources
unfolding server_close
cobol_server_close none r = r
cobol_server_close (some l) r = server_close (some l) r

-- What a call under a name gives after an export.
abbrev pub Calls :
    (List ℕ → ℤ → ℤ → Option ℤ)
    → (List ℕ → List ℕ → Option (List ℕ))
    → List ℕ
    → Exported
    → Items
    → Option Value
    → Type 0
Calls cob_int2 cob_str1 func (done, shim, s) args result =
    (entry : RegistryEntry) × (find_handler s (c_string func) ≡ some entry)
    × (entry.kind ≡ unary_ctx)
    × (cobol_call cob_int2 cob_str1 shim entry args ≡ result)

module _ (cob_int2 : List ℕ → ℤ → ℤ → Option ℤ) (cob_str1 : List ℕ → List ℕ → Option (List ℕ))
    (alloc : ℕ → Bool) (context : Option ℕ) (func program : List ℕ) (shim : Shim) (s : Server)
    (server : IsServer s) (new : find_handler s (c_string func) ≡ none) where
  found_after :
      (fn address : ℕ)
      → (export_ctx alloc true (some func) address fn s).0 ≡ true
      → find_handler (export_ctx alloc true (some func) address fn s).1 (c_string func)
        ≡ some (named unary_ctx func address fn)
  unfolding export_ctx
  found_after fn address done =
      find_handler-export_kind unary_ctx alloc true func address fn s server (c_string func)
      ∙ rw (new, done, same_string_refl (c_string func)) refl

  -- What a successful export leaves.
  exported :
      (fn : ℕ)
      → (cobol_export fn alloc context true (some func) (some program) shim s).0 ≡ true
      → (address : ℕ) × (find_handler
            (cobol_export fn alloc context true (some func) (some program) shim s).2
            (c_string func)
          ≡ some (named unary_ctx func address fn))
        × (program_at
              (cobol_export fn alloc context true (some func) (some program) shim s).1.contexts
              address
            ≡ some (program_name program))
  unfolding cobol_export export_context
  exported fn = with_context context
    where
      with_context :
          (at : Option ℕ)
          → (export_context fn alloc at (some func) program (ensure_cob_init shim) s).0 ≡ true
          → (address : ℕ) × (find_handler
                (export_context fn alloc at (some func) program (ensure_cob_init shim) s).2
                (c_string func)
              ≡ some (named unary_ctx func address fn))
            × (program_at
                  (export_context fn alloc at
                    (some func)
                    program
                    (ensure_cob_init shim)
                    s).1.contexts
                  address
                ≡ some (program_name program))
      with_context none done = cc
      with_context (some address) done =
          (address, found_after fn address done, if_true (address == address) _ _ (ground arith))

  -- On a registry whose array holds its entries, and in which a name leads nowhere, each of the two
  -- exports of a COBOL program under this name succeeds: after the one for two integers, a call
  -- under the name with two integers gives what the program, by its name cut to 63 bytes, gives for
  -- them in this order, or fails where the program fails, and a call without arguments fails; after
  -- the one for a text, a call with a text runs the program, by its name cut to 63 bytes, on the
  -- text in a buffer of 256 bytes, cut or filled up with blanks, and where the program leaves a
  -- text that does not end in a blank, filled up with blanks to 256 bytes, the call gives that
  -- text, and a call without arguments fails.
  pub cobol_export-cobol_call :
      (a b : ℤ) (bs out : List ℕ)
      → (cobol_export_int2 alloc context true (some func) (some program) shim s).0 ≡ true
      → (cobol_export_str1 alloc context true (some func) (some program) shim s).0 ≡ true
      → length out ≤ 256
      → get_or out (length out - 1) 0 ≢ 32
      → cob_str1 (take 63 (c_string program)) (take 256 bs ++ replicate (256 - length bs) 32)
        ≡ some (out ++ replicate (256 - length out) 32)
      → Calls cob_int2 cob_str1 func
          (cobol_export_int2 alloc context true (some func) (some program) shim s)
          (item (int64 a) (item (int64 b) no_items))
          (elim (cob_int2 (take 63 (c_string program)) a b) [
            | none ↦ none
            | some n ↦ some (int64 n)
          ])
        × Calls cob_int2 cob_str1 func
            (cobol_export_int2 alloc context true (some func) (some program) shim s)
            no_items
            none
        × Calls cob_int2 cob_str1 func
            (cobol_export_str1 alloc context true (some func) (some program) shim s)
            (item (string bs) no_items)
            (some (string out))
        × Calls cob_int2 cob_str1 func
            (cobol_export_str1 alloc context true (some func) (some program) shim s)
            no_items
            none
  unfolding cobol_export_int2 cobol_export_str1 cobol_call int2_trampoline str1_trampoline padded
  cobol_export-cobol_call a b bs out int2_done str1_done fits last runs =
      let (address, found, program_found) = exported int2_fn int2_done in
      let (address', found', program_found') = exported str1_fn str1_done in
      (
        (
          named unary_ctx func address int2_fn,
          found,
          refl,
          ap (λ o. run o (λ name. int_of (cob_int2 name a b))) program_found
              ∙ int_of-elim (cob_int2 (program_name program) a b),
        ),
        (
          named unary_ctx func address int2_fn,
          found,
          refl,
          ap (λ o. run o (λ name. none)) program_found,
        ),
        (
          named unary_ctx func address' str1_fn,
          found',
          refl,
          ap (λ o. run o (λ name. text_of (cob_str1 name (padded bs)))) program_found'
              ∙ ap text_of runs
              ∙ ap (λ z. some (string z)) (trimmed_blanks out fits last),
        ),
        (
          named unary_ctx func address' str1_fn,
          found',
          refl,
          ap (λ o. run o (λ name. none)) program_found',
        ),
      )
    where
      int_of-elim : (o : Option ℤ) → int_of o ≡ elim o [ none ↦ none | some n ↦ some (int64 n) ]
      int_of-elim none = refl
      int_of-elim (some n) = refl
