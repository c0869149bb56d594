-- ===== src/Cobol/Tests.antt =====
-- Runs of cobol/src/cobol_shim.c on small inputs.
use callwire.Base.{
  ℕ, ◌≡◌, refl, Bool, true, false, List, [], ◌++◌, replicate, pos, none, Option, some, inl, arith,
  text, c_string, ℤ,
}
use callwire.Value.{int64, string, no_items, item}
use callwire.Cobol.{str1_trampoline}
use callwire.Server.Registry.{
  Server, find_handler, find_entry, export_ctx, export_kind, register_entry, add_entry, new_cap,
}
use callwire.Cobol.Exports.{
  Shim, Calls, cobol_export_int2, cobol_export_str1, cobol_export, export_context, ensure_cob_init,
  cobol_export-cobol_call,
}
use callwire.Cobol.Text.{str1_trampoline-padded}

-- A program that copies its input to its output.
abbrev copy : List ℕ → List ℕ → Option (List ℕ)
copy program name = some name

str1_trampoline-padded_example :
    str1_trampoline copy (text "COPY-NAME") (item (string (text "two words")) no_items)
    ≡ some (string (text "two words"))
str1_trampoline-padded_example =
    str1_trampoline-padded copy (text "COPY-NAME") (text "two words") (omega arith) (ground arith)
      refl

abbrev always : ℕ → Bool
always n = true

abbrev server : Server
server = record { running = true; entries = []; entry_cap = 0; error = []; blocks = 1 }

abbrev shim : Shim
shim = record { initialized = false; contexts = [] }

abbrev add : List ℕ → ℤ → ℤ → Option ℤ
add program a b = some a

-- A program whose output is `done`.
abbrev says : List ℕ → List ℕ → Option (List ℕ)
says program name = some (text "done" ++ replicate 252 32)

cobol_export-cobol_call_example :
    Calls add says
      (text "add")
      (cobol_export_int2 always
        (some 77)
        true
        (some (text "add"))
        (some (text "ADD-HANDLER"))
        shim
        server)
      (item (int64 (pos 2)) (item (int64 (pos 3)) no_items))
      (some (int64 (pos 2)))
    × Calls add says
        (text "add")
        (cobol_export_int2 always
          (some 77)
          true
          (some (text "add"))
          (some (text "ADD-HANDLER"))
          shim
          server)
        no_items
        none
    × Calls add says
        (text "add")
        (cobol_export_str1 always
          (some 77)
          true
          (some (text "add"))
          (some (text "ADD-HANDLER"))
          shim
          server)
        (item (string (text "two words")) no_items)
        (some (string (text "done")))
    × Calls add says
        (text "add")
        (cobol_export_str1 always
          (some 77)
          true
          (some (text "add"))
          (some (text "ADD-HANDLER"))
          shim
          server)
        no_items
        none
unfolding c_string find_handler find_entry cobol_export cobol_export_int2 cobol_export_str1
    export_context ensure_cob_init export_ctx export_kind register_entry add_entry new_cap
cobol_export-cobol_call_example =
    cobol_export-cobol_call add says always (some 77) (text "add") (text "ADD-HANDLER") shim server
      (omega arith, inl refl) refl (pos 2) (pos 3) (text "two words") (text "done") refl refl
      (omega arith) (ground arith) refl
