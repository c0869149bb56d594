-- ===== src/Cli.antt =====
-- c/src/cli.c: the command that writes callwire.toml. `stat` says what stat() finds as st_mode of a
-- path, and `writable` whether the file can be opened; a file or a stream is the bytes written to it.

use callwire.Base.{
  ℕ, ◌/◌, ◌%◌, ◌^◌, ◌≡◌, sym, ap, ◌∙◌, Bool, true, false, not, List, [], ◌∷◌, ◌++◌, append-nil,
  append_assoc, Option, none, some, ◌==◌, if◌then◌else◌, Bool-cases, inl, inr, text, same_string,
}

abbrev pub Stat : Type 0
Stat = List ℕ → Option ℕ

-- `st_mode & S_IFDIR`, the bit 0040000.
abbrev pub is_dir : Option ℕ → Bool
is_dir none = false
is_dir (some mode) = (mode / 2 ^ 14) % 2 == 1

unfoldable pub dir_exists : Stat → List ℕ → Bool
dir_exists stat path = is_dir (stat path)

-- What is printed for a worker.
abbrev pub section : List ℕ → List ℕ → List ℕ → List ℕ
section dir dev_cmd prod_cmd =
    text "[services."
    ++ (dir
        ++ (text "-worker]\n"
            ++ (text "dev_cmd = \""
                ++ (dev_cmd
                    ++ (text "\"\n"
                        ++ (text "prod_cmd = \"" ++ (prod_cmd ++ (text "\"\n" ++ text "\n"))))))))

unfoldable pub scan_for_worker : Stat → List ℕ → List ℕ → List ℕ → List ℕ → List ℕ
unfolding dir_exists
scan_for_worker stat dir dev_cmd prod_cmd out =
    if not (dir_exists stat dir) then out else out ++ section dir dev_cmd prod_cmd

abbrev pub project : List ℕ
project =
    text "[project]\n"
    ++ (text "name = \"callwire-project\"\n" ++ (text "version = \"1.0.0\"\n" ++ text "\n"))

-- What the command leaves: the exit status, callwire.toml, and the two output streams.
pub record Exit : Type 0 where
  pub code : ℕ
  pub file : Option (List ℕ)
  pub out : List ℕ
  pub err : List ℕ

unfoldable pub generate_callwire_toml : Stat → Bool → Exit
unfolding scan_for_worker
generate_callwire_toml stat writable =
    let go =
      scan_for_worker stat (text "go") (text "cd go/callwire && go run server.go")
        (text "cd go/callwire && go run server.go") project in
    let python =
      scan_for_worker stat (text "python") (text "cd python && python3 -m callwire.server")
        (text "cd python && python3 -m callwire.server") go in
    let rust =
      scan_for_worker stat (text "rust") (text "cd rust && cargo run --quiet --release")
        (text "cd rust && cargo run --quiet --release") python in
    let ts =
      scan_for_worker stat (text "ts") (text "cd ts && npx tsx src/server.ts")
        (text "cd ts && npx tsx src/server.ts") rust in
    let java =
      scan_for_worker stat (text "java") (text "cd java && mvn exec:java@server")
        (text "cd java && mvn exec:java@server") ts in
    let c =
      scan_for_worker stat (text "c") (text "cd c/build && ./server")
        (text "cd c/build && ./server") java in
    if not writable
    then record {
      code = 1;
      file = none;
      out = [];
      err = text "callwire: failed to write callwire.toml\n";
    }
    else record { code = 0; file = some c; out = text "Generated callwire.toml\n"; err = [] }

abbrev pub usage : Exit
usage = record { code = 1; file = none; out = []; err = text "Usage: callwire [init]\n" }

-- argv, with the name of the program.
unfoldable pub main : Stat → Bool → List (List ℕ) → Exit
unfolding generate_callwire_toml same_string
main stat writable [] = usage
main stat writable (program ∷ []) = generate_callwire_toml stat writable
main stat writable (program ∷ arg ∷ []) =
    if same_string arg (text "init") then generate_callwire_toml stat writable else usage
main stat writable (program ∷ arg ∷ more ∷ args) = usage

-- The workers that the command knows, each by its directory and its command.
abbrev pub workers : List (List ℕ × List ℕ)
workers =
    (text "go", text "cd go/callwire && go run server.go")
    ∷ (text "python", text "cd python && python3 -m callwire.server")
    ∷ (text "rust", text "cd rust && cargo run --quiet --release")
    ∷ (text "ts", text "cd ts && npx tsx src/server.ts")
    ∷ (text "java", text "cd java && mvn exec:java@server")
    ∷ (text "c", text "cd c/build && ./server")
    ∷ []

-- The sections of those whose directory exists.
abbrev pub sections : Stat → List (List ℕ × List ℕ) → List ℕ
sections stat [] = []
sections stat ((dir, cmd) ∷ ws) =
    let rest = sections stat ws in if dir_exists stat dir then section dir cmd cmd ++ rest else rest

abbrev scans : Stat → List (List ℕ × List ℕ) → List ℕ → List ℕ
scans stat [] out = out
scans stat ((dir, cmd) ∷ ws) out = scans stat ws (scan_for_worker stat dir cmd cmd out)

scans-sections :
    (stat : Stat) (ws : List (List ℕ × List ℕ)) (out : List ℕ)
    → scans stat ws out ≡ out ++ sections stat ws
unfolding scan_for_worker
scans-sections stat [] out = sym (append-nil out)
scans-sections stat ((dir, cmd) ∷ ws) out = elim (Bool-cases (dir_exists stat dir)) [
  | inl there ↦ rw there (
      scans-sections stat ws (out ++ section dir cmd cmd)
      ∙ append_assoc out (section dir cmd cmd) (sections stat ws))
  | inr missing ↦ rw missing (scans-sections stat ws out)
]

-- Where callwire.toml can be written, the command without arguments or with `init` writes the project
-- and a section for each worker, in their order, whose directory exists, and exits with 0.
pub main-workers :
    (stat : Stat) (program : List ℕ)
    → let done : Exit = record {
      code = 0;
      file = some (project ++ sections stat workers);
      out = text "Generated callwire.toml\n";
      err = [];
    } in
      (main stat true (program ∷ []) ≡ done) × (main stat true (program ∷ text "init" ∷ []) ≡ done)
unfolding main generate_callwire_toml same_string
main-workers stat program =
    let written =
      ap
        (λ (f : List ℕ). record {
          code = 0;
          file = some f;
          out = text "Generated callwire.toml\n";
          err = [];
        })
        (scans-sections stat workers project) in
    (written, written)
