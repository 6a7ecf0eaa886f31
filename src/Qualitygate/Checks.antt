-- ===== src/Qualitygate/Checks.antt =====
-- internal/qualitygate/main.go: the checks, as calls of other programs and reads of files. The digest
-- of a content and the numbers of `strconv.ParseFloat` are parameters.
pub mod Isolation
pub mod Temporaries
use Prim.Native.String.{String}
use commerce.Prelude.{
  pos, ℕ, Bool, true, false, not, List, [], ◌∷◌, ◌++◌, map, Option, none, some, Text, text,
  is_empty, trim_space, fields, split_at, join, Dict, nat_beq, if◌then◌else◌,
}
use commerce.Go.{
  Error, errors_new, errorf, end, wrapped, text_arg, quoted, Result, ok, err, fail_if,
}
use commerce.Go as Go
use commerce.Go.Trees.{child}
use commerce.Go.Actions.{
  Host, World, Action, lift, reading, changing, ◌>>=◌, ◌>>◌, wrapping, for_each, deferring,
  create_temp, remove, remove_quietly,
}
use commerce.Corecompat.Environments.{before_key}
use commerce.Qualitygate.Subprocesses.{
  module_path, command, capture, tool_path, Batched, ended, panicked, unfinished, batches,
}
use commerce.Qualitygate.Files.{check_identity, go_files, tree_digests, equal_digests}

abbrev pub spice_tool : Text
spice_tool = text "github.com/spice-framework/toolchain/cmd/spice"

abbrev pub style_tool : Text
style_tool = text "github.com/spice-framework/toolchain/cmd/spicestyle"

abbrev pub vendored : Dict Text Text
vendored = (text "GOFLAGS", text "-mod=vendor") ∷ []

abbrev pub spice_commands : List (List Text)
spice_commands =
    (text "verify" ∷ text "." ∷ [])
    ∷ (text "generate" ∷ text "--check" ∷ text "--target" ∷ text "Commerce" ∷ text "." ∷ [])
    ∷ (text "build" ∷ text "--target" ∷ text "Commerce" ∷ text "." ∷ [])
    ∷ (text "run" ∷ text "--target" ∷ text "Commerce" ∷ text "." ∷ text "--" ∷ text "-check" ∷ [])
    ∷ []

abbrev pub packages : List Text
packages =
    text "inventory"
    ∷ text "notifications"
    ∷ text "orders"
    ∷ text "payments"
    ∷ text "platform"
    ∷ text "storage"
    ∷ []

-- The batches of a loop that has ended, as every loop of a positive size has.
abbrev pub groups : Batched → List (List Text)
groups (ended all) = all
groups panicked = []
groups unfinished = []

-- Sixty-four files at a time.
abbrev pub file_groups : List Text → List (List Text)
file_groups files = groups (batches files (pos 64))

-- The percentage that a field shows, without its sign.
abbrev pub percent_value : Text → Option Text
percent_value [] = none
percent_value (c ∷ []) = if nat_beq c b'%' then some [] else none
percent_value (c ∷ d ∷ s) = before_key c (percent_value (d ∷ s))

abbrev pub last_of {ℓ} : {A : Type ℓ} → List A → Option A
last_of [] = none
last_of (a ∷ []) = some a
last_of (a ∷ b ∷ l) = last_of (b ∷ l)

-- The last field of the last line that has one.
abbrev pub last_field : List Text → Option Text
last_field lines = total (last_of lines)
  where
    total : Option Text → Option Text
    total none = none
    total (some line) = last_of (fields line)

abbrev pub first_line : List Text → Text
first_line [] = []
first_line (line ∷ lines) = line

module _ {F : Type 0} (parse_float : Text → Result F) where
  parsed : Option Text → Result F
  parsed none = err (errors_new "coverage report has no total percentage")
  parsed (some value) =
      Go.map_err (λ e. errorf "parse coverage percentage %q: %w" (quoted value (wrapped e end)))
        (parse_float value)

  percentage_of : Option Text → Result F
  unfolding parsed
  percentage_of none = err (errors_new "coverage report has no total percentage")
  percentage_of (some field) = parsed (percent_value field)

  unfoldable pub parse_total_coverage : Text → Result F
  unfolding percentage_of
  parse_total_coverage report =
      let lines = split_at b'\n' (trim_space report) in
      if is_empty (trim_space (first_line lines))
      then err (errors_new "coverage report is empty")
      else percentage_of (last_field lines)

module _ {W : Type 0} (host : Host W) where
  unfoldable pub identity : Text → Action W (Unit {0})
  identity root = reading (λ s.
      check_identity (host.open_root s root) (host.read_file s (child root (text "go.mod")))
        (host.read_tree s root))

  reported : List Text → Action W (Unit {0})
  reported changed = lift (
      fail_if (not (is_empty changed))
        (errorf "files require formatting: %s" (text_arg (join (text ", ") changed) end)))

  -- The loop over the batches, with the files that need a change so far.
  unfoldable pub check_batches : Text → Text → List (List Text) → List Text → Action W (Unit {0})
  unfolding reported
  check_batches root executable [] changed = reported changed
  check_batches root executable (batch ∷ rest) changed = do
    stdout ← capture host root [] executable (text "-l" ∷ batch)
    check_batches root executable rest (changed ++ fields stdout)

  unfoldable pub check_formatted : Text → Text → List Text → Action W (Unit {0})
  check_formatted root executable files = check_batches root executable (file_groups files) []

  unfoldable pub file_batches : Text → Text → Text → List Text → Action W (Unit {0})
  file_batches root executable option files =
      for_each (file_groups files) (λ batch. command host root [] executable (option ∷ batch))

  unfoldable pub format : Text → Bool → Action W (Unit {0})
  format root write = do
    files ← reading (λ s. go_files root (host.read_tree s root))
    goimports ← tool_path host root (text "goimports")
    gofumpt ← tool_path host root (text "gofumpt")
    if write
        then file_batches root goimports (text "-w") files
          >> file_batches root gofumpt (text "-w") files
        else wrapping (λ e. errorf "goimports: %w" (wrapped e end))
            (check_formatted root goimports files)
          >> wrapping (λ e. errorf "gofumpt: %w" (wrapped e end))
              (check_formatted root gofumpt files)

  unfoldable pub style : Text → Action W (Unit {0})
  style root =
      command host root vendored (text "go")
        (text "tool" ∷ style_tool ∷ text "--config=.spice/style.json" ∷ text "./..." ∷ [])

  unfoldable pub lint : Text → Action W (Unit {0})
  lint root = do
    golangci ← tool_path host root (text "golangci-lint")
    command host root [] golangci (text "run" ∷ text "--timeout=10m" ∷ [])
    nilaway ← tool_path host root (text "nilaway")
    command host root [] nilaway ((text "-include-pkgs=" ++ module_path) ∷ text "./..." ∷ [])

  unfoldable pub security : Text → Action W (Unit {0})
  security root = do
    gosec ← tool_path host root (text "gosec")
    command host root [] gosec (text "-quiet" ∷ text "-exclude-generated" ∷ text "./..." ∷ [])
    govulncheck ← tool_path host root (text "govulncheck")
    command host root [] govulncheck (text "./..." ∷ [])

  unfoldable pub tests : Text → Action W (Unit {0})
  tests root = do
    command host root [] (text "go")
        (text "test" ∷ text "-shuffle=on" ∷ text "-count=1" ∷ text "./..." ∷ [])
    command host root [] (text "go")
        (text "test" ∷ text "-race" ∷ text "-count=1" ∷ text "./..." ∷ [])

  unfoldable pub offline : Text → Action W (Unit {0})
  offline root = do
    command host root vendored (text "go") (text "test" ∷ text "-count=1" ∷ text "./..." ∷ [])
    command host root vendored (text "go") (text "build" ∷ text "-trimpath" ∷ text "./..." ∷ [])

  unfoldable pub spice_application : Text → Action W (Unit {0})
  spice_application root =
      for_each spice_commands
        (λ arguments. command host root vendored (text "go") (text "tool" ∷ spice_tool ∷ arguments))

-- The comparison of the vendored tree with a fresh one.
module _ {W : Type 0} (host : Host W) (sha : Text → ℕ) where
  unfoldable pub digests : Text → Action W (Dict Text ℕ)
  digests root =
      reading (λ s. tree_digests sha root (host.open_root s root) (host.read_tree s root))

  unfoldable pub compare_vendor : Text → Text → Action W (Unit {0})
  compare_vendor root candidate = do
    command host root [] (text "go") (text "mod" ∷ text "vendor" ∷ text "-o" ∷ candidate ∷ [])
    current ← digests (child root (text "vendor"))
    expected ← digests candidate
    lift (
        fail_if (not (equal_digests current expected))
          (errors_new "vendor differs from a fresh go mod vendor result"))

  unfoldable pub check_module : Text → Action W (Unit {0})
  check_module root = do
    command host root [] (text "go") (text "mod" ∷ text "tidy" ∷ text "-diff" ∷ [])
    command host root [] (text "go")
        (text "-C" ∷ text "tools" ∷ text "mod" ∷ text "tidy" ∷ text "-diff" ∷ [])
    temporary ←
        wrapping (λ e. errorf "create vendor comparison directory: %w" (wrapped e end))
          (create_temp host (text "spice-commerce-vendor-"))
    deferring (remove_quietly host temporary)
        (compare_vendor root (child temporary (text "vendor")))

-- The floating point numbers of the coverage: how they are read, whether one is below the minimum of
-- 85, and how `%.1f` shows them.
module _ {W F : Type 0} (host : Host W) (parse_float : Text → Result F) (below_minimum : F → Bool)
    (shown : F → Text) where
  unfoldable pub measure : Text → Text → Action W (Unit {0})
  measure root profile = do
    command host root [] (text "go") (
        text "test"
        ∷ text "-covermode=atomic"
        ∷ (text "-coverpkg=" ++ join (text ",") (map (λ name. module_path ++ b'/' ∷ name) packages))
        ∷ (text "-coverprofile=" ++ profile)
        ∷ map (λ name. text "./" ++ name) packages)
    stdout ←
        capture host root [] (text "go")
          (text "tool" ∷ text "cover" ∷ (text "-func=" ++ profile) ∷ [])
    percentage ← lift (parse_total_coverage parse_float stdout)
    lift (
        fail_if (below_minimum percentage) (
          errorf "business coverage %.1f%% is below %.1f%%"
            (text_arg (shown percentage) (text_arg (text "85.0") end))))

  -- The removal of the profile is deferred after its file is closed.
  unfoldable pub coverage : Text → Action W (Unit {0})
  coverage root = do
    profile ←
        wrapping (λ e. errorf "create coverage profile: %w" (wrapped e end))
          (create_temp host (text "spice-commerce-coverage-*.out"))
    wrapping (λ e. errorf "close coverage profile: %w" (wrapped e end))
        (changing (λ s. host.close_file s profile))
    deferring (remove host profile) (measure root profile)
