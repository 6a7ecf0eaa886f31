-- ===== src/Corecompat/Commands/Lines.antt =====
-- internal/corecompat/contract.go and main.go: the boundaries of a line, prepared and verified one
-- after the other. The decoders of `encoding/json` and the digest of a content are parameters.
pub mod Restored
use Prim.Native.String.{String}
use commerce.Prelude.{
  ℕ, Bool, true, false, not, ◌&&◌, ◌||◌, List, [], ◌∷◌, ◌++◌, Option, none, some, Text, text,
  is_empty, Dict, text_eq, ◌==◌, if◌then◌else◌,
}
use commerce.Go.{
  Error, Sentinel, is_error, errors_new, errorf, end, wrapped, text_arg, quoted, Result, ok, err,
  fail_if, fail_with,
}
use commerce.Go.Trees.{child}
use commerce.Go.Actions.{
  Host, World, Action, lift, reading, changing, ◌>>=◌, ◌>>◌, wrapping, for_each, cleaning,
  deferring, create_temp, remove_quietly,
}
use commerce.Corecompat.{
  Contract, Boundary, compatibility_file, spice_tool_path, validate_contract, boundaries,
}
use commerce.Corecompat.Modules.{ModuleMetadata, validate_module_contract}
use commerce.Corecompat.Environments.{
  offline_environment, offline_modfile_environment, vendored_offline_environment,
  online_environment, maps_equal,
}
use commerce.Corecompat.Snapshots.{repository_state, copy_application}
use commerce.Corecompat.Commands.{
  Selected, selected_of, sumfile_of, go_command, capture_go, write_open, remove_modfile,
  alternate_modfile, verify_selected_module, verify_tool_modules, list_packages,
}

-- What a module query resolves to.
pub record Resolved : Type 0 where
  pub path : Text
  pub version : Text

-- The decoders: of a contract, with how the decoding of a second value after it ends, of the module
-- file's metadata, and of a resolved module.
pub record Decoders : Type 0 where
  pub contract : Text → Result Contract
  pub trailing : Text → Option Error
  pub metadata : Text → Result ModuleMetadata
  pub resolved : Text → Result Resolved

trailing_result : Option Error → Result (Unit {0})
trailing_result none = err (errorf "%s has trailing JSON values" (text_arg compatibility_file end))
trailing_result (some e) =
    fail_if (not (is_error e Sentinel.eof))
      (errorf "decode trailing %s content: %w" (text_arg compatibility_file (wrapped e end)))

module _ {W : Type 0} (host : Host W) (decoders : Decoders) where
  unfoldable pub read_contract : Text → Action W Contract
  unfolding trailing_result
  read_contract root = do
    content ←
        wrapping (λ e. errorf "read %s: %w" (text_arg compatibility_file (wrapped e end)))
          (reading (λ s. host.read_file s (child root compatibility_file)))
    result ←
        wrapping (λ e. errorf "decode %s: %w" (text_arg compatibility_file (wrapped e end)))
          (lift (decoders.contract content))
    lift (trailing_result (decoders.trailing content))
    lift (validate_contract result)
    lift (ok result)

  unfoldable pub read_module_metadata : Text → Action W ModuleMetadata
  read_module_metadata root = do
    content ←
        wrapping (λ e. errorf "read go.mod metadata: %w" (wrapped e end))
          (capture_go host root (offline_environment host.environ)
            (text "mod" ∷ text "edit" ∷ text "-json" ∷ []))
    wrapping (λ e. errorf "decode go.mod metadata: %w" (wrapped e end))
        (lift (decoders.metadata content))

  unfoldable pub resolve_exact_module : Text → Text → Selected → Action W (Unit {0})
  resolve_exact_module root boundary_name selected = do
    content ←
        wrapping
          (λ e.
            errorf "resolve %s %s version: %w"
              (text_arg boundary_name (text_arg selected.role (wrapped e end))))
          (capture_go host root (online_environment host.environ) (
            text "list"
            ∷ text "-mod=mod"
            ∷ text "-m"
            ∷ text "-json"
            ∷ (selected.path ++ b'@' ∷ selected.version)
            ∷ []))
    resolved ←
        wrapping
          (λ e.
            errorf "decode resolved %s %s version: %w"
              (text_arg boundary_name (text_arg selected.role (wrapped e end))))
          (lift (decoders.resolved content))
    lift (
        fail_if (not (resolved.path == selected.path) || not (resolved.version == selected.version))
          (errorf "%s %s version resolved as %s@%s; require exactly %s@%s" (
            text_arg boundary_name (
              text_arg selected.role (
                text_arg resolved.path (
                  text_arg resolved.version
                    (text_arg selected.path (text_arg selected.version end))))))))

  unfoldable pub prepare_boundary : Text → Contract → Boundary → Action W (Unit {0})
  prepare_boundary root contract boundary = do
    for_each (selected_of contract boundary) (resolve_exact_module root boundary.name)
    modfile ← alternate_modfile host root contract boundary
    deferring (remove_modfile host modfile) (
        wrapping (λ e. errorf "prepare %s Spice graph: %w" (text_arg boundary.name (wrapped e end)))
          (go_command host root (online_environment host.environ)
            (text "mod" ∷ text "download" ∷ (text "-modfile=" ++ modfile) ∷ [])))

module _ {W : Type 0} (host : Host W) where
  -- What applicationMirror does once its directory is made.
  unfoldable pub fill_mirror : Text → Text → Text → Action W Text
  fill_mirror root modfile mirror = do
    copy_application host mirror root
    mod_content ←
        wrapping (λ e. errorf "read alternate modfile: %w" (wrapped e end))
          (reading (λ s. host.read_file s modfile))
    sum_content ←
        wrapping (λ e. errorf "read alternate sumfile: %w" (wrapped e end))
          (reading (λ s. host.read_file s (sumfile_of modfile)))
    reading (λ s.
        fail_with (host.open_root s mirror)
          (λ e. errorf "open compatibility application mirror: %w" (wrapped e end)))
    write_open host mirror (child mirror (text "go.mod")) mod_content
        (λ e. errorf "write mirror go.mod: %w" (wrapped e end))
    write_open host mirror (child mirror (text "go.sum")) sum_content
        (λ e. errorf "write mirror go.sum: %w" (wrapped e end))
    wrapping (λ e. errorf "close compatibility application mirror: %w" (wrapped e end))
        (changing (λ s. host.close_file s mirror))
    wrapping (λ e. errorf "materialize compatibility vendor: %w" (wrapped e end))
        (go_command host mirror (offline_environment host.environ)
          (text "mod" ∷ text "vendor" ∷ []))
    lift (ok mirror)

  unfoldable pub application_mirror : Text → Text → Action W Text
  application_mirror root modfile = do
    mirror ←
        wrapping (λ e. errorf "create compatibility application mirror: %w" (wrapped e end))
          (create_temp host (text "spice-commerce-compat-application-*"))
    cleaning (remove_quietly host mirror) (fill_mirror root modfile mirror)

  abbrev pub mirror_commands : List (List Text)
  mirror_commands =
      (text "verify" ∷ text "." ∷ [])
      ∷ (text "generate" ∷ text "--check" ∷ text "--target" ∷ text "Commerce" ∷ text "." ∷ [])
      ∷ (text "build" ∷ text "--target" ∷ text "Commerce" ∷ text "." ∷ [])
      ∷ []

  -- The commands of the toolchain in the mirror.
  unfoldable pub verify_mirror : Text → Action W (Unit {0})
  verify_mirror mirror = for_each mirror_commands (λ arguments.
      go_command host mirror (vendored_offline_environment host.environ)
        (text "tool" ∷ spice_tool_path ∷ arguments))

  -- What verifyBoundary does with its module file.
  unfoldable pub verify_with : Text → Contract → Boundary → Text → List Text → Action W (Unit {0})
  verify_with root contract boundary modfile environment = do
    for_each (selected_of contract boundary)
        (verify_selected_module host root environment modfile boundary.name)
    verify_tool_modules host root environment modfile contract boundary
    packages ← list_packages host root environment modfile
    go_command host root environment
        (text "vet" ∷ text "-mod=mod" ∷ (text "-modfile=" ++ modfile) ∷ packages)
    go_command host root environment (
        text "test"
        ∷ text "-mod=mod"
        ∷ (text "-modfile=" ++ modfile)
        ∷ text "-race"
        ∷ text "-shuffle=on"
        ∷ text "-count=1"
        ∷ packages)
    mirror ← application_mirror root modfile
    deferring (remove_quietly host mirror) (verify_mirror mirror)

  unfoldable pub verify_boundary : Text → Contract → Boundary → Action W (Unit {0})
  verify_boundary root contract boundary = do
    modfile ← alternate_modfile host root contract boundary
    deferring (remove_modfile host modfile) (
        verify_with root contract boundary modfile
          (offline_modfile_environment host.environ modfile))

abbrev pub modified_error : Error
modified_error = errors_new "compatibility verification modified repository contents"

compared : Dict Text ℕ → Result (Dict Text ℕ) → Option Error
compared before (err e) = some e
compared before (ok after) = if maps_equal before after then none else some modified_error

module _ {W : Type 0} (host : Host W) (sha : Text → ℕ) where
  -- The deferred comparison of the repository with what it was.
  unfoldable pub compare_state : Text → Dict Text ℕ → World W → Option Error × World W
  unfolding compared
  compare_state root before w = (compared before (repository_state sha host root w.state), w)

module _ {W : Type 0} (host : Host W) (decoders : Decoders) (sha : Text → ℕ) where
  unfoldable pub run_boundary : Text → Contract → Boundary → Action W (Unit {0})
  run_boundary root contract boundary = do
    before ← reading (repository_state sha host root)
    deferring (compare_state host sha root before) (
        prepare_boundary host decoders root contract boundary
        >> verify_boundary host root contract boundary)

  unfoldable pub run : Text → Text → Action W (Unit {0})
  run root line = do
    contract ← read_contract host decoders root
    metadata ← read_module_metadata host decoders root
    lift (validate_module_contract contract metadata)
    selected ← lift (boundaries contract line)
    for_each selected (run_boundary root contract)

-- The exit code, by the parsed flags, which are the line and the positional arguments, the version of
-- Go, the search for the root, and the run.
unfoldable pub exits :
    {W : Type 0}
    → Result (Text × List Text)
    → Text
    → Result Text
    → (Text → Text → Action W (Unit {0}))
    → World W
    → ℕ
exits (err e) version root run w = 2
exits (ok (line, positional ∷ more)) version root run w = 2
exits (ok (line, [])) version (err e) run w = 1
exits (ok (line, [])) version (ok root) run w =
    if version == text "go1.26.5" then exit_code (run root line w).0 else 1
  where
    exit_code : Result (Unit {0}) → ℕ
    exit_code (ok _) = 0
    exit_code (err e) = 1
