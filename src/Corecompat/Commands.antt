-- ===== src/Corecompat/Commands.antt =====
-- internal/corecompat/contract.go: the calls of the go command and the files made for them. The
-- decoders of `encoding/json` are parameters.
pub mod Lines
pub mod Isolation
use Prim.Native.String.{String}
use commerce.Prelude.{
  ℕ, Bool, true, false, not, ◌&&◌, ◌||◌, List, [], ◌∷◌, ◌++◌, Option, none, some, Text, text,
  trim_space, fields, join, Dict, text_eq, list_eq, ◌==◌, if◌then◌else◌,
}
use commerce.Go.{
  Error, errors_new, errorf, end, wrapped, text_arg, quoted, Result, ok, err, fail_if, fail_with,
}
use commerce.Go.Trees.{child}
use commerce.Go.Actions.{
  Command, Answer, Host, World, Action, lift, reading, changing, ◌>>=◌, ◌>>◌, wrapping, for_each,
  cleaning, deferring, execute, create_temp, remove_quietly,
}
use commerce.Corecompat.{Contract, Boundary}
use commerce.Corecompat.Modules.{product_packages}
use commerce.Corecompat.Environments.{
  offline_environment, offline_modfile_environment, online_environment,
}

abbrev pub trim_suffix : Text → Text → Text
trim_suffix [] p = []
trim_suffix (c ∷ s) p = if (c ∷ s) == p then [] else c ∷ trim_suffix s p

-- The checksums' file that goes with a module file.
abbrev pub sumfile_of : Text → Text
sumfile_of modfile = trim_suffix modfile (text ".mod") ++ text ".sum"

-- What goCommand and captureGo return, by how the program ended.
command_result : List Text → Option Error → Result (Unit {0})
command_result arguments none = ok tt
command_result arguments (some e) =
    err (errorf "go %s: %w" (text_arg (join (text " ") arguments) (wrapped e end)))

capture_result : List Text → Answer → Option Error → Result Text
capture_result arguments answer none = ok answer.stdout
capture_result arguments answer (some e) = err (
    errorf "go %s: %w\n%s"
      (text_arg (join (text " ") arguments) (wrapped e (text_arg (trim_space answer.stderr) end))))

-- One of the two modules that a boundary selects.
pub record Selected : Type 0 where
  pub role : Text
  pub path : Text
  pub version : Text

abbrev pub selected_of : Contract → Boundary → List Selected
selected_of contract boundary =
    record { role = text "core"; path = contract.core.path; version = boundary.core_version }
    ∷ record {
      role = text "toolchain";
      path = contract.toolchain.line.path;
      version = boundary.toolchain_version;
    }
    ∷ []

abbrev join_failure : Error → Result (Unit {0}) → Error
join_failure e (ok _) = e
join_failure e (err f) = Error.join_errors e f

module _ {W : Type 0} (host : Host W) where
  unfoldable pub go_command : Text → List Text → List Text → Action W (Unit {0})
  unfolding command_result
  go_command directory environment arguments = do
    answer ← execute host (record {
      directory = directory;
      environment = environment;
      executable = text "go";
      arguments = arguments;
    })
    lift (command_result arguments answer.failure)

  unfoldable pub capture_go : Text → List Text → List Text → Action W Text
  unfolding capture_result
  capture_go directory environment arguments = do
    answer ← execute host (record {
      directory = directory;
      environment = environment;
      executable = text "go";
      arguments = arguments;
    })
    lift (capture_result arguments answer answer.failure)

  -- A write whose failure closes the file, and joins the error of that.
  written : Text → Result (Unit {0}) × World W → Result (Unit {0}) × World W
  written file (ok _, w) = (ok tt, w)
  written file (err e, w) =
      let (r, s) = host.close_file w.state file in (err (join_failure e r), record w { state = s })

  unfoldable pub write_open : Text → Text → Text → (Error → Error) → Action W (Unit {0})
  unfolding written
  write_open file path content f w =
      written file (wrapping f (changing (λ s. host.write_file s path content)) w)

  unfoldable pub remove_modfile : Text → World W → Option Error × World W
  remove_modfile modfile w =
      remove_quietly host (sumfile_of modfile) (remove_quietly host modfile w).1

  -- What alternateModfile does once its file is created.
  unfoldable pub fill_modfile : Text → Contract → Boundary → Text → Text → Text → Action W Text
  fill_modfile root contract boundary product_mod product_sum modfile = do
    write_open modfile modfile product_mod
        (λ e. errorf "write compatibility modfile: %w" (wrapped e end))
    wrapping (λ e. errorf "close compatibility modfile: %w" (wrapped e end))
        (changing (λ s. host.close_file s modfile))
    wrapping (λ e. errorf "write compatibility sumfile: %w" (wrapped e end))
        (changing (λ s. host.write_file s (sumfile_of modfile) product_sum))
    go_command root (offline_environment host.environ) (
        text "mod"
        ∷ text "edit"
        ∷ (text "-modfile=" ++ modfile)
        ∷ (text "-require=" ++ contract.core.path ++ b'@' ∷ boundary.core_version)
        ∷ (text "-require=" ++ contract.toolchain.line.path ++ b'@' ∷ boundary.toolchain_version)
        ∷ [])
    lift (ok modfile)

  unfoldable pub alternate_modfile : Text → Contract → Boundary → Action W Text
  alternate_modfile root contract boundary = do
    product_mod ←
        wrapping (λ e. errorf "read product go.mod: %w" (wrapped e end))
          (reading (λ s. host.read_file s (child root (text "go.mod"))))
    product_sum ←
        wrapping (λ e. errorf "read product go.sum: %w" (wrapped e end))
          (reading (λ s. host.read_file s (child root (text "go.sum"))))
    modfile ←
        wrapping (λ e. errorf "create compatibility modfile: %w" (wrapped e end))
          (create_temp host (text "spice-commerce-compat-*.mod"))
    cleaning (remove_modfile modfile)
        (fill_modfile root contract boundary product_mod product_sum modfile)

  unfoldable pub verify_selected_module :
      Text → List Text → Text → Text → Selected → Action W (Unit {0})
  verify_selected_module root environment modfile boundary_name selected = do
    found ←
        wrapping
          (λ e.
            errorf "resolve %s %s MVS graph: %w"
              (text_arg boundary_name (text_arg selected.role (wrapped e end))))
          (capture_go root environment (
            text "list"
            ∷ text "-mod=mod"
            ∷ (text "-modfile=" ++ modfile)
            ∷ text "-m"
            ∷ text "-f={{.Version}}"
            ∷ selected.path
            ∷ []))
    lift (
        fail_if (not (trim_space found == selected.version)) (
          errorf "%s MVS graph selected %s %q; require exactly %q" (
            text_arg boundary_name
              (text_arg selected.role (quoted (trim_space found) (quoted selected.version end))))))

  unfoldable pub verify_tool_module :
      Text → List Text → Text → Contract → Boundary → Text → Action W (Unit {0})
  verify_tool_module root environment modfile contract boundary tool = do
    content ←
        wrapping (λ e. errorf "resolve tool %s: %w" (text_arg tool (wrapped e end)))
          (capture_go root environment (
            text "list"
            ∷ text "-mod=mod"
            ∷ (text "-modfile=" ++ modfile)
            ∷ text "-f={{.Name}} {{.Module.Path}} {{.Module.Version}}"
            ∷ tool
            ∷ []))
    lift (
        fail_if
          (not (
            fields content
            == text "main" ∷ contract.toolchain.line.path ∷ boundary.toolchain_version ∷ []))
          (errorf "tool %s resolved as %q; require main package from %s@%s" (
            text_arg tool (
              quoted (trim_space content) (
                text_arg contract.toolchain.line.path (text_arg boundary.toolchain_version end))))))

  unfoldable pub verify_tool_modules :
      Text → List Text → Text → Contract → Boundary → Action W (Unit {0})
  verify_tool_modules root environment modfile contract boundary =
      for_each contract.toolchain.tools
        (verify_tool_module root environment modfile contract boundary)

  unfoldable pub list_packages : Text → List Text → Text → Action W (List Text)
  list_packages root environment modfile = do
    content ←
        wrapping (λ e. errorf "list Commerce product packages: %w" (wrapped e end))
          (capture_go root environment (
            text "list"
            ∷ text "-mod=mod"
            ∷ (text "-modfile=" ++ modfile)
            ∷ text "-f={{.ImportPath}}"
            ∷ text "./..."
            ∷ []))
    lift (product_packages content)
