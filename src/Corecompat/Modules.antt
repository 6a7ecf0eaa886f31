-- ===== src/Corecompat/Modules.antt =====
-- internal/corecompat/contract.go: the check of the module file against the contract, and the packages
-- that are checked.
use commerce.Prelude.{
  Bool, true, false, not, ◌&&◌, ◌||◌, List, [], ◌∷◌, ◌++◌, Text, text, is_empty, fields, text_eq,
  list_eq, ◌==◌, if◌then◌else◌,
}
use commerce.Go.{errors_new, errorf, end, text_arg, Result, ok, err, ◌>>◌, fail_if}
use commerce.Corecompat.{ModuleCompatibility, Contract, repository_module, sort, shown_list}

-- What `go mod edit -json` tells of the module file.
pub record Requirement : Type 0 where
  pub path : Text
  pub version : Text
  pub indirect : Bool

pub record ModuleMetadata : Type 0 where
  pub require : List Requirement
  pub tool : List Text

unfoldable pub requirement_version : List Requirement → Text → Bool → Text
requirement_version [] name direct = []
requirement_version (r ∷ rs) name direct =
    if (r.path == name) && (not direct || not r.indirect)
    then r.version
    else requirement_version rs name direct

-- One turn of the loop over the two lines.
unfoldable pub validate_line :
    ModuleMetadata → Text → ModuleCompatibility → Bool → Result (Unit {0})
validate_line metadata name line direct =
    let minimum = requirement_version metadata.require line.path direct in
    fail_if (is_empty minimum) (
      if direct
      then errorf "go.mod must directly require %s at an exact version" (text_arg line.path end)
      else errorf "go.mod must require %s at an exact version" (text_arg line.path end))
    >> fail_if (not (minimum == line.minimum)) (
        errorf "go.mod directly requires %s at %s; compatibility %s minimum is %s"
          (text_arg line.path (text_arg minimum (text_arg name (text_arg line.minimum end)))))

unfoldable pub validate_module_contract : Contract → ModuleMetadata → Result (Unit {0})
validate_module_contract c metadata = do
  validate_line metadata (text "core") c.core true
  validate_line metadata (text "toolchain") c.toolchain.line false
  fail_if (not (sort metadata.tool == c.toolchain.tools)) (
      errorf "go.mod tools are %v; compatibility tools are %v"
        (text_arg (shown_list (sort metadata.tool)) (text_arg (shown_list c.toolchain.tools) end)))

-- The packages of `go list` that are checked: all but the two of the tooling, sorted.
abbrev pub is_tooling : Text → Bool
is_tooling candidate =
    (candidate == (repository_module ++ text "/internal/corecompat"))
    || (candidate == (repository_module ++ text "/internal/qualitygate"))

abbrev pub without_tooling : List Text → List Text
without_tooling [] = []
without_tooling (p ∷ ps) = if is_tooling p then without_tooling ps else p ∷ without_tooling ps

unfoldable pub nonempty_packages : List Text → Result (List Text)
nonempty_packages [] = err (errors_new "compatibility graph contains no Commerce product packages")
nonempty_packages (p ∷ ps) = ok (p ∷ ps)

unfoldable pub product_packages : Text → Result (List Text)
unfolding nonempty_packages
product_packages content = nonempty_packages (sort (without_tooling (fields content)))
