-- ===== src/Tests/Gates.antt =====
-- The compatibility contract of a repository whose two lines have one version each.
use commerce.Prelude.{◌≡◌, refl, ◌↔◌, pos, true, false, to_upper, lookup, [], ◌∷◌, text}
use commerce.Go.{ok}
use commerce.Corecompat.{
  Contract, validate_contract, required_tools, core_module_path, toolchain_module_path,
}
use commerce.Corecompat.Modules.{ModuleMetadata}
use commerce.Corecompat.Environments.{environment, offline_environment, maps_equal}
use commerce.Corecompat.Contracts.{IsContract, validate_contract_iff}
use commerce.Corecompat.Requirements.{has}

abbrev contract : Contract
contract = record {
  schema = pos 2;
  core = record { path = core_module_path; minimum = text "v0.9.0"; current = text "v0.9.1" };
  toolchain = record {
    line = record {
      path = toolchain_module_path;
      minimum = text "v0.9.0";
      current = text "v0.9.0";
    };
    tools = required_tools;
  };
}

validate_contract_iff_example : (validate_contract contract ≡ ok tt) ↔ IsContract contract
validate_contract_iff_example = validate_contract_iff contract

abbrev metadata : ModuleMetadata
metadata = record {
  require =
      record { path = toolchain_module_path; version = text "v0.9.0"; indirect = true }
      ∷ record { path = core_module_path; version = text "v0.9.0"; indirect = false }
      ∷ [];
  tool = required_tools;
}

-- The lower-case entry for a key that is overridden is dropped.
override_test :
    has (text "goflags=-race") (offline_environment (text "HOME=/root" ∷ text "goflags=-race" ∷ []))
    ≡ false
unfolding offline_environment environment to_upper lookup
override_test = refl

maps_equal_test :
    maps_equal
      ((text "go.mod", 7) ∷ (text "go.sum", 9) ∷ [])
      ((text "go.sum", 9) ∷ (text "go.mod", 7) ∷ [])
    ≡ true
unfolding maps_equal lookup
maps_equal_test = refl
