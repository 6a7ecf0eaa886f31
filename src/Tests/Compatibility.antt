-- ===== src/Tests/Compatibility.antt =====
-- The verification of one boundary on a machine whose go command answers as the boundary asks.
use commerce.Prelude.{
  ℕ, suc, pos, ◌≡◌, refl, ap, ◌↔◌, true, List, [], ◌∷◌, All, any, length, none, Text, text, Dict,
  lookup, insert, IsDict, text_eq, ◌==◌, if◌then◌else◌, arith, trim_space, fields,
}
use commerce.Go.{ok}
use commerce.Go.Actions.{Command, Answer, Host, World}
use commerce.Go.Trees.{walk}
use commerce.Go.Actions
use commerce.Corecompat.Commands
use commerce.Corecompat.Snapshots
use commerce.Corecompat.{Contract, core_module_path, toolchain_module_path, current_boundary}
use commerce.Corecompat.Modules.{product_packages}
use commerce.Corecompat.Environments.{maps_equal}
use commerce.Corecompat.Snapshots.Unchanged.{maps_equal_iff, NonZero}
use commerce.Corecompat.Commands.Isolation.{Isolated, verify_boundary-Isolated}
use commerce.Corecompat.Commands.Lines.{
  Decoders, run_boundary, verify_boundary, prepare_boundary, resolve_exact_module, verify_with,
  verify_mirror, application_mirror, fill_mirror, compare_state,
}
use commerce.Corecompat.Commands.Lines.Restored.{Unchanged, run_boundary-Unchanged}
use commerce.Tests.Machines.{machine, at_rest, root}

abbrev contract : Contract
contract = record {
  schema = pos 2;
  core = record { path = core_module_path; minimum = text "v0.9.0"; current = text "v0.9.0" };
  toolchain = record {
    line = record {
      path = toolchain_module_path;
      minimum = text "v0.9.0";
      current = text "v0.9.0";
    };
    tools = text "spice" ∷ [];
  };
}

verify_boundary-Isolated_example :
    All Isolated (verify_boundary machine root contract (current_boundary contract) at_rest).1.ran
verify_boundary-Isolated_example =
    verify_boundary-Isolated machine root contract (current_boundary contract) at_rest refl

abbrev sums : Dict Text ℕ
sums = (text "go.mod", 7) ∷ (text "go.sum", 9) ∷ []

abbrev swapped : Dict Text ℕ
swapped = (text "go.sum", 9) ∷ (text "go.mod", 7) ∷ []

sums-IsDict : IsDict sums × IsDict swapped
unfolding lookup
sums-IsDict = ((refl, (refl, tt)), (refl, (refl, tt)))

sums-NonZero : NonZero sums
unfolding lookup
sums-NonZero k v h = λ z. ground (arith, h, z)

maps_equal_iff_example :
    (maps_equal sums swapped ≡ true) ↔ ((path : Text) → lookup path sums ≡ lookup path swapped)
maps_equal_iff_example = maps_equal_iff sums swapped sums-IsDict.0 sums-IsDict.1 sums-NonZero

-- What the go command prints, by its arguments.
abbrev printed : List Text → Text
printed arguments =
    if any (λ a. a == text "-f={{.Version}}") arguments
    then text "v0.9.0"
    else if any (λ a. a == text "-f={{.ImportPath}}") arguments
    then text "orders"
    else text "main github.com/spice-framework/toolchain v0.9.0"

abbrev answering : Host (Unit {0})
answering = record machine {
  execute = λ s c. (record { failure = none; stdout = printed c.arguments; stderr = [] }, s);
}

-- The decoders: every query resolves to the module that the last one asked for.
abbrev decoders : Decoders
decoders = record {
  contract = λ content. ok contract;
  trailing = λ content. none;
  metadata = λ content. ok (record { require = []; tool = [] });
  resolved = λ content. ok (record { path = toolchain_module_path; version = text "v0.9.0" });
}

abbrev one_module : Contract
one_module = record contract {
  core = record { path = toolchain_module_path; minimum = text "v0.9.0"; current = text "v0.9.0" };
}

abbrev digest : Text → ℕ
digest content = suc (length content)

abbrev verified : World (Unit {0})
verified =
    (run_boundary answering decoders digest root one_module (current_boundary one_module) at_rest).1

passed :
    (run_boundary answering decoders digest root one_module (current_boundary one_module) at_rest).0
    ≡ ok tt
unfolding run_boundary prepare_boundary resolve_exact_module verify_boundary verify_with
    verify_mirror application_mirror fill_mirror compare_state Commands.go_command
    Commands.capture_go Commands.write_open Commands.alternate_modfile Commands.fill_modfile
    Commands.remove_modfile Commands.verify_selected_module Commands.verify_tool_modules
    Commands.verify_tool_module Commands.list_packages Snapshots.repository_state Snapshots.state_of
    Snapshots.visit_state Snapshots.copy_application Snapshots.visit_copy walk Actions.reading
    Actions.changing Actions.lift Actions.◌>>=◌ Actions.wrapping Actions.for_each Actions.cleaning
    Actions.deferring Actions.execute Actions.create_temp Actions.remove Actions.remove_quietly
    maps_equal product_packages insert lookup fields trim_space
passed = refl

run_boundary-Unchanged_example : Unchanged answering decoders digest root at_rest verified
run_boundary-Unchanged_example =
    run_boundary-Unchanged answering decoders digest root (λ content e. absurd (ground (arith, e)))
      one_module (current_boundary one_module) at_rest verified (ap (λ r. (r, verified)) passed)
