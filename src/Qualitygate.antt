-- ===== src/Qualitygate.antt =====
-- internal/qualitygate/main.go: the gate's modes, its steps and their order.
pub mod Subprocesses
pub mod Files
pub mod Checks
pub mod Steps
pub mod Roots
use Prim.Native.String.{String}
use commerce.Prelude.{
  ℕ, Bool, true, false, not, List, [], ◌∷◌, ◌++◌, Option, none, some, Text, text, text_eq, ◌==◌,
  if◌then◌else◌,
}
use commerce.Go.{
  Error, errors_new, errorf, end, wrapped, text_arg, quoted, Result, ok, err, fail_if,
}
use commerce.Go.Actions.{Host, World, Action, lift, ◌>>=◌, ◌>>◌}
use commerce.Qualitygate.Subprocesses.{command, network_go_command}
use commerce.Qualitygate.Checks.{
  identity, format, check_module, style, lint, security, tests, coverage, offline,
  spice_application,
}

abbrev pub required_go_version : Text
required_go_version = text "go1.26.5"

pub record Step (W : Type 0) : Type 0 where
  pub name : Text
  pub action : Action W (Unit {0})

module _ {W : Type 0} (host : Host W) where
  -- What the loop does after a step, by how it ended.
  unfoldable pub after_step :
      Text → Action W (Unit {0}) → Result (Unit {0}) × World W → Result (Unit {0}) × World W
  after_step name next (ok _, w) = next w
  after_step name next (err e, w) = (
    err (errorf "%s (%s): %w" (text_arg name (text_arg (host.elapsed w.state) (wrapped e end)))),
    w,
  )

  unfoldable pub run_sequential : List (Step W) → Action W (Unit {0})
  run_sequential [] w = (ok tt, w)
  run_sequential (step ∷ steps) w = after_step step.name (run_sequential steps) (step.action w)

  unfoldable pub check_go_version : Result (Unit {0})
  check_go_version = fail_if (not (host.version == required_go_version)) (
      errorf "go version is %s; require exactly %s"
        (text_arg host.version (text_arg required_go_version end)))

module _ {W F : Type 0} (host : Host W) (sha : Text → ℕ) (parse_float : Text → Result F)
    (below_minimum : F → Bool) (shown : F → Text) (root : Text) where
  abbrev pub identity_step : Step W
  identity_step = record { name = text "repository identity"; action = identity host root }

  abbrev pub formatting : Bool → Step W
  formatting write = record { name = text "formatting"; action = format host root write }

  abbrev pub modules : Step W
  modules = record { name = text "module and vendor"; action = check_module host sha root }

  abbrev pub style_step : Step W
  style_step = record { name = text "Spice application style"; action = style host root }

  abbrev pub vet : Step W
  vet = record {
    name = text "go vet";
    action = command host root [] (text "go") (text "vet" ∷ text "./..." ∷ []);
  }

  abbrev pub lint_step : Step W
  lint_step = record { name = text "lint and nil safety"; action = lint host root }

  abbrev pub security_step : Step W
  security_step = record { name = text "security"; action = security host root }

  abbrev pub test_step : Step W
  test_step = record { name = text "shuffled and race tests"; action = tests host root }

  abbrev pub coverage_step : Step W
  coverage_step = record {
    name = text "business coverage";
    action = coverage host parse_float below_minimum shown root;
  }

  abbrev pub offline_step : Step W
  offline_step = record { name = text "offline vendor"; action = offline host root }

  abbrev pub spice_step : Step W
  spice_step = record { name = text "Spice application"; action = spice_application host root }

  abbrev pub compatibility_step : Step W
  compatibility_step = record {
    name = text "Spice core and toolchain compatibility";
    action =
        network_go_command host root (
          text "run" ∷ text "-mod=readonly" ∷ text "./internal/corecompat" ∷ text "-line=all" ∷ []);
  }

  -- The steps of `verify` that come before the last one.
  abbrev pub offline_steps : List (Step W)
  offline_steps =
      identity_step
      ∷ formatting false
      ∷ modules
      ∷ style_step
      ∷ vet
      ∷ lint_step
      ∷ security_step
      ∷ test_step
      ∷ coverage_step
      ∷ offline_step
      ∷ spice_step
      ∷ []

  unfoldable pub steps_for_mode : Text → Result (List (Step W))
  steps_for_mode mode =
      if mode == text "check"
      then ok (identity_step ∷ formatting false ∷ modules ∷ style_step ∷ vet ∷ [])
      else if mode == text "fmt"
      then ok (formatting true ∷ [])
      else if mode == text "lint"
      then ok (lint_step ∷ [])
      else if mode == text "security"
      then ok (security_step ∷ [])
      else if mode == text "smoke"
      then ok (spice_step ∷ [])
      else if mode == text "test"
      then ok (test_step ∷ coverage_step ∷ [])
      else if mode == text "verify"
      then ok (offline_steps ++ compatibility_step ∷ [])
      else err (errorf "unknown mode %q" (quoted mode end))

  unfoldable pub run : Text → Action W (Unit {0})
  run mode = do
    lift (check_go_version host)
    steps ← lift (steps_for_mode mode)
    run_sequential host steps
