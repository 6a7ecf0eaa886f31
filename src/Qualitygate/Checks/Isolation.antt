-- ===== src/Qualitygate/Checks/Isolation.antt =====
-- The environments in which the checks run other programs (internal/qualitygate/main.go).
use commerce.Prelude.{
  ℕ, refl, Bool, true, false, List, [], ◌∷◌, ◌++◌, Text, text, fields, Dict, lookup, to_upper,
}
use commerce.Go.{Result}
use commerce.Go.Actions.{Command, Host}
use commerce.Go.Actions.Preservation.{
  Preserves, Ran, preserving, execute-Ran, changing-Ran, create_temp-Ran, remove-Ran,
  remove_quietly-Ran, Preserves-bind, Preserves-lift,
}
use commerce.Corecompat.Environments.Settings.{IsOffline}
use commerce.Qualitygate.Subprocesses.{command, capture, tool_path}
use commerce.Qualitygate.Subprocesses.Offline.{IsTame, merged_environment-IsOffline}
use commerce.Qualitygate.Checks.{
  vendored, file_groups, reported, identity, check_batches, check_formatted, file_batches, format,
  style, lint, security, tests, offline, spice_application, digests, compare_vendor, check_module,
  measure, coverage,
}

pub no_overrides-IsTame : IsTame []
unfolding lookup
no_overrides-IsTame = (tt, tt, refl, refl, refl)

vendored-IsTame : IsTame vendored
unfolding lookup to_upper
vendored-IsTame = ((refl, tt), ((λ v. refl, refl), tt), refl, refl, refl)

-- Programs of a class that has every command in an offline environment are all that a check runs.
module _ {W : Type 0} (host : Host W) (Q : Command → Type 0)
    (offline_Q : (c : Command) → IsOffline c.environment → Q c) where
  pub command-Ran :
      (directory : Text) (d : Dict Text Text) (executable : Text) (arguments : List Text)
      → IsTame d
      → Preserves (Ran Q) (command host directory d executable arguments)
  unfolding command
  command-Ran directory d executable arguments t =
      Preserves-bind _ _
        (execute-Ran Q host _ (offline_Q _ (merged_environment-IsOffline host.environ d t)))
        (λ answer. Preserves-lift _)

  pub capture-Ran :
      (directory : Text) (d : Dict Text Text) (executable : Text) (arguments : List Text)
      → IsTame d
      → Preserves (Ran Q) (capture host directory d executable arguments)
  unfolding capture
  capture-Ran directory d executable arguments t =
      Preserves-bind _ _
        (execute-Ran Q host _ (offline_Q _ (merged_environment-IsOffline host.environ d t)))
        (λ answer. Preserves-lift _)

  tool_path-Ran : (root name : Text) → Preserves (Ran Q) (tool_path host root name)
  unfolding tool_path
  tool_path-Ran root name = search (preserving, capture-Ran, no_overrides-IsTame)

  ruleset isolated = (
    preserving, command-Ran, capture-Ran, tool_path-Ran, create_temp-Ran, changing-Ran,
    no_overrides-IsTame, vendored-IsTame,
  )

  check_batches-Ran :
      (root executable : Text) (groups : List (List Text)) (changed : List Text)
      → Preserves (Ran Q) (check_batches host root executable groups changed)
  unfolding check_batches reported
  check_batches-Ran root executable [] changed = search isolated
  check_batches-Ran root executable (batch ∷ rest) changed =
      Preserves-bind _ _ (capture-Ran root [] executable (text "-l" ∷ batch) no_overrides-IsTame)
        (λ stdout. check_batches-Ran root executable rest (changed ++ fields stdout))

  pub identity-Ran : (root : Text) → Preserves (Ran Q) (identity host root)
  unfolding identity
  identity-Ran root = search isolated

  file_batches-Ran :
      (root executable option : Text) (files : List Text)
      → Preserves (Ran Q) (file_batches host root executable option files)
  unfolding file_batches
  file_batches-Ran root executable option files = search isolated

  check_formatted-Ran :
      (root executable : Text) (files : List Text)
      → Preserves (Ran Q) (check_formatted host root executable files)
  unfolding check_formatted
  check_formatted-Ran root executable files =
      check_batches-Ran root executable (file_groups files) []

  pub format-Ran : (root : Text) (write : Bool) → Preserves (Ran Q) (format host root write)
  unfolding format
  format-Ran root true = search (isolated, file_batches-Ran)
  format-Ran root false = search (isolated, check_formatted-Ran) depth 8

  pub style-Ran : (root : Text) → Preserves (Ran Q) (style host root)
  unfolding style
  style-Ran root = search isolated

  pub lint-Ran : (root : Text) → Preserves (Ran Q) (lint host root)
  unfolding lint
  lint-Ran root = search isolated

  pub security-Ran : (root : Text) → Preserves (Ran Q) (security host root)
  unfolding security
  security-Ran root = search isolated

  pub tests-Ran : (root : Text) → Preserves (Ran Q) (tests host root)
  unfolding tests
  tests-Ran root = search isolated

  pub offline-Ran : (root : Text) → Preserves (Ran Q) (offline host root)
  unfolding offline
  offline-Ran root = search isolated

  pub spice_application-Ran : (root : Text) → Preserves (Ran Q) (spice_application host root)
  unfolding spice_application
  spice_application-Ran root = search isolated

  module _ (sha : Text → ℕ) where
    digests-Ran : (root : Text) → Preserves (Ran Q) (digests host sha root)
    unfolding digests
    digests-Ran root = search isolated

    compare_vendor-Ran :
        (root candidate : Text) → Preserves (Ran Q) (compare_vendor host sha root candidate)
    unfolding compare_vendor
    compare_vendor-Ran root candidate = search (isolated, digests-Ran)

    pub check_module-Ran : (root : Text) → Preserves (Ran Q) (check_module host sha root)
    unfolding check_module
    check_module-Ran root = search (isolated, compare_vendor-Ran, remove_quietly-Ran)

  module _ {F : Type 0} (parse_float : Text → Result F) (below_minimum : F → Bool)
      (shown : F → Text) where
    measure-Ran :
        (root profile : Text)
        → Preserves (Ran Q) (measure host parse_float below_minimum shown root profile)
    unfolding measure
    measure-Ran root profile = search isolated

    pub coverage-Ran :
        (root : Text) → Preserves (Ran Q) (coverage host parse_float below_minimum shown root)
    unfolding coverage
    coverage-Ran root = search (isolated, measure-Ran, remove-Ran)

pub ruleset checks = (
  command-Ran, no_overrides-IsTame, identity-Ran, format-Ran, check_module-Ran, style-Ran, lint-Ran,
  security-Ran, tests-Ran, coverage-Ran, offline-Ran, spice_application-Ran,
)
