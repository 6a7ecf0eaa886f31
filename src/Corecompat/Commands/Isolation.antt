-- ===== src/Corecompat/Commands/Isolation.antt =====
-- The environments in which the verification of a boundary runs the go command
-- (internal/corecompat/contract.go).
use commerce.Prelude.{◌≡◌, List, [], All, Text}
use commerce.Go.{Error, Result, ok, err}
use commerce.Go.Actions.{Command, Host, World, changing, wrapping}
use commerce.Go.Actions.Preservation.{
  Preserves, Ran, preserving, execute-Ran, changing-Ran, create_temp-Ran, remove_quietly-Ran,
  Preserves-bind, Preserves-lift,
}
use commerce.Corecompat.{Contract, Boundary}
use commerce.Corecompat.Environments.Settings.{
  IsOffline, offline_environment-IsOffline, offline_modfile_environment-IsOffline,
  vendored_offline_environment-IsOffline,
}
use commerce.Corecompat.Snapshots.{copy_application}
use commerce.Corecompat.Commands.{
  Selected, go_command, capture_go, written, write_open, remove_modfile, fill_modfile,
  alternate_modfile, verify_selected_module, verify_tool_module, verify_tool_modules, list_packages,
}
use commerce.Corecompat.Commands.Lines.{
  fill_mirror, application_mirror, verify_mirror, verify_with, verify_boundary,
}

-- A command whose environment is offline.
abbrev pub Isolated : Command → Type 0
Isolated c = IsOffline c.environment

module _ {W : Type 0} (host : Host W) where
  go_command-Ran :
      (directory : Text) (environment arguments : List Text)
      → IsOffline environment
      → Preserves (Ran Isolated) (go_command host directory environment arguments)
  unfolding go_command
  go_command-Ran directory environment arguments o =
      Preserves-bind _ _ (execute-Ran Isolated host _ o) (λ answer. Preserves-lift _)

  capture_go-Ran :
      (directory : Text) (environment arguments : List Text)
      → IsOffline environment
      → Preserves (Ran Isolated) (capture_go host directory environment arguments)
  unfolding capture_go
  capture_go-Ran directory environment arguments o =
      Preserves-bind _ _ (execute-Ran Isolated host _ o) (λ answer. Preserves-lift _)

  written-Ran :
      (file : Text) (q : Result (Unit {0}) × World W)
      → Ran Isolated q.1
      → Ran Isolated (written host file q).1
  unfolding written
  written-Ran file (ok _, w) p = p
  written-Ran file (err e, w) p = p

  write_open-Ran :
      (file path content : Text) (f : Error → Error)
      → Preserves (Ran Isolated) (write_open host file path content f)
  unfolding write_open
  write_open-Ran file path content f = record {
    holds = λ w p.
        let changed : Preserves (Ran Isolated)
            (wrapping f (changing (λ s. host.write_file s path content))) =
          search (preserving, changing-Ran) in
        written-Ran file _ (changed.holds w p);
  }

  remove_modfile-Ran :
      (modfile : Text) (w : World W)
      → Ran Isolated w
      → Ran Isolated (remove_modfile host modfile w).1
  unfolding remove_modfile
  remove_modfile-Ran modfile w p =
      remove_quietly-Ran Isolated host _ _ (remove_quietly-Ran Isolated host modfile w p)

  ruleset isolated = (
    preserving, go_command-Ran, capture_go-Ran, write_open-Ran, changing-Ran, create_temp-Ran,
    remove_quietly-Ran, remove_modfile-Ran, offline_environment-IsOffline,
    offline_modfile_environment-IsOffline, vendored_offline_environment-IsOffline,
  )

  alternate_modfile-Ran :
      (root : Text) (contract : Contract) (boundary : Boundary)
      → Preserves (Ran Isolated) (alternate_modfile host root contract boundary)
  unfolding alternate_modfile fill_modfile
  alternate_modfile-Ran root contract boundary = search isolated depth 12

  module _ (root modfile : Text) (environment : List Text) (offline : IsOffline environment) where
    verify_selected_module-Ran :
        (boundary_name : Text) (selected : Selected)
        → Preserves
            (Ran Isolated)
            (verify_selected_module host root environment modfile boundary_name selected)
    unfolding verify_selected_module
    verify_selected_module-Ran boundary_name selected = search isolated

    verify_tool_modules-Ran :
        (contract : Contract) (boundary : Boundary)
        → Preserves
            (Ran Isolated)
            (verify_tool_modules host root environment modfile contract boundary)
    unfolding verify_tool_modules verify_tool_module
    verify_tool_modules-Ran contract boundary = search isolated depth 8

    list_packages-Ran : Preserves (Ran Isolated) (list_packages host root environment modfile)
    unfolding list_packages
    list_packages-Ran = search isolated

  copy_application-Ran :
      (destination source : Text)
      → Preserves (Ran Isolated) (copy_application host destination source)
  unfolding copy_application
  copy_application-Ran destination source = search isolated

  application_mirror-Ran :
      (root modfile : Text) → Preserves (Ran Isolated) (application_mirror host root modfile)
  unfolding application_mirror fill_mirror
  application_mirror-Ran root modfile = search (isolated, copy_application-Ran) depth 16

  verify_mirror-Ran : (mirror : Text) → Preserves (Ran Isolated) (verify_mirror host mirror)
  unfolding verify_mirror
  verify_mirror-Ran mirror = search isolated

  verify_with-Ran :
      (root : Text) (contract : Contract) (boundary : Boundary) (modfile : Text)
      (environment : List Text)
      → IsOffline environment
      → Preserves (Ran Isolated) (verify_with host root contract boundary modfile environment)
  unfolding verify_with
  verify_with-Ran root contract boundary modfile environment o =
      search
        (
          isolated, verify_selected_module-Ran, verify_tool_modules-Ran, list_packages-Ran,
          application_mirror-Ran, verify_mirror-Ran,
        )
        depth 12

  -- The verification of a boundary runs the go command in offline environments alone.
  pub verify_boundary-Isolated :
      (root : Text) (contract : Contract) (boundary : Boundary) (w : World W)
      → w.ran ≡ []
      → All Isolated (verify_boundary host root contract boundary w).1.ran
  unfolding verify_boundary
  verify_boundary-Isolated root contract boundary w h =
      let kept : Preserves (Ran Isolated) (verify_boundary host root contract boundary) =
        search (isolated, alternate_modfile-Ran, verify_with-Ran) in
      kept.holds w (rw h tt)
