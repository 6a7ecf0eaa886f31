-- ===== src/Qualitygate/Checks/Temporaries.antt =====
-- The temporary files and trees of the checks (internal/qualitygate/main.go).
use commerce.Prelude.{ℕ, ◌≡◌, Bool, List, [], ◌∷◌, Text, Dict}
use commerce.Go.{Error, Result, ok, err}
use commerce.Go.Actions.{
  Host, World, Action, changing, ◌>>=◌, followed, wrapping, wrap_error, remove, remove_quietly,
}
use commerce.Go.Actions.Preservation.{Preserves, preserving, Preserves-bind, Preserves-lift}
use commerce.Go.Actions.Temporaries.{
  Left, Removes, Closes, execute-Left, changing-Left, remove-Left, remove_quietly-Left,
  deferring-Left, create_temp-Left,
}
use commerce.Qualitygate.Subprocesses.{command, capture}
use commerce.Qualitygate.Checks.{digests, compare_vendor, check_module, measure, coverage}

module _ {W : Type 0} (host : Host W) (l : List Text) where
  command-Left :
      (directory : Text) (d : Dict Text Text) (executable : Text) (arguments : List Text)
      → Preserves (Left l) (command host directory d executable arguments)
  unfolding command
  command-Left directory d executable arguments =
      Preserves-bind _ _ (execute-Left host l _) (λ answer. Preserves-lift _)

  capture-Left :
      (directory : Text) (d : Dict Text Text) (executable : Text) (arguments : List Text)
      → Preserves (Left l) (capture host directory d executable arguments)
  unfolding capture
  capture-Left directory d executable arguments =
      Preserves-bind _ _ (execute-Left host l _) (λ answer. Preserves-lift _)

ruleset leaving = (preserving, changing-Left, command-Left, capture-Left)

module _ {W : Type 0} (host : Host W) (removes : Removes host) where
  module _ (sha : Text → ℕ) (root : Text) where
    compare_vendor-Left :
        (l : List Text) (candidate : Text)
        → Preserves (Left l) (compare_vendor host sha root candidate)
    unfolding compare_vendor digests
    compare_vendor-Left l candidate = search leaving depth 8

    -- The check of the modules leaves no temporary tree, whether it passes or not, if the removal of a
    -- tree succeeds.
    pub check_module-Left :
        (w : World W) → w.temporary ≡ [] → (check_module host sha root w).1.temporary ≡ []
    unfolding check_module
    check_module-Left =
        (Preserves-bind _ _ (command-Left host [] _ _ _ _) (λ _.
          Preserves-bind _ _ (command-Left host [] _ _ _ _) (λ _.
            create_temp-Left host removes _ _ _ (λ path.
              deferring-Left host removes path (remove_quietly host path) _
                (remove_quietly-Left host removes path)
                (compare_vendor-Left (path ∷ []) _))))).holds

  closed-Left :
      (path : Text) (f : Error → Error) (r : Result (Unit {0})) (v : World W)
      (next : Unit {0} → Action W (Unit {0}))
      → r ≡ ok tt
      → Left (path ∷ []) v
      → ((u : World W) → Left (path ∷ []) u → Left [] (next tt u).1)
      → Left [] (followed next (wrap_error f (r, v))).1
  closed-Left path f (ok _) v next h p k = k v p
  closed-Left path f (err e) v next h p k = cc

  module _ (closes : Closes host) {F : Type 0} (parse_float : Text → Result F)
      (below_minimum : F → Bool) (shown : F → Text) (root : Text) where
    measure-Left :
        (l : List Text) (profile : Text)
        → Preserves (Left l) (measure host parse_float below_minimum shown root profile)
    unfolding measure
    measure-Left l profile = search leaving depth 8

    closing-Left :
        (path : Text) (f : Error → Error) (next : Unit {0} → Action W (Unit {0})) (v : World W)
        → Left (path ∷ []) v
        → ((u : World W) → Left (path ∷ []) u → Left [] (next tt u).1)
        → Left [] ((wrapping f (changing (λ s. host.close_file s path)) >>= next) v).1
    unfolding wrapping ◌>>=◌ changing
    closing-Left path f next v p k =
        closed-Left path f (host.close_file v.state path).0 _ next (closes v.state path) p k

    -- The measurement of the coverage leaves no profile, whether it passes or not, if a new file can be
    -- closed and removed.
    pub coverage-Left :
        (w : World W)
        → w.temporary ≡ []
        → (coverage host parse_float below_minimum shown root w).1.temporary ≡ []
    unfolding coverage
    coverage-Left =
        (create_temp-Left host removes _ _ _ (λ path v p. closing-Left path _ _ v p (
          deferring-Left host removes path (remove host path) _ (remove-Left host removes path)
            (measure-Left (path ∷ []) path)))).holds
