-- ===== src/Qualitygate/Roots.antt =====
-- internal/qualitygate/main.go: the search for the repository's root, and the exit code.
use commerce.Prelude.{ℕ, Bool, Option, Text}
use commerce.Go.{Error, errorf, end, wrapped, quoted, Result, ok, err, fail_with, ◌>>◌}
use commerce.Go.Actions.{World, Action}
use commerce.Corecompat.Roots.{names_module, search_root}

-- What the machine tells of a directory: whether it opens, what a read of its `go.mod` gives, and
-- whether it closes.
pub record Candidate : Type 0 where
  pub opened : Option Error
  pub go_mod : Result Text
  pub closed : Option Error

-- Whether a candidate is the root, or how it could not be examined.
unfoldable pub examine : Text → Candidate → Result Bool
examine current candidate =
    fail_with candidate.opened
      (λ e. errorf "open repository candidate %q: %w" (quoted current (wrapped e end)))
    >> (fail_with candidate.closed
          (λ e. errorf "close repository candidate %q: %w" (quoted current (wrapped e end)))
        >> ok (names_module candidate.go_mod))

unfoldable pub repository_root :
    (Text → Text) → (Text → Candidate) → Result Text → Option (Result Text)
repository_root dir look working =
    search_root dir (λ current. examine current (look current)) working

-- The exit code, by what the run gave.
abbrev pub exit_code : Result (Unit {0}) → ℕ
exit_code (ok _) = 0
exit_code (err e) = 1

unfoldable pub exits : {W : Type 0} → (Text → Action W (Unit {0})) → Result Text → World W → ℕ
exits run (err e) w = 1
exits run (ok root) w = exit_code (run root w).0
