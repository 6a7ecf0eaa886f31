-- ===== src/Qualitygate/Steps.antt =====
-- What the steps of a mode do, and in which order (internal/qualitygate/main.go).
pub mod Sequences
use commerce.Prelude.{
  ℕ, ◌≡◌, refl, ap, sym, ◌∙◌, ◌⊎◌, inl, inr, Bool, true, false, not, List, [], ◌∷◌, All,
  All-append_one, Text, text, text_eq, ◌==◌, if◌then◌else◌,
}
use mathlib.Core.Path.{subst}
use commerce.Go.{Error, fail_if, wrapped, Result, ok, err}
use commerce.Go.Actions.{Command, Host, World, Action, lift, ◌>>=◌, ◌>>◌}
use commerce.Go.Actions.Preservation.{Preserves, Ran, Preserves-bind, Preserves-lift, execute-Ran}
use commerce.Corecompat.Environments.Settings.{IsOffline}
use commerce.Qualitygate.Subprocesses.{network_go_command}
use commerce.Qualitygate.Checks.Isolation.{checks}
use commerce.Qualitygate.{
  Step, after_step, run_sequential, check_go_version, steps_for_mode, run, offline_steps,
  compatibility_step,
}

-- The commands that the modes may run: all in an offline environment, but in `verify` one more, the
-- program that checks the compatibility.
abbrev pub Allowed : Text → Command → Type 0
Allowed mode c =
    IsOffline c.environment
    ⊎ ((mode ≡ text "verify")
        × (c.executable ≡ text "go")
        × (c.arguments
            ≡ text "run"
              ∷ text "-mod=readonly"
              ∷ text "./internal/corecompat"
              ∷ text "-line=all"
              ∷ []))

abbrev Keeps : {W : Type 0} → (Command → Type 0) → Result (List (Step W)) → Type 0
Keeps Q (ok steps) = All (λ step. Preserves (Ran Q) step.action) steps
Keeps Q (err e) = Unit

if-Keeps :
    {W : Type 0} (Q : Command → Type 0) (b : Bool) (r s : Result (List (Step W)))
    → (b ≡ true → Keeps Q r)
    → Keeps Q s
    → Keeps Q (if b then r else s)
if-Keeps Q true r s h k = h refl
if-Keeps Q false r s h k = k

module _ {W F : Type 0} (host : Host W) (sha : Text → ℕ) (parse_float : Text → Result F)
    (below_minimum : F → Bool) (shown : F → Text) (root : Text) where
  after_step-Ran :
      (Q : Command → Type 0) (name : Text) (next : Action W (Unit {0}))
      (p : Result (Unit {0}) × World W)
      → Ran Q p.1
      → ((v : World W) → Ran Q v → Ran Q (next v).1)
      → Ran Q (after_step host name next p).1
  unfolding after_step
  after_step-Ran Q name next (ok _, v) h k = k v h
  after_step-Ran Q name next (err e, v) h k = h

  run_sequential-Ran :
      (Q : Command → Type 0) (steps : List (Step W)) (w : World W)
      → All (λ step. Preserves (Ran Q) step.action) steps
      → Ran Q w
      → Ran Q (run_sequential host steps w).1
  unfolding run_sequential
  run_sequential-Ran Q [] w ks h = h
  run_sequential-Ran Q (step ∷ steps) w (k, ks) h =
      after_step-Ran Q step.name (run_sequential host steps) (step.action w) (k.holds w h)
        (λ v. run_sequential-Ran Q steps v ks)

  module _ (Q : Command → Type 0) (offline_Q : (c : Command) → IsOffline c.environment → Q c) where
    offline_steps-Keeps : Keeps Q (ok (offline_steps host sha parse_float below_minimum shown root))
    offline_steps-Keeps = search checks

    steps_for_mode-Keeps :
        (mode : Text)
        → (mode ≡ text "verify"
            → Preserves
                (Ran Q)
                (compatibility_step host sha parse_float below_minimum shown root).action)
        → Keeps Q (steps_for_mode host sha parse_float below_minimum shown root mode)
    unfolding steps_for_mode
    steps_for_mode-Keeps mode k =
        if-Keeps Q (mode == text "check") _ _ (λ _. search checks)
          (if-Keeps Q (mode == text "fmt") _ _ (λ _. search checks)
            (if-Keeps Q (mode == text "lint") _ _ (λ _. search checks)
              (if-Keeps Q (mode == text "security") _ _ (λ _. search checks)
                (if-Keeps Q (mode == text "smoke") _ _ (λ _. search checks)
                  (if-Keeps Q (mode == text "test") _ _ (λ _. search checks)
                    (if-Keeps Q (mode == text "verify") _ _
                      (λ e.
                        All-append_one (λ (step : Step W). Preserves (Ran Q) step.action)
                          (offline_steps host sha parse_float below_minimum shown root)
                          (compatibility_step host sha parse_float below_minimum shown root)
                          offline_steps-Keeps (k ((text_eq.beq_iff mode (text "verify")).0 e)))
                      tt))))))

  compatibility_step-Ran :
      (mode : Text)
      → mode ≡ text "verify"
      → Preserves
          (Ran (Allowed mode))
          (compatibility_step host sha parse_float below_minimum shown root).action
  unfolding network_go_command
  compatibility_step-Ran mode e =
      Preserves-bind _ _ (execute-Ran (Allowed mode) host _ (inr (e, refl, refl)))
        (λ answer. Preserves-lift _)

  steps-Ran :
      (Q : Command → Type 0) (r : Result (List (Step W)))
      → Keeps Q r
      → Preserves (Ran Q) (lift r >>= run_sequential host)
  unfolding ◌>>=◌ lift
  steps-Ran Q (ok steps) k = record { holds = λ w p. run_sequential-Ran Q steps w k p }
  steps-Ran Q (err e) k = record { holds = λ w p. p }

  -- In every mode the commands that run have an offline environment, but for the one that checks the
  -- compatibility, which runs in `verify` alone.
  pub run-Allowed :
      (mode : Text) (w : World W)
      → w.ran ≡ []
      → All (Allowed mode) (run host sha parse_float below_minimum shown root mode w).1.ran
  unfolding run
  run-Allowed mode w h =
      let kept =
        steps-Ran (Allowed mode) (steps_for_mode host sha parse_float below_minimum shown root mode)
          (steps_for_mode-Keeps (Allowed mode) (λ c. inl) mode (compatibility_step-Ran mode)) in
      (Preserves-bind _ _ (Preserves-lift (check_go_version host)) (λ _. kept)).holds w (rw h tt)
