-- ===== src/Qualitygate/Steps/Sequences.antt =====
-- The runs of steps, one after the other (internal/qualitygate/main.go).
use commerce.Prelude.{
  ◌≡◌, refl, ap, sym, ◌∙◌, ◌↔◌, ◌⊎◌, inl, inr, Bool, true, false, not, List, [], ◌∷◌, Text, text_eq,
}
use mathlib.Core.Path.{subst}
use commerce.Go.{Error, fail_if, errorf, end, wrapped, text_arg, Result, ok, err}
use commerce.Go.Actions.{Host, World, lift, ◌>>=◌, ◌>>◌}
use commerce.Qualitygate.{Step, after_step, run_sequential}

module _ {W : Type 0} (host : Host W) where
  abbrev pub step_error : Text → Error → World W → Error
  step_error name e w =
      errorf "%s (%s): %w" (text_arg name (text_arg (host.elapsed w.state) (wrapped e end)))

  -- The steps run one after the other from a world, and the first that fails is the last that runs.
  pub data Runs : List (Step W) → World W → Result (Unit {0}) × World W → Type 0 where
    done : {w : World W} → Runs [] w (ok tt, w)
    passes :
        {step : Step W} {steps : List (Step W)} {w v : World W} {q : Result (Unit {0}) × World W}
        → step.action w ≡ (ok tt, v)
        → Runs steps v q
        → Runs (step ∷ steps) w q
    fails :
        {step : Step W} {steps : List (Step W)} {w v : World W} {e : Error}
        → step.action w ≡ (err e, v)
        → Runs (step ∷ steps) w (err (step_error step.name e v), v)

  after_step-Runs :
      (step : Step W) (steps : List (Step W)) (w : World W) (p : Result (Unit {0}) × World W)
      → step.action w ≡ p
      → ((v : World W) → Runs steps v (run_sequential host steps v))
      → Runs (step ∷ steps) w (after_step host step.name (run_sequential host steps) p)
  unfolding after_step
  after_step-Runs step steps w (ok _, v) h k = Runs.passes h (k v)
  after_step-Runs step steps w (err e, v) h k = Runs.fails h

  run_sequential-Runs :
      (steps : List (Step W)) (w : World W) → Runs steps w (run_sequential host steps w)
  unfolding run_sequential
  run_sequential-Runs [] w = Runs.done
  run_sequential-Runs (step ∷ steps) w =
      after_step-Runs step steps w (step.action w) refl (run_sequential-Runs steps)

  Runs-run_sequential :
      (steps : List (Step W)) (w : World W) (q : Result (Unit {0}) × World W)
      → Runs steps w q
      → run_sequential host steps w ≡ q
  unfolding run_sequential after_step
  Runs-run_sequential [] w q Runs.done = refl
  Runs-run_sequential (step ∷ steps) w q (Runs.passes {v = v} h r) =
      ap (after_step host step.name (run_sequential host steps)) h ∙ Runs-run_sequential steps v q r
  Runs-run_sequential (step ∷ steps) w q (Runs.fails h) =
      ap (after_step host step.name (run_sequential host steps)) h

-- How a run may end that starts with a check and a choice of the steps: it is refused, it has no steps,
-- or the steps run.
abbrev pub Outcome :
    {W : Type 0}
    → Host W
    → Type 0
    → Type 0
    → Error
    → Result (List (Step W))
    → World W
    → Result (Unit {0}) × World W
    → Type 0
Outcome {W} host Refused Accepted e r w q =
    (Refused × (q ≡ (err e, w)))
    ⊎ (Accepted
        × (((f : Error) × (r ≡ err f) × (q ≡ (err f, w)))
            ⊎ ((steps : List (Step W)) × (r ≡ ok steps) × Runs host steps w q)))

chosen_iff :
    {W : Type 0} (host : Host W) (r : Result (List (Step W))) (w : World W)
    (q : Result (Unit {0}) × World W)
    → ((lift r >>= run_sequential host) w ≡ q) ↔ (
        ((f : Error) × (r ≡ err f) × (q ≡ (err f, w)))
        ⊎ ((steps : List (Step W)) × (r ≡ ok steps) × Runs host steps w q))
unfolding ◌>>=◌ lift
chosen_iff host (err f) w q = (
  λ h. inl (f, refl, sym h),
  λ h. elim h [ inl (g, same, ends) ↦ cc (same, ends) | inr (steps, same, r) ↦ cc same ],
)
chosen_iff host (ok steps) w q = (
  λ h. inr (steps, refl, subst (Runs host steps w) h (run_sequential-Runs host steps w)),
  λ h. elim h [
    | inl (g, same, ends) ↦ cc same
    | inr (taken, same, r) ↦
        let chosen : taken ≡ steps = cc same in
        Runs-run_sequential host steps w q (subst (λ l. Runs host l w q) chosen r)
  ],
)

pub started_iff :
    {W : Type 0} (host : Host W) (b : Bool) (e : Error) (r : Result (List (Step W))) (w : World W)
    (q : Result (Unit {0}) × World W)
    → ((lift (fail_if (not b) e) >> (lift r >>= run_sequential host)) w ≡ q)
      ↔ Outcome host (b ≡ false) (b ≡ true) e r w q
unfolding ◌>>=◌ lift
started_iff host false e r w q =
    (λ h. inl (refl, sym h), λ h. elim h [ inl (_, ends) ↦ sym ends | inr (same, _) ↦ cc same ])
started_iff host true e r w q = (
  λ h. inr (refl, (chosen_iff host r w q).0 h),
  λ h. elim h [ inl (same, _) ↦ cc same | inr (_, k) ↦ (chosen_iff host r w q).1 k ],
)
