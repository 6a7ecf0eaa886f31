-- ===== src/Application/Command/Exits.antt =====
-- The exit codes of the application's command (spice_command_gen.go).
use commerce.Prelude.{
  ℤ, pos, ltb_ℤ, ◌≡◌, refl, ap, ◌∙◌, ◌↔◌, inl, inr, Bool, Bool-cases, true, false, Option, none,
  some, text, is_empty, arith,
}
use mathlib.Core.Path.{subst}
use commerce.Go.{Error, Context, Result, ok, err}
use commerce.Application.Command.{
  Flags, CommandOptions, Shell, effective_timeout, factory, exit_of, announced, stop_checked,
  constructed, parsed, in_context, run_command,
}

module _ {W A : Type 0} (shell : Shell W A) (options : CommandOptions) where
  abbrev timeout : A → ℤ
  timeout app = effective_timeout (shell.shutdown_timeout app) options.shutdown_timeout

  -- What has to succeed after the construction: with `-check` the factory, the stop and then the
  -- announcement; without it the run.
  abbrev pub Finishes : Bool → Context → A → W → Type 0
  Finishes true ctx app w =
      (shutdown : Context) × (factory shell options (timeout app) ≡ some shutdown)
      × ((shell.stop w app shutdown).0 ≡ none)
      × ((shell.print (shell.stop w app shutdown).1 (text "Spice commerce ready.\n")).0 ≡ none)
  Finishes false ctx app w =
      (shell.run w app ctx (λ _. factory shell options (timeout app))).0 ≡ none

  exit_of_iff : (p : Option Error × W) → ((exit_of shell options p).0 ≡ 0) ↔ (p.0 ≡ none)
  unfolding exit_of
  exit_of_iff (none, w) = (λ h. refl, λ h. refl)
  exit_of_iff (some e, w) = (λ h. ground (arith, h), λ h. cc h)

  announced_iff :
      (p : Option Error × W)
      → ((announced shell options p).0 ≡ 0)
        ↔ ((p.0 ≡ none) × ((shell.print p.1 (text "Spice commerce ready.\n")).0 ≡ none))
  unfolding announced
  announced_iff (some e, w) = (λ h. ground (arith, h), λ h. cc (h.0))
  announced_iff (none, w) =
      let (a, b) = exit_of_iff (shell.print w (text "Spice commerce ready.\n")) in
      (λ h. (refl, a h), λ h. b h.1)

  stopped_iff :
      (w : W) (app : A) (o : Option Context)
      → ((announced shell options (stop_checked shell options w app o)).0 ≡ 0) ↔ (
          (shutdown : Context) × (o ≡ some shutdown)
          × ((shell.stop w app shutdown).0 ≡ none)
          × ((shell.print (shell.stop w app shutdown).1 (text "Spice commerce ready.\n")).0 ≡ none))
  unfolding stop_checked announced
  stopped_iff w app none = (λ h. ground (arith, h), λ h. cc (h.1))
  stopped_iff w app (some shutdown) =
      let (a, b) = announced_iff (shell.stop w app shutdown) in
      (λ h. (shutdown, refl, (a h).0, (a h).1), λ (other, same, s, p). b (moved other same s p))
    where
      moved :
          (other : Context)
          → some shutdown ≡ some other
          → (shell.stop w app other).0 ≡ none
          → (shell.print (shell.stop w app other).1 (text "Spice commerce ready.\n")).0 ≡ none
          → ((shell.stop w app shutdown).0 ≡ none)
            × ((shell.print (shell.stop w app shutdown).1 (text "Spice commerce ready.\n")).0
                ≡ none)
      moved other same s p =
          let e : shutdown ≡ other = cc same in
          (
            ap (λ k. (shell.stop w app k).0) e ∙ s,
            ap (λ k. (shell.print (shell.stop w app k).1 (text "Spice commerce ready.\n")).0) e ∙ p,
          )

  constructed_iff :
      (ctx : Context) (check : Bool) (p : Result A × W)
      → ((constructed shell options ctx check p).0 ≡ 0)
        ↔ ((app : A) × (p ≡ (ok app, p.1)) × Finishes check ctx app p.1)
  unfolding constructed
  constructed_iff ctx check (err e, w) = (λ h. ground (arith, h), λ h. cc (h.1))
  constructed_iff ctx true (ok app, w) =
      let (a, b) = stopped_iff w app (factory shell options (timeout app)) in
      (
        λ h. (app, refl, a h),
        λ (other, same, f). b (subst (λ k. Finishes true ctx k w) (again same) f),
      )
    where
      again : {x : A} → ◌≡◌ {A = Result A × W} (ok app, w) (ok x, w) → x ≡ app
      again same = cc same
  constructed_iff ctx false (ok app, w) =
      let (a, b) = exit_of_iff (shell.run w app ctx (λ _. factory shell options (timeout app))) in
      (
        λ h. (app, refl, a h),
        λ (other, same, f). b (subst (λ k. Finishes false ctx k w) (again same) f),
      )
    where
      again : {x : A} → ◌≡◌ {A = Result A × W} (ok app, w) (ok x, w) → x ≡ app
      again same = cc same

  -- The application is constructed, and what follows succeeds.
  abbrev pub Serves : Context → Flags → W → Type 0
  Serves ctx flags w =
      (app : A) × (shell.construct w ctx ≡ (ok app, (shell.construct w ctx).1))
      × Finishes flags.check ctx app (shell.construct w ctx).1

  parsed_iff :
      (ctx : Context) (w : W) (r : Result Flags)
      → ((parsed shell options ctx w r).0 ≡ 0)
        ↔ ((flags : Flags) × (r ≡ ok flags) × (is_empty flags.rest ≡ true) × Serves ctx flags w)
  unfolding parsed
  parsed_iff ctx w (err e) = (λ h. ground (arith, h), λ h. cc (h.1))
  parsed_iff ctx w (ok flags) = elim (Bool-cases (is_empty flags.rest)) [
    | inl empty ↦
        let (a, b) = constructed_iff ctx flags.check (shell.construct w ctx) in
        (
          λ h. (flags, refl, empty, a (rw empty at h)),
          λ (other, same, none_left, serves).
              rw empty (b (subst (λ k. Serves ctx k w) (again same) serves)),
        )
    | inr left ↦ (
      λ h. absurd (ground (arith, h, left)),
      λ (other, same, none_left, serves).
          cc (left, ap (λ (k : Flags). is_empty k.rest) (again same), none_left),
    )
  ]
    where
      again : {f : Flags} → ok flags ≡ ok f → f ≡ flags
      again same = cc same

  in_context_iff :
      (w : W) (o : Option Context)
      → ((in_context shell options w o).0 ≡ 0) ↔ (
          (ctx : Context) × (flags : Flags) × (o ≡ some ctx)
          × (ltb_ℤ options.shutdown_timeout (pos 0) ≡ false)
          × (shell.parse options.arguments ≡ ok flags)
          × (is_empty flags.rest ≡ true)
          × Serves ctx flags w)
  unfolding in_context
  in_context_iff w none = (λ h. ground (arith, h), λ h. cc (h.2))
  in_context_iff w (some ctx) = elim (Bool-cases (ltb_ℤ options.shutdown_timeout (pos 0))) [
    | inl negative ↦ (
      λ h. absurd (ground (arith, h, negative)),
      λ (other, flags, same, positive, parses, empty, serves). cc (negative, positive),
    )
    | inr positive ↦
        let (a, b) = parsed_iff ctx w (shell.parse options.arguments) in
        (
          λ h.
              let (flags, parses, empty, serves) = a (rw positive at h) in
              (ctx, flags, refl, positive, parses, empty, serves),
          λ (other, flags, same, _, parses, empty, serves).
              rw positive
                (b (flags, parses, empty, subst (λ k. Serves k flags w) (again same) serves)),
        )
  ]
    where
      again : {c : Context} → some ctx ≡ some c → c ≡ ctx
      again same = cc same

  -- The command exits with 0 exactly if a context is there, the asked timeout is not negative, the
  -- arguments parse and none is left, the application is constructed, and then, with `-check`, the
  -- factory gives a context, in which the application stops, and the announcement is written, or,
  -- without it, the run of the application ends with no error.
  pub run_command_iff :
      (w : W)
      → ((run_command shell options w).0 ≡ 0) ↔ (
          (ctx : Context) × (flags : Flags) × (options.context ≡ some ctx)
          × (ltb_ℤ options.shutdown_timeout (pos 0) ≡ false)
          × (shell.parse options.arguments ≡ ok flags)
          × (is_empty flags.rest ≡ true)
          × Serves ctx flags w)
  unfolding run_command
  run_command_iff w = in_context_iff w options.context
