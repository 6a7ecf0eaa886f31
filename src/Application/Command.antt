-- ===== src/Application/Command.antt =====
-- internal/spicegen/commerce/spice_command_gen.go and spice_lifecycle_gen.go: the command that runs the
-- application. The lifecycle's coordinator, the flags and the operating system are parameters.
pub mod Exits
use Prim.Native.String.{String}
use commerce.Prelude.{
  ℕ, ℤ, pos, leb_ℤ, ltb_ℤ, Bool, true, false, not, List, [], ◌∷◌, ◌++◌, Option, none, some, Text,
  text, is_empty, if◌then◌else◌,
}
use commerce.Go.{Error, errors_new, Context, background, Result, ok, err}

abbrev pub exit_success : ℕ
exit_success = 0

abbrev pub exit_failure : ℕ
exit_failure = 1

abbrev pub exit_usage : ℕ
exit_usage = 2

-- The arguments after `flag.FlagSet.Parse`: whether `-check` is set, and how many are left.
pub record Flags : Type 0 where
  pub check : Bool
  pub rest : List Text

-- CommandOptions. A writer, a context or a factory that is not there is nil.
pub record CommandOptions : Type 0 where
  pub context : Option Context
  pub arguments : List Text
  pub shutdown_timeout : ℤ
  pub shutdown_context : Option (ℤ → Option Context)

-- What the command calls, over its world: an application of type `A` once it is constructed, and what `stdout` got.
-- `construct` is NewApplicationWithOptions; `run` and `stop` are those of the coordinator, which the
-- application's Run and Stop call; `print` is a write to `stdout`.
pub record Shell (W A : Type 0) : Type 0 where
  pub parse : List Text → Result Flags
  pub construct : W → Context → Result A × W
  pub shutdown_timeout : A → ℤ
  pub with_timeout : ℤ → Option Context
  pub run : W → A → Context → (W → Option Context) → Option Error × W
  pub stop : W → A → Context → Option Error × W
  pub print : W → Text → Option Error × W

-- `shutdownTimeout`, and the factory of shutdown contexts.
abbrev pub effective_timeout : ℤ → ℤ → ℤ
effective_timeout own asked = if ltb_ℤ (pos 0) asked then asked else own

abbrev pub factory : {W A : Type 0} → Shell W A → CommandOptions → ℤ → Option Context
factory shell options timeout = elim options.shutdown_context [
  | none ↦ shell.with_timeout timeout
  | some f ↦ f timeout
]

module _ {W A : Type 0} (shell : Shell W A) (options : CommandOptions) where
  -- stopCheckedApplication, with the context that the factory makes.
  unfoldable pub stop_checked : W → A → Option Context → Option Error × W
  stop_checked w app none = (
    some (
        errors_new
          "check application: shutdown context factory returned a nil context or cancel function"),
    w,
  )
  stop_checked w app (some shutdown) = shell.stop w app shutdown

  -- The exit code of a last call.
  exit_of : Option Error × W → ℕ × W
  exit_of (none, w) = (exit_success, w)
  exit_of (some e, w) = (exit_failure, w)

  announced : Option Error × W → ℕ × W
  unfolding exit_of
  announced (some e, w) = (exit_failure, w)
  announced (none, w) = exit_of (shell.print w (text "Spice commerce ready.\n"))

  -- What follows the construction.
  constructed : Context → Bool → Result A × W → ℕ × W
  unfolding announced exit_of stop_checked
  constructed ctx check (err e, w) = (exit_failure, w)
  constructed ctx true (ok app, w) = announced (
      stop_checked w app (
        factory shell options
          (effective_timeout (shell.shutdown_timeout app) options.shutdown_timeout)))
  constructed ctx false (ok app, w) = exit_of (
      shell.run w app ctx (λ _.
        factory shell options
          (effective_timeout (shell.shutdown_timeout app) options.shutdown_timeout)))

  parsed : Context → W → Result Flags → ℕ × W
  unfolding constructed
  parsed ctx w (err e) = (exit_usage, w)
  parsed ctx w (ok flags) =
      if not (is_empty flags.rest)
      then (exit_usage, w)
      else constructed ctx flags.check (shell.construct w ctx)

  in_context : W → Option Context → ℕ × W
  unfolding parsed
  in_context w none = (exit_failure, w)
  in_context w (some ctx) =
      if ltb_ℤ options.shutdown_timeout (pos 0)
      then (exit_failure, w)
      else parsed ctx w (shell.parse options.arguments)

  unfoldable pub run_command : W → ℕ × W
  unfolding in_context
  run_command w = in_context w options.context
