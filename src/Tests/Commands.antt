-- ===== src/Tests/Commands.antt =====
-- The command with `-check`, over a world that counts what it is asked for.
use commerce.Prelude.{
  ℕ, ◌+◌, pos, ltb_ℤ, ◌≡◌, ◌↔◌, refl, true, false, [], ◌∷◌, none, some, text, is_empty,
}
use commerce.Go.{background, Context, ok}
use commerce.Application.Command.{Flags, CommandOptions, Shell, run_command}
use commerce.Application.Command.Exits.{Serves, run_command_iff}

abbrev checking : CommandOptions
checking = record {
  context = some background;
  arguments = text "-check" ∷ [];
  shutdown_timeout = pos 0;
  shutdown_context = none;
}

abbrev shell : Shell ℕ (Unit {0})
shell = record {
  parse = λ arguments. ok (record { check = true; rest = [] });
  construct = λ w ctx. (ok tt, w + 1);
  shutdown_timeout = λ app. pos 10;
  with_timeout = λ timeout. some background;
  run = λ w app ctx factory. (none, w + 100);
  stop = λ w app ctx. (none, w + 10);
  print = λ w line. (none, w);
}

-- The application is constructed and stopped, and does not run.
checked : run_command shell checking 0 ≡ (0, 11)
unfolding run_command
checked = refl

run_command_iff_example : ((run_command shell checking 0).0 ≡ 0) ↔ (
    (ctx : Context) × (flags : Flags) × (checking.context ≡ some ctx)
    × (ltb_ℤ checking.shutdown_timeout (pos 0) ≡ false)
    × (shell.parse checking.arguments ≡ ok flags)
    × (is_empty flags.rest ≡ true)
    × Serves shell checking ctx flags 0)
run_command_iff_example = run_command_iff shell checking 0
