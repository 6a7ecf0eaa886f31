-- ===== src/Application/Features/Cleanups.antt =====
-- What an assembly asks the coordinator of the lifecycle, when it fails and when it succeeds.
use commerce.Prelude.{List, [], ◌∷◌, Option, none, some, ◌≡◌, refl}
use commerce.Go.{Context}
use commerce.Application.Configuration.{Snapshot}
use commerce.Application.Providers.Steps.{Types, Parts, Overrides, no_overrides}
use commerce.Application.Providers.{Dependencies}
use commerce.Application.Providers.Aborts.{
  EndsFrom, Ends, bind-Ends, stepped-Ends, built-Ends, keep_cleanup-EndsFrom,
  construct_application_dependencies-Ends,
}
use commerce.Application.Providers.Cleanups.{
  Ensures, bind-Ensures, Ensures-map, stepped_then-Ensures, built-Ensures, keep_cleanup-Ensures,
  DatabaseKept, construct_application_dependencies-Ensures,
}
use commerce.Application.Features.{
  Framework, Options, Assembled, shut_down_later, Hook, hooks, Action, configure_generated_async,
  configure_generated_lifecycle, assemble, cleanup_error,
}

-- What the hooks run, in their order.
abbrev pub run_at_start : List Hook → List Action
run_at_start [] = []
run_at_start (hook ∷ rest) = hook.start ∷ run_at_start rest

abbrev pub run_at_stop : List Hook → List (Option Action)
run_at_stop [] = []
run_at_stop (hook ∷ rest) = hook.stop ∷ run_at_stop rest

module _ {t : Types} (framework : Framework t) (parts : Parts t) (ctx : Context) where
  shut_down_later-Ends :
      (executor : framework.Executor)
      → Ends parts ctx (shut_down_later framework parts ctx executor)
  unfolding Ends shut_down_later
  shut_down_later-Ends executor c =
      keep_cleanup-EndsFrom parts ctx cleanup_error "github.com/spice-framework/commerce"
        "spice.async" executor (framework.shutdown executor) c _ refl

  configure_generated_async-Ends :
      (options : Options)
      → (snapshot : Snapshot)
      → Ends parts ctx (configure_generated_async framework parts ctx options snapshot)
  unfolding configure_generated_async
  configure_generated_async-Ends options snapshot =
      search (bind-Ends, stepped-Ends, shut_down_later-Ends)

  configure_generated_lifecycle-Ends :
      (options : Options)
      → (deps : Dependencies t)
      → Ends parts ctx (configure_generated_lifecycle framework parts ctx options deps)
  unfolding configure_generated_lifecycle
  configure_generated_lifecycle-Ends options deps = search (bind-Ends, stepped-Ends, built-Ends)

  assemble-Ends :
      (options : Options)
      → (overrides : Overrides t) → (snapshot : Snapshot)
      → Ends parts ctx (assemble framework parts ctx options overrides snapshot)
  unfolding assemble
  assemble-Ends options overrides snapshot =
      search
        (
          bind-Ends, construct_application_dependencies-Ends, configure_generated_async-Ends,
          configure_generated_lifecycle-Ends, built-Ends,
        )
        depth 12

  -- An assembly up to the configuration of HTTP that succeeds has asked the coordinator for registrations
  -- of cleanups only, each of which succeeded. One that fails, at a bean, a setting, the executor or the
  -- scheduler, has asked it for such registrations, then perhaps for one that it refused, and as its last
  -- step for one abort, whose error is the one that it returns.
  pub assemble-EndsFrom :
      (options : Options)
      → (overrides : Overrides t) → (snapshot : Snapshot) → (c : t.Coordinator)
      → EndsFrom parts ctx c (assemble framework parts ctx options overrides snapshot c)
  unfolding Ends
  assemble-EndsFrom = assemble-Ends

  shut_down_later-Ensures :
      (Q : framework.Executor → t.Coordinator → Type 0)
      → (executor : framework.Executor) → (c : t.Coordinator)
      → ((d : t.Coordinator)
          → parts.register c "github.com/spice-framework/commerce" "spice.async"
              (framework.shutdown executor)
            ≡ (none, d)
          → Q executor d)
      → Ensures Q (shut_down_later framework parts ctx executor c)
  unfolding shut_down_later
  shut_down_later-Ensures Q executor c p =
      keep_cleanup-Ensures parts ctx Q cleanup_error executor _ p

  configure_generated_async-Ensures :
      (Q : framework.Executor → t.Coordinator → Type 0)
      → (options : Options) → (snapshot : Snapshot) → (c : t.Coordinator)
      → ((executor : framework.Executor)
          → (d : t.Coordinator)
          → parts.register c "github.com/spice-framework/commerce" "spice.async"
              (framework.shutdown executor)
            ≡ (none, d)
          → Q executor d)
      → Ensures Q (configure_generated_async framework parts ctx options snapshot c)
  unfolding configure_generated_async
  configure_generated_async-Ensures Q options snapshot c p =
      stepped_then-Ensures parts ctx Q _ c _ _ (λ concurrency.
        stepped_then-Ensures parts ctx Q _ c _ _ (λ positive.
          stepped_then-Ensures parts ctx Q _ c _ _
            (λ executor. shut_down_later-Ensures Q executor c (p executor))))

  configure_generated_lifecycle-Ensures :
      (Q : framework.Scheduler × List Hook → t.Coordinator → Type 0)
      → (options : Options) → (deps : Dependencies t) → (c : t.Coordinator)
      → ((scheduler : framework.Scheduler) → Q (scheduler, hooks) c)
      → Ensures Q (configure_generated_lifecycle framework parts ctx options deps c)
  unfolding configure_generated_lifecycle
  configure_generated_lifecycle-Ensures Q options deps c p =
      stepped_then-Ensures parts ctx Q _ c _ _
        (λ scheduler. built-Ensures parts ctx Q _ c (p scheduler))

  -- The two cleanups of an assembly: the database's, and after it the executor's shutdown. Its hooks
  -- start the database's migration, the server and the schedule, and stop the latter two.
  pub Keeps : t.Coordinator → Assembled framework parts ctx → t.Coordinator → Type 0
  Keeps c a d =
      (m : t.Coordinator) × DatabaseKept parts ctx c a.dependencies m
      × (parts.register m "github.com/spice-framework/commerce" "spice.async"
            (framework.shutdown a.executor)
          ≡ (none, d))
      × (run_at_start a.hooks
          ≡ Action.migrate_database ∷ Action.start_server ∷ Action.start_schedule ∷ [])
      × (run_at_stop a.hooks ≡ none ∷ some Action.stop_server ∷ some Action.shutdown_schedule ∷ [])

  -- An assembly without overrides, up to the configuration of HTTP, when it succeeds, has asked the
  -- coordinator for two things only, both of which it took: to register the cleanup of the assembly's
  -- database, and then the shutdown of its executor. The hooks are, in this order, the migration of the
  -- database, with nothing to stop, the server and the schedule, which are started and stopped.
  pub assemble-Ensures :
      (options : Options)
      → (snapshot : Snapshot) → (c : t.Coordinator)
      → Ensures (Keeps c) (assemble framework parts ctx options (no_overrides t) snapshot c)
  unfolding assemble Keeps
  assemble-Ensures options snapshot c = bind-Ensures _ _ _ c (
      Ensures-map {P = DatabaseKept parts ctx c} _
        (construct_application_dependencies-Ensures parts ctx snapshot c)
        (λ deps m taken. bind-Ensures _ _ _ m (
          configure_generated_async-Ensures _ options snapshot m (λ executor d later_taken.
            bind-Ensures _ _ _ d (
              configure_generated_lifecycle-Ensures _ options deps d (λ scheduler.
                built-Ensures parts ctx _ _ d (m, taken, later_taken, refl, refl)))))))
