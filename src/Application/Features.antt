-- ===== src/Application/Features.antt =====
-- internal/spicegen/commerce/spice_features_gen.go, and its calls in spice_assembly_gen.go after the
-- construction of the beans: the executor of asynchronous tasks and the hooks of the lifecycle. The
-- executor and the scheduler of the framework are parameters.
pub mod Cleanups
use Prim.Native.String.{String}
use commerce.Prelude.{ℕ, ℤ, pos, ltb_ℤ, ◌||◌, List, [], ◌∷◌, Option, none, some, text}
use commerce.Go.{Error, errors_new, errorf, end, wrapped, Context, background, Result, fail_if}
use commerce.Inventory
use commerce.Application.Configuration.{Snapshot}
use commerce.Application.Providers.Steps.{
  Types, Parts, Overrides, Build, ◌>>=◌, built, stepped, keep_cleanup,
}
use commerce.Application.Providers.{Dependencies, construct_application_dependencies}

-- `context.WithoutCancel(ctx)` in place of a context that is nil.
abbrev or_without_cancel : Context → Option Context → Context
or_without_cancel ctx none = background
or_without_cancel ctx (some given) = given

-- What a hook runs.
pub data Action : Type 0 where
  migrate_database start_server stop_server start_schedule shutdown_schedule : Action

pub record Hook : Type 0 where
  pub id : String
  pub module_name : String
  pub start : Action
  pub stop : Option Action

abbrev pub hooks : List Hook
hooks =
    record {
      id =
          "spice:symbol:v1|function|43:github.com/spice-framework/commerce/storage|0:|11:NewDatabase";
      module_name = "github.com/spice-framework/commerce/storage";
      start = Action.migrate_database;
      stop = none;
    }
    ∷ record {
      id =
          "spice:symbol:v1|function|44:github.com/spice-framework/commerce/platform|0:|9:NewServer";
      module_name = "github.com/spice-framework/commerce/platform";
      start = Action.start_server;
      stop = some Action.stop_server;
    }
    ∷ record {
      id = "spice.schedule";
      module_name = "github.com/spice-framework/commerce";
      start = Action.start_schedule;
      stop = some Action.shutdown_schedule;
    }
    ∷ []

abbrev integer_error : Error → Error
integer_error e = errorf "decode generated async concurrency: %w" (wrapped e end)

abbrev executor_error : Error → Error
executor_error e = errorf "construct generated async executor: %w" (wrapped e end)

abbrev cleanup_error : Error → Error
cleanup_error e = errorf "register generated async cleanup: %w" (wrapped e end)

abbrev scheduler_error : Error → Error
scheduler_error e = errorf "construct generated scheduler: %w" (wrapped e end)

-- What the framework gives: an executor in a context with a number of tasks, its shutdown, and a
-- scheduler for the audit of the stock after an initial delay and then at a delay.
pub record Framework (t : Types) : Type 1 where
  pub Executor : Type 0
  pub Scheduler : Type 0
  pub new_executor : Context → ℤ → Result Executor
  pub shutdown : Executor → t.Cleanup
  pub new_scheduler : Context → Inventory.Service → ℕ → ℕ → Result Scheduler

pub record Options : Type 0 where
  pub async_context : Option Context
  pub schedule_context : Option Context

module _ {t : Types} (framework : Framework t) (parts : Parts t) (ctx : Context) where
  -- The registration of the executor's shutdown.
  unfoldable pub shut_down_later : framework.Executor → Build t.Coordinator framework.Executor
  shut_down_later executor c = keep_cleanup parts ctx cleanup_error executor (
      parts.register c "github.com/spice-framework/commerce" "spice.async"
        (framework.shutdown executor))

  -- The largest `int` bounds the tasks that run at once.
  unfoldable pub configure_generated_async :
      Options → Snapshot → Build t.Coordinator framework.Executor
  configure_generated_async options snapshot = do
    concurrency ←
        stepped parts ctx integer_error (snapshot.integer (text "spice.async.max-concurrency"))
    positive ←
        stepped parts ctx (λ e. e)
          (fail_if (ltb_ℤ concurrency (pos 1) || ltb_ℤ (pos 9223372036854775807) concurrency)
            (errors_new "decode generated async concurrency: value must fit a positive int"))
    executor ←
        stepped parts ctx executor_error
          (framework.new_executor (or_without_cancel ctx options.async_context) concurrency)
    shut_down_later executor

  unfoldable pub configure_generated_lifecycle :
      Options → Dependencies t → Build t.Coordinator (framework.Scheduler × List Hook)
  configure_generated_lifecycle options deps = do
    scheduler ← stepped parts ctx scheduler_error (
        framework.new_scheduler (or_without_cancel ctx options.schedule_context)
          deps.inventory_service 30000000000 300000000000)
    built (scheduler, hooks)

  pub record Assembled : Type 0 where
    pub dependencies : Dependencies t
    pub executor : framework.Executor
    pub scheduler : framework.Scheduler
    pub hooks : List Hook

  -- The assembly, from the construction of the beans up to the configuration of HTTP.
  unfoldable pub assemble : Options → Overrides t → Snapshot → Build t.Coordinator Assembled
  assemble options overrides snapshot = do
    deps ← construct_application_dependencies t parts ctx overrides snapshot
    executor ← configure_generated_async options snapshot
    configured ← configure_generated_lifecycle options deps
    built (record {
      dependencies = deps;
      executor = executor;
      scheduler = configured.0;
      hooks = configured.1;
    })
