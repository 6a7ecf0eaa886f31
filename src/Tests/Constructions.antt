-- ===== src/Tests/Constructions.antt =====
-- Constructions of the beans, with a coordinator that keeps the sources of its cleanups.
use Prim.Native.String.{String}
use commerce.Prelude.{
  ℕ, ◌≡◌, pos, Bool, true, false, List, [], ◌∷◌, ◌++◌, Option, none, some, text, refl,
}
use commerce.Go.{errors_new, background, Context, Result, ok, err}
use commerce.Notifications.{Mail}
use commerce.Application.Configuration.{Snapshot}
use commerce.Application.Providers.Beans.{database_bean}
use commerce.Application.Providers.Steps.{Types, Parts, no_overrides}
use commerce.Application.Providers.{Dependencies, construct_application_dependencies}
use commerce.Application.Providers.Aborts.{EndsFrom}
use commerce.Application.Features.{Framework, Options, Assembled, assemble}
use commerce.Application.Features.Cleanups.{Keeps, assemble-EndsFrom, assemble-Ensures}
use commerce.Application.Providers.Cleanups.{Ensures}
use commerce.Tests.Configurations.{defaults}
use commerce.Tests.Messages.{net, echo}

abbrev types : Types
types = record {
  Coordinator = List String;
  Cleanup = Unit {0};
  Mux = Unit {0};
  Store = Unit {0};
  Pool = Unit {0};
  Native = Unit {0};
  Executor = Unit {0};
  Manager = Unit {0};
  Views = Unit {0};
  Ctx = ℕ;
  Written = ℕ;
  Principal = ℕ;
  Instant = ℕ;
  Message = Unit {0};
  Mailer = Unit {0};
}

abbrev parts : Parts types
parts = record {
  register = λ c module_name source cleanup. (none, c ++ source ∷ []);
  abort = λ c ctx cause. (cause, []);
  new_topic = λ audit. ok tt;
  new_mux = tt;
  mux_handler = λ mux. echo;
  new_query = ok tt;
  parse_scheme = λ url. err (errors_new "no scheme");
  open_postgres = λ url insecure. err (errors_new "no server");
  cleanup = λ database. tt;
  sql_pool = λ database. some tt;
  read_executor = λ native. tt;
  transactions = λ native. ok tt;
  net = net;
  clock = 0;
  mail = record {
    parse_address = λ address. ok address;
    new_message = λ spec. ok tt;
    new_test = λ capacity. ok tt;
    new_smtp = λ settings. err (errors_new "no server");
  };
}

-- Every duration is ten seconds.
abbrev configured : Snapshot
configured = record defaults { duration = λ key. ok (pos 10000000000) }

abbrev outcome : Result (Dependencies types) × List String → Bool × List String
outcome (ok deps, c) = (true, c)
outcome (err e, c) = (false, c)

abbrev construction : Result (Dependencies types) × List String
construction =
    construct_application_dependencies types parts background (no_overrides types) configured []

construction_succeeds : outcome construction ≡ (true, database_bean.source ∷ [])
unfolding construct_application_dependencies commerce.Application.Providers.Steps.◌>>=◌
    commerce.Application.Providers.Steps.bean commerce.Application.Providers.Steps.acquired
    commerce.Application.Providers.Steps.keep_cleanup
    commerce.Application.Providers.Steps.abort_with
    commerce.Application.Providers.Steps.no_overrides commerce.Application.Providers.Steps.stepped
    commerce.Application.Providers.Steps.built commerce.Application.Bindings.bind_orders
    commerce.Application.Bindings.bind_string commerce.Application.Bindings.bind_int
    commerce.Application.Bindings.bind_storage commerce.Application.Bindings.bind_boolean
    commerce.Application.Bindings.bind_duration commerce.Application.Bindings.bind_payments
    commerce.Application.Bindings.bind_platform commerce.Application.Bindings.bind_inventory
    commerce.Application.Bindings.bind_notifications commerce.Storage.Database.new_database
    commerce.Prelude.trim_space commerce.Prelude.is_space commerce.Prelude.to_lower
    commerce.Prelude.to_upper commerce.Payments.new_service commerce.Platform.new_server
    commerce.Platform.authenticate commerce.Platform.developer_authentication
    commerce.Platform.loopback_host commerce.Inventory.new_service
    commerce.Notifications.new_delivery commerce.Notifications.new_notifier
    commerce.Notifications.validate_address commerce.Orders.new_service commerce.Prelude.wrap
    commerce.Prelude.contains_any
construction_succeeds = refl

abbrev framework : Framework types
framework = record {
  Executor = Context;
  Scheduler = Unit {0};
  new_executor = λ ctx concurrency. ok ctx;
  shutdown = λ executor. tt;
  new_scheduler = λ ctx service initial_delay delay. ok tt;
}

abbrev options : Options
options = record { async_context = none; schedule_context = none }

abbrev assembly : Result (Assembled framework parts background) × List String
assembly = assemble framework parts background options (no_overrides types) configured []

assemble-EndsFrom_example : EndsFrom parts background [] assembly
assemble-EndsFrom_example =
    assemble-EndsFrom framework parts background options (no_overrides types) configured []

assemble-Ensures_example : Ensures (Keeps framework parts background []) assembly
assemble-Ensures_example = assemble-Ensures framework parts background options configured []
