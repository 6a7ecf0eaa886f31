-- ===== src/Application/Providers/Steps.antt =====
-- internal/spicegen/commerce/spice_providers_gen.go, what it does for each bean: it is overridden or
-- constructed, its cleanup is registered, and a failure aborts the construction.
use commerce.Prelude.{Bool, Option, none, some, Text, text}
use Prim.Native.String.{String}
use commerce.Go.{
  Error, errors_new, errorf, end, wrapped, text_arg, Context, Result, ok, err, map_err,
}
use commerce.Inventory
use commerce.Payments
use commerce.Platform
use commerce.Platform.{Server}
use commerce.Storage.Database.{Database}
use commerce.Notifications.{Delivery, Notifier, Mail}
use commerce.Orders.{Service}
use commerce.Orders.Views.{ViewAudit}
use commerce.Application.Overrides.{Bean, BeanOverrides}
use commerce.Application.Providers.Beans.{BeanSource}

abbrev pub registration_error : BeanSource → Error → Error
registration_error b e =
    errorf "register cleanup for bean %s (source %s): %w"
      (text_arg (text b.name) (text_arg (text b.source) (wrapped e end)))

abbrev pub construction_error : BeanSource → Error → Error
construction_error b e = errorf "construct bean %s (%s, source %s): %w" (
    text_arg (text b.name) (text_arg (text b.type_name) (text_arg (text b.source) (wrapped e end))))

abbrev pub binding_error : String → String → Error → Error
binding_error module_name source e =
    errorf "bind configuration %s.Settings for bean Settings (source %s): %w"
      (text_arg (text module_name) (text_arg (text source) (wrapped e end)))

abbrev pub topic_error : Error → Error
topic_error e =
    errorf
      "construct event topic spice:symbol:v1|function|42:github.com/spice-framework/commerce/orders|0:|11:OrderEvents (github.com/spice-framework/spice/event.Publisher[github.com/spice-framework/commerce/orders.OrderViewed]): %w"
      (wrapped e end)

-- What gives a bean, with its cleanup if it has one.
abbrev pub Acquired : Type 0 → Type 0 → Type 0
Acquired Z A = Result (A × Option Z)

-- A step of the construction, from one state of the lifecycle's coordinator to the next.
abbrev pub Build : Type 0 → Type 0 → Type 0
Build C A = C → Result A × C

abbrev pub then_built : {C A B : Type 0} → (A → Build C B) → Result A × C → Result B × C
then_built f (err e, c) = (err e, c)
then_built f (ok a, c) = f a c

infixl 5 ◌>>=◌
unfoldable pub ◌>>=◌ : {C A B : Type 0} → Build C A → (A → Build C B) → Build C B
◌>>=◌ m f c = then_built f (m c)

unfoldable pub built : {C A : Type 0} → A → Build C A
built a c = (ok a, c)

-- The types that the beans have from elsewhere, and the state of the lifecycle's coordinator with the
-- cleanups that it keeps.
pub record Types : Type 1 where
  pub Coordinator : Type 0
  pub Cleanup : Type 0
  pub Mux : Type 0
  pub Store : Type 0
  pub Pool : Type 0
  pub Native : Type 0
  pub Executor : Type 0
  pub Manager : Type 0
  pub Views : Type 0
  pub Ctx : Type 0
  pub Written : Type 0
  pub Principal : Type 0
  pub Instant : Type 0
  pub Message : Type 0
  pub Mailer : Type 0

module _ (t : Types) where
  -- The type of each bean that can be replaced.
  abbrev pub BeanValue : Bean → Type 0
  BeanValue Bean.view_audit = ViewAudit
  BeanValue Bean.mux = t.Mux
  BeanValue Bean.order_repository = t.Store
  BeanValue Bean.database = Database t.Pool
  BeanValue Bean.native = t.Native
  BeanValue Bean.read_executor = t.Executor
  BeanValue Bean.transactions = t.Manager
  BeanValue Bean.offline_processor = Unit {0}
  BeanValue Bean.stripe_processor = Payments.Service
  BeanValue Bean.server = Server t.Ctx t.Written
  BeanValue Bean.inventory_service = Inventory.Service
  BeanValue Bean.orders_service = Service t.Executor Payments.Service t.Store t.Views
  BeanValue Bean.system_clock = t.Instant
  BeanValue Bean.delivery = Delivery t.Mailer
  BeanValue Bean.notifier = Notifier t.Instant (Delivery t.Mailer) t.Mailer
  BeanValue Bean.controller =
      Service t.Executor Payments.Service t.Store t.Views
      × Notifier t.Instant (Delivery t.Mailer) t.Mailer

  -- What an override acquires in place of a bean.
  abbrev pub Overrides : Type 0
  Overrides = BeanOverrides (λ b. Context → Acquired t.Cleanup (BeanValue b))

  unfoldable pub no_overrides : Overrides
  no_overrides b = none

  -- What the construction calls: the parts of the database and of the mail, the event topic, the mux, and
  -- RegisterModuleCleanup and Abort of the coordinator.
  pub record Parts : Type 0 where
    pub register : t.Coordinator → String → String → t.Cleanup → Option Error × t.Coordinator
    pub abort : t.Coordinator → Context → Error → Error × t.Coordinator
    pub new_topic : ViewAudit → Result t.Views
    pub new_mux : t.Mux
    pub mux_handler : t.Mux → Platform.Handler t.Ctx t.Written
    pub new_query : Result t.Store
    pub parse_scheme : Text → Result Text
    pub open_postgres : Text → Bool → Result t.Pool
    pub cleanup : Database t.Pool → t.Cleanup
    pub sql_pool : Database t.Pool → Option t.Native
    pub read_executor : t.Native → t.Executor
    pub transactions : t.Native → Result t.Manager
    pub net : Platform.Net t.Ctx t.Written t.Principal
    pub clock : t.Instant
    pub mail : Mail t.Instant t.Message t.Mailer

module _ {t : Types} (parts : Parts t) (ctx : Context) where
  -- `return nil, application.coordinator.Abort(ctx, …)`.
  unfoldable pub abort_with : {A : Type 0} → Error → Build t.Coordinator A
  abort_with e c = (err (parts.abort c ctx e).0, (parts.abort c ctx e).1)

  unfoldable pub keep_cleanup :
      {A : Type 0} → (Error → Error) → A → Option Error × t.Coordinator → Result A × t.Coordinator
  unfolding abort_with
  keep_cleanup f a (none, c) = (ok a, c)
  keep_cleanup f a (some e, c) = abort_with (f e) c

  unfoldable pub acquired : {A : Type 0} → BeanSource → Acquired t.Cleanup A → Build t.Coordinator A
  unfolding abort_with keep_cleanup
  acquired b (err e) c = abort_with (construction_error b e) c
  acquired b (ok (a, none)) c = (ok a, c)
  acquired b (ok (a, some z)) c =
      keep_cleanup (registration_error b) a (parts.register c b.module_name b.source z)

  -- One bean, by its override or by its constructor.
  unfoldable pub bean :
      {A : Type 0}
      → BeanSource
      → Option (Context → Acquired t.Cleanup A)
      → Acquired t.Cleanup A
      → Build t.Coordinator A
  unfolding acquired
  bean b none constructed = acquired b constructed
  bean b (some override) constructed = acquired b (override ctx)

  -- A step that only may fail, with the error that the construction is abort_with with.
  unfoldable pub stepped : {A : Type 0} → (Error → Error) → Result A → Build t.Coordinator A
  unfolding abort_with
  stepped f (ok a) c = (ok a, c)
  stepped f (err e) c = abort_with (f e) c

-- A constructor that cannot fail, one that gives no cleanup, and the database with its own.
abbrev pub plain : {Z A : Type 0} → A → Acquired Z A
plain a = ok (a, none)

abbrev pub without_cleanup : {Z A : Type 0} → BeanSource → Result A → Acquired Z A
without_cleanup b (ok a) = ok (a, none)
without_cleanup b (err e) = err (construction_error b e)

abbrev pub with_cleanup : {Z A : Type 0} → BeanSource → (A → Z) → Result A → Acquired Z A
with_cleanup b close (ok a) = ok (a, some (close a))
with_cleanup b close (err e) = err (construction_error b e)

-- NewOrderRepository of storage/order_repository.go, from the query that the framework compiles.
abbrev pub new_order_repository : {A : Type 0} → Result A → Result A
new_order_repository query =
    map_err (λ e. errorf "construct order repository: %w" (wrapped e end)) query

-- Native of storage/native_bean.go, from the pool that the database holds.
abbrev pub native_pool : {A : Type 0} → Option A → Result A
native_pool none = err (errors_new "provide commerce database: database is nil")
native_pool (some native) = ok native
