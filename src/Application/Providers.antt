-- ===== src/Application/Providers.antt =====
-- internal/spicegen/commerce/spice_providers_gen.go with the constructors under sources/: the order in which
-- the beans of the application are made, from what the framework and the libraries give.
pub mod Aborts
pub mod Beans
pub mod Cleanups
pub mod Steps
use commerce.Prelude.{Bool, true, Option, none, some, Text, text}
use Prim.Native.String.{String}
use commerce.Go.{Error, errorf, end, wrapped, text_arg, Context, Result, ok, err, map_err}
use commerce.Inventory
use commerce.Payments
use commerce.Platform
use commerce.Platform.{Server}
use commerce.Storage.Database as Database
use commerce.Storage.Database.{Database}
use commerce.Notifications
use commerce.Notifications.{Delivery, Notifier, Mail}
use commerce.Orders as Placement
use commerce.Orders.{Service}
use commerce.Orders.Data as Orders
use commerce.Orders.Views.{ViewAudit, new_view_audit}
use commerce.Application.Configuration.{Snapshot}
use commerce.Application.Overrides.{Bean, BeanOverrides}
use commerce.Application.Bindings.{
  bind_orders, bind_inventory, bind_payments, bind_storage, bind_platform, bind_notifications,
}
use commerce.Application.Providers.Beans.{
  BeanSource, view_audit_bean, mux_bean, order_repository_bean, database_bean, native_bean,
  read_executor_bean, transactions_bean, offline_processor_bean, stripe_processor_bean, server_bean,
  inventory_service_bean, orders_service_bean, system_clock_bean, delivery_bean, notifier_bean,
  controller_bean,
}
use commerce.Application.Providers.Steps.{
  Types, BeanValue, Parts, Overrides, Build, ◌>>=◌, built, bean, stepped, binding_error,
  topic_error, new_order_repository, native_pool, plain, without_cleanup, with_cleanup,
}

module _ (t : Types) where
  pub record Dependencies : Type 0 where
    pub view_audit : ViewAudit
    pub order_events : t.Views
    pub mux : t.Mux
    pub orders_settings : Orders.Settings
    pub order_repository : t.Store
    pub storage_settings : Database.Settings
    pub database : Database t.Pool
    pub native : t.Native
    pub read_executor : t.Executor
    pub transactions : t.Manager
    pub offline_processor : Unit {0}
    pub payments_settings : Payments.Settings
    pub stripe_processor : Payments.Service
    pub platform_settings : Platform.Settings
    pub server : Server t.Ctx t.Written
    pub inventory_settings : Inventory.Settings
    pub inventory_service : Inventory.Service
    pub orders_service : Service t.Executor Payments.Service t.Store t.Views
    pub system_clock : t.Instant
    pub notifications_settings : Notifications.Settings
    pub delivery : Delivery t.Mailer
    pub notifier : Notifier t.Instant (Delivery t.Mailer) t.Mailer
    pub controller :
        Service t.Executor Payments.Service t.Store t.Views
        × Notifier t.Instant (Delivery t.Mailer) t.Mailer

  unfoldable pub construct_application_dependencies :
      Parts t → Context → Overrides t → Snapshot → Build t.Coordinator Dependencies
  construct_application_dependencies parts ctx overrides snapshot = do
    view_audit ← bean parts ctx view_audit_bean (overrides Bean.view_audit) (plain new_view_audit)
    order_events ← stepped parts ctx topic_error (parts.new_topic view_audit)
    mux ← bean parts ctx mux_bean (overrides Bean.mux) (plain parts.new_mux)
    orders_settings ←
        stepped parts ctx
          (binding_error "github.com/spice-framework/commerce/orders"
            "spice:symbol:v1|type|42:github.com/spice-framework/commerce/orders|0:|8:Settings")
          (bind_orders snapshot)
    order_repository ←
        bean parts ctx order_repository_bean (overrides Bean.order_repository)
          (without_cleanup order_repository_bean (new_order_repository parts.new_query))
    storage_settings ←
        stepped parts ctx
          (binding_error "github.com/spice-framework/commerce/storage"
            "spice:symbol:v1|type|43:github.com/spice-framework/commerce/storage|0:|8:Settings")
          (bind_storage snapshot)
    database ← bean parts ctx database_bean (overrides Bean.database) (
        with_cleanup database_bean parts.cleanup
          (Database.new_database parts.parse_scheme parts.open_postgres storage_settings))
    native ←
        bean parts ctx native_bean (overrides Bean.native)
          (without_cleanup native_bean (native_pool (parts.sql_pool database)))
    read_executor ←
        bean parts ctx read_executor_bean (overrides Bean.read_executor)
          (plain (parts.read_executor native))
    transactions ←
        bean parts ctx transactions_bean (overrides Bean.transactions)
          (without_cleanup transactions_bean (parts.transactions native))
    offline_processor ←
        bean parts ctx offline_processor_bean (overrides Bean.offline_processor) (plain tt)
    payments_settings ←
        stepped parts ctx
          (binding_error "github.com/spice-framework/commerce/payments"
            "spice:symbol:v1|type|44:github.com/spice-framework/commerce/payments|0:|8:Settings")
          (bind_payments snapshot)
    stripe_processor ←
        bean parts ctx stripe_processor_bean (overrides Bean.stripe_processor)
          (without_cleanup stripe_processor_bean (Payments.new_service payments_settings))
    platform_settings ←
        stepped parts ctx
          (binding_error "github.com/spice-framework/commerce/platform"
            "spice:symbol:v1|type|44:github.com/spice-framework/commerce/platform|0:|8:Settings")
          (bind_platform snapshot)
    server ← bean parts ctx server_bean (overrides Bean.server) (
        without_cleanup server_bean
          (Platform.new_server parts.net platform_settings (some (parts.mux_handler mux)) true))
    inventory_settings ←
        stepped parts ctx
          (binding_error "github.com/spice-framework/commerce/inventory"
            "spice:symbol:v1|type|45:github.com/spice-framework/commerce/inventory|0:|8:Settings")
          (bind_inventory snapshot)
    inventory_service ←
        bean parts ctx inventory_service_bean (overrides Bean.inventory_service)
          (without_cleanup inventory_service_bean (Inventory.new_service inventory_settings))
    orders_service ← bean parts ctx orders_service_bean (overrides Bean.orders_service) (
        without_cleanup orders_service_bean (
          Placement.new_service orders_settings (some inventory_service) (some stripe_processor)
            (some order_events) (some order_repository) (some read_executor)))
    system_clock ←
        bean parts ctx system_clock_bean (overrides Bean.system_clock) (plain parts.clock)
    notifications_settings ←
        stepped parts ctx
          (binding_error "github.com/spice-framework/commerce/notifications"
            "spice:symbol:v1|type|49:github.com/spice-framework/commerce/notifications|0:|8:Settings")
          (bind_notifications snapshot)
    delivery ← bean parts ctx delivery_bean (overrides Bean.delivery) (
        without_cleanup delivery_bean
          (Notifications.new_delivery parts.mail notifications_settings))
    notifier ← bean parts ctx notifier_bean (overrides Bean.notifier) (
        without_cleanup notifier_bean (
          Notifications.new_notifier notifications_settings (some delivery) (some delivery)
            (some system_clock)))
    controller ←
        bean parts ctx controller_bean (overrides Bean.controller)
          (plain (orders_service, notifier))
    built (record {
      view_audit = view_audit;
      order_events = order_events;
      mux = mux;
      orders_settings = orders_settings;
      order_repository = order_repository;
      storage_settings = storage_settings;
      database = database;
      native = native;
      read_executor = read_executor;
      transactions = transactions;
      offline_processor = offline_processor;
      payments_settings = payments_settings;
      stripe_processor = stripe_processor;
      platform_settings = platform_settings;
      server = server;
      inventory_settings = inventory_settings;
      inventory_service = inventory_service;
      orders_service = orders_service;
      system_clock = system_clock;
      notifications_settings = notifications_settings;
      delivery = delivery;
      notifier = notifier;
      controller = controller;
    })
