-- ===== src/Application/Providers/Beans.antt =====
-- The beans of the application, with the words that an error names them by.
use Prim.Native.String.{String}

pub record BeanSource : Type 0 where
  pub name : String
  pub type_name : String
  pub module_name : String
  pub source : String

abbrev pub view_audit_bean : BeanSource
view_audit_bean = record {
  name = "newViewAudit";
  type_name = "*github.com/spice-framework/commerce/orders.ViewAudit";
  module_name = "github.com/spice-framework/commerce/orders";
  source =
      "spice:symbol:v1|function|42:github.com/spice-framework/commerce/orders|0:|12:NewViewAudit";
}

abbrev pub mux_bean : BeanSource
mux_bean = record {
  name = "newMux";
  type_name = "*net/http.ServeMux";
  module_name = "github.com/spice-framework/commerce/platform";
  source = "spice:symbol:v1|function|44:github.com/spice-framework/commerce/platform|0:|6:NewMux";
}

abbrev pub order_repository_bean : BeanSource
order_repository_bean = record {
  name = "orderRepository";
  type_name = "*github.com/spice-framework/commerce/storage.OrderRepository";
  module_name = "github.com/spice-framework/commerce/storage";
  source =
      "spice:symbol:v1|type|43:github.com/spice-framework/commerce/storage|0:|15:OrderRepository";
}

abbrev pub database_bean : BeanSource
database_bean = record {
  name = "newDatabase";
  type_name = "*github.com/spice-framework/commerce/storage.Database";
  module_name = "github.com/spice-framework/commerce/storage";
  source =
      "spice:symbol:v1|function|43:github.com/spice-framework/commerce/storage|0:|11:NewDatabase";
}

abbrev pub native_bean : BeanSource
native_bean = record {
  name = "native";
  type_name = "*database/sql.DB";
  module_name = "github.com/spice-framework/commerce/storage";
  source = "spice:symbol:v1|function|43:github.com/spice-framework/commerce/storage|0:|6:Native";
}

abbrev pub read_executor_bean : BeanSource
read_executor_bean = record {
  name = "readExecutor";
  type_name = "github.com/spice-framework/spice/data.Executor";
  module_name = "github.com/spice-framework/commerce/storage";
  source =
      "spice:symbol:v1|function|43:github.com/spice-framework/commerce/storage|0:|12:ReadExecutor";
}

abbrev pub transactions_bean : BeanSource
transactions_bean = record {
  name = "transactions";
  type_name = "*github.com/spice-framework/spice/data.Manager";
  module_name = "github.com/spice-framework/commerce/storage";
  source =
      "spice:symbol:v1|function|43:github.com/spice-framework/commerce/storage|0:|12:Transactions";
}

abbrev pub offline_processor_bean : BeanSource
offline_processor_bean = record {
  name = "offlineProcessor";
  type_name = "*github.com/spice-framework/commerce/payments.OfflineProcessor";
  module_name = "github.com/spice-framework/commerce/payments";
  source =
      "spice:symbol:v1|type|44:github.com/spice-framework/commerce/payments|0:|16:OfflineProcessor";
}

abbrev pub stripe_processor_bean : BeanSource
stripe_processor_bean = record {
  name = "stripeProcessor";
  type_name = "*github.com/spice-framework/commerce/payments.Service";
  module_name = "github.com/spice-framework/commerce/payments";
  source = "spice:symbol:v1|type|44:github.com/spice-framework/commerce/payments|0:|7:Service";
}

abbrev pub server_bean : BeanSource
server_bean = record {
  name = "newServer";
  type_name = "*github.com/spice-framework/commerce/platform.Server";
  module_name = "github.com/spice-framework/commerce/platform";
  source =
      "spice:symbol:v1|function|44:github.com/spice-framework/commerce/platform|0:|9:NewServer";
}

abbrev pub inventory_service_bean : BeanSource
inventory_service_bean = record {
  name = "newService";
  type_name = "*github.com/spice-framework/commerce/inventory.Service";
  module_name = "github.com/spice-framework/commerce/inventory";
  source =
      "spice:symbol:v1|function|45:github.com/spice-framework/commerce/inventory|0:|10:NewService";
}

abbrev pub orders_service_bean : BeanSource
orders_service_bean = record {
  name = "newService";
  type_name = "*github.com/spice-framework/commerce/orders.Service";
  module_name = "github.com/spice-framework/commerce/orders";
  source =
      "spice:symbol:v1|function|42:github.com/spice-framework/commerce/orders|0:|10:NewService";
}

abbrev pub system_clock_bean : BeanSource
system_clock_bean = record {
  name = "systemClock";
  type_name = "*github.com/spice-framework/commerce/notifications.SystemClock";
  module_name = "github.com/spice-framework/commerce/notifications";
  source =
      "spice:symbol:v1|type|49:github.com/spice-framework/commerce/notifications|0:|11:SystemClock";
}

abbrev pub delivery_bean : BeanSource
delivery_bean = record {
  name = "delivery";
  type_name = "*github.com/spice-framework/commerce/notifications.Delivery";
  module_name = "github.com/spice-framework/commerce/notifications";
  source =
      "spice:symbol:v1|type|49:github.com/spice-framework/commerce/notifications|0:|8:Delivery";
}

abbrev pub notifier_bean : BeanSource
notifier_bean = record {
  name = "notifier";
  type_name = "*github.com/spice-framework/commerce/notifications.Notifier";
  module_name = "github.com/spice-framework/commerce/notifications";
  source =
      "spice:symbol:v1|type|49:github.com/spice-framework/commerce/notifications|0:|8:Notifier";
}

abbrev pub controller_bean : BeanSource
controller_bean = record {
  name = "controller";
  type_name = "*github.com/spice-framework/commerce/orders.Controller";
  module_name = "github.com/spice-framework/commerce/orders";
  source = "spice:symbol:v1|type|42:github.com/spice-framework/commerce/orders|0:|10:Controller";
}
