-- ===== src/Orders/Data.antt =====
-- orders/: the data of an order, the settings, the publisher of views and the service with its
-- dependencies.
use commerce.Prelude.{ℤ, Option, Text}
use commerce.Go.{Error, Context}
use commerce.Inventory
use commerce.Storage.{Record}

pub record Settings : Type 0 where
  pub sku : Text
  pub unit_price_cents : ℤ

pub record Request : Type 0 where
  pub quantity : ℤ

pub record Order : Type 0 where
  pub id : Text
  pub sku : Text
  pub quantity : ℤ
  pub total_cents : ℤ
  pub authorization_id : Text

pub record OrderViewed : Type 0 where
  pub id : Text

-- The conversions `storage.Record(order)` and `Order(record)`.
abbrev pub record_of : Order → Record
record_of o = record {
  id = o.id;
  sku = o.sku;
  quantity = o.quantity;
  total_cents = o.total_cents;
  authorization_id = o.authorization_id;
}

abbrev pub order_of : Record → Order
order_of r = record {
  id = r.id;
  sku = r.sku;
  quantity = r.quantity;
  total_cents = r.total_cents;
  authorization_id = r.authorization_id;
}

-- `event.Publisher[OrderViewed]` over the state of its listeners.
pub record Publisher (V : Type 0) : Type 0 where
  pub publish : V → Context → OrderViewed → Option Error × V

-- The service with its dependencies: `E` is the handle of an executor, `P` the state of the processor,
-- `S` of the store, `V` of the listeners.
pub record Service (E P S V : Type 0) : Type 0 where
  pub settings : Settings
  pub next_id : ℤ
  pub inventory : Inventory.Service
  pub payments : P
  pub store : S
  pub views : V
  pub reads : E
