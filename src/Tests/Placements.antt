-- ===== src/Tests/Placements.antt =====
-- Placements on one shop: ten widgets at 250 cents each, payments of up to 1000 cents.
use commerce.Prelude.{
  ℕ, ℤ, pos, ◌≡◌, refl, List, [], ◌∷◌, none, some, text, lookup, insert, trim_space, wrap, add_int,
  sub_int, mul_int, format_padded, arith, text_eq,
}
use commerce.Go.{Sentinel, sentinel, background, ok, err}
use commerce.Inventory
use commerce.Inventory.Stock.{IsStock}
use commerce.Inventory.Audited.{new_service-IsStock}
use commerce.Payments
use commerce.Payments.{Authorization, service_processor}
use commerce.Storage.{Record, Orders}
use commerce.Orders.{
  Service, Request, Order, place, reserve_stock, allocate_id, pay, persist, compensate, rejected,
  order_id, record_of,
}
use commerce.Notifications.{validate_receipt, safe_identifier}
use commerce.Orders.Controller.{receipt_of}
use commerce.Orders.Receipts.{place-receipt}
use commerce.Orders.Compensation.{place_restores}
use commerce.Orders.Steps.{Placed, place-Placed}
use commerce.Orders.Totals.{place_total_wraps, place_unsaved}
use commerce.Orders.Views.{ViewAudit, new_view_audit}
use commerce.Orders.Controller.{PlaceOrderRequest}

abbrev shop_settings : Inventory.Settings
shop_settings = record { sku = text "widget"; initial_stock = pos 10 }

abbrev pub shop_inventory : Inventory.Service
shop_inventory = record { stock = (text "widget", pos 10) ∷ [] }

pub shop_stock : IsStock shop_inventory.stock
unfolding Inventory.new_service trim_space
shop_stock = (new_service-IsStock shop_settings shop_inventory (ground arith) refl).1

-- A store that keeps every record, and one that refuses every record.
abbrev shelf : Orders (Unit {0}) (List Record)
shelf = record { save = λ x s ctx r. (ok tt, r ∷ s); find = λ x s ctx id. (ok none, s) }

abbrev full : Orders (Unit {0}) (List Record)
full = record {
  save = λ x s ctx r. (err (sentinel Sentinel.duplicate), s);
  find = λ x s ctx id. (ok none, s);
}

abbrev shop_at : ℕ → Service (Unit {0}) Payments.Service (List Record) ViewAudit
shop_at price = record {
  settings = record { sku = text "widget"; unit_price_cents = pos price };
  next_id = pos 0;
  inventory = shop_inventory;
  payments = record { maximum_cents = pos 1000; approved = [] };
  store = [];
  views = new_view_audit;
  reads = tt;
}

abbrev shop : Service (Unit {0}) Payments.Service (List Record) ViewAudit
shop = shop_at 250

abbrev pub two : Request
two = record { quantity = pos 2 }

abbrev pub first_order : Order
first_order = record {
  id = text "order-000001";
  sku = text "widget";
  quantity = pos 2;
  total_cents = pos 500;
  authorization_id = text "payment-000001";
}

placed_two : (place service_processor shelf shop tt background two).0 ≡ ok first_order
unfolding place reserve_stock allocate_id pay persist compensate Inventory.reserve Inventory.release
    Payments.authorize lookup insert wrap add_int sub_int mul_int trim_space Payments.payment_id
    order_id format_padded
placed_two = refl

place-Placed_example :
    Placed service_processor shelf shop tt background two first_order
      (place service_processor shelf shop tt background two).1
place-Placed_example =
    place-Placed service_processor shelf shop tt background two first_order placed_two

place-receipt_example : validate_receipt (receipt_of first_order) ≡ ok tt
unfolding safe_identifier
place-receipt_example = place-receipt shelf shop tt background two first_order refl placed_two

place_restores_example :
    (place service_processor full shop tt background two).1.inventory ≡ shop_inventory
unfolding place reserve_stock allocate_id pay persist compensate Inventory.reserve Inventory.release
    Payments.authorize lookup insert wrap add_int sub_int mul_int trim_space Payments.payment_id
    order_id format_padded
place_restores_example =
    place_restores service_processor full shop tt background two _ shop_stock refl

abbrev four : Request
four = record { quantity = pos 4 }

-- Four units at 2 ^ 62 + 25 cents each.
abbrev wrapped_order : Order
wrapped_order = record first_order { quantity = pos 4; total_cents = pos 100 }

placed_wrapped :
    (place service_processor shelf (shop_at 4611686018427387929) tt background four).0
    ≡ ok wrapped_order
unfolding place reserve_stock allocate_id pay persist compensate Inventory.reserve Inventory.release
    Payments.authorize lookup insert wrap add_int sub_int mul_int trim_space Payments.payment_id
    order_id format_padded
placed_wrapped = refl

place_total_wraps_example : wrapped_order.total_cents ≡ pos 100
place_total_wraps_example =
    place_total_wraps service_processor shelf (shop_at 4611686018427387929) tt background four
      wrapped_order 4 4611686018427387929 100 refl refl refl (ground arith) placed_wrapped

abbrev pub charged : Payments.Service
charged = record {
  maximum_cents = pos 1000;
  approved =
      record { id = text "payment-000001"; reference = text "order-000001"; amount = pos 500 } ∷ [];
}

place_unsaved_example : place service_processor full shop tt background two ≡ (
  err (rejected "%w: persist %s: %w" (allocate_id shop).0 (sentinel Sentinel.duplicate)),
  record shop { next_id = pos 1; payments = charged; store = [] },
)
unfolding place reserve_stock allocate_id pay persist compensate Inventory.reserve Inventory.release
    Payments.authorize lookup insert wrap add_int sub_int mul_int trim_space Payments.payment_id
    order_id format_padded
place_unsaved_example =
    place_unsaved service_processor full shop tt background two
      (record { id = text "payment-000001"; reference = text "order-000001"; amount = pos 500 })
      charged [] (record { stock = (text "widget", pos 8) ∷ [] }) (sentinel Sentinel.duplicate)
      shop_stock refl refl refl refl

abbrev request_of : ℤ → PlaceOrderRequest
request_of quantity = record { body = record { quantity = quantity } }

-- A store that has one order.
abbrev archive : Orders (Unit {0}) (List Record)
archive = record {
  save = λ x s ctx r. (ok tt, r ∷ s);
  find = λ x s ctx id. (ok (some (record_of first_order)), s);
}

abbrev viewed_once : ViewAudit
viewed_once = record { views = (text "order-000001", 1) ∷ [] }
