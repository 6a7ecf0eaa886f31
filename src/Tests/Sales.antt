-- ===== src/Tests/Sales.antt =====
-- Placements of the shop over the memory driver, inside a transaction and beside an order that is there.
use commerce.Prelude.{
  ℕ, pos, ◌≡◌, ◌⊎◌, refl, [], ◌∷◌, false, Option, none, some, text, lookup, insert, trim_space,
  wrap, add_int, mul_int, sub_int, format_padded, text_eq, arith,
}
use commerce.Go.{background, ok}
use commerce.Inventory
use commerce.Payments
use commerce.Payments.{service_processor}
use commerce.Storage.{Executor}
use commerce.Storage.Memory.{
  Memory, Transaction, new_memory, begin_tx, insert_record, commit, rollback,
}
use commerce.Storage.Memory.Statements.{exec_context, normalize_sql, record_arguments}
use commerce.Storage.Memory.Histories.{Reach, Reach-Inv, start, next, begins}
use commerce.Storage.Memory.Liveness.{Begins, begin_possible}
use commerce.Storage.Repository.{order_repository, save, is_valid}
use commerce.Storage.Repository.Saves.Drivers.{answered, Stored}
use commerce.Orders.{
  Service, record_of, place, reserve_stock, allocate_id, pay, persist, compensate, order_id,
}
use commerce.Orders.Persistence.{place-Stored}
use commerce.Orders.Atomicity.{place_atomic}
use commerce.Orders.Views.{ViewAudit, new_view_audit}
use commerce.Tests.Placements.{shop_inventory, shop_stock, two, first_order}

-- The executor of connection 0.
abbrev pub connection : Executor Memory
connection = record {
  exec_context = λ m ctx statement arguments. answered (exec_context m 0 ctx statement arguments);
}

abbrev pub shop_over : Memory → Service (Option (Executor Memory)) Payments.Service Memory ViewAudit
shop_over store = record {
  settings = record { sku = text "widget"; unit_price_cents = pos 250 };
  next_id = pos 0;
  inventory = shop_inventory;
  payments = record { maximum_cents = pos 1000; approved = [] };
  store = store;
  views = new_view_audit;
  reads = some connection;
}

-- Connection 0 has a transaction.
abbrev pub begun : Memory
begun = (begin_tx new_memory 0 background).1

reach_begun : Reach begun
reach_begun = next start (begins 0 background)

-- A database that has the order already.
abbrev taken : Memory
taken = (insert_record new_memory 0 (record_of first_order)).1

placed :
    (place service_processor
      (order_repository none)
      (shop_over begun)
      (some connection)
      background
      two).0
    ≡ ok first_order
unfolding place reserve_stock allocate_id pay persist compensate Inventory.reserve Inventory.release
    Payments.authorize lookup insert wrap add_int sub_int mul_int trim_space Payments.payment_id
    order_id format_padded save is_valid exec_context insert_record normalize_sql record_arguments
    begin_tx
placed = refl

place-Stored_example :
    Stored begun 0
      (record_of first_order)
      (place service_processor
        (order_repository none)
        (shop_over begun)
        (some connection)
        background
        two).1.store
place-Stored_example =
    place-Stored service_processor none connection 0 (shop_over begun) background two first_order
      (λ m ctx statement arguments. refl) (Reach-Inv reach_begun) (ground arith) placed

abbrev holding : Transaction
holding = record {
  connection = 0;
  records = (first_order.id, record_of first_order) ∷ [];
  create_schema = false;
  done = false;
}

abbrev stored : Memory
stored =
    (place service_processor (order_repository none) (shop_over begun) (some connection) background
      two).1.store

-- The order's ID is taken, so the save is refused after the payment.
place_atomic_example :
    ((place service_processor
        (order_repository none)
        (shop_over taken)
        (some connection)
        background
        two).1.inventory
      ≡ shop_inventory)
    × ((place service_processor
          (order_repository none)
          (shop_over taken)
          (some connection)
          background
          two).1.store
        ≡ taken)
unfolding place reserve_stock allocate_id pay persist compensate Inventory.reserve Inventory.release
    Payments.authorize lookup insert wrap add_int sub_int mul_int trim_space Payments.payment_id
    order_id format_padded save is_valid exec_context insert_record normalize_sql record_arguments
place_atomic_example =
    place_atomic service_processor none connection 0 (shop_over taken) background two _
      (λ m ctx statement arguments. refl) shop_stock (ground arith) refl

begin_possible_example :
    Begins begun 0
    ⊎ ((t : ℕ) × (begun.active 0 ≡ some t)
        × Begins (commit begun t).1 0
        × Begins (rollback begun t).1 0)
begin_possible_example = begin_possible reach_begun 0
