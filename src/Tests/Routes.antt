-- ===== src/Tests/Routes.antt =====
-- Requests to the routes of the application, over the memory driver.
use commerce.Prelude.{
  ℕ, ◌≡◌, refl, inl, inr, IsInt, pos, true, [], Option, none, some, text, lookup, insert, wrap,
  add_int, mul_int, sub_int, trim_space, format_padded, text_eq, arith,
}
use commerce.Go.{Problem, Context, background, Result, ok, err}
use commerce.Inventory
use commerce.Inventory.Stock.{Took}
use commerce.Payments
use commerce.Payments.{service_processor}
use commerce.Storage.Memory.{Memory, new_memory, begin_tx, insert_record, commit, rollback}
use commerce.Storage.Memory.Statements.{exec_context, normalize_sql, record_arguments}
use commerce.Storage.Memory.Transactions.{new_memory-Inv}
use commerce.Storage.{Executor}
use commerce.Storage.Repository.{order_repository, save, is_valid}
use commerce.Orders.{
  place, place_within, reserve_stock, allocate_id, pay, persist, compensate, order_id,
}
use commerce.Orders.Controller as Controller
use commerce.Orders.Controller.{
  PlaceOrderBody, PlaceOrderRequest, OrderResponse, CatalogResponse, order_response,
}
use commerce.Orders.Views.{ViewAudit}
use commerce.Application.{Web, Cache, Shop}
use commerce.Application.Routes.{Within, catalog_handler, catalog_terminal}
use commerce.Application.Routes.Settlements.{Till, Managed, refused, committed, lost, rolled_back}
use commerce.Application.Routes.Transactions.{commit_lost-Took}
use commerce.Application.Routes.Placements.{Answered, place_route, place_route-Answered}
use commerce.Application.Routes.Catalogs.{Served, IsCache, catalog_route-Served}
use commerce.Tests.Placements.{shop_stock, first_order}
use commerce.Tests.Sales.{connection, shop_over, begun}

abbrev request : PlaceOrderRequest
request = record { body = record { quantity = pos 2 } }

abbrev body_of_two : PlaceOrderBody
body_of_two = record { quantity = pos 2 }

abbrev internal : Problem
internal = record { type = "about:blank"; title = "Internal"; status = 500; detail = "" }

-- Requests that all ask for two units.
abbrev web : Web (Unit {0})
web = record {
  accept = λ r. [];
  path_value = λ r name. [];
  context = λ r. background;
  accepts_json = λ header. true;
  decode_json = λ r. ok body_of_two;
  validate = λ ctx check. check ctx;
  parameter = λ name values. ok none;
  map_error = λ r e. internal;
}

abbrev Work : Type 0
Work =
    Option (Executor Memory)
    → Context
    → Till Payments.Service ViewAudit
    → Result OrderResponse × Till Payments.Service ViewAudit

-- A transaction manager over connection 0.
abbrev committing :
    OrderResponse
    → Till Payments.Service ViewAudit
    → Result (Unit {0}) × Memory
    → Result OrderResponse × Till Payments.Service ViewAudit
committing a left (ok _, n) = (ok a, record left { store = n })
committing a left (err f, n) = (err f, record left { store = n })

abbrev ending :
    ℕ
    → Result OrderResponse × Till Payments.Service ViewAudit
    → Result OrderResponse × Till Payments.Service ViewAudit
ending t (ok a, left) = committing a left (commit left.store t)
ending t (err f, left) = (err f, record left { store = (rollback left.store t).1 })

abbrev beginning :
    Context
    → Work
    → Till Payments.Service ViewAudit
    → Result ℕ × Memory
    → Result OrderResponse × Till Payments.Service ViewAudit
beginning ctx work w (err e, m) = (err e, w)
beginning ctx work w (ok t, m) = ending t (work (some connection) ctx (record w { store = m }))

abbrev within : Within (Option (Executor Memory)) (Till Payments.Service ViewAudit)
within ctx work w = beginning ctx work w (begin_tx w.store 0 ctx)

module _ (ctx : Context) (work : Work) (w : Till Payments.Service ViewAudit) where
  committing-Managed :
      (t : ℕ) (m : Memory) (a : OrderResponse) (left : Till Payments.Service ViewAudit)
      (p : Result (Unit {0}) × Memory)
      → begin_tx w.store 0 ctx ≡ (ok t, m)
      → work (some connection) ctx (record w { store = m }) ≡ (ok a, left)
      → commit left.store t ≡ p
      → Managed 0 work w (committing a left p)
  committing-Managed t m a left (ok _, n) b h e =
      committed connection ctx ctx t m n a left (λ m ctx statement arguments. refl) b h e
  committing-Managed t m a left (err f, n) b h e =
      lost connection ctx ctx t m n a left f (λ m ctx statement arguments. refl) b h (inl (f, e))

  ending-Managed :
      (t : ℕ) (m : Memory) (p : Result OrderResponse × Till Payments.Service ViewAudit)
      → begin_tx w.store 0 ctx ≡ (ok t, m)
      → work (some connection) ctx (record w { store = m }) ≡ p
      → Managed 0 work w (ending t p)
  ending-Managed t m (ok a, left) b h = committing-Managed t m a left _ b h refl
  ending-Managed t m (err f, left) b h =
      rolled_back connection ctx ctx t m _ left f f _ (λ m ctx statement arguments. refl) b h refl

  beginning-Managed :
      (p : Result ℕ × Memory)
      → begin_tx w.store 0 ctx ≡ p
      → Managed 0 work w (beginning ctx work w p)
  beginning-Managed (err e, m) b = refused e
  beginning-Managed (ok t, m) b = ending-Managed t m _ b refl

abbrev shop : Shop (Till Payments.Service ViewAudit) (Unit {0}) (Option CatalogResponse)
shop = record { service = shop_over new_memory; notifier = tt; cache = none }

place_route-Answered_example :
    Answered web service_processor none 0 tt shop
      (place_route web service_processor none (λ next. next) within tt shop)
place_route-Answered_example =
    place_route-Answered web service_processor none (λ next. next) within 0
      (λ next ctx q s. inr (ctx, refl)) (λ r b h. two_is_int b h)
      (λ ctx request w int. beginning-Managed ctx _ w _ refl) tt shop new_memory-Inv shop_stock
  where
    two_is_int : (b : PlaceOrderBody) → ok body_of_two ≡ ok b → IsInt b.quantity
    two_is_int b h = ground (arith, h)

-- A cache of one entry that never expires.
abbrev cache : Cache (Option CatalogResponse)
cache = record { get = λ k ctx. (ok k, k); put = λ k ctx a ttl. (none, some a) }

cache_laws : IsCache cache (λ k. k)
cache_laws = record {
  hits = λ k k' ctx a h. cc h;
  looks = λ k ctx a h. h;
  puts = λ k ctx a b ttl h. inl (cc h);
}

catalog_route-Served_example :
    Served
      (λ k. k)
      shop
      (catalog_handler web (λ ctx q s. catalog_terminal cache (pos 300) ctx q s) tt shop)
catalog_route-Served_example =
    catalog_route-Served (λ k. k) cache cache_laws (pos 300) web (λ next. next)
      (λ next ctx q s. inr (ctx, refl)) tt shop (λ a h. cc h)

-- The answer to a placement, in full.
abbrev sale : OrderResponse
sale = order_response first_order

abbrev begun_shop : Till Payments.Service ViewAudit
begun_shop = record (shop_over new_memory) { store = begun }

abbrev left_inside : Till Payments.Service ViewAudit
left_inside =
    (Controller.place service_processor (order_repository none) begun_shop (some connection)
      background request).1

placed_inside :
    Controller.place service_processor
      (order_repository none)
      begun_shop
      (some connection)
      background
      request
    ≡ (ok sale, left_inside)
unfolding Controller.place place_within place reserve_stock allocate_id pay persist compensate
    Inventory.reserve Inventory.release Payments.authorize lookup insert wrap add_int sub_int
    mul_int trim_space Payments.payment_id order_id format_padded save is_valid exec_context
    insert_record normalize_sql record_arguments begin_tx
placed_inside = refl

-- The context ends before the commit.
commit_lost-Took_example :
    ((rollback left_inside.store 0).1.records ≡ [])
    × Took (shop_over new_memory).inventory (text "widget") (pos 2) left_inside.inventory
unfolding begin_tx
commit_lost-Took_example =
    commit_lost-Took service_processor none 0 request (ground arith) (shop_over new_memory)
      left_inside connection background background 0 begun (rollback left_inside.store 0).1 sale
      new_memory-Inv shop_stock (λ m ctx statement arguments. refl) refl placed_inside
      (inr (_, refl))
