-- ===== src/Orders/Controller/Statuses.antt =====
-- The HTTP problem with which each rejected placement is answered, from the service's rejection on.
use Prim.Native.String.{String}
use commerce.Prelude.{
  ℤ, pos, leb_ℤ, ltb_ℤ, add_int, mul_int, ◌≡◌, refl, true, false, none, some, Text, is_empty,
  trim_space,
}
use commerce.Go.{Error, Sentinel, is_error, Context, live, later, ok, err}
use commerce.Inventory
use commerce.Inventory.{stock_of}
use commerce.Inventory.Stock.{IsStock, short_error, reserve_short}
use commerce.Payments.{Processor}
use commerce.Storage.{Record, Orders}
use commerce.Orders as Placement
use commerce.Orders.{
  Service, Request, Order, Publisher, place_checks, place_within, allocate_id, rejected, order_id,
  order_of, found, published,
}
use commerce.Orders.Totals.{place_unreserved, place_unpaid}
use commerce.Orders.Controller.{
  PlaceOrderRequest, place, answered, public_order_error, public_problem, status_of, order_response,
  order_not_found, get, shown,
}

place_checks_ok :
    (ctx : Context) (quantity : ℤ)
    → ctx 0 ≡ live
    → leb_ℤ quantity (pos 0) ≡ false
    → place_checks ctx quantity ≡ ok tt
place_checks_ok ctx quantity now positive = rw (now, positive) refl

-- The problem of a rejection is that of its cause.
public_problem_of :
    (m : String) (id : Text) (e : Error)
    → is_error e Sentinel.invalid_order ≡ false
    → is_error e Sentinel.insufficient_stock ≡ true
    → status_of (public_order_error (rejected m id e)) ≡ some 409
unfolding public_order_error public_problem is_error
public_problem_of m id e h k = rw (h, k) refl

declined_problem :
    (m : String) (id : Text) (e : Error)
    → is_error e Sentinel.invalid_order ≡ false
    → is_error e Sentinel.insufficient_stock ≡ false
    → is_error e Sentinel.declined ≡ true
    → status_of (public_order_error (rejected m id e)) ≡ some 409
unfolding public_order_error public_problem is_error
declined_problem m id e h k l = rw (h, k, l) refl

module _ {E P S V : Type 0} (processor : Processor P) (repository : Orders E S) where
  -- A quantity that is not positive is answered 400, and the service stays as it was.
  pub place_invalid :
      (w : Service E P S V) (x : E) (ctx : Context) (request : PlaceOrderRequest)
      → leb_ℤ request.body.quantity (pos 0) ≡ true
      → ((e : Error) × ((place processor repository w x ctx request).0 ≡ err e)
          × (status_of e ≡ some 400))
        × ((place processor repository w x ctx request).1 ≡ w)
  unfolding place answered public_order_error public_problem is_error place_within Placement.place
      Placement.checked
  place_invalid w x ctx request h = rw h ((_, refl, refl), refl)

  -- With a live context, a SKU that is named and a positive quantity that the stock does not
  -- cover, the answer is 409; one order ID is used up, nothing is charged and nothing is saved.
  place_out_of_stock :
      (w : Service E P S V) (x : E) (ctx : Context) (request : PlaceOrderRequest)
      → ctx 0 ≡ live
      → ctx 1 ≡ live
      → leb_ℤ request.body.quantity (pos 0) ≡ false
      → is_empty w.settings.sku ≡ false
      → ltb_ℤ (stock_of w.inventory w.settings.sku) request.body.quantity ≡ true
      → ((e : Error) × ((place processor repository w x ctx request).0 ≡ err e)
          × (status_of e ≡ some 409))
        × ((place processor repository w x ctx request).1
            ≡ record w { next_id = add_int w.next_id (pos 1) })
  unfolding place answered place_within is_error
  place_out_of_stock w x ctx request now then_ positive named short =
      let e = short_error w.inventory w.settings.sku request.body.quantity in
      let refused =
        reserve_short w.inventory (later 1 ctx) w.settings.sku request.body.quantity then_ named
          positive short in
      rw
        (place_unreserved processor repository w x ctx (record { quantity = request.body.quantity })
          e (place_checks_ok ctx request.body.quantity now positive) refused)
        ((_, refl, public_problem_of _ _ e refl refl), refl)

  -- From a well-formed stock, with a live context and a positive quantity that is reserved: a
  -- payment that the processor refuses with ErrDeclined, and neither ErrInvalidOrder nor
  -- ErrInsufficientStock, is answered 409. The stock is as it was, nothing is saved, and what
  -- is left is the used order ID and the processor's own state.
  place_declined :
      (w : Service E P S V) (x : E) (ctx : Context) (request : PlaceOrderRequest) (payments : P)
      (inventory : Inventory.Service) (e : Error)
      → IsStock w.inventory.stock
      → ctx 0 ≡ live
      → leb_ℤ request.body.quantity (pos 0) ≡ false
      → Inventory.reserve w.inventory (later 1 ctx) w.settings.sku request.body.quantity
        ≡ (ok tt, inventory)
      → processor.authorize w.payments
          (later 1 (later 1 ctx))
          (allocate_id w).0
          (mul_int request.body.quantity w.settings.unit_price_cents)
        ≡ (err e, payments)
      → is_error e Sentinel.invalid_order ≡ false
      → is_error e Sentinel.insufficient_stock ≡ false
      → is_error e Sentinel.declined ≡ true
      → ((f : Error) × ((place processor repository w x ctx request).0 ≡ err f)
          × (status_of f ≡ some 409))
        × ((place processor repository w x ctx request).1
            ≡ record w { next_id = add_int w.next_id (pos 1); payments = payments })
  unfolding place answered place_within
  place_declined w x ctx request payments inventory e stock now positive taken refused a b c =
      rw
        (place_unpaid processor repository w x ctx (record { quantity = request.body.quantity })
          payments inventory e stock (place_checks_ok ctx request.body.quantity now positive) taken
          refused)
        ((_, refl, declined_problem _ _ e a b c), refl)

module _ {E P S V : Type 0} (repository : Orders E S) (publisher : Publisher V) where
  -- When the store has the order and the publication of its view succeeds, the answer has the
  -- fields of the order, and what changed is what the read and that one publication left.
  pub get_found :
      (w : Service E P S V) (ctx : Context) (id : Text) (r : Record) (store : S) (views : V)
      → repository.find w.reads w.store ctx (trim_space id) ≡ (ok (some r), store)
      → publisher.publish w.views (later 1 ctx) (record { id = r.id }) ≡ (none, views)
      → get repository publisher w ctx id
        ≡ (ok (order_response (order_of r)), record w { store = store; views = views })
  unfolding get shown Placement.find found published
  get_found w ctx id r store views h k = rw (h, k) refl

  -- When the store does not have the order, the answer is 404, and no view is published.
  pub get_missing :
      (w : Service E P S V) (ctx : Context) (id : Text) (store : S)
      → repository.find w.reads w.store ctx (trim_space id) ≡ (ok none, store)
      → get repository publisher w ctx id ≡ (err order_not_found, record w { store = store })
  unfolding get shown Placement.find found
  get_missing w ctx id store h = rw h refl
