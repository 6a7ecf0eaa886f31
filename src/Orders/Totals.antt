-- ===== src/Orders/Totals.antt =====
-- What a placement charges, and what it leaves behind when it fails at each of its steps
-- (orders/service.go).
use commerce.Prelude.{
  ℕ, ℤ, pos, add_int, mul_int, mul_int-pos, mul_int_wraps, int_mod, int_half, ◌+◌, ◌*◌, ◌<◌, ◌≡◌,
  refl, ap, sym, ◌∙◌, Text,
}
use commerce.Go.{Error, Context, later, Result, ok, err}
use commerce.Inventory
use commerce.Inventory.Stock.{IsStock, reserve_err, release-reserve}
use commerce.Payments.{Processor, Authorization}
use commerce.Storage.{Orders}
use commerce.Orders.{
  Service, Request, Order, place, place_checks, reserve_stock, pay, persist, compensate, released,
  saved, authorized, reserved, checked, allocate_id, order_id, record_of, rejected, make_order,
}
use commerce.Orders.Steps.{place-Placed}

release_taken :
    {E P S V : Type 0} (w : Service E P S V) (ctx : Context) (quantity : ℤ)
    (inventory : Inventory.Service)
    → IsStock w.inventory.stock
    → Inventory.reserve w.inventory (later 1 ctx) w.settings.sku quantity ≡ (ok tt, inventory)
    → Inventory.release inventory w.settings.sku quantity ≡ (ok tt, w.inventory)
release_taken w ctx quantity inventory stock h =
    ap
      (λ (p : Result (Unit {0}) × Inventory.Service). Inventory.release p.1 w.settings.sku quantity)
      (sym h)
    ∙ release-reserve w.inventory (later 1 ctx) w.settings.sku quantity stock (ap (λ p. p.0) h)

module _ {E P S V : Type 0} (processor : Processor P) (repository : Orders E S) where
  placed_total :
      (w : Service E P S V) (x : E) (ctx : Context) (request : Request) (o : Order)
      → (place processor repository w x ctx request).0 ≡ ok o
      → o.total_cents ≡ mul_int request.quantity w.settings.unit_price_cents
  placed_total w x ctx request o h =
      ap (λ (o : Order). o.total_cents)
        (place-Placed processor repository w x ctx request o h).ordered

  -- When quantity times unit price fits in an `int`, an order that is placed charges exactly that.
  pub place_total :
      (w : Service E P S V) (x : E) (ctx : Context) (request : Request) (o : Order)
      (quantity price : ℕ)
      → request.quantity ≡ pos quantity
      → w.settings.unit_price_cents ≡ pos price
      → quantity * price < int_half
      → (place processor repository w x ctx request).0 ≡ ok o
      → o.total_cents ≡ pos (quantity * price)
  place_total w x ctx request o quantity price eq ep l h =
      placed_total w x ctx request o h ∙ rw (eq, ep) (mul_int-pos quantity price l)

  -- When quantity times unit price is 2 ^ 64 + k, for a k below 2 ^ 63, an order that is placed charges
  -- k cents.
  pub place_total_wraps :
      (w : Service E P S V) (x : E) (ctx : Context) (request : Request) (o : Order)
      (quantity price k : ℕ)
      → request.quantity ≡ pos quantity
      → w.settings.unit_price_cents ≡ pos price
      → quantity * price ≡ int_mod + k
      → k < int_half
      → (place processor repository w x ctx request).0 ≡ ok o
      → o.total_cents ≡ pos k
  place_total_wraps w x ctx request o quantity price k eq ep e l h =
      placed_total w x ctx request o h ∙ rw (eq, ep) (mul_int_wraps quantity price k e l)

  reserved_err :
      (w : Service E P S V) (x : E) (ctx : Context) (id : Text) (quantity : ℤ) (e : Error)
      (p : Result (Unit {0}) × Inventory.Service)
      → p.0 ≡ err e
      → p.1 ≡ w.inventory
      → reserved processor repository w x ctx id quantity p
        ≡ (err (rejected "%w: reserve stock for %s: %w" id e), w)
  unfolding reserved
  reserved_err w x ctx id quantity e (ok _, after) h k = cc
  reserved_err w x ctx id quantity e (err f, after) h k = cc

  -- A placement whose reservation fails returns ErrOrderRejected with that failure, and consumes an
  -- order ID, and nothing else: no payment is asked for and nothing is saved.
  pub place_unreserved :
      (w : Service E P S V) (x : E) (ctx : Context) (request : Request) (e : Error)
      → place_checks ctx request.quantity ≡ ok tt
      → (Inventory.reserve w.inventory (later 1 ctx) w.settings.sku request.quantity).0 ≡ err e
      → place processor repository w x ctx request ≡ (
        err (rejected "%w: reserve stock for %s: %w" (order_id (add_int w.next_id (pos 1))) e),
        record w { next_id = add_int w.next_id (pos 1) },
      )
  unfolding place checked reserve_stock allocate_id
  place_unreserved w x ctx request e passed h = rw passed (
      reserved_err (allocate_id w).1 x (later 1 ctx) (allocate_id w).0 request.quantity e _ h
        (reserve_err w.inventory (later 1 ctx) w.settings.sku request.quantity e h))

  -- When the stock is reserved and the payment refused, the stock goes back and nothing is saved.
  pub place_unpaid :
      (w : Service E P S V) (x : E) (ctx : Context) (request : Request) (payments : P)
      (inventory : Inventory.Service) (e : Error)
      → IsStock w.inventory.stock
      → place_checks ctx request.quantity ≡ ok tt
      → Inventory.reserve w.inventory (later 1 ctx) w.settings.sku request.quantity
        ≡ (ok tt, inventory)
      → processor.authorize w.payments
          (later 1 (later 1 ctx))
          (allocate_id w).0
          (mul_int request.quantity w.settings.unit_price_cents)
        ≡ (err e, payments)
      → place processor repository w x ctx request ≡ (
        err (rejected "%w: authorize payment for %s: %w" (allocate_id w).0 e),
        record w { next_id = add_int w.next_id (pos 1); payments = payments },
      )
  unfolding place checked reserve_stock reserved pay authorized allocate_id compensate released
  place_unpaid w x ctx request payments inventory e stock passed hi hp =
      rw (passed, hi, hp, release_taken w ctx request.quantity inventory stock hi) refl

  -- From a well-formed stock, when the checks pass, the stock is reserved and the payment
  -- approved, but the save fails: the stock goes back, and the payment stays approved, since
  -- the processor keeps the state in which the approval left it. One order ID is used up.
  pub place_unsaved :
      (w : Service E P S V) (x : E) (ctx : Context) (request : Request) (a : Authorization)
      (payments : P) (store : S) (inventory : Inventory.Service) (e : Error)
      → IsStock w.inventory.stock
      → place_checks ctx request.quantity ≡ ok tt
      → Inventory.reserve w.inventory (later 1 ctx) w.settings.sku request.quantity
        ≡ (ok tt, inventory)
      → processor.authorize w.payments
          (later 1 (later 1 ctx))
          (allocate_id w).0
          (mul_int request.quantity w.settings.unit_price_cents)
        ≡ (ok a, payments)
      → repository.save x w.store (later 1 (later 1 (later 1 ctx))) (
          record_of (
            make_order w
              (allocate_id w).0
              request.quantity
              (mul_int request.quantity w.settings.unit_price_cents)
              a))
        ≡ (err e, store)
      → place processor repository w x ctx request ≡ (
        err (rejected "%w: persist %s: %w" (allocate_id w).0 e),
        record w { next_id = add_int w.next_id (pos 1); payments = payments; store = store },
      )
  unfolding place checked reserve_stock reserved pay authorized persist saved allocate_id compensate
      released
  place_unsaved w x ctx request a payments store inventory e stock passed hi hp hs =
      rw (passed, hi, hp, hs, release_taken w ctx request.quantity inventory stock hi) refl
