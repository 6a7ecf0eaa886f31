-- ===== src/Orders/Compensation.antt =====
-- The compensation of `place` (orders/service.go): what each step leaves of the inventory.
use commerce.Prelude.{ℤ, ◌≡◌, refl, ap, sym, ◌∙◌, Text}
use commerce.Go.{Error, Context, later, Result, ok, err}
use commerce.Inventory
use commerce.Inventory.Stock.{IsStock, reserve_err, release-reserve}
use commerce.Payments.{Processor, Authorization}
use commerce.Storage.{Orders}
use commerce.Orders.{
  Service, Request, Order, place, place_checks, reserve_stock, pay, persist, compensate, saved,
  authorized, reserved, checked, allocate_id, record_of, make_order,
}

-- Giving the stock back after it was reserved restores it, and the failure is returned as it is.
compensate_lem :
    {E P S V : Type 0} (w : Service E P S V) (before : Inventory.Service) (quantity : ℤ) (id : Text)
    (e : Error)
    → Inventory.release w.inventory w.settings.sku quantity ≡ (ok tt, before)
    → compensate w quantity id e ≡ (err e, record w { inventory = before })
unfolding compensate
compensate_lem w before quantity id e h = rw (h, compensate)

module _ {E P S V : Type 0} (processor : Processor P) (repository : Orders E S)
    (before : Inventory.Service) (quantity : ℤ) where
  -- The stock that a service has given out can go back to what it was before.
  abbrev Reserved : Service E P S V → Type 0
  Reserved w = Inventory.release w.inventory w.settings.sku quantity ≡ (ok tt, before)

  -- What a step leaves of the inventory, if it fails.
  abbrev Restores : Result Order × Service E P S V → Type 0
  Restores (ok o, w) = Unit {0}
  Restores (err e, w) = w.inventory ≡ before

  compensate-Restores :
      (w : Service E P S V) (id : Text) (e : Error)
      → Reserved w
      → Restores (compensate w quantity id e)
  compensate-Restores w id e h = rw (compensate_lem w before quantity id e h) refl

  saved-Restores :
      (w : Service E P S V) (o : Order) (p : Result (Unit {0}) × S)
      → o.quantity ≡ quantity
      → Reserved w
      → Restores (saved processor repository w o p)
  unfolding saved
  saved-Restores w o (ok _, store) e h = tt
  saved-Restores w o (err f, store) e h = rw e (compensate-Restores _ o.id _ h)

  persist-Restores :
      (w : Service E P S V) (x : E) (ctx : Context) (o : Order)
      → o.quantity ≡ quantity
      → Reserved w
      → Restores (persist processor repository w x ctx o)
  unfolding persist
  persist-Restores w x ctx o e h =
      saved-Restores w o (repository.save x w.store ctx (record_of o)) e h

  authorized-Restores :
      (w : Service E P S V) (x : E) (ctx : Context) (id : Text) (total : ℤ)
      (p : Result Authorization × P)
      → Reserved w
      → Restores (authorized processor repository w x ctx id quantity total p)
  unfolding authorized
  authorized-Restores w x ctx id total (err f, payments) h =
      compensate-Restores (record w { payments = payments }) id _ h
  authorized-Restores w x ctx id total (ok a, payments) h =
      persist-Restores (record w { payments = payments }) x (later 1 ctx)
        (make_order w id quantity total a) refl h

  pay-Restores :
      (w : Service E P S V) (x : E) (ctx : Context) (id : Text)
      → Reserved w
      → Restores (pay processor repository w x ctx id quantity)
  unfolding pay
  pay-Restores w x ctx id h = authorized-Restores w x ctx id _ _ h

module _ {E P S V : Type 0} (processor : Processor P) (repository : Orders E S) where
  reserve_stock-Restores :
      (w : Service E P S V) (x : E) (ctx : Context) (id : Text) (quantity : ℤ)
      → IsStock w.inventory.stock
      → Restores processor repository w.inventory quantity
          (reserve_stock processor repository w x ctx id quantity)
  unfolding reserve_stock reserved
  reserve_stock-Restores w x ctx id quantity h =
      step (Inventory.reserve w.inventory ctx w.settings.sku quantity) refl
    where
      step :
          (p : Result (Unit {0}) × Inventory.Service)
          → Inventory.reserve w.inventory ctx w.settings.sku quantity ≡ p
          → Restores processor repository w.inventory quantity
              (reserved processor repository w x ctx id quantity p)
      step (err e, after) eq =
          sym (ap (λ p. p.1) eq)
          ∙ reserve_err w.inventory ctx w.settings.sku quantity e (ap (λ p. p.0) eq)
      step (ok _, after) eq =
          pay-Restores processor repository w.inventory quantity (record w { inventory = after }) x
            (later 1 ctx) id
            (ap
                (λ (p : Result (Unit {0}) × Inventory.Service).
                  Inventory.release p.1 w.settings.sku quantity)
                (sym eq)
              ∙ release-reserve w.inventory ctx w.settings.sku quantity h (ap (λ p. p.0) eq))

  checked-Restores :
      (w : Service E P S V) (x : E) (ctx : Context) (quantity : ℤ) (passed : Result (Unit {0}))
      → IsStock w.inventory.stock
      → Restores processor repository w.inventory quantity
          (checked processor repository w x ctx quantity passed)
  unfolding checked allocate_id
  checked-Restores w x ctx quantity (err e) h = refl
  checked-Restores w x ctx quantity (ok _) h =
      reserve_stock-Restores (allocate_id w).1 x (later 1 ctx) (allocate_id w).0 quantity h

  failed-Restores :
      (before : Inventory.Service) (quantity : ℤ) (r : Result Order × Service E P S V) (e : Error)
      → Restores processor repository before quantity r
      → r.0 ≡ err e
      → r.1.inventory ≡ before
  failed-Restores before quantity (ok o, w) e h f = cc
  failed-Restores before quantity (err f, w) e h g = h

  -- From a well-formed stock, whatever the processor and the repository do, and whenever the
  -- context is cancelled: a placement that fails leaves the inventory exactly as it was.
  pub place_restores :
      (w : Service E P S V) (x : E) (ctx : Context) (request : Request) (e : Error)
      → IsStock w.inventory.stock
      → (place processor repository w x ctx request).0 ≡ err e
      → (place processor repository w x ctx request).1.inventory ≡ w.inventory
  unfolding place
  place_restores w x ctx request e h f =
      failed-Restores w.inventory request.quantity _ e
        (checked-Restores w x ctx request.quantity (place_checks ctx request.quantity) h) f
