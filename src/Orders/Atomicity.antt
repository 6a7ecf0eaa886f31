-- ===== src/Orders/Atomicity.antt =====
-- The compensation of `place` over the memory driver (orders/service.go, storage/order_repository.go,
-- storage/memory_*.go): what a placement that fails leaves of the store.
use commerce.Prelude.{ℕ, ℤ, IsInt, mul_int-IsInt, ◌≡◌, refl, ap, sym, ◌∙◌, Option, some, Text}
use commerce.Go.{Error, Context, later, Result, ok, err}
use commerce.Inventory
use commerce.Inventory.Stock.{IsStock}
use commerce.Payments.{Processor, Authorization}
use commerce.Storage.{Executor, Record, Orders}
use commerce.Storage.Memory.{Memory}
use commerce.Storage.Memory.Sql.{HasInts}
use commerce.Storage.Repository.{Query, order_repository}
use commerce.Storage.Repository.Saves.Drivers.{HandsTo, save_keeps}
use commerce.Orders.{
  Service, Request, Order, place, place_checks, reserve_stock, pay, persist, compensate, released,
  saved, authorized, reserved, checked, allocate_id, record_of, make_order,
}
use commerce.Orders.Compensation.{place_restores}

-- A save that fails leaves the store as it was.
abbrev pub KeepsStore : {E S : Type 0} → Orders E S → E → S → Type 0
KeepsStore repository x s =
    (ctx : Context) (r : Record) (e : Error)
    → HasInts r
    → (repository.save x s ctx r).0 ≡ err e
    → (repository.save x s ctx r).1 ≡ s

module _ {E P S V : Type 0} (processor : Processor P) (repository : Orders E S) (x : E) (before : S)
    (keeps : KeepsStore repository x before) where
  -- What a step leaves of the store, if it fails.
  abbrev Kept : Result Order × Service E P S V → Type 0
  Kept (ok o, w) = Unit {0}
  Kept (err e, w) = w.store ≡ before

  released-Kept :
      (w : Service E P S V) (id : Text) (e : Error) (p : Result (Unit {0}) × Inventory.Service)
      → w.store ≡ before
      → Kept (released w id e p)
  unfolding released
  released-Kept w id e (ok _, inventory) h = h
  released-Kept w id e (err f, inventory) h = h

  compensate-Kept :
      (w : Service E P S V) (quantity : ℤ) (id : Text) (e : Error)
      → w.store ≡ before
      → Kept (compensate w quantity id e)
  unfolding compensate
  compensate-Kept w quantity id e h =
      released-Kept w id e (Inventory.release w.inventory w.settings.sku quantity) h

  saved-Kept :
      (w : Service E P S V) (o : Order) (p : Result (Unit {0}) × S)
      → ((e : Error) → p.0 ≡ err e → p.1 ≡ before)
      → Kept (saved processor repository w o p)
  unfolding saved
  saved-Kept w o (ok _, store) k = tt
  saved-Kept w o (err e, store) k = compensate-Kept (record w { store = store }) _ _ _ (k e refl)

  persist-Kept :
      (w : Service E P S V) (ctx : Context) (o : Order)
      → w.store ≡ before
      → HasInts (record_of o)
      → Kept (persist processor repository w x ctx o)
  unfolding persist
  persist-Kept w ctx o h ints = saved-Kept w o (repository.save x w.store ctx (record_of o)) (λ e f.
      ap (λ s. (repository.save x s ctx (record_of o)).1) h
      ∙ keeps ctx (record_of o) e ints
          (ap (λ s. (repository.save x s ctx (record_of o)).0) (sym h) ∙ f))

  authorized-Kept :
      (w : Service E P S V) (ctx : Context) (id : Text) (quantity total : ℤ)
      (p : Result Authorization × P)
      → w.store ≡ before
      → IsInt quantity
      → IsInt total
      → Kept (authorized processor repository w x ctx id quantity total p)
  unfolding authorized
  authorized-Kept w ctx id quantity total (err e, payments) h i j =
      compensate-Kept (record w { payments = payments }) quantity id _ h
  authorized-Kept w ctx id quantity total (ok a, payments) h i j =
      persist-Kept (record w { payments = payments }) (later 1 ctx)
        (make_order w id quantity total a) h (i, j)

  reserved-Kept :
      (w : Service E P S V) (ctx : Context) (id : Text) (quantity : ℤ)
      (p : Result (Unit {0}) × Inventory.Service)
      → w.store ≡ before
      → IsInt quantity
      → Kept (reserved processor repository w x ctx id quantity p)
  unfolding reserved pay
  reserved-Kept w ctx id quantity (err e, inventory) h i = h
  reserved-Kept w ctx id quantity (ok _, inventory) h i =
      authorized-Kept (record w { inventory = inventory }) (later 1 ctx) id quantity _ _ h i
        (mul_int-IsInt quantity w.settings.unit_price_cents)

  checked-Kept :
      (w : Service E P S V) (ctx : Context) (quantity : ℤ) (p : Result (Unit {0}))
      → w.store ≡ before
      → IsInt quantity
      → Kept (checked processor repository w x ctx quantity p)
  unfolding checked reserve_stock allocate_id
  checked-Kept w ctx quantity (err e) h i = h
  checked-Kept w ctx quantity (ok _) h i =
      reserved-Kept (allocate_id w).1 (later 1 ctx) (allocate_id w).0 quantity _ h i

  failed-Kept :
      (q : Result Order × Service E P S V) (e : Error) → Kept q → q.0 ≡ err e → q.1.store ≡ before
  failed-Kept (ok o, w) e k h = cc
  failed-Kept (err f, w) e k h = k

module _ {P V : Type 0} (processor : Processor P) (q : Option (Query Memory)) where
  -- Over the memory driver, from a well-formed stock: a placement that fails, at whatever step, leaves
  -- both the inventory and the driver exactly as they were. The executor hands its statements to the
  -- driver on one connection, and the quantity is an `int`.
  pub place_atomic :
      (x : Executor Memory) (c : ℕ) (w : Service (Option (Executor Memory)) P Memory V)
      (ctx : Context) (request : Request) (e : Error)
      → HandsTo x c
      → IsStock w.inventory.stock
      → IsInt request.quantity
      → (place processor (order_repository q) w (some x) ctx request).0 ≡ err e
      → ((place processor (order_repository q) w (some x) ctx request).1.inventory ≡ w.inventory)
        × ((place processor (order_repository q) w (some x) ctx request).1.store ≡ w.store)
  unfolding place
  place_atomic x c w ctx request e hands stock int h = (
    place_restores processor (order_repository q) w (some x) ctx request e stock h,
    failed-Kept processor (order_repository q) (some x) w.store
        (λ ctx r f ints g. save_keeps x c w.store (some ctx) r f hands ints g) _ e
        (checked-Kept processor (order_repository q) (some x) w.store
          (λ ctx r f ints g. save_keeps x c w.store (some ctx) r f hands ints g) w ctx
          request.quantity (place_checks ctx request.quantity) refl int)
        h,
  )
