-- ===== src/Orders/Steps.antt =====
-- The steps of a placement that succeeds (orders/service.go).
use commerce.Prelude.{ℤ, pos, add_int, mul_int, ◌≡◌, refl, ap, ◌∙◌, Text}
use commerce.Go.{Error, Context, later, Result, ok, err}
use commerce.Inventory
use commerce.Payments.{Processor, Authorization}
use commerce.Storage.{Orders}
use commerce.Orders.{
  Service, Request, Order, place, place_checks, reserve_stock, pay, persist, compensate, released,
  saved, authorized, reserved, checked, allocate_id, order_id, record_of, make_order,
}

-- Every step of one placement: what each of the dependencies answered, and the service that results.
pub record Placed {E P S V : Type 0} (processor : Processor P) (repository : Orders E S)
    (w : Service E P S V) (x : E) (ctx : Context) (request : Request) (o : Order)
    (after : Service E P S V) : Type 0 where
  pub authorization : Authorization
  pub payments : P
  pub store : S
  pub inventory : Inventory.Service
  pub stocked :
      Inventory.reserve w.inventory (later 1 ctx) w.settings.sku request.quantity
      ≡ (ok tt, inventory)
  pub paid :
      processor.authorize w.payments
        (later 1 (later 1 ctx))
        (order_id (add_int w.next_id (pos 1)))
        (mul_int request.quantity w.settings.unit_price_cents)
      ≡ (ok authorization, payments)
  pub ordered : o ≡ record {
    id = order_id (add_int w.next_id (pos 1));
    sku = w.settings.sku;
    quantity = request.quantity;
    total_cents = mul_int request.quantity w.settings.unit_price_cents;
    authorization_id = authorization.id;
  }
  pub kept :
      repository.save x w.store (later 1 (later 1 (later 1 ctx))) (record_of o) ≡ (ok tt, store)
  pub left : after ≡ record w {
    next_id = add_int w.next_id (pos 1);
    inventory = inventory;
    payments = payments;
    store = store;
  }

module _ {E P S V : Type 0} where
  released_fails :
      (w : Service E P S V) (id : Text) (e : Error) (p : Result (Unit {0}) × Inventory.Service)
      (o : Order)
      → ¬ ((released w id e p).0 ≡ ok o)
  unfolding released
  released_fails w id e (ok _, inventory) o h = cc
  released_fails w id e (err f, inventory) o h = cc

  -- A compensation never succeeds.
  compensate_fails :
      (w : Service E P S V) (quantity : ℤ) (id : Text) (e : Error) (o : Order)
      → ¬ ((compensate w quantity id e).0 ≡ ok o)
  unfolding compensate
  compensate_fails w quantity id e o =
      released_fails w id e (Inventory.release w.inventory w.settings.sku quantity) o

  module _ (processor : Processor P) (repository : Orders E S) where
    saved_ok :
        (w : Service E P S V) (o : Order) (p : Result (Unit {0}) × S) (o' : Order)
        → (saved processor repository w o p).0 ≡ ok o'
        → (store : S) × (p ≡ (ok tt, store))
          × (o' ≡ o)
          × ((saved processor repository w o p).1 ≡ record w { store = store })
    unfolding saved
    saved_ok w o (ok _, store) o' h = (store, refl, cc, refl)
    saved_ok w o (err e, store) o' h =
        absurd (compensate_fails (record w { store = store }) _ _ _ o' h)

    authorized_ok :
        (w : Service E P S V) (x : E) (ctx : Context) (id : Text) (quantity total : ℤ)
        (p : Result Authorization × P) (o : Order)
        → (authorized processor repository w x ctx id quantity total p).0 ≡ ok o
        → (a : Authorization) × (payments : P) × (store : S) × (p ≡ (ok a, payments))
          × (o ≡ make_order w id quantity total a)
          × (repository.save x w.store (later 1 ctx) (record_of o) ≡ (ok tt, store))
          × ((authorized processor repository w x ctx id quantity total p).1
              ≡ record w { payments = payments; store = store })
    unfolding authorized persist
    authorized_ok w x ctx id quantity total (err e, payments) o h =
        absurd (compensate_fails (record w { payments = payments }) _ _ _ o h)
    authorized_ok w x ctx id quantity total (ok a, payments) o h =
        let order = make_order w id quantity total a in
        let w' : Service E P S V = record w { payments = payments } in
        let (store, es, eo, el) =
          saved_ok w' order (repository.save x w.store (later 1 ctx) (record_of order)) o h in
        (
          a,
          payments,
          store,
          refl,
          eo,
          ap (λ (o : Order). repository.save x w.store (later 1 ctx) (record_of o)) eo ∙ es,
          el,
        )

    reserved_ok :
        (w : Service E P S V) (x : E) (ctx : Context) (id : Text) (quantity : ℤ)
        (p : Result (Unit {0}) × Inventory.Service) (o : Order)
        → (reserved processor repository w x ctx id quantity p).0 ≡ ok o
        → (inventory : Inventory.Service) × (p ≡ (ok tt, inventory))
          × ((pay processor repository
                (record w { inventory = inventory })
                x
                (later 1 ctx)
                id
                quantity).0
              ≡ ok o)
          × ((reserved processor repository w x ctx id quantity p).1
              ≡ (pay processor repository
                  (record w { inventory = inventory })
                  x
                  (later 1 ctx)
                  id
                  quantity).1)
    unfolding reserved
    reserved_ok w x ctx id quantity (err e, inventory) o h = cc
    reserved_ok w x ctx id quantity (ok _, inventory) o h = (inventory, refl, h, refl)

    checked_ok :
        (w : Service E P S V) (x : E) (ctx : Context) (quantity : ℤ) (p : Result (Unit {0}))
        (o : Order)
        → (checked processor repository w x ctx quantity p).0 ≡ ok o
        → (p ≡ ok tt)
          × ((reserve_stock processor repository
                (allocate_id w).1
                x
                (later 1 ctx)
                (allocate_id w).0
                quantity).0
              ≡ ok o)
          × ((checked processor repository w x ctx quantity p).1
              ≡ (reserve_stock processor repository
                  (allocate_id w).1
                  x
                  (later 1 ctx)
                  (allocate_id w).0
                  quantity).1)
    unfolding checked
    checked_ok w x ctx quantity (err e) o h = cc
    checked_ok w x ctx quantity (ok _) o h = (refl, h, refl)

    -- A placement that succeeds took every step once: the ID, the reservation, the payment of the
    -- order's total under its ID, and the save of the order that it returns; nothing else changed.
    pub place-Placed :
        (w : Service E P S V) (x : E) (ctx : Context) (request : Request) (o : Order)
        → (place processor repository w x ctx request).0 ≡ ok o
        → Placed processor repository w x ctx request o
            (place processor repository w x ctx request).1
    unfolding place reserve_stock pay allocate_id
    place-Placed w x ctx request o h =
        let (_, h1, e1) =
          checked_ok w x ctx request.quantity (place_checks ctx request.quantity) o h in
        let (id, w1) = allocate_id w in
        let (inventory, stocked, h2, e2) =
          reserved_ok w1 x (later 1 ctx) id request.quantity _ o h1 in
        let w2 : Service E P S V = record w1 { inventory = inventory } in
        let (a, payments, store, paid, ordered, kept, e3) =
          authorized_ok w2 x (later 1 (later 1 ctx)) id request.quantity _ _ o h2 in
        record {
          authorization = a;
          payments = payments;
          store = store;
          inventory = inventory;
          stocked = stocked;
          paid = paid;
          ordered = ordered;
          kept = kept;
          left = e1 ∙ e2 ∙ e3;
        }
