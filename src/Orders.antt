-- ===== src/Orders.antt =====
-- orders/service.go with its data: placement as one compensated operation over inventory, payments and
-- storage. The service's own state and those of its dependencies are one value, which each call takes
-- and gives back; payments, storage and the view publisher are interfaces.
pub mod Data
pub mod Steps
pub mod Compensation
pub mod Controller
pub mod Views
pub mod Totals
pub mod Persistence
pub mod Atomicity
pub mod Receipts
use Prim.Native.String.{String}
use commerce.Prelude.{
  ℕ, ℤ, pos, leb_ℤ, add_int, mul_int, Bool, true, false, ◌||◌, ◌++◌, Option, none, some, Text, text,
  is_empty, trim_space, format_padded, if◌then◌else◌,
}
use commerce.Go.{
  Error, Sentinel, sentinel, errorf, join_errors, end, wrapped, text_arg, Context, later, ctx_err,
  Result, ok, err, ◌>>=◌, ◌>>◌, fail_if, fail_with,
}
use commerce.Inventory
use commerce.Payments.{Processor, Authorization}
use commerce.Storage.{Record, Orders}
pub use Data.*

-- `fmt.Errorf` with ErrInvalidOrder as its argument.
abbrev pub invalid : String → Error
invalid m = errorf m (wrapped (sentinel Sentinel.invalid_order) end)

module _ {E P S V : Type 0} where
  -- The dependencies that NewService asks for, `none` standing for nil.
  dependencies :
      Settings
      → Option Inventory.Service
      → Option P
      → Option V
      → Option S
      → Option E
      → Result (Service E P S V)
  dependencies settings (some i) (some p) (some v) (some s) (some e) = ok (record {
    settings = settings;
    next_id = pos 0;
    inventory = i;
    payments = p;
    store = s;
    views = v;
    reads = e;
  })
  dependencies settings (some i) (some p) none (some s) (some e) =
      err (invalid "%w: order view publisher must not be nil")
  dependencies settings _ _ _ _ _ = err (invalid "%w: module dependencies must not be nil")

  unfoldable pub new_service :
      Settings
      → Option Inventory.Service
      → Option P
      → Option V
      → Option S
      → Option E
      → Result (Service E P S V)
  unfolding dependencies
  new_service settings inventory payments views store reads =
      fail_if (is_empty (trim_space settings.sku) || leb_ℤ settings.unit_price_cents (pos 0))
        (invalid "%w: configured SKU must be set and unit price must be positive")
      >> dependencies settings inventory payments views store reads

-- `fmt.Sprintf("order-%06d", n)`.
unfoldable pub order_id : ℤ → Text
order_id n = text "order-" ++ format_padded n

-- `fmt.Errorf` with ErrOrderRejected, the order's ID and the cause.
abbrev pub rejected : String → Text → Error → Error
rejected m id e =
    errorf m (wrapped (sentinel Sentinel.order_rejected) (text_arg id (wrapped e end)))

abbrev pub place_checks : Context → ℤ → Result (Unit {0})
place_checks ctx quantity = do
  fail_if (leb_ℤ quantity (pos 0)) (invalid "%w: quantity must be positive")
  fail_with (ctx_err (ctx 0)) (λ e. errorf "place order: %w" (wrapped e end))

module _ {E P S V : Type 0} where
  -- The service after `nextID++`.
  unfoldable pub allocate_id : Service E P S V → Text × Service E P S V
  allocate_id w = let n = add_int w.next_id (pos 1) in (order_id n, record w { next_id = n })

  -- What a failed placement returns, by how the release of its stock ended: the failure, joined with
  -- that of the release if there is one.
  released :
      Service E P S V
      → Text
      → Error
      → Result (Unit {0}) × Inventory.Service
      → Result Order × Service E P S V
  released w id failure (ok _, inventory) = (err failure, record w { inventory = inventory })
  released w id failure (err e, inventory) = (
    err (join_errors failure (errorf "restore stock for %s: %w" (text_arg id (wrapped e end)))),
    record w { inventory = inventory },
  )

  unfoldable pub compensate : Service E P S V → ℤ → Text → Error → Result Order × Service E P S V
  unfolding released
  compensate w quantity id failure =
      released w id failure (Inventory.release w.inventory w.settings.sku quantity)

  abbrev pub make_order : Service E P S V → Text → ℤ → ℤ → Authorization → Order
  make_order w id quantity total a = record {
    id = id;
    sku = w.settings.sku;
    quantity = quantity;
    total_cents = total;
    authorization_id = a.id;
  }

  module _ (processor : Processor P) (repository : Orders E S) where
    -- The end of `place`, by how the save ended: the order, or the stock goes back.
    saved : Service E P S V → Order → Result (Unit {0}) × S → Result Order × Service E P S V
    saved w order (ok _, store) = (ok order, record w { store = store })
    saved w order (err e, store) =
        compensate (record w { store = store }) order.quantity order.id
          (rejected "%w: persist %s: %w" order.id e)

    unfoldable pub persist : Service E P S V → E → Context → Order → Result Order × Service E P S V
    unfolding saved
    persist w executor ctx order =
        saved w order (repository.save executor w.store ctx (record_of order))

    -- What follows the payment, by how it ended.
    authorized :
        Service E P S V
        → E
        → Context
        → Text
        → ℤ
        → ℤ
        → Result Authorization × P
        → Result Order × Service E P S V
    authorized w executor ctx id quantity total (err e, payments) =
        compensate (record w { payments = payments }) quantity id
          (rejected "%w: authorize payment for %s: %w" id e)
    authorized w executor ctx id quantity total (ok a, payments) =
        persist (record w { payments = payments }) executor (later 1 ctx)
          (make_order w id quantity total a)

    unfoldable pub pay : Service E P S V → E → Context → Text → ℤ → Result Order × Service E P S V
    unfolding authorized
    pay w executor ctx id quantity =
        let total = mul_int quantity w.settings.unit_price_cents in
        authorized w executor ctx id quantity total (processor.authorize w.payments ctx id total)

    -- What follows the reservation, by how it ended.
    reserved :
        Service E P S V
        → E
        → Context
        → Text
        → ℤ
        → Result (Unit {0}) × Inventory.Service
        → Result Order × Service E P S V
    reserved w executor ctx id quantity (err e, inventory) =
        (err (rejected "%w: reserve stock for %s: %w" id e), record w { inventory = inventory })
    reserved w executor ctx id quantity (ok _, inventory) =
        pay (record w { inventory = inventory }) executor (later 1 ctx) id quantity

    unfoldable pub reserve_stock :
        Service E P S V → E → Context → Text → ℤ → Result Order × Service E P S V
    unfolding reserved
    reserve_stock w executor ctx id quantity =
        reserved w executor ctx id quantity
          (Inventory.reserve w.inventory ctx w.settings.sku quantity)

    -- What follows the checks of `place`.
    checked : Service E P S V → E → Context → ℤ → Result (Unit {0}) → Result Order × Service E P S V
    checked w executor ctx quantity (err e) = (err e, w)
    checked w executor ctx quantity (ok _) =
        reserve_stock (allocate_id w).1 executor (later 1 ctx) (allocate_id w).0 quantity

    unfoldable pub place : Service E P S V → E → Context → Request → Result Order × Service E P S V
    unfolding checked
    place w executor ctx request =
        checked w executor ctx request.quantity (place_checks ctx request.quantity)

    -- Place, through the read executor, and PlaceWithin, through the caller's transaction.
    unfoldable pub place_direct :
        Service E P S V → Context → Request → Result Order × Service E P S V
    place_direct w ctx request = place w w.reads ctx request

    unfoldable pub place_within :
        Service E P S V → E → Context → Request → Result Order × Service E P S V
    place_within w executor ctx request = place w executor ctx request

  unfoldable pub catalog : Service E P S V → Text × ℤ
  catalog w = (w.settings.sku, w.settings.unit_price_cents)

  module _ (repository : Orders E S) (publisher : Publisher V) where
    -- The end of Find, by how the publication ended.
    published : Service E P S V → Order → Option Error × V → Result (Option Order) × Service E P S V
    published w order (none, views) = (ok (some order), record w { views = views })
    published w order (some e, views) = (
      err (errorf "observe order %s view: %w" (text_arg order.id (wrapped e end))),
      record w { views = views },
    )

    -- What follows the read, by how it ended. An order that is missing is not published.
    found :
        Service E P S V
        → Context
        → Result (Option Record) × S
        → Result (Option Order) × Service E P S V
    unfolding published
    found w ctx (err e, store) = (err e, record w { store = store })
    found w ctx (ok none, store) = (ok none, record w { store = store })
    found w ctx (ok (some r), store) =
        published (record w { store = store }) (order_of r)
          (publisher.publish w.views ctx (record { id = r.id }))

    unfoldable pub find : Service E P S V → Context → Text → Result (Option Order) × Service E P S V
    unfolding found
    find w ctx id = found w (later 1 ctx) (repository.find w.reads w.store ctx id)
