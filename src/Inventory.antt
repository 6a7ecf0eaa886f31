-- ===== src/Inventory.antt =====
-- inventory/service.go and inventory/settings.go: stock per SKU, behind one mutex. Each function is
-- one critical section; `Service` is the state that the mutex guards. The schedule and async
-- annotations on Audit and VerifySKU say only who calls them.
pub mod Stock
pub mod Audited
pub mod Clients
use commerce.Prelude.{
  ℤ, pos, ltb_ℤ, leb_ℤ, add_int, sub_int, Bool, true, false, ◌||◌, not, List, [], ◌∷◌, Option, none,
  some, Text, is_empty, trim_space, Dict, lookup, insert, is_some, if◌then◌else◌, text_eq,
}
use commerce.Go.{
  Error, Sentinel, sentinel, errorf, end, wrapped, int_arg, quoted, Context, Moment, ctx_err,
  Result, ok, err, ◌>>=◌, ◌>>◌, fail_if, fail_with,
}

pub record Settings : Type 0 where
  pub sku : Text
  pub initial_stock : ℤ

pub record Service : Type 0 where
  pub stock : Dict Text ℤ

-- `fmt.Errorf` with ErrInvalidReservation as its first argument.
abbrev invalid_reservation : Error
invalid_reservation = sentinel Sentinel.invalid_reservation

-- A read of a missing key is Go's zero value.
abbrev pub stock_of : Service → Text → ℤ
stock_of s sku = elim (lookup sku s.stock) [ none ↦ pos 0 | some n ↦ n ]

unfoldable pub new_service : Settings → Result Service
new_service settings =
    let sku = trim_space settings.sku in
    do
      fail_if (is_empty sku)
          (errorf "%w: configured SKU is empty" (wrapped invalid_reservation end))
      fail_if (ltb_ℤ settings.initial_stock (pos 0)) (
          errorf "%w: initial stock for %q must not be negative"
            (wrapped invalid_reservation (quoted sku end)))
      ok (record { stock = (sku, settings.initial_stock) ∷ [] })

-- The checks of Reserve; what it returns is the stock that it found.
reserve_checks : Service → Moment → Text → ℤ → Result ℤ
reserve_checks s now sku quantity = do
  fail_with (ctx_err now) (λ e. errorf "reserve inventory: %w" (wrapped e end))
  fail_if (is_empty sku || leb_ℤ quantity (pos 0))
      (errorf "%w: SKU must be set and quantity must be positive" (wrapped invalid_reservation end))
  fail_if (ltb_ℤ (stock_of s sku) quantity) (
      errorf "%w: requested %d units of %q, available %d" (
        wrapped (sentinel Sentinel.insufficient_stock)
          (int_arg quantity (quoted sku (int_arg (stock_of s sku) end)))))
  ok (stock_of s sku)

unfoldable pub reserve : Service → Context → Text → ℤ → Result (Unit {0}) × Service
unfolding reserve_checks
reserve s ctx sku quantity = elim (reserve_checks s (ctx 0) sku quantity) [
  | err e ↦ (err e, s)
  | ok available ↦ (ok tt, record s { stock = insert sku (sub_int available quantity) s.stock })
]

unfoldable pub release : Service → Text → ℤ → Result (Unit {0}) × Service
release s sku quantity =
    if is_empty sku || leb_ℤ quantity (pos 0)
    then (
      err (
          errorf "%w: SKU must be set and quantity must be positive"
            (wrapped invalid_reservation end)),
      s,
    )
    else elim (lookup sku s.stock) [
      | none ↦ (
        err (errorf "%w: SKU %q is not configured" (wrapped invalid_reservation (quoted sku end))),
        s,
      )
      | some available ↦
          (ok tt, record s { stock = insert sku (add_int available quantity) s.stock })
    ]

-- The loop of Audit, which stops at the first entry that is invalid.
audit_entries : Dict Text ℤ → Result (Unit {0})
audit_entries [] = ok tt
audit_entries ((sku, available) ∷ stock) =
    if is_empty (trim_space sku) || ltb_ℤ available (pos 0)
    then err
        (errorf "%w: invalid stock state for %q" (wrapped invalid_reservation (quoted sku end)))
    else audit_entries stock

unfoldable pub audit : Service → Context → Result (Unit {0})
unfolding audit_entries
audit s ctx = do
  fail_with (ctx_err (ctx 0)) (λ e. errorf "audit inventory: %w" (wrapped e end))
  audit_entries s.stock

abbrev known_and_nonnegative : Option ℤ → Bool
known_and_nonnegative none = false
known_and_nonnegative (some available) = not (ltb_ℤ available (pos 0))

unfoldable pub verify_sku : Service → Context → Text → Result (Unit {0})
verify_sku s ctx sku = do
  fail_with (ctx_err (ctx 0)) (λ e. errorf "verify inventory SKU: %w" (wrapped e end))
  fail_if (not (known_and_nonnegative (lookup sku s.stock)))
      (errorf "%w: invalid stock state for %q" (wrapped invalid_reservation (quoted sku end)))

unfoldable pub available : Service → Text → ℤ
available s sku = stock_of s sku
