-- ===== src/Orders/Receipts.antt =====
-- The receipts of placed orders (orders/service.go, orders/controller.go, notifications/notifier.go).
use commerce.Prelude.{
  ℕ, ◌+◌, [], ◌∷◌, ◌<◌, ℤ, pos, ◌≤ℤ◌, add_int, add_int-IsInt, mul_int, ◌≡◌, refl, ap, ◌∙◌, true,
  false, ◌++◌, Text, text, IsInt, is_empty, Fits, append-Fits, format_padded, format_padded-Fits,
  arith,
}
use commerce.Go.{Context, later, ok}
use commerce.Payments
use commerce.Inventory.Stock.{reserve-ok_iff}
use commerce.Payments.{service_processor, Authorization, next_authorization, payment_id}
use commerce.Payments.Policy.{authorize_ok}
use commerce.Storage.{Orders}
use commerce.Notifications.{Receipt, is_safe_rune, safe_identifier, validate_receipt}
use commerce.Orders.{Service, Request, Order, place, order_id}
use commerce.Orders.Steps.{place-Placed}
use commerce.Orders.Controller.{receipt_of}

digit_is_safe : (d : ℕ) → d < 10 → is_safe_rune (48 + d) ≡ true
digit_is_safe d h = ground (arith, h)

-- A short word, then a printed `int`, is an identifier.
numbered-safe :
    (word : Text) (z : ℤ)
    → Fits is_safe_rune 100 word
    → is_empty word ≡ false
    → IsInt z
    → safe_identifier (word ++ format_padded z) ≡ true
unfolding safe_identifier
numbered-safe word z h n i =
    let (a, b) =
      append-Fits is_safe_rune 100 27 word (format_padded z) h
        (format_padded-Fits is_safe_rune digit_is_safe z i refl) in
    ground (arith, a, b, not_empty word n)
  where
    not_empty : (w : Text) → is_empty w ≡ false → is_empty (w ++ format_padded z) ≡ false
    not_empty [] e = cc
    not_empty (c ∷ w) e = refl

order_id-safe : (z : ℤ) → IsInt z → safe_identifier (order_id z) ≡ true
unfolding order_id
order_id-safe z i = numbered-safe (text "order-") z (refl, omega arith) refl i

payment_id-safe : (z : ℤ) → IsInt z → safe_identifier (payment_id z) ≡ true
unfolding payment_id
payment_id-safe z i = numbered-safe (text "payment-") z (refl, omega arith) refl i

all_valid :
    (r : Receipt)
    → safe_identifier r.order_id ≡ true
    → safe_identifier r.sku ≡ true
    → safe_identifier r.authorization_id ≡ true
    → pos 1 ≤ℤ r.quantity
    → pos 1 ≤ℤ r.total_cents
    → validate_receipt r ≡ ok tt
unfolding validate_receipt
all_valid r a b c q t = ground (arith, a, b, c, q, t)

module _ {E S V : Type 0} (repository : Orders E S) where
  -- With the module's own payments and a SKU that is an identifier, every order that is placed has a
  -- receipt that validates.
  pub place-receipt :
      (w : Service E Payments.Service S V) (x : E) (ctx : Context) (request : Request) (o : Order)
      → safe_identifier w.settings.sku ≡ true
      → (place service_processor repository w x ctx request).0 ≡ ok o
      → validate_receipt (receipt_of o) ≡ ok tt
  place-receipt w x ctx request o sku h =
      let p = place-Placed service_processor repository w x ctx request o h in
      let (_, _, quantity, _) =
        (reserve-ok_iff w.inventory (later 1 ctx) w.settings.sku request.quantity).0
          (ap (λ q. q.0) p.stocked) in
      let (approved, _, total, _) =
        authorize_ok w.payments (later 1 (later 1 ctx)) (order_id (add_int w.next_id (pos 1)))
          (mul_int request.quantity w.settings.unit_price_cents) p.authorization
          (ap (λ q. q.0) p.paid) in
      let paid : safe_identifier p.authorization.id ≡ true =
        ap (λ (a : Authorization). safe_identifier a.id) approved
        ∙ payment_id-safe _ (add_int-IsInt _ _) in
      rw p.ordered (all_valid _ (order_id-safe _ (add_int-IsInt _ _)) sku paid quantity total)
