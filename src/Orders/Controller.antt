-- ===== src/Orders/Controller.antt =====
-- orders/controller.go with its requests and responses: the HTTP boundary over the service, and the
-- public problem that each error becomes.
pub mod Statuses
pub mod Answers
use Prim.Native.String.{String}
use commerce.Prelude.{
  ℕ, ℤ, pos, leb_ℤ, ◌≡◌, refl, ap, sym, ◌∙◌, Bool, true, false, ◌||◌, List, Option, none, some,
  Text, text, trim_space, if◌then◌else◌, arith,
}
use commerce.Go.{
  Error, Sentinel, sentinel, errors_new, Problem, http_error, http_error_of, is_error, Context,
  Moment, live, later, ctx_err, Result, ok, err, ◌>>=◌, ◌>>◌, fail_if, fail_with,
}
use commerce.Payments.{Processor}
use commerce.Storage.{Orders}
use commerce.Notifications.{Notifier, Receipt, Sent, MessageSpec, Sender, send_receipt}
use commerce.Orders as Placement
use commerce.Orders.{Service, Order, Request, Publisher}

pub record PlaceOrderBody : Type 0 where
  pub quantity : ℤ

pub record PlaceOrderRequest : Type 0 where
  pub body : PlaceOrderBody

pub record CatalogResponse : Type 0 where
  pub sku : Text
  pub unit_price_cents : ℤ

pub record OrderResponse : Type 0 where
  pub id : Text
  pub sku : Text
  pub quantity : ℤ
  pub total_cents : ℤ
  pub authorization_id : Text

pub record ReceiptResponse : Type 0 where
  pub message_id : Text
  pub transport : Text
  pub accepted : Bool
  pub attachment : Text

-- The request's Validate.
unfoldable pub validate : PlaceOrderRequest → Context → Result (Unit {0})
validate request ctx = do
  fail_with (ctx_err (ctx 0)) (λ e. e)
  fail_if (leb_ℤ request.body.quantity (pos 0)) (
      http_error_of
        (record {
          type = "https://spice.dev/problems/invalid-order";
          title = "Invalid order";
          status = 400;
          detail = "quantity must be positive";
        })
        (sentinel Sentinel.invalid_order))

-- The conversion `OrderResponse(order)`.
abbrev pub order_response : Order → OrderResponse
order_response o = record {
  id = o.id;
  sku = o.sku;
  quantity = o.quantity;
  total_cents = o.total_cents;
  authorization_id = o.authorization_id;
}

abbrev pub order_not_found : Error
order_not_found = http_error (record {
  type = "https://spice.dev/problems/order-not-found";
  title = "Order not found";
  status = 404;
  detail = "";
})

-- The problem of an error, by the sentinels that it wraps, in the order of the switch.
public_problem : Bool → Bool → Bool → Problem
public_problem true stock declined = record {
  type = "https://spice.dev/problems/invalid-order";
  title = "Invalid order";
  status = 400;
  detail = "";
}
public_problem false true declined = record {
  type = "https://spice.dev/problems/insufficient-stock";
  title = "Insufficient stock";
  status = 409;
  detail = "";
}
public_problem false false true = record {
  type = "https://spice.dev/problems/payment-declined";
  title = "Payment declined";
  status = 409;
  detail = "";
}
public_problem false false false = record {
  type = "https://spice.dev/problems/order-failed";
  title = "Order failed";
  status = 500;
  detail = "";
}

unfoldable pub public_order_error : Error → Error
unfolding public_problem
public_order_error e =
    http_error_of
      (public_problem (is_error e Sentinel.invalid_order) (is_error e Sentinel.insufficient_stock)
        (is_error e Sentinel.declined))
      e

-- The status of the response that an error makes.
abbrev pub status_of : Error → Option ℕ
status_of (http_error p) = some p.status
status_of (http_error_of p e) = some p.status
status_of _ = none

abbrev pub receipt_of : Order → Receipt
receipt_of o = record {
  order_id = o.id;
  sku = o.sku;
  quantity = o.quantity;
  total_cents = o.total_cents;
  authorization_id = o.authorization_id;
}

module _ {E P S V : Type 0} where
  -- What follows PlaceWithin, by how it ended.
  answered : Result Order × Service E P S V → Result OrderResponse × Service E P S V
  answered (ok o, w) = (ok (order_response o), w)
  answered (err e, w) = (err (public_order_error e), w)

  unfoldable pub place :
      Processor P
      → Orders E S
      → Service E P S V
      → E
      → Context
      → PlaceOrderRequest
      → Result OrderResponse × Service E P S V
  unfolding answered
  place processor repository w executor ctx request = answered (
      Placement.place_within processor repository w executor ctx
        (record { quantity = request.body.quantity }))

  shown : Result (Option Order) × Service E P S V → Result OrderResponse × Service E P S V
  shown (err e, w) = (err e, w)
  shown (ok none, w) = (err order_not_found, w)
  shown (ok (some o), w) = (ok (order_response o), w)

  unfoldable pub get :
      Orders E S
      → Publisher V
      → Service E P S V
      → Context
      → Text
      → Result OrderResponse × Service E P S V
  unfolding shown
  get repository publisher w ctx id =
      shown (Placement.find repository publisher w ctx (trim_space id))

  unfoldable pub catalog : Service E P S V → Context → Result CatalogResponse
  catalog w ctx = do
    fail_with (ctx_err (ctx 0)) (λ e. e)
    ok (record { sku = (Placement.catalog w).0; unit_price_cents = (Placement.catalog w).1 })

module _ {T M N D : Type 0} (new_message : MessageSpec T → Result M) (sender : Sender M N) where
  -- The end of SendReceipt, by how the delivery ended.
  receipted : Result Sent × Notifier T N D → Result ReceiptResponse × Notifier T N D
  receipted (ok s, n) = (
    ok (record {
      message_id = s.message_id;
      transport = s.transport;
      accepted = s.accepted;
      attachment = s.attachment;
    }),
    n,
  )
  receipted (err e, n) = (
    err (
        http_error_of
          (record {
            type = "https://spice.dev/problems/receipt-delivery-failed";
            title = "Receipt delivery failed";
            status = 502;
            detail = "";
          })
          e),
    n,
  )

  -- What follows the search for the order.
  notified :
      Notifier T N D
      → Context
      → Moment
      → Result (Option Order)
      → Result ReceiptResponse × Notifier T N D
  unfolding receipted
  notified n ctx after (err e) = (err e, n)
  notified n ctx after (ok none) = (err order_not_found, n)
  notified n ctx after (ok (some o)) =
      receipted (send_receipt new_message sender n ctx after (receipt_of o))

  unfoldable pub request_receipt :
      {E P S V : Type 0}
      → Orders E S
      → Publisher V
      → Service E P S V
      → Notifier T N D
      → Context
      → Moment
      → Text
      → Result ReceiptResponse × (Service E P S V × Notifier T N D)
  unfolding notified
  request_receipt repository publisher w n ctx after id =
      let sought = Placement.find repository publisher w ctx (trim_space id) in
      let sent = notified n (later 2 ctx) after sought.0 in (sent.0, (sought.1, sent.1))
