-- ===== src/Orders/Controller/Answers.antt =====
-- What Place of orders/controller.go makes of the service's answer.
use commerce.Prelude.{◌≡◌}
use commerce.Go.{Error, Context, Result, ok, err}
use commerce.Payments.{Processor}
use commerce.Storage.{Orders}
use commerce.Orders.{Service, Order, place_within}
use commerce.Orders.Controller.{PlaceOrderRequest, OrderResponse, order_response, answered, place}

module _ {E P S V : Type 0} where
  answered_ok :
      (p : Result Order × Service E P S V) (a : OrderResponse) (left : Service E P S V)
      → answered p ≡ (ok a, left)
      → (o : Order) × (p ≡ (ok o, left)) × (a ≡ order_response o)
  unfolding answered
  answered_ok (ok o, w) a left h = (o, cc h, cc h)
  answered_ok (err e, w) a left h = cc h

  answered_err :
      (p : Result Order × Service E P S V) (f : Error) (left : Service E P S V)
      → answered p ≡ (err f, left)
      → (e : Error) × (p ≡ (err e, left))
  unfolding answered
  answered_err (ok o, w) f left h = cc h
  answered_err (err e, w) f left h = (e, cc h)

  module _ (processor : Processor P) (repository : Orders E S) (w : Service E P S V) (x : E)
      (ctx : Context) (request : PlaceOrderRequest) where
    pub place_ok :
        (a : OrderResponse) (left : Service E P S V)
        → place processor repository w x ctx request ≡ (ok a, left)
        → (o : Order) × (place_within processor repository w x ctx
              (record { quantity = request.body.quantity })
            ≡ (ok o, left))
          × (a ≡ order_response o)
    unfolding place
    place_ok a left h = answered_ok _ a left h

    pub place_err :
        (f : Error) (left : Service E P S V)
        → place processor repository w x ctx request ≡ (err f, left)
        → (e : Error) × (place_within processor repository w x ctx
              (record { quantity = request.body.quantity })
            ≡ (err e, left))
    unfolding place
    place_err f left h = answered_err _ f left h
