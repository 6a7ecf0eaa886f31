-- ===== src/Application/Routes/Placements.antt =====
-- POST /orders from the request to the response, over the memory driver: the handler of
-- spice_http_route_orders_controller_place_595331ef4208_gen.go with orders/ and storage/ behind it.
use commerce.Prelude.{ℕ, IsInt, ◌≡◌, refl, sym, ◌∙◌, ◌⊎◌, inl, inr, Bool-cases, Option}
use mathlib.Core.Path.{subst}
use commerce.Go.{Error, Context, later, Result, ok, err, Result-cases, ◌>>◌}
use commerce.Inventory.Stock.{IsStock, Took}
use commerce.Payments.{Processor}
use commerce.Storage.{Executor}
use commerce.Storage.Memory.{Memory}
use commerce.Storage.Memory.Transactions.{Inv}
use commerce.Storage.Repository.{Query, order_repository}
use commerce.Orders.Controller.{PlaceOrderBody, PlaceOrderRequest, OrderResponse, validate}
use commerce.Application.{Web, Shop, Invocation, Response, json, problem, order}
use commerce.Application.Routes.{
  Within, bind_place, handle, invoked, written, place_terminal, place_handler,
}
use commerce.Application.Routes.Settlements.{Till, Managed, Sold, LostCommit, Settled, placing}
use commerce.Application.Routes.Transactions.{managed-Settled}

-- `intercept.Chain` refuses a request whose context has ended, or hands it to the terminal, which sees
-- the context from a later look on. Without interceptors it does nothing else.
abbrev pub PassesOn : {Q A X : Type 0} → (Invocation Q A X → Invocation Q A X) → Type 0
PassesOn {Q} {A} {X} chain =
    (next : Invocation Q A X) (ctx : Context) (q : Q) (s : X)
    → ((e : Error) × (chain next ctx q s ≡ (err e, s)))
      ⊎ ((inner : Context) × (chain next ctx q s ≡ next inner q s))

-- The quantity of a body that is decoded is an `int`.
abbrev pub DecodesInts : {R : Type 0} → Web R → Type 0
DecodesInts {R} web = (r : R) (b : PlaceOrderBody) → web.decode_json r ≡ ok b → IsInt b.quantity

abbrev IntOf : Result PlaceOrderRequest → Type 0
IntOf (ok q) = IsInt q.body.quantity
IntOf (err e) = Unit {0}

bound_quantity :
    {R : Type 0} (web : Web R) (r : R) (q : PlaceOrderRequest)
    → DecodesInts web
    → bind_place web r ≡ ok q
    → IsInt q.body.quantity
unfolding bind_place
bound_quantity web r q ints h = elim (Result-cases (web.decode_json r)) [
  | inr (e, failed) ↦ let stopped : bind_place web r ≡ err e = rw failed refl in cc (stopped, h)
  | inl (b, decoded) ↦
      let body : bind_place web r ≡ (
          web.validate (web.context r) (validate (record { body = b }))
          >> ok (record { body = b })) =
        rw decoded refl in
      body_int b (ints r b decoded) (web.validate (web.context r) (validate (record { body = b })))
        (sym body ∙ h)
]
  where
    body_int :
        (b : PlaceOrderBody)
        → IsInt b.quantity
        → (checked : Result (Unit {0})) → (checked >> ok (record { body = b })) ≡ ok q
        → IsInt q.body.quantity
    body_int b i (ok _) g = subst (λ (k : Result PlaceOrderRequest). IntOf k) g i
    body_int b i (err e) g = cc g

module _ {R P V B K : Type 0} (web : Web R) (processor : Processor P) (q : Option (Query Memory))
    (c : ℕ) where
  -- What a response says of the sale.
  abbrev pub Answered : R → Shop (Till P V) B K → Response × Shop (Till P V) B K → Type 0
  Answered r s (json status body, s') =
      (a : OrderResponse) × (status ≡ 200)
      × (body ≡ order a)
      × Sold s.service a s'.service
      × ((request : PlaceOrderRequest) × (bind_place web r ≡ ok request)
          × Took s.service.inventory s.service.settings.sku request.body.quantity
              s'.service.inventory)
  Answered r s (problem p, s') =
      (s'.service.store.records ≡ s.service.store.records)
      × ((s'.service.inventory ≡ s.service.inventory)
          ⊎ ((request : PlaceOrderRequest) × (bind_place web r ≡ ok request)
              × LostCommit c (placing processor q request) s.service request.body.quantity
                  s'.service))

  written-Answered :
      (s : Shop (Till P V) B K) (r : R) (request : PlaceOrderRequest)
      (p : Result OrderResponse × Till P V)
      → bind_place web r ≡ ok request
      → Settled c (placing processor q request) s.service request.body.quantity p
      → Answered r s (written web order r (p.0, record s { service = p.1 }))
  unfolding written
  written-Answered s r request (ok a, w) bound (sold, short) =
      (a, refl, refl, sold, (request, bound, short))
  written-Answered s r request (err e, w) bound (same, inl k) = (same, inl k)
  written-Answered s r request (err e, w) bound (same, inr k) = (same, inr (request, bound, k))

module _ {R P V B K : Type 0} (web : Web R) (processor : Processor P) (q : Option (Query Memory))
    (chain : Invocation PlaceOrderRequest OrderResponse (Shop (Till P V) B K)
      → Invocation PlaceOrderRequest OrderResponse (Shop (Till P V) B K))
    (within : Within (Option (Executor Memory)) (Till P V)) where
  -- The route of placements, as it is registered: the handler over the chain and the transaction.
  abbrev pub place_route : R → Shop (Till P V) B K → Response × Shop (Till P V) B K
  place_route = place_handler web (chain (place_terminal processor (order_repository q) within))

  module _ (c : ℕ) (passes : PassesOn chain) (ints : DecodesInts web)
      (manages : (ctx : Context) (request : PlaceOrderRequest) (w : Till P V)
        → IsInt request.body.quantity
        → Managed c
            (placing processor q request)
            w
            (within ctx (placing processor q request) w)) where
    invoked-Answered :
        (r : R) (s : Shop (Till P V) B K) (bound : Result PlaceOrderRequest)
        → bind_place web r ≡ bound
        → Inv s.service.store
        → IsStock s.service.inventory.stock
        → Answered web processor q c r s (
            invoked web order
              (chain (place_terminal processor (order_repository q) within))
              r
              s
              bound)
    unfolding invoked place_terminal written
    invoked-Answered r s (err e) h v stock = (refl, inl refl)
    invoked-Answered r s (ok request) h v stock =
        elim (passes (place_terminal processor (order_repository q) within)
          (later 1 (web.context r)) request s) [
            | inl (e, stopped) ↦ rw stopped (refl, inl refl)
            | inr (inner, passed) ↦ rw passed (
                written-Answered web processor q c s r request _ h (
                  managed-Settled processor q c request (bound_quantity web r request ints h)
                    s.service _ v stock
                    (manages inner request s.service (bound_quantity web r request ints h))))
          ]

    -- Over the memory driver, from a well-formed stock and under the driver's invariant: the answer to
    -- POST /orders tells what happened. With status 200 the database has the order of the response,
    -- whose ID it did not have, and every other record as before, and the units of the request that was
    -- decoded, and no others, are taken from the stock. With a problem the database is as it was, and
    -- so is the inventory, but in one case: the transaction of this request began, the placement of the
    -- request succeeded in it, and the commit of that transaction failed or it was rolled back instead;
    -- then these units are taken all the same. The interceptors pass the request on or refuse it, and
    -- the transaction manager, the pool and the decoder do what they document.
    pub place_route-Answered :
        (r : R) (s : Shop (Till P V) B K)
        → Inv s.service.store
        → IsStock s.service.inventory.stock
        → Answered web processor q c r s (place_route r s)
    unfolding place_handler handle
    place_route-Answered r s v stock = elim (Bool-cases (web.accepts_json (web.accept r))) [
      | inl accepts ↦ rw accepts (invoked-Answered r s (bind_place web r) refl v stock)
      | inr refuses ↦ rw refuses (refl, inl refl)
    ]
