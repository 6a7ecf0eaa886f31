-- ===== src/Application/Routes.antt =====
-- internal/spicegen/commerce/spice_http_route_*_gen.go: what each of the four routes does with a request.
-- The transaction manager, the cache, the interceptors and the web package are parameters.
pub mod Settlements
pub mod Transactions
pub mod Placements
pub mod Catalogs
use Prim.Native.String.{String}
use commerce.Prelude.{ℤ, List, [], ◌∷◌, Option, none, some, Text, text, not, if◌then◌else◌}
use commerce.Go.{Error, Problem, Context, Moment, later, Result, ok, err, ◌>>=◌, ◌>>◌}
use commerce.Payments.{Processor}
use commerce.Storage.{Orders}
use commerce.Notifications.{Notifier, Sent, MessageSpec, Sender}
use commerce.Orders.{Service, Publisher}
use commerce.Orders.Controller as Controller
use commerce.Orders.Controller.{
  PlaceOrderRequest, OrderResponse, CatalogResponse, ReceiptResponse, validate,
}
use commerce.Application.{
  Web, Cache, Shop, Handler, Invocation, Response, json, problem, Body, order, catalog, receipt,
  GetOrderRequest, ReceiptRequest,
}

abbrev pub not_acceptable : Problem
not_acceptable = record {
  type = "about:blank";
  title = "Not Acceptable";
  status = 406;
  detail = "the endpoint produces application/json";
}

module _ {R : Type 0} (web : Web R) where
  -- The path value `id` of a request, bound into it if it is present.
  bound_id : Option Text → Text
  bound_id none = []
  bound_id (some raw) = raw

  unfoldable pub bind_id : R → Result Text
  unfolding bound_id
  bind_id r =
      web.parameter (text "id") (web.path_value r (text "id") ∷ []) >>= λ raw. ok (bound_id raw)

  unfoldable pub bind_place : R → Result PlaceOrderRequest
  bind_place r = web.decode_json r >>= λ body.
      web.validate (web.context r) (validate (record { body = body }))
      >> ok (record { body = body })

module _ {R X : Type 0} (web : Web R) where
  -- The end of a handler, by how its invocation ended.
  written : {A : Type 0} → (A → Body) → R → Result A × X → Response × X
  written body r (ok a, s) = (json 200 (body a), s)
  written body r (err e, s) = (problem (web.map_error r e), s)

  invoked : {Q A : Type 0} → (A → Body) → Invocation Q A X → R → X → Result Q → Response × X
  unfolding written
  invoked body invocation r s (err e) = (problem (web.map_error r e), s)
  invoked body invocation r s (ok q) = written body r (invocation (later 1 (web.context r)) q s)

  -- What the four handlers have in common: the test of the `Accept` header, the binding of the
  -- request, the invocation and the response.
  unfoldable pub handle :
      {Q A : Type 0} → (R → Result Q) → (A → Body) → Invocation Q A X → Handler R X
  unfolding invoked
  handle bind body invocation r s =
      if not (web.accepts_json (web.accept r))
      then (problem not_acceptable, s)
      else invoked body invocation r s (bind r)

  unfoldable pub place_handler : Invocation PlaceOrderRequest OrderResponse X → Handler R X
  unfolding handle bind_place
  place_handler = handle (bind_place web) order

  unfoldable pub get_handler : Invocation GetOrderRequest OrderResponse X → Handler R X
  unfolding handle bind_id
  get_handler = handle (λ r. bind_id web r >>= λ id. ok (record { id = id })) order

  unfoldable pub catalog_handler : Invocation (Unit {0}) CatalogResponse X → Handler R X
  unfolding handle
  catalog_handler = handle (λ r. ok tt) catalog

  unfoldable pub receipt_handler : Invocation ReceiptRequest ReceiptResponse X → Handler R X
  unfolding handle bind_id
  receipt_handler = handle (λ r. bind_id web r >>= λ id. ok (record { id = id })) receipt

-- A method of the service, as a step of the shop.
abbrev pub on_service : {W B K A : Type 0} → (W → Result A × W) → Shop W B K → Result A × Shop W B K
on_service f s = ((f s.service).0, record s { service = (f s.service).1 })

-- `Manager.Within` of the framework, for a work that places an order: its response is kept beside the
-- error that Within returns.
abbrev pub Within : Type 0 → Type 0 → Type 0
Within E W = Context → (E → Context → W → Result OrderResponse × W) → W → Result OrderResponse × W

module _ {E P S V B K : Type 0} where
  -- The route terminals: what a request invokes once it is bound.
  unfoldable pub place_terminal :
      Processor P
      → Orders E S
      → Within E (Service E P S V)
      → Invocation PlaceOrderRequest OrderResponse (Shop (Service E P S V) B K)
  place_terminal processor repository within ctx q =
      on_service (within ctx (λ x inner w. Controller.place processor repository w x inner q))

  unfoldable pub get_terminal :
      Orders E S
      → Publisher V
      → Invocation GetOrderRequest OrderResponse (Shop (Service E P S V) B K)
  get_terminal repository publisher ctx q =
      on_service (λ w. Controller.get repository publisher w ctx q.id)

  cached :
      CatalogResponse
      → Shop (Service E P S V) B K
      → Option Error × K
      → Result CatalogResponse × Shop (Service E P S V) B K
  cached answer s (none, k) = (ok answer, record s { cache = k })
  cached answer s (some e, k) = (err e, record s { cache = k })

  -- What follows a miss: the controller's answer, which is put into the cache.
  put_catalog :
      Cache K
      → ℤ
      → Context
      → Shop (Service E P S V) B K
      → Result CatalogResponse
      → Result CatalogResponse × Shop (Service E P S V) B K
  unfolding cached
  put_catalog cache ttl ctx s (err e) = (err e, s)
  put_catalog cache ttl ctx s (ok answer) = cached answer s (cache.put s.cache ctx answer ttl)

  sought_catalog :
      Cache K
      → ℤ
      → Context
      → Shop (Service E P S V) B K
      → Result (Option CatalogResponse) × K
      → Result CatalogResponse × Shop (Service E P S V) B K
  unfolding put_catalog
  sought_catalog cache ttl ctx s (err e, k) = (err e, record s { cache = k })
  sought_catalog cache ttl ctx s (ok (some hit), k) = (ok hit, record s { cache = k })
  sought_catalog cache ttl ctx s (ok none, k) =
      put_catalog cache ttl (later 1 ctx) (record s { cache = k })
        (Controller.catalog s.service ctx)

  unfoldable pub catalog_terminal :
      Cache K → ℤ → Invocation (Unit {0}) CatalogResponse (Shop (Service E P S V) B K)
  unfolding sought_catalog
  catalog_terminal cache ttl ctx q s =
      sought_catalog cache ttl (later 1 ctx) s (cache.get s.cache ctx)

module _ {E P S V T M N D K : Type 0} (new_message : MessageSpec T → Result M)
    (sender : Sender M N) where
  unfoldable pub receipt_terminal :
      Orders E S
      → Publisher V
      → (Context → Moment)
      → Invocation ReceiptRequest ReceiptResponse (Shop (Service E P S V) (Notifier T N D) K)
  receipt_terminal repository publisher after ctx q s =
      let (r, (w, n)) =
        Controller.request_receipt new_message sender repository publisher s.service s.notifier ctx
          (after ctx) q.id in
      (r, record s { service = w; notifier = n })
