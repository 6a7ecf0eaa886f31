-- ===== src/Application/Registration.antt =====
-- internal/spicegen/commerce: how the four routes are registered behind their guards, in
-- spice_http_route_*_gen.go and in configureGeneratedHTTP (spice_http_gen.go). The framework's policies,
-- guards, observers and mux are parameters, and so is the coordinator, which an error aborts.
pub mod Guards
use Prim.Native.String.{String}
use commerce.Prelude.{
  ℕ, ℤ, pos, leb_ℤ, ltb_ℤ, Bool, true, false, ◌||◌, List, [], ◌∷◌, ◌++◌, Option, none, some, Text,
  text, int_half,
}
use commerce.Go.{
  Error, errorf, errors_new, end, wrapped, text_arg, Context, Result, ok, err, ◌>>=◌, ◌>>◌, fail_if,
  map_err,
}
use commerce.Orders.Controller.{PlaceOrderRequest, OrderResponse, CatalogResponse, ReceiptResponse}
use commerce.Application.{Web, Cache, Handler, Invocation, GetOrderRequest, ReceiptRequest}
use commerce.Application.Configuration.{Snapshot}
use commerce.Application.Routes.{place_handler, get_handler, catalog_handler, receipt_handler}

abbrev pub Middleware : Type 0 → Type 0 → Type 0
Middleware R X = Handler R X → Handler R X

-- A route: the name of its method, the HTTP method and the pattern, and what its policy asks for.
pub record Route : Type 0 where
  pub id : String
  pub method : String
  pub pattern : Text
  pub scopes : List Text
  pub expression : String

abbrev pub place_order : Route
place_order = record {
  id = "spice:symbol:v1|method|42:github.com/spice-framework/commerce/orders|10:Controller|5:Place";
  method = "POST";
  pattern = text "/orders";
  scopes = text "orders:write" ∷ [];
  expression = "";
}

abbrev pub get_order : Route
get_order = record {
  id = "spice:symbol:v1|method|42:github.com/spice-framework/commerce/orders|10:Controller|3:Get";
  method = "GET";
  pattern = text "/orders/{id}";
  scopes = text "orders:read" ∷ [];
  expression = "authenticated && hasScope(\"orders:read\")";
}

abbrev pub get_catalog : Route
get_catalog = record {
  id =
      "spice:symbol:v1|method|42:github.com/spice-framework/commerce/orders|10:Controller|7:Catalog";
  method = "GET";
  pattern = text "/catalog";
  scopes = [];
  expression = "";
}

abbrev pub send_receipt : Route
send_receipt = record {
  id =
      "spice:symbol:v1|method|42:github.com/spice-framework/commerce/orders|10:Controller|11:SendReceipt";
  method = "POST";
  pattern = text "/orders/{id}/receipt";
  scopes = text "orders:notify" ∷ [];
  expression = "";
}

-- The pattern that the mux gets, as in `POST /orders`.
abbrev pub mux_pattern : Route → Text
mux_pattern route = text route.method ++ (32 ∷ route.pattern)

-- `security.NewPolicy` and `Guard`, `web.ObservationMiddleware` and `RegisterObserved`, and `Abort` of the
-- coordinator, over its state `C`.
pub record Framework (R X Mux Policy C : Type 0) : Type 0 where
  pub new_policy : Route → Result Policy
  pub guard : Policy → Result (Middleware R X)
  pub observation : Route → Result (Middleware R X)
  pub register_observed :
      Mux → Text → Handler R X → Middleware R X → List (Middleware R X) → Result Mux
  pub abort : C → Context → Error → Error × C

abbrev pub route_error : String → Route → Error → Error
route_error format route e = errorf format (text_arg (mux_pattern route) (wrapped e end))

module _ {R X Mux Policy C : Type 0} (framework : Framework R X Mux Policy C)
    (middleware : List (Middleware R X)) where
  observed : Route → Mux → Handler R X → List (Middleware R X) → Middleware R X → Result Mux
  observed route mux handler chain observation =
      map_err (route_error "register generated route %s: %w" route)
        (framework.register_observed mux (mux_pattern route) handler observation chain)

  -- A route once its guard is there, with the handler over its chain of interceptors.
  registered :
      {I : Type 0} → Route → Mux → (I → Handler R X) → Result I → List (Middleware R X) → Result Mux
  unfolding observed
  registered route mux handler interceptors chain = do
    observation ←
        map_err (route_error "configure generated route %s observation: %w" route)
          (framework.observation route)
    invocation ←
        map_err (route_error "construct generated typed interceptors for route %s: %w" route)
          interceptors
    observed route mux (handler invocation) chain observation

  -- The guard comes after the middleware of the options, next to the handler.
  unfoldable pub register_guarded :
      {I : Type 0} → Route → Mux → (I → Handler R X) → Result I → Result Mux
  unfolding registered
  register_guarded route mux handler interceptors = do
    policy ←
        map_err (route_error "construct generated authorization policy for route %s: %w" route)
          (framework.new_policy route)
    guard ←
        map_err (route_error "construct generated authorization guard for route %s: %w" route)
          (framework.guard policy)
    registered route mux handler interceptors (middleware ++ guard ∷ [])

  module _ (web : Web R) where
    unfoldable pub register_place :
        Result (Invocation PlaceOrderRequest OrderResponse X) → Mux → Result Mux
    unfolding register_guarded
    register_place interceptors mux =
        register_guarded place_order mux (place_handler web) interceptors

    unfoldable pub register_get :
        Result (Invocation GetOrderRequest OrderResponse X) → Mux → Result Mux
    unfolding register_guarded
    register_get interceptors mux = register_guarded get_order mux (get_handler web) interceptors

    unfoldable pub register_receipt :
        Result (Invocation ReceiptRequest ReceiptResponse X) → Mux → Result Mux
    unfolding register_guarded
    register_receipt interceptors mux =
        register_guarded send_receipt mux (receipt_handler web) interceptors

    -- The cache of the catalog: its capacity and its time to live, and `cache.NewMemory`.
    catalog_cache : {K : Type 0} → Snapshot → (ℤ → Result (Cache K)) → Result (Cache K × ℤ)
    catalog_cache snapshot new_memory = do
      capacity ←
          map_err (λ e. errorf "decode capacity for cache commerce.catalog: %w" (wrapped e end))
            (snapshot.integer (text "spice.cache.commerce.catalog.capacity"))
      fail_if (ltb_ℤ capacity (pos 1) || leb_ℤ (pos int_half) capacity)
          (errors_new "decode capacity for cache commerce.catalog: value must fit a positive int")
      ttl ←
          map_err (λ e. errorf "decode TTL for cache commerce.catalog: %w" (wrapped e end))
            (snapshot.duration (text "spice.cache.commerce.catalog.ttl"))
      fail_if (ltb_ℤ ttl (pos 0))
          (errors_new "decode TTL for cache commerce.catalog: duration must not be negative")
      cache ←
          map_err (λ e. errorf "construct generated cache commerce.catalog: %w" (wrapped e end))
            (new_memory capacity)
      ok (cache, ttl)

    -- The catalog has no guard.
    unfoldable pub register_catalog :
        {K : Type 0}
        → Snapshot
        → (ℤ → Result (Cache K))
        → (Cache K → ℤ → Result (Invocation (Unit {0}) CatalogResponse X))
        → Mux
        → Result Mux
    unfolding catalog_cache registered
    register_catalog snapshot new_memory interceptors mux =
        catalog_cache snapshot new_memory >>= λ (cache, ttl).
        registered get_catalog mux (catalog_handler web) (interceptors cache ttl) middleware

  -- The end of a registration: its error aborts the construction.
  aborted : Context → C → Result Mux → Result Mux × C
  aborted ctx c (ok mux) = (ok mux, c)
  aborted ctx c (err e) = (err (framework.abort c ctx e).0, (framework.abort c ctx e).1)

  next : Context → (Mux → Result Mux) → Result Mux × C → Result Mux × C
  unfolding aborted
  next ctx register (ok mux, c) = aborted ctx c (register mux)
  next ctx register (err e, c) = (err e, c)

  -- The routes of configureGeneratedHTTP, in its order; the management endpoints come after them.
  unfoldable pub configure_routes :
      Context
      → (Mux → Result Mux)
      → (Mux → Result Mux)
      → (Mux → Result Mux)
      → (Mux → Result Mux)
      → Mux
      → C
      → Result Mux × C
  unfolding next
  configure_routes ctx catalog get place receipt mux c =
      next ctx receipt (next ctx place (next ctx get (next ctx catalog (ok mux, c))))
