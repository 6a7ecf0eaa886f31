-- ===== src/Application/Routes/Catalogs.antt =====
-- GET /catalog from the request to the response: the handler with its cache in
-- spice_http_route_orders_controller_catalog_fdf7e49397ce_gen.go, over orders/controller.go.
use commerce.Prelude.{ℤ, ◌≡◌, refl, ap, ◌∙◌, ◌⊎◌, inl, inr, Bool-cases, Option, none, some}
use commerce.Go.{Error, Context, later, ctx_err, Result, ok, err, fail_with, ◌>>◌}
use commerce.Orders as Placement
use commerce.Orders.{Service}
use commerce.Orders.Controller as Controller
use commerce.Orders.Controller.{CatalogResponse}
use commerce.Application.{Web, Cache, Shop, Invocation, Response, json, problem, catalog}
use commerce.Application.Routes.{
  handle, invoked, written, cached, put_catalog, sought_catalog, catalog_terminal, catalog_handler,
}
use commerce.Application.Routes.Placements.{PassesOn}

-- What a cache documents, by the entry that it holds: a hit is that entry, a look adds none, and a put
-- adds at most its own value.
pub record IsCache {K : Type 0} (cache : Cache K) (held : K → Option CatalogResponse) : Type 0 where
  pub hits :
      (k k' : K) (ctx : Context) (a : CatalogResponse)
      → cache.get k ctx ≡ (ok (some a), k')
      → held k ≡ some a
  pub looks :
      (k : K) (ctx : Context) (a : CatalogResponse)
      → held (cache.get k ctx).1 ≡ some a
      → held k ≡ some a
  pub puts :
      (k : K) (ctx : Context) (a b : CatalogResponse) (ttl : ℤ)
      → held (cache.put k ctx a ttl).1 ≡ some b
      → (b ≡ a) ⊎ (held k ≡ some b)

-- The catalog that the service has.
abbrev pub current_catalog : {E P S V : Type 0} → Service E P S V → CatalogResponse
current_catalog w = record { sku = w.settings.sku; unit_price_cents = w.settings.unit_price_cents }

module _ {E P S V : Type 0} where
  -- A response that is not a problem has status 200 and the service's catalog.
  abbrev pub ShowsCatalog : Service E P S V → Response → Type 0
  ShowsCatalog w (json status body) = (status ≡ 200) × (body ≡ catalog (current_catalog w))
  ShowsCatalog w (problem p) = Unit {0}

  abbrev Shows : Service E P S V → Result CatalogResponse → Type 0
  Shows w (ok a) = a ≡ current_catalog w
  Shows w (err e) = Unit {0}

  catalog-Shows : (w : Service E P S V) (ctx : Context) → Shows w (Controller.catalog w ctx)
  unfolding Controller.catalog Placement.catalog
  catalog-Shows w ctx = shown (ctx_err (ctx 0))
    where
      shown : (o : Option Error) → Shows w (fail_with o (λ e. e) >> ok (current_catalog w))
      shown none = refl
      shown (some e) = tt

module _ {E P S V B K : Type 0} (held : K → Option CatalogResponse) where
  -- Whatever the cache holds is the service's catalog.
  abbrev pub IsFresh : Shop (Service E P S V) B K → Type 0
  IsFresh s = (a : CatalogResponse) → held s.cache ≡ some a → a ≡ current_catalog s.service

  -- What the route leaves: the answer, the same service and a fresh cache.
  abbrev pub Served : Shop (Service E P S V) B K → Response × Shop (Service E P S V) B K → Type 0
  Served s p = ShowsCatalog s.service p.0 × (p.1.service ≡ s.service) × IsFresh p.1

  abbrev Kept :
      Shop (Service E P S V) B K → Result CatalogResponse × Shop (Service E P S V) B K → Type 0
  Kept s p = Shows s.service p.0 × (p.1.service ≡ s.service) × IsFresh p.1

  module _ (cache : Cache K) (laws : IsCache cache held) (ttl : ℤ) where
    cached-Kept :
        (s : Shop (Service E P S V) B K) (a : CatalogResponse) (p : Option Error × K)
        → a ≡ current_catalog s.service
        → ((b : CatalogResponse) → held p.1 ≡ some b → (b ≡ a) ⊎ (held s.cache ≡ some b))
        → IsFresh s
        → Kept s (cached a s p)
    unfolding cached
    cached-Kept s a (none, k) e h fresh =
        (e, refl, λ b holds. elim (h b holds) [ inl same ↦ same ∙ e | inr old ↦ fresh b old ])
    cached-Kept s a (some f, k) e h fresh =
        (tt, refl, λ b holds. elim (h b holds) [ inl same ↦ same ∙ e | inr old ↦ fresh b old ])

    put_catalog-Kept :
        (s : Shop (Service E P S V) B K) (ctx : Context) (r : Result CatalogResponse)
        → Shows s.service r
        → IsFresh s
        → Kept s (put_catalog cache ttl ctx s r)
    unfolding put_catalog
    put_catalog-Kept s ctx (err e) shows fresh = (tt, refl, fresh)
    put_catalog-Kept s ctx (ok a) shows fresh =
        cached-Kept s a (cache.put s.cache ctx a ttl) shows
          (λ b holds. laws.puts s.cache ctx a b ttl holds) fresh

    looked :
        (s : Shop (Service E P S V) B K) (look : Context) (p : Result (Option CatalogResponse) × K)
        → cache.get s.cache look ≡ p
        → IsFresh s
        → IsFresh (record s { cache = p.1 })
    looked s look p h fresh a holds =
        fresh a (laws.looks s.cache look a (ap (λ q. held q.1) h ∙ holds))

    sought_catalog-Kept :
        (s : Shop (Service E P S V) B K) (ctx look : Context)
        (p : Result (Option CatalogResponse) × K)
        → cache.get s.cache look ≡ p
        → IsFresh s
        → Kept s (sought_catalog cache ttl ctx s p)
    unfolding sought_catalog
    sought_catalog-Kept s ctx look (err e, k) h fresh = (tt, refl, looked s look _ h fresh)
    sought_catalog-Kept s ctx look (ok (some a), k) h fresh =
        (fresh a (laws.hits s.cache k look a h), refl, looked s look _ h fresh)
    sought_catalog-Kept s ctx look (ok none, k) h fresh =
        put_catalog-Kept (record s { cache = k }) (later 1 ctx) (Controller.catalog s.service ctx)
          (catalog-Shows s.service ctx) (looked s look _ h fresh)

    catalog_terminal-Kept :
        (s : Shop (Service E P S V) B K) (ctx : Context)
        → IsFresh s
        → Kept s (catalog_terminal cache ttl ctx tt s)
    unfolding catalog_terminal
    catalog_terminal-Kept s ctx fresh = sought_catalog-Kept s (later 1 ctx) ctx _ refl fresh

    module _ {R : Type 0} (web : Web R)
        (chain : Invocation (Unit {0}) CatalogResponse (Shop (Service E P S V) B K)
          → Invocation (Unit {0}) CatalogResponse (Shop (Service E P S V) B K))
        (passes : PassesOn chain) where
      chained-Kept :
          (s : Shop (Service E P S V) B K) (ctx : Context)
          → IsFresh s
          → Kept s (chain (catalog_terminal cache ttl) ctx tt s)
      chained-Kept s ctx fresh = elim (passes (catalog_terminal cache ttl) ctx tt s) [
        | inl (e, stopped) ↦ rw stopped (tt, refl, fresh)
        | inr (inner, passed) ↦ rw passed (catalog_terminal-Kept s inner fresh)
      ]

      written-Served :
          (r : R) (s : Shop (Service E P S V) B K)
          (p : Result CatalogResponse × Shop (Service E P S V) B K)
          → Kept s p
          → Served s (written web catalog r p)
      unfolding written
      written-Served r s (ok a, s') (shows, same, fresh) = ((refl, ap catalog shows), same, fresh)
      written-Served r s (err e, s') (shows, same, fresh) = (tt, same, fresh)

      -- If what the cache holds is the service's catalog, then a GET /catalog that is answered with no
      -- problem gets status 200 and the service's catalog, whether the cache hits or misses; the
      -- service is unchanged, and what the cache then holds is the service's catalog again. The cache
      -- and the interceptors do what they document.
      pub catalog_route-Served :
          (r : R) (s : Shop (Service E P S V) B K)
          → IsFresh s
          → Served s (catalog_handler web (chain (catalog_terminal cache ttl)) r s)
      unfolding catalog_handler handle invoked
      catalog_route-Served r s fresh = elim (Bool-cases (web.accepts_json (web.accept r))) [
        | inl accepts ↦
            rw accepts (written-Served r s _ (chained-Kept s (later 1 (web.context r)) fresh))
        | inr refuses ↦ rw refuses (tt, refl, fresh)
      ]
