-- ===== src/Application/Registration/Guards.antt =====
-- What the guards of the routes keep out (spice_http_route_*_gen.go, spice_http_gen.go).
use commerce.Prelude.{
  ◌≡◌, refl, inl, inr, ap, ◌∙◌, Bool, false, List, [], ◌∷◌, Option, some, Text, text_eq, ==_refl,
  ◌==◌, if◌then◌else◌,
}
use commerce.Go.{Result-cases, Error, Context, Result, ok, err, ◌>>=◌, map_err}
use commerce.Orders.Controller.{PlaceOrderRequest, OrderResponse, ReceiptResponse}
use commerce.Application.{Web, Handler, Invocation, GetOrderRequest, ReceiptRequest}
use commerce.Application.Routes.{place_handler, get_handler, receipt_handler}
use commerce.Application.Registration.{
  Middleware, Route, Framework, mux_pattern, place_order, get_order, send_receipt, observed,
  registered, register_guarded, register_place, register_get, register_receipt, aborted, next,
  configure_routes, route_error,
}

-- Middleware around a handler: the first is the outermost.
abbrev pub around : {R X : Type 0} → List (Middleware R X) → Handler R X → Handler R X
around [] h = h
around (m ∷ l) h = m (around l h)

-- What the framework documents. The mux serves a pattern that is registered by its handler inside the
-- middleware inside the observation, and every other as before; an observation changes nothing that
-- its handler does not; and the guard of a route's policy lets no request through that `has_scopes`
-- refuses.
pub record IsFramework {R X Mux Policy C : Type 0} (framework : Framework R X Mux Policy C)
    (serves : Mux → Text → Option (Handler R X)) (has_scopes : R → List Text → Bool) : Type 0 where
  pub registers :
      (mux mux' : Mux) (pattern : Text) (h : Handler R X) (o : Middleware R X)
      (l : List (Middleware R X))
      → framework.register_observed mux pattern h o l ≡ ok mux'
      → (p : Text) → serves mux' p ≡ (if pattern == p then some (o (around l h)) else serves mux p)
  pub observes :
      (route : Route) (o : Middleware R X)
      → framework.observation route ≡ ok o
      → (h : Handler R X) (r : R) (s : X) → (o h r s).1 ≡ (h r s).1
  pub guards :
      (route : Route) (policy : Policy) (g : Middleware R X)
      → framework.new_policy route ≡ ok policy
      → framework.guard policy ≡ ok g
      → (h : Handler R X) (r : R) (s : X) → has_scopes r route.scopes ≡ false
      → (g h r s).1 ≡ s

-- Two steps and what follows them.
two_steps_ok :
    {A I B : Type 0} (f g : Error → Error) (m : Result A) (n : A → Result I) (k : A → I → Result B)
    (b : B)
    → (map_err f m >>= λ a. map_err g (n a) >>= λ i. k a i) ≡ ok b
    → (a : A) × (i : I) × (m ≡ ok a) × (n a ≡ ok i) × (k a i ≡ ok b)
two_steps_ok f g (err e) n k b h = cc h
two_steps_ok f g (ok a) n k b h = elim (Result-cases (n a)) [
  | inl (i, found) ↦ (a, i, refl, found, rw found at h)
  | inr (e, failed) ↦ cc (rw failed at h)
]

map_err-ok : {A : Type 0} (f : Error → Error) (r : Result A) (a : A) → map_err f r ≡ ok a → r ≡ ok a
map_err-ok f (ok b) a h = h
map_err-ok f (err e) a h = cc h

module _ {R X Mux Policy C : Type 0} (framework : Framework R X Mux Policy C)
    (serves : Mux → Text → Option (Handler R X)) (has_scopes : R → List Text → Bool)
    (laws : IsFramework framework serves has_scopes) where
  -- A pattern is served, and a request without the scopes changes nothing there.
  abbrev pub Guarded : Route → Mux → Type 0
  Guarded route mux =
      (h : Handler R X) × (serves mux (mux_pattern route) ≡ some h)
      × ((r : R) (s : X) → has_scopes r route.scopes ≡ false → (h r s).1 ≡ s)

  -- Another pattern is served as before.
  abbrev Elsewhere : Route → Mux → Mux → Type 0
  Elsewhere route mux mux' =
      (p : Text) → (mux_pattern route == p) ≡ false → serves mux' p ≡ serves mux p

  registered-served :
      {I : Type 0} (middleware l : List (Middleware R X)) (route : Route) (mux mux' : Mux)
      (handler : I → Handler R X) (interceptors : Result I)
      → registered framework middleware route mux handler interceptors l ≡ ok mux'
      → (i : I) × (o : Middleware R X) × (framework.observation route ≡ ok o)
        × ((p : Text)
            → serves mux' p
              ≡ (if mux_pattern route == p then some (o (around l (handler i))) else serves mux p))
  unfolding registered observed
  registered-served middleware l route mux mux' handler interceptors h =
      let (o, i, observing, _, last) =
        two_steps_ok (route_error "configure generated route %s observation: %w" route)
          (route_error "construct generated typed interceptors for route %s: %w" route)
          (framework.observation route) (λ o. interceptors)
          (λ o i. observed framework middleware route mux (handler i) l o) mux' h in
      (
        i,
        o,
        observing,
        laws.registers mux mux' (mux_pattern route) (handler i) o l (
            map_err-ok (route_error "register generated route %s: %w" route)
              (framework.register_observed mux (mux_pattern route) (handler i) o l) mux' last),
      )

  register_guarded-Guarded :
      {I : Type 0} (route : Route) (mux mux' : Mux) (handler : I → Handler R X)
      (interceptors : Result I)
      → register_guarded framework [] route mux handler interceptors ≡ ok mux'
      → Guarded route mux' × Elsewhere route mux mux'
  unfolding register_guarded
  register_guarded-Guarded route mux mux' handler interceptors h =
      let (policy, g, made, guarding, last) =
        two_steps_ok (route_error "construct generated authorization policy for route %s: %w" route)
          (route_error "construct generated authorization guard for route %s: %w" route)
          (framework.new_policy route) framework.guard
          (λ policy g. registered framework [] route mux handler interceptors (g ∷ [])) mux' h in
      let (i, o, observing, served) =
        registered-served [] (g ∷ []) route mux mux' handler interceptors last in
      (
        (
          o (g (handler i)),
          served (mux_pattern route) ∙ rw (==_refl (mux_pattern route)) refl,
          λ r s refused.
              laws.observes route o observing (g (handler i)) r s
              ∙ laws.guards route policy g made guarding (handler i) r s refused,
        ),
        λ p other. served p ∙ rw other refl,
      )

  -- One step of the configuration that succeeds.
  next_ok :
      (ctx : Context) (register : Mux → Result Mux) (p : Result Mux × C) (mux' : Mux) (c : C)
      → next framework [] ctx register p ≡ (ok mux', c)
      → (mux : Mux) × (p ≡ (ok mux, c)) × (register mux ≡ ok mux')
  unfolding next
  next_ok ctx register (err e, d) mux' c h = cc h
  next_ok ctx register (ok mux, d) mux' c h =
      let (done, same) = aborted_ok ctx d (register mux) mux' c h in
      (mux, ap (λ k. (ok mux, k)) same, done)
    where
      aborted_ok :
          (ctx : Context) (d : C) (r : Result Mux) (mux' : Mux) (c : C)
          → aborted framework [] ctx d r ≡ (ok mux', c)
          → (r ≡ ok mux') × (d ≡ c)
      aborted_ok ctx d (ok m) mux' c h = (cc h, cc h)
      aborted_ok ctx d (err e) mux' c h = cc h

  configured_ok :
      (ctx : Context) (catalog get place receipt : Mux → Result Mux) (mux mux' : Mux) (c c' : C)
      → configure_routes framework [] ctx catalog get place receipt mux c ≡ (ok mux', c')
      → (first second third : Mux) × (get first ≡ ok second)
        × (place second ≡ ok third)
        × (receipt third ≡ ok mux')
  unfolding configure_routes
  configured_ok ctx catalog get place receipt mux mux' c c' h =
      let (third, e3, r3) =
        next_ok ctx receipt
          (next framework [] ctx place
            (next framework [] ctx get (next framework [] ctx catalog (ok mux, c))))
          mux' c' h in
      let (second, e2, r2) =
        next_ok ctx place (next framework [] ctx get (next framework [] ctx catalog (ok mux, c)))
          third c' e3 in
      let (first, _, r1) =
        next_ok ctx get (next framework [] ctx catalog (ok mux, c)) second c' e2 in
      (first, second, third, r1, r2, r3)

  -- With no middleware in the options: if the routes are configured, then the mux serves the patterns of
  -- a placement, of an order and of a receipt, and there a request without the route's scopes changes
  -- nothing. The framework does what it documents.
  pub configure_routes-Guarded :
      (web : Web R) (ctx : Context) (catalog : Mux → Result Mux)
      (get : Result (Invocation GetOrderRequest OrderResponse X))
      (place : Result (Invocation PlaceOrderRequest OrderResponse X))
      (receipt : Result (Invocation ReceiptRequest ReceiptResponse X)) (mux mux' : Mux) (c c' : C)
      → configure_routes framework [] ctx catalog
          (register_get framework [] web get)
          (register_place framework [] web place)
          (register_receipt framework [] web receipt)
          mux
          c
        ≡ (ok mux', c')
      → Guarded get_order mux' × Guarded place_order mux' × Guarded send_receipt mux'
  unfolding register_get register_place register_receipt
  configure_routes-Guarded web ctx catalog get place receipt mux mux' c c' h =
      let (first, second, third, r1, r2, r3) =
        configured_ok ctx catalog (register_get framework [] web get)
          (register_place framework [] web place) (register_receipt framework [] web receipt) mux
          mux' c c' h in
      let (g1, _) = register_guarded-Guarded get_order first second (get_handler web) get r1 in
      let (g2, k2) =
        register_guarded-Guarded place_order second third (place_handler web) place r2 in
      let (g3, k3) =
        register_guarded-Guarded send_receipt third mux' (receipt_handler web) receipt r3 in
      (
        kept get_order send_receipt third mux' refl k3
            (kept get_order place_order second third refl k2 g1),
        kept place_order send_receipt third mux' refl k3 g2,
        g3,
      )
    where
      kept :
          (route other : Route) (m m' : Mux)
          → (mux_pattern other == mux_pattern route) ≡ false
          → Elsewhere other m m'
          → Guarded route m
          → Guarded route m'
      kept route other m m' distinct same (h, served, quiet) =
          (h, same (mux_pattern route) distinct ∙ served, quiet)
