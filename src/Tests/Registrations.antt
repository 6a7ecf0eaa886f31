-- ===== src/Tests/Registrations.antt =====
-- The routes behind their guards, for requests that are the scopes of who makes them.
use commerce.Prelude.{
  ℕ, ◌+◌, pos, ◌≡◌, refl, ap, sym, ◌∙◌, Bool, true, false, ◌&&◌, List, [], ◌∷◌, Option, none, some,
  Text, text_eq, ◌==◌, ◌||◌, if◌then◌else◌,
}
use commerce.Go.{Problem, errors_new, background, Result, ok, err}
use commerce.Orders.Controller.{PlaceOrderRequest, OrderResponse, ReceiptResponse}
use commerce.Application.{Web, Handler, problem, Invocation, GetOrderRequest, ReceiptRequest}
use commerce.Application.Registration.{
  Framework, Route, place_order, get_order, send_receipt, register_place, register_get,
  register_receipt, configure_routes,
}
use commerce.Application.Registration.Guards.{
  around, IsFramework, Guarded, configure_routes-Guarded,
}

abbrev forbidden : Problem
forbidden = record { type = "forbidden"; title = "Forbidden"; status = 403; detail = "" }

abbrev web : Web (List Text)
web = record {
  accept = λ r. [];
  path_value = λ r name. [];
  context = λ r. background;
  accepts_json = λ header. true;
  decode_json = λ r. ok (record { quantity = pos 1 });
  validate = λ ctx check. check ctx;
  parameter = λ name values. ok none;
  map_error = λ r e. forbidden;
}

abbrev member : Text → List Text → Bool
member scope [] = false
member scope (s ∷ l) = s == scope || member scope l

abbrev has_scopes : List Text → List Text → Bool
has_scopes r [] = true
has_scopes r (s ∷ l) = member s r && has_scopes r l

-- A handler over a count of the changes.
abbrev Mux : Type 0
Mux = Text → Option (Handler (List Text) ℕ)

abbrev guarding : Route → Handler (List Text) ℕ → Handler (List Text) ℕ
guarding route h r s = if has_scopes r route.scopes then h r s else (problem forbidden, s)

abbrev framework : Framework (List Text) ℕ Mux Route ℕ
framework = record {
  new_policy = λ route. ok route;
  guard = λ policy. ok (guarding policy);
  observation = λ route. ok (λ h. h);
  register_observed =
      λ mux pattern h o l. ok (λ p. if pattern == p then some (o (around l h)) else mux p);
  abort = λ c ctx e. (e, c + 1);
}

-- The law of a mux whose registration is the function above.
registered_law :
    (mux mux' : Mux) (pattern : Text) (h : Handler (List Text) ℕ)
    (o : Handler (List Text) ℕ → Handler (List Text) ℕ)
    (l : List (Handler (List Text) ℕ → Handler (List Text) ℕ))
    → framework.register_observed mux pattern h o l ≡ ok mux'
    → (p : Text) → mux' p ≡ (if pattern == p then some (o (around l h)) else mux p)
registered_law mux mux' pattern h o l e p = sym (ap (λ m. served m p) e)
  where
    served : Result Mux → Mux
    served (ok m) = m
    served (err f) = mux

abbrev middleware_of :
    Result (Handler (List Text) ℕ → Handler (List Text) ℕ)
    → Handler (List Text) ℕ
    → Handler (List Text) ℕ
middleware_of (ok m) h = m h
middleware_of (err f) h = h

abbrev policy_of : Route → Result Route → Route
policy_of default (ok p) = p
policy_of default (err f) = default

kept :
    (route policy : Route) (g : Handler (List Text) ℕ → Handler (List Text) ℕ)
    → ok route ≡ ok policy
    → ok (guarding policy) ≡ ok g
    → (h : Handler (List Text) ℕ) (r : List Text) (s : ℕ) → has_scopes r route.scopes ≡ false
    → (g h r s).1 ≡ s
kept route policy g p e h r s refused =
    let closed : has_scopes r policy.scopes ≡ false =
      ap (λ k. has_scopes r (policy_of route k).scopes) (sym p) ∙ refused in
    let shut : (guarding policy h r s).1 ≡ s = rw closed refl in
    ap (λ k. (middleware_of k h r s).1) (sym e) ∙ shut

framework_laws : IsFramework framework (λ mux p. mux p) has_scopes
framework_laws = record {
  registers = registered_law;
  observes = λ route o e h r s. ap (λ k. (middleware_of k h r s).1) (sym e);
  guards = kept;
}

abbrev place : Invocation PlaceOrderRequest OrderResponse ℕ
place ctx q s = (err (errors_new "closed"), s + 1)

abbrev get : Invocation GetOrderRequest OrderResponse ℕ
get ctx q s = (err (errors_new "closed"), s + 1)

abbrev receipt : Invocation ReceiptRequest ReceiptResponse ℕ
receipt ctx q s = (err (errors_new "closed"), s + 1)

abbrev configured : Result Mux × ℕ
configured =
    configure_routes framework [] background (λ mux. ok mux)
      (register_get framework [] web (ok get)) (register_place framework [] web (ok place))
      (register_receipt framework [] web (ok receipt)) (λ p. none) 0

abbrev mux_of : Result Mux → Mux
mux_of (ok m) = m
mux_of (err e) = λ p. none

configure_routes-Guarded_example :
    Guarded framework (λ mux p. mux p) has_scopes framework_laws get_order (mux_of configured.0)
    × Guarded framework (λ mux p. mux p) has_scopes framework_laws place_order (mux_of configured.0)
    × Guarded framework
        (λ mux p. mux p)
        has_scopes
        framework_laws
        send_receipt
        (mux_of configured.0)
unfolding configure_routes register_get register_place register_receipt
configure_routes-Guarded_example =
    configure_routes-Guarded framework (λ mux p. mux p) has_scopes framework_laws web background
      (λ mux. ok mux) (ok get) (ok place) (ok receipt) (λ p. none) (mux_of configured.0) 0 0 refl
