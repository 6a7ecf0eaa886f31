-- ===== src/Application.antt =====
-- internal/spicegen/commerce: the application that is generated from the annotations of the modules. Its
-- requests, responses and state are here; the children are the generated files. The framework
-- (github.com/spice-framework/spice) is a parameter.
pub mod Routes
pub mod Configuration
pub mod Command
pub mod Features
pub mod Providers
pub mod Registration
pub mod Overrides
pub mod Bindings
use Prim.Native.String.{String}
use commerce.Prelude.{ℕ, Bool, List, Option, Text, ℤ}
use commerce.Go.{Error, Problem, Context, Result, ok, err}
use commerce.Orders.Controller.{PlaceOrderBody, OrderResponse, CatalogResponse, ReceiptResponse}

-- `orders.GetOrderRequest` and `orders.ReceiptRequest`.
pub record GetOrderRequest : Type 0 where
  pub id : Text

pub record ReceiptRequest : Type 0 where
  pub id : Text

-- What a route writes: a status with the value that is encoded, or a problem.
pub data Body : Type 0 where
  order : OrderResponse → Body
  catalog : CatalogResponse → Body
  receipt : ReceiptResponse → Body

pub data Response : Type 0 where
  json : ℕ → Body → Response
  problem : Problem → Response

-- What the routes take from `net/http` and the framework's web package over requests of type `R`: the
-- `Accept` header, the path's values and the context; `AcceptsJSON`, `DecodeJSON` of a placement's body
-- under the limit of the options, `Validate` and `Parameter` of a required path value, with its value
-- if it is present; and the problem that the options' mapper makes of an error.
pub record Web (R : Type 0) : Type 0 where
  pub accept : R → Text
  pub path_value : R → Text → Text
  pub context : R → Context
  pub accepts_json : Text → Bool
  pub decode_json : R → Result PlaceOrderBody
  pub validate : Context → (Context → Result (Unit {0})) → Result (Unit {0})
  pub parameter : Text → List Text → Result (Option Text)
  pub map_error : R → Error → Problem

-- `cache.Memory` of the catalog over its state: a hit, a miss or an error.
pub record Cache (K : Type 0) : Type 0 where
  pub get : K → Context → Result (Option CatalogResponse) × K
  pub put : K → Context → CatalogResponse → ℤ → Option Error × K

-- The beans that a request changes: the service, the notifier and the cache of the catalog.
pub record Shop (A B K : Type 0) : Type 0 where
  pub service : A
  pub notifier : B
  pub cache : K

-- A handler of requests, and a typed invocation of a controller's method.
abbrev pub Handler : Type 0 → Type 0 → Type 0
Handler R X = R → X → Response × X

abbrev pub Invocation : Type 0 → Type 0 → Type 0 → Type 0
Invocation Q A X = Context → Q → X → Result A × X
