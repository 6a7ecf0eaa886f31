-- ===== src/Application/Overrides.antt =====
-- ComposeBeanOverrides of internal/spicegen/commerce/spice_contracts_gen.go: named layers of replacements
-- for the beans of the application.
pub mod Compositions
use commerce.Prelude.{
  ℕ, ◌+◌, pos, not, ◌||◌, List, [], ◌∷◌, Option, none, some, Text, is_empty, trim_space, Dict,
  lookup, insert, text_eq, ◌==◌,
}
use commerce.Go.{Error, errorf, end, int_arg, quoted, Result, ok, err, ◌>>=◌, ◌>>◌, fail_if}

-- The beans that can be replaced.
pub data Bean : Type 0 where
  view_audit mux order_repository database native read_executor transactions : Bean
  offline_processor stripe_processor server inventory_service orders_service : Bean
  system_clock delivery notifier controller : Bean

-- BeanOverrides, with an `Override` for each of its fields: one that is enabled is there. The types of
-- the beans are those of the constructors, a parameter here.
abbrev pub BeanOverrides : (Bean → Type 0) → Type 0
BeanOverrides V = (b : Bean) → Option (V b)

pub record BeanOverrideLayer (V : Bean → Type 0) : Type 0 where
  pub name : Text
  pub overrides : BeanOverrides V

abbrev bad_name : ℕ → Error
bad_name index =
    errorf
      "compose bean overrides: layer %d requires a non-empty name without surrounding whitespace"
      (int_arg (pos index) end)

abbrev repeated : Text → ℕ → Error
repeated name previous =
    errorf "compose bean overrides: layer %q repeats layer %d"
      (quoted name (int_arg (pos previous) end))

unseen : Text → Option ℕ → Result (Unit {0})
unseen name none = ok tt
unseen name (some previous) = err (repeated name previous)

-- The checks of one layer's name, by the index of each name that was seen.
check_name : ℕ → Dict Text ℕ → Text → Result (Unit {0})
unfolding unseen
check_name index seen name =
    fail_if (is_empty name || not (trim_space name == name)) (bad_name index)
    >> unseen name (lookup name seen)

-- The fields of a layer that are enabled replace those of the result.
replaced : {A : Type 0} → Option A → Option A → Option A
replaced none before = before
replaced (some o) before = some o

module _ {V : Bean → Type 0} where
  unfoldable pub apply_layer : BeanOverrides V → BeanOverrideLayer V → BeanOverrides V
  unfolding replaced
  apply_layer result layer b = replaced (layer.overrides b) (result b)

  -- The loop over the layers.
  unfoldable pub compose_from :
      ℕ → Dict Text ℕ → BeanOverrides V → List (BeanOverrideLayer V) → Result (BeanOverrides V)
  unfolding apply_layer check_name
  compose_from index seen result [] = ok result
  compose_from index seen result (layer ∷ layers) =
      check_name index seen layer.name
      >> compose_from (index + 1) (insert layer.name index seen) (apply_layer result layer) layers

  unfoldable pub compose_bean_overrides : List (BeanOverrideLayer V) → Result (BeanOverrides V)
  unfolding compose_from
  compose_bean_overrides layers = compose_from 0 [] (λ b. none) layers
