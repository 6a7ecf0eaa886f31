-- ===== src/Tests/Layers.antt =====
-- Two layers of overrides, which name beans by numbers.
use commerce.Prelude.{
  ℕ, ◌≡◌, ◌↔◌, refl, List, [], ◌∷◌, Option, none, some, text, trim_space, All, lookup, insert,
  text_eq,
}
use commerce.Go.{Result, ok, err}
use commerce.Application.Overrides.{
  Bean, mux, BeanOverrides, BeanOverrideLayer, compose_bean_overrides,
}
use commerce.Application.Overrides.Compositions.{
  IsName, Distinct, last_override, compose_bean_overrides_iff,
}

abbrev Numbered : Bean → Type 0
Numbered b = ℕ

abbrev only_mux : ℕ → BeanOverrides Numbered
only_mux n mux = some n
only_mux n b = none

abbrev layers : List (BeanOverrideLayer Numbered)
layers =
    record { name = text "base"; overrides = only_mux 1 }
    ∷ record { name = text "test"; overrides = only_mux 2 }
    ∷ []

compose_bean_overrides_iff_example :
    ((r : BeanOverrides Numbered) × (compose_bean_overrides layers ≡ ok r)
      × ((b : Bean) → r b ≡ last_override b none layers))
    ↔ (All (λ (k : BeanOverrideLayer Numbered). IsName k.name) layers × Distinct layers)
compose_bean_overrides_iff_example = compose_bean_overrides_iff layers

abbrev mux_of : Result (BeanOverrides Numbered) → Option ℕ
mux_of (ok r) = r mux
mux_of (err e) = none

later_layer_wins : mux_of (compose_bean_overrides layers) ≡ some 2
unfolding compose_bean_overrides trim_space lookup insert
later_layer_wins = refl
