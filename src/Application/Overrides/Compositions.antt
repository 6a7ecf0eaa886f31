-- ===== src/Application/Overrides/Compositions.antt =====
-- When layers of overrides compose, and what they compose to (spice_contracts_gen.go).
use commerce.Prelude.{
  ℕ, ◌+◌, ◌≡◌, refl, ap, sym, ◌∙◌, ◌↔◌, inl, inr, Bool-cases, false, List, [], ◌∷◌, Option, none,
  some, Text, is_empty, trim_space, Dict, lookup, insert, lookup-insert, All, text_eq, ◌==◌, arith,
}
use commerce.Go.{Result, ok, err, passed_step}
use commerce.Application.Overrides.{
  Bean, BeanOverrides, BeanOverrideLayer, unseen, check_name, apply_layer, replaced, compose_from,
  compose_bean_overrides,
}

-- The name of a layer is there and has no white space around it.
abbrev pub IsName : Text → Type 0
IsName name = (is_empty name ≡ false) × (trim_space name ≡ name)

unseen-ok_iff : (name : Text) (o : Option ℕ) → (unseen name o ≡ ok tt) ↔ (o ≡ none)
unfolding unseen
unseen-ok_iff name none = (λ h. refl, λ h. refl)
unseen-ok_iff name (some i) = (λ h. cc h, λ h. cc h)

check_name-ok_iff :
    (i : ℕ) (seen : Dict Text ℕ) (name : Text)
    → (check_name i seen name ≡ ok tt) ↔ (IsName name × (lookup name seen ≡ none))
unfolding check_name
check_name-ok_iff i seen name = (
  λ h.
      ground
        (arith, h, text_eq.beq_iff (trim_space name) name, unseen-ok_iff name (lookup name seen)),
  λ h.
      ground
        (arith, h, text_eq.beq_iff (trim_space name) name, unseen-ok_iff name (lookup name seen)),
)

module _ {V : Bean → Type 0} where
  -- No two layers have one name.
  abbrev pub Distinct : List (BeanOverrideLayer V) → Type 0
  Distinct [] = Unit {0}
  Distinct (layer ∷ layers) = All (λ k. (layer.name == k.name) ≡ false) layers × Distinct layers

  -- The replacement of a bean in the last layer that has one, or else what was there.
  abbrev pub last_override : (b : Bean) → Option (V b) → List (BeanOverrideLayer V) → Option (V b)
  last_override b before [] = before
  last_override b before (layer ∷ layers) = elim (layer.overrides b) [
    | none ↦ last_override b before layers
    | some o ↦ last_override b (some o) layers
  ]

  abbrev Unseen : Dict Text ℕ → List (BeanOverrideLayer V) → Type 0
  Unseen seen layers = All (λ k. lookup k.name seen ≡ none) layers

  insert-Unseen :
      (name : Text) (i : ℕ) (seen : Dict Text ℕ) (layers : List (BeanOverrideLayer V))
      → Unseen (insert name i seen) layers
      → All (λ k. (name == k.name) ≡ false) layers × Unseen seen layers
  insert-Unseen name i seen [] h = (tt, tt)
  insert-Unseen name i seen (k ∷ l) (h, r) =
      let (a, b) = insert-Unseen name i seen l r in
      elim (Bool-cases (name == k.name)) [
        | inl same ↦
            let found : lookup k.name (insert name i seen) ≡ some i =
              lookup-insert name k.name i seen ∙ (rw same refl) in
            cc (found, h)
        | inr other ↦
            let kept : lookup k.name (insert name i seen) ≡ lookup k.name seen =
              lookup-insert name k.name i seen ∙ (rw other refl) in
            ((other, a), (sym kept ∙ h, b))
      ]

  Unseen-insert :
      (name : Text) (i : ℕ) (seen : Dict Text ℕ) (layers : List (BeanOverrideLayer V))
      → All (λ k. (name == k.name) ≡ false) layers
      → Unseen seen layers
      → Unseen (insert name i seen) layers
  Unseen-insert name i seen [] d u = tt
  Unseen-insert name i seen (k ∷ l) (other, d) (h, u) =
      (lookup-insert name k.name i seen ∙ (rw other h), Unseen-insert name i seen l d u)

  last_override-apply :
      (b : Bean) (result : BeanOverrides V) (k : BeanOverrideLayer V)
      (l : List (BeanOverrideLayer V))
      → last_override b (apply_layer result k b) l ≡ last_override b (result b) (k ∷ l)
  unfolding apply_layer
  last_override-apply b result k l = applied (k.overrides b)
    where
      applied :
          (o : Option (V b))
          → last_override b (replaced o (result b)) l ≡ elim o [
            | none ↦ last_override b (result b) l
            | some new ↦ last_override b (some new) l
          ]
      applied none = refl
      applied (some new) = refl

  abbrev of : Result (BeanOverrides V) → BeanOverrides V
  of (ok r) = r
  of (err e) = λ b. none

  abbrev Composable : Dict Text ℕ → List (BeanOverrideLayer V) → Type 0
  Composable seen layers = All (λ k. IsName k.name) layers × Distinct layers × Unseen seen layers

  compose_from-Composable :
      (i : ℕ) (seen : Dict Text ℕ) (result r : BeanOverrides V)
      (layers : List (BeanOverrideLayer V))
      → compose_from i seen result layers ≡ ok r
      → Composable seen layers × ((b : Bean) → r b ≡ last_override b (result b) layers)
  unfolding compose_from
  compose_from-Composable i seen result r [] h = ((tt, tt, tt), λ b. ap (λ q. of q b) (sym h))
  compose_from-Composable i seen result r (k ∷ l) h =
      let (checked, rest) = passed_step (check_name i seen k.name) _ r h in
      let (named, fresh) = (check_name-ok_iff i seen k.name).0 checked in
      let ((names, distinct, seen_none), last) =
        compose_from-Composable (i + 1) (insert k.name i seen) (apply_layer result k) r l rest in
      let (others, unseen_before) = insert-Unseen k.name i seen l seen_none in
      (
        ((named, names), (others, distinct), (fresh, unseen_before)),
        λ b. last b ∙ last_override-apply b result k l,
      )

  compose_from_ok :
      (i : ℕ) (seen : Dict Text ℕ) (result : BeanOverrides V) (layers : List (BeanOverrideLayer V))
      → Composable seen layers
      → (r : BeanOverrides V) × (compose_from i seen result layers ≡ ok r)
  unfolding compose_from
  compose_from_ok i seen result [] h = (result, refl)
  compose_from_ok i seen result (k ∷ l)
        ((named, names), (others, distinct), (fresh, unseen_before)) =
      let checked = (check_name-ok_iff i seen k.name).1 (named, fresh) in
      let (r, done) =
        compose_from_ok (i + 1) (insert k.name i seen) (apply_layer result k) l
          (names, distinct, Unseen-insert k.name i seen l others unseen_before) in
      (r, rw checked done)

  none_seen : (layers : List (BeanOverrideLayer V)) → Unseen [] layers
  unfolding lookup
  none_seen [] = tt
  none_seen (k ∷ l) = (refl, none_seen l)

  -- Layers compose exactly if each has a name without white space around it and no two have the same;
  -- then each bean has the replacement of the last layer that has one for it.
  pub compose_bean_overrides_iff :
      (layers : List (BeanOverrideLayer V))
      → ((r : BeanOverrides V) × (compose_bean_overrides layers ≡ ok r)
          × ((b : Bean) → r b ≡ last_override b none layers))
        ↔ (All (λ k. IsName k.name) layers × Distinct layers)
  unfolding compose_bean_overrides
  compose_bean_overrides_iff layers = (
    λ h.
        let (r, done, _) = h in
        let ((names, distinct, _), _) = compose_from-Composable 0 [] (λ b. none) r layers done in
        (names, distinct),
    λ h.
        let (r, done) = compose_from_ok 0 [] (λ b. none) layers (h.0, h.1, none_seen layers) in
        (r, done, (compose_from-Composable 0 [] (λ b. none) r layers done).1),
  )
