-- ===== src/Prelude/Dicts.antt =====
-- Go's maps, as association lists. A read of a missing key is `none`, a write replaces or appends.
use mathlib.Core.Path.{◌≡◌, refl}
use mathlib.Core.Bool.{Bool}
use mathlib.Core.List.{List, [], ◌∷◌}
use mathlib.Core.Option.{Option, none, some}
use native.Mathlib.Omega.{arith}
use commerce.Prelude.Tests.{if◌then◌else◌, is_some, or_else}
use commerce.Prelude.Equality.{Eq, ◌==◌, ==_refl}

abbrev pub Dict {ℓ κ} : Type ℓ → Type κ → Type (ℓ ⊔ κ)
Dict K V = List (K × V)

module _ {ℓ κ} {K : Type ℓ} {V : Type κ} ⦃e : Eq K⦄ where
  unfoldable pub lookup : K → Dict K V → Option V
  lookup k [] = none
  lookup k ((j, v) ∷ d) = if j == k then some v else lookup k d

  unfoldable pub insert : K → V → Dict K V → Dict K V
  insert k v [] = (k, v) ∷ []
  insert k v ((j, w) ∷ d) = if j == k then (j, v) ∷ d else (j, w) ∷ insert k v d

  abbrev pub has_key : K → Dict K V → Bool
  has_key k d = is_some (lookup k d)

  pub lookup-insert :
      (k j : K) (v : V) (d : Dict K V)
      → lookup j (insert k v d) ≡ (if k == j then some v else lookup j d)
  unfolding lookup insert
  lookup-insert k j v [] = refl
  lookup-insert k j v ((i, w) ∷ d) =
      ground (arith, e.beq_iff k j, e.beq_iff i k, e.beq_iff i j, lookup-insert k j v d)

  pub lookup-insert_self : (k : K) (v : V) (d : Dict K V) → lookup k (insert k v d) ≡ some v
  lookup-insert_self k v d = simp (lookup-insert, ==_refl)

  -- Writing back what was read is no change, whatever was written in between.
  pub insert-insert-lookup :
      (k : K) (v w : V) (d : Dict K V) → lookup k d ≡ some v → insert k v (insert k w d) ≡ d
  unfolding lookup insert
  insert-insert-lookup k v w [] h = cc
  insert-insert-lookup k v w ((j, u) ∷ d) h =
      ground (arith, e.beq_iff j k, insert-insert-lookup k v w d)

  -- `maps.Copy`: every entry of the second is written to the first.
  unfoldable pub copy : Dict K V → Dict K V → Dict K V
  copy d [] = d
  copy d ((k, v) ∷ l) = copy (insert k v d) l

  -- No key stands twice.
  abbrev pub IsDict : Dict K V → Type κ
  IsDict [] = Unit
  IsDict ((k, v) ∷ d) = (lookup k d ≡ none) × IsDict d

  pub insert-IsDict : (k : K) (v : V) (d : Dict K V) → IsDict d → IsDict (insert k v d)
  unfolding lookup insert
  insert-IsDict k v [] h = (refl, tt)
  insert-IsDict k v (x ∷ d) h =
      ground
        (arith, insert-IsDict k v d h.1, lookup-insert k x.0 v d, e.beq_iff k x.0, e.beq_iff x.0 k)

  pub lookup-copy :
      (j : K) (d l : Dict K V) → IsDict l → lookup j (copy d l) ≡ or_else (lookup j l) (lookup j d)
  unfolding lookup copy
  lookup-copy j d [] h = refl
  lookup-copy j d ((k, v) ∷ l) h =
      ground (arith, lookup-copy j (insert k v d) l h.1, lookup-insert k j v d, e.beq_iff k j)
