-- ===== src/Qualitygate/Subprocesses/Offline.antt =====
-- What the environments of the gate's subprocesses set (internal/qualitygate/main.go).
use commerce.Prelude.{
  ◌≡◌, refl, sym, ◌∙◌, Bool-cases, inl, inr, List, [], ◌∷◌, All, none, some, Text, text, Dict,
  lookup, insert, copy, IsDict, insert-IsDict, lookup-copy, text_eq, ◌==◌, to_upper,
}
use mathlib.Core.List.{Permᴰ}
use commerce.Corecompat.Environments
use commerce.Corecompat.Environments.{environment, added}
use commerce.Corecompat.Environments.Settings.{
  Sets, IsKey, IsOffline, environment-Sets, environment-Perm,
}
use commerce.Qualitygate.Subprocesses.{
  offline_values, merged_environment, online_values, online_environment,
}

insert-IsKey :
    (k v : Text) (d : Dict Text Text) → IsKey (k, v) → All IsKey d → All IsKey (insert k v d)
unfolding insert
insert-IsKey k v [] h p = (h, tt)
insert-IsKey k v ((j, w) ∷ d) h (here, p) = elim (Bool-cases (j == k)) [
  | inl e ↦ rw e (here, p)
  | inr e ↦ rw e (here, insert-IsKey k v d h p)
]

copy-IsKey : (d l : Dict Text Text) → All IsKey d → All IsKey l → All IsKey (copy d l)
unfolding copy
copy-IsKey d [] p q = p
copy-IsKey d ((k, v) ∷ l) p (h, q) = copy-IsKey (insert k v d) l (insert-IsKey k v d h p) q

copy-IsDict : (d l : Dict Text Text) → IsDict d → IsDict (copy d l)
unfolding copy
copy-IsDict d [] i = i
copy-IsDict d ((k, v) ∷ l) i = copy-IsDict (insert k v d) l (insert-IsDict k v d i)

offline_values-IsDict : IsDict offline_values
unfolding lookup
offline_values-IsDict = (refl, (refl, (refl, (refl, tt))))

offline_values-IsKey : All IsKey offline_values
unfolding to_upper
offline_values-IsKey =
    ((λ v. refl, refl), ((λ v. refl, refl), ((λ v. refl, refl), ((λ v. refl, refl), tt))))

-- Overrides that leave the three settings alone.
abbrev pub IsTame : Dict Text Text → Type 0
IsTame d =
    IsDict d
    × All IsKey d
    × (lookup (text "GOPROXY") d ≡ none)
    × (lookup (text "GOWORK") d ≡ none)
    × (lookup (text "GOTOOLCHAIN") d ≡ none)

-- The environment of a command or capture is offline, whatever overrides it has, if they have their
-- keys in upper case, each once, and none of the three that make it offline.
pub merged_environment-IsOffline :
    (base : List Text) (overrides : Dict Text Text)
    → IsTame overrides
    → IsOffline (merged_environment base overrides)
unfolding merged_environment environment lookup
merged_environment-IsOffline base d (i, p, proxy, work, toolchain) =
    let sets : (k v : Text)
        → lookup k d ≡ none
        → lookup k offline_values ≡ some v
        → Sets k v (merged_environment base d) =
      λ k v h g.
        environment-Sets base (copy offline_values d) k v
          (copy-IsDict offline_values d offline_values-IsDict)
          (copy-IsKey offline_values d offline_values-IsKey p)
          (lookup-copy k offline_values d i ∙ rw (h, g) refl) in
    (
      sets (text "GOPROXY") (text "off") proxy refl,
      sets (text "GOWORK") (text "off") work refl,
      sets (text "GOTOOLCHAIN") (text "local") toolchain refl,
    )

abbrev core_values : Dict Text Text
core_values =
    (text "GOFLAGS", []) ∷ (text "GOTOOLCHAIN", text "local") ∷ (text "GOWORK", text "off") ∷ []

online_values_same : (k : Text) → lookup k online_values ≡ lookup k core_values
unfolding lookup
online_values_same k = elim (Bool-cases (text "GOWORK" == k)) [
  | inl e ↦ rw (sym ((text_eq.beq_iff (text "GOWORK") k).0 e)) refl
  | inr e ↦ rw e refl
]

rotated : (a b c : Text) → Permᴰ (a ∷ b ∷ c ∷ []) (b ∷ c ∷ a ∷ [])
rotated a b c = Permᴰ.trans (Permᴰ.swap refl refl) (Permᴰ.cons refl (Permᴰ.swap refl refl))

-- The two programs give the go command that may use the network the same environment.
pub online_environment_same :
    (base : List Text) → online_environment base ≡ Environments.online_environment base
unfolding online_environment Environments.online_environment environment
online_environment_same base =
    environment-Perm base online_values core_values online_values_same ∣ rotated _ _ _ ∣₁
