-- ===== src/Corecompat/Environments/Settings.antt =====
-- What the overrides of an environment set (internal/corecompat/contract.go).
use commerce.Prelude.{
  ◌≡◌, refl, inl, inr, nat_eq, sym, ap, ◌∙◌, Bool-cases, true, false, not, is_some, List, [], ◌∷◌,
  ◌++◌, All, Option, none, some, Text, text, to_upper, Dict, lookup, IsDict, text_eq, ◌==◌, ==_refl,
  list_beq_iff, arith,
}
use mathlib.Core.List.{Perm}
use mathlib.Core.List.Perm
use commerce.Corecompat.{sort}
use commerce.Corecompat.Sorting.{sort-Perm}
use commerce.Corecompat.Requirements.{has}
use commerce.Corecompat.Environments.{
  key_of, is_kept, kept, added, environment, has-environment, offline_overrides,
  offline_environment, offline_modfile_environment, vendored_offline_environment,
}

-- The environment has the setting, and no other entry whose key is this one in upper case.
abbrev pub Sets : Text → Text → List Text → Type 0
Sets k v env =
    (has (k ++ b'=' ∷ v) env ≡ true)
    × ((s key : Text)
        → has s env ≡ true
        → key_of s ≡ some key
        → to_upper key ≡ k
        → s ≡ k ++ b'=' ∷ v)

-- A key in upper case that has no `=`.
abbrev pub IsKey : Text × Text → Type 0
IsKey e = ((v : Text) → key_of (e.0 ++ b'=' ∷ v) ≡ some e.0) × (to_upper e.0 ≡ e.0)

has-added :
    (k v : Text) (d : Dict Text Text) → lookup k d ≡ some v → has (k ++ b'=' ∷ v) (added d) ≡ true
unfolding lookup
has-added k v [] h = cc
has-added k v ((j, u) ∷ d) h =
    ground (arith, has-added k v d, list_beq_iff j k, ==_refl (k ++ b'=' ∷ v))

-- An entry that an override made stands in the overrides.
added_found :
    (s key : Text) (d : Dict Text Text)
    → IsDict d
    → All IsKey d
    → has s (added d) ≡ true
    → key_of s ≡ some key
    → (u : Text) × (lookup (to_upper key) d ≡ some u) × (s ≡ to_upper key ++ b'=' ∷ u)
unfolding lookup
added_found s key [] i p h k = cc
added_found s key ((j, u) ∷ d) (fresh, i) ((cut, upper), p) h k =
    elim (Bool-cases ((j ++ b'=' ∷ u) == s)) [
      | inl here ↦
          let same : j ++ b'=' ∷ u ≡ s = (list_beq_iff (j ++ b'=' ∷ u) s).0 here in
          let key_same : j ≡ key = cc (cut u, same, k) in
          let key_upper : j ≡ to_upper key = sym upper ∙ ap to_upper key_same in
          (u, rw (sym key_upper, ==_refl j) refl, sym same ∙ ap (λ t. t ++ b'=' ∷ u) key_upper)
      | inr other ↦
          let (v, found, same) = added_found s key d i p (ground (arith, h, other)) k in
          (v, ground (arith, found, fresh, list_beq_iff j (to_upper key)), same)
    ]

some_key :
    (k v key : Text) (d : Dict Text Text)
    → lookup k d ≡ some v
    → to_upper key ≡ k
    → is_kept d (some key) ≡ false
some_key k v key d h e = rw (e, h) refl

-- An override of a key is the only setting of it.
pub environment-Sets :
    (base : List Text) (d : Dict Text Text) (k v : Text)
    → IsDict d
    → All IsKey d
    → lookup k d ≡ some v
    → Sets k v (environment base d)
environment-Sets base d k v i p h = (
  ground (arith, has-environment base d (k ++ b'=' ∷ v), has-added k v d h),
  λ s key e cut upper.
      let dropped : is_kept d (key_of s) ≡ false = rw cut (some_key k v key d h upper) in
      let added_one : has s (added d) ≡ true =
        ground (arith, e, dropped, has-environment base d s) in
      let (u, found, same) = added_found s key d i p added_one cut in
      let value : u ≡ v = cc (found, h, upper) in
      same ∙ ap (λ t. t ++ b'=' ∷ u) upper ∙ ap (λ t. k ++ b'=' ∷ t) value,
)

kept_same :
    (base : List Text) (d d' : Dict Text Text)
    → ((k : Text) → lookup k d ≡ lookup k d')
    → kept d base ≡ kept d' base
kept_same [] d d' h = refl
kept_same (entry ∷ base) d d' h = ground (arith, kept_same base d d' h, is_kept_same (key_of entry))
  where
    is_kept_same : (key : Option Text) → is_kept d key ≡ is_kept d' key
    is_kept_same none = refl
    is_kept_same (some key) = ap (λ o. not (is_some o)) (h (to_upper key))

-- The environment does not depend on the order in which the overrides are ranged over.
pub environment-Perm :
    (base : List Text) (d d' : Dict Text Text)
    → ((k : Text) → lookup k d ≡ lookup k d')
    → Perm (added d) (added d')
    → environment base d ≡ environment base d'
unfolding environment
environment-Perm base d d' h p =
    ap (λ l. sort (l ++ added d)) (kept_same base d d' h)
    ∙ sort-Perm (Perm.append_left (kept d' base) p)

-- The go command asks no proxy, and uses neither a workspace nor another toolchain.
abbrev pub IsOffline : List Text → Type 0
IsOffline env =
    Sets (text "GOPROXY") (text "off") env
    × Sets (text "GOWORK") (text "off") env
    × Sets (text "GOTOOLCHAIN") (text "local") env

offline_overrides-IsDict : (flags : Text) → IsDict (offline_overrides flags)
unfolding lookup
offline_overrides-IsDict flags = (refl, (refl, (refl, (refl, tt))))

offline_overrides-IsKey : (flags : Text) → All IsKey (offline_overrides flags)
unfolding to_upper
offline_overrides-IsKey flags =
    ((λ v. refl, refl), ((λ v. refl, refl), ((λ v. refl, refl), ((λ v. refl, refl), tt))))

offline_overrides-IsOffline :
    (base : List Text) (flags : Text) → IsOffline (environment base (offline_overrides flags))
unfolding lookup
offline_overrides-IsOffline base flags =
    let sets : (k v : Text)
        → lookup k (offline_overrides flags) ≡ some v
        → Sets k v (environment base (offline_overrides flags)) =
      λ k v.
        environment-Sets base (offline_overrides flags) k v (offline_overrides-IsDict flags)
          (offline_overrides-IsKey flags) in
    (
      sets (text "GOPROXY") (text "off") refl,
      sets (text "GOWORK") (text "off") refl,
      sets (text "GOTOOLCHAIN") (text "local") refl,
    )

pub offline_environment-IsOffline : (base : List Text) → IsOffline (offline_environment base)
unfolding offline_environment
offline_environment-IsOffline base = offline_overrides-IsOffline base (text "-mod=mod")

pub offline_modfile_environment-IsOffline :
    (base : List Text) (modfile : Text) → IsOffline (offline_modfile_environment base modfile)
unfolding offline_modfile_environment
offline_modfile_environment-IsOffline base modfile =
    offline_overrides-IsOffline base (text "-mod=mod -modfile=" ++ modfile)

pub vendored_offline_environment-IsOffline :
    (base : List Text) → IsOffline (vendored_offline_environment base)
unfolding vendored_offline_environment
vendored_offline_environment-IsOffline base = offline_overrides-IsOffline base (text "-mod=vendor")
