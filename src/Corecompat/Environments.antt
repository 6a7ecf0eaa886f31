-- ===== src/Corecompat/Environments.antt =====
-- The environments of the go command and the comparison of repository states
-- (internal/corecompat/contract.go). The process environment is an argument.
pub mod Settings
use commerce.Prelude.{
  ℕ, ◌≡◌, refl, ap, ◌∙◌, Bool, false, not, ◌&&◌, ◌||◌, List, [], ◌∷◌, ◌++◌, all, length, Option,
  none, some, Text, text, to_upper, Dict, lookup, has_key, nat_beq, nat_eq, text_eq, list_beq_iff,
  if◌then◌else◌, arith,
}
use commerce.Corecompat.{sort}
use commerce.Corecompat.Requirements.{has, has-sort}

-- The key of `strings.Cut(entry, "=")`, `none` for an entry without the sign.
abbrev pub before_key : ℕ → Option Text → Option Text
before_key c none = none
before_key c (some key) = some (c ∷ key)

abbrev pub key_of : Text → Option Text
key_of [] = none
key_of (c ∷ s) = if nat_beq c b'=' then some [] else before_key c (key_of s)

-- Whether an entry of the process stays: it has a key, and no override has that key in upper case.
abbrev pub is_kept : Dict Text Text → Option Text → Bool
is_kept overrides none = false
is_kept overrides (some key) = not (has_key (to_upper key) overrides)

abbrev pub kept : Dict Text Text → List Text → List Text
kept overrides [] = []
kept overrides (entry ∷ entries) =
    if is_kept overrides (key_of entry)
    then entry ∷ kept overrides entries
    else kept overrides entries

abbrev pub added : Dict Text Text → List Text
added [] = []
added ((key, value) ∷ overrides) = (key ++ b'=' ∷ value) ∷ added overrides

unfoldable pub environment : List Text → Dict Text Text → List Text
environment base overrides = sort (kept overrides base ++ added overrides)

abbrev pub offline_overrides : Text → Dict Text Text
offline_overrides flags =
    (text "GOFLAGS", flags)
    ∷ (text "GOPROXY", text "off")
    ∷ (text "GOTOOLCHAIN", text "local")
    ∷ (text "GOWORK", text "off")
    ∷ []

unfoldable pub offline_environment : List Text → List Text
offline_environment base = environment base (offline_overrides (text "-mod=mod"))

unfoldable pub offline_modfile_environment : List Text → Text → List Text
offline_modfile_environment base modfile =
    environment base (offline_overrides (text "-mod=mod -modfile=" ++ modfile))

unfoldable pub vendored_offline_environment : List Text → List Text
vendored_offline_environment base = environment base (offline_overrides (text "-mod=vendor"))

unfoldable pub online_environment : List Text → List Text
online_environment base =
    environment base
      ((text "GOFLAGS", []) ∷ (text "GOTOOLCHAIN", text "local") ∷ (text "GOWORK", text "off") ∷ [])

-- A digest is a number of 256 bits, and a missing path reads as the digest of zeros.
abbrev pub digest_or_zero : Option ℕ → ℕ
digest_or_zero none = 0
digest_or_zero (some digest) = digest

unfoldable pub maps_equal : Dict Text ℕ → Dict Text ℕ → Bool
maps_equal left right =
    nat_beq (length left) (length right)
    && all (λ e. nat_beq (digest_or_zero (lookup e.0 right)) e.1) left

has-append : (s : Text) (xs ys : List Text) → has s (xs ++ ys) ≡ (has s xs || has s ys)
has-append s [] ys = refl
has-append s (x ∷ xs) ys = ground (arith, has-append s xs ys)

has-kept :
    (overrides : Dict Text Text) (s : Text) (entries : List Text)
    → has s (kept overrides entries) ≡ (has s entries && is_kept overrides (key_of s))
has-kept overrides s [] = refl
has-kept overrides s (entry ∷ entries) =
    ground (arith, has-kept overrides s entries, list_beq_iff entry s)

-- An environment has exactly the entries of the process whose upper-case key no override has, and
-- each override as `key=value`.
pub has-environment :
    (base : List Text) (overrides : Dict Text Text) (s : Text)
    → has s (environment base overrides)
      ≡ ((has s base && is_kept overrides (key_of s)) || has s (added overrides))
unfolding environment
has-environment base overrides s =
    has-sort s (kept overrides base ++ added overrides)
    ∙ has-append s (kept overrides base) (added overrides)
    ∙ ap (λ b. b || has s (added overrides)) (has-kept overrides s base)
