-- ===== src/Corecompat/Roots.antt =====
-- internal/corecompat/contract.go and internal/qualitygate/main.go: the search for the repository's
-- root, a loop that both have. The parent of a path, `filepath.Dir`, is a parameter.
use commerce.Prelude.{
  ℕ, zero, suc, ◌<◌, ◌≡◌, ◌≢◌, refl, ◌⊎◌, inl, inr, Bool, true, false, Bool-cases, ◌++◌, length,
  Option, none, some, Text, text, contains, has_prefix, text_eq, ◌==◌, if◌then◌else◌, arith,
}
use commerce.Go.{Error, errors_new, errorf, end, wrapped, Result, ok, err}
use commerce.Corecompat.{repository_module}

abbrev pub no_root_error : Error
no_root_error = errors_new "find Commerce repository root: go.mod not found"

-- Whether the content of a module file names the module.
abbrev pub names_module : Result Text → Bool
names_module (ok content) = contains content (text "module " ++ repository_module)
names_module (err e) = false

-- What a turn of the loop does with a directory: `above` is what the directories above it give.
abbrev pub turn : Text → Text → Option (Result Text) → Result Bool → Option (Result Text)
turn current parent above (err e) = some (err e)
turn current parent above (ok true) = some (ok current)
turn current parent above (ok false) = if parent == current then some (err no_root_error) else above

module _ (dir : Text → Text) (examine : Text → Result Bool) where
  -- The loop from a directory up, `none` when the fuel is used up.
  unfoldable pub ascend : ℕ → Text → Option (Result Text)
  ascend zero current = none
  ascend (suc fuel) current =
      turn current (dir current) (ascend fuel (dir current)) (examine current)

-- The loop, by what the working directory is. A path is shorter at every turn, so one turn more than
-- the path is long is enough.
unfoldable pub search_root :
    (Text → Text) → (Text → Result Bool) → Result Text → Option (Result Text)
search_root dir examine (err e) = some (err (errorf "get working directory: %w" (wrapped e end)))
search_root dir examine (ok current) = ascend dir examine (suc (length current)) current

-- How corecompat examines a directory, by the read of its `go.mod`.
unfoldable pub repository_root :
    (Text → Text) → (Text → Result Text) → Result Text → Option (Result Text)
repository_root dir read_go_mod working =
    search_root dir (λ current. ok (names_module (read_go_mod current))) working

-- What `filepath.Dir` does with a path from the root on: it is one again, and shorter unless it is the
-- root itself.
abbrev pub IsDir : (Text → Text) → Type 0
IsDir dir =
    (p : Text)
    → has_prefix p (text "/") ≡ true
    → (has_prefix (dir p) (text "/") ≡ true) × ((dir p ≡ p) ⊎ (length (dir p) < length p))

module _ (dir : Text → Text) (examine : Text → Result Bool) where
  -- The first directory from one up that is the root, or whose examination fails.
  pub data Ascends : Text → Result Text → Type 0 where
    found : {p : Text} → examine p ≡ ok true → Ascends p (ok p)
    unreadable : {p : Text} {e : Error} → examine p ≡ err e → Ascends p (err e)
    top : {p : Text} → examine p ≡ ok false → dir p ≡ p → Ascends p (err no_root_error)
    up :
        {p : Text} {r : Result Text}
        → examine p ≡ ok false
        → dir p ≢ p
        → Ascends (dir p) r
        → Ascends p r

  turn-Ascends :
      (p : Text) (above : Option (Result Text)) (q : Result Bool)
      → examine p ≡ q
      → (dir p ≢ p → (r : Result Text) × (above ≡ some r) × Ascends (dir p) r)
      → (r : Result Text) × (turn p (dir p) above q ≡ some r) × Ascends p r
  turn-Ascends p above (err e) h k = (err e, refl, unreadable h)
  turn-Ascends p above (ok true) h k = (ok p, refl, found h)
  turn-Ascends p above (ok false) h k = elim (Bool-cases (dir p == p)) [
    | inl same ↦ (err no_root_error, rw same refl, top h ((text_eq.beq_iff (dir p) p).0 same))
    | inr other ↦
        let differ : dir p ≢ p = λ e. cc ((text_eq.beq_iff (dir p) p).1 e, other) in
        let (r, e, a) = k differ in (r, rw other e, up h differ a)
  ]

  ascend-Ascends :
      IsDir dir
      → (fuel : ℕ) (p : Text) → has_prefix p (text "/") ≡ true
      → length p < fuel
      → (r : Result Text) × (ascend dir examine fuel p ≡ some r) × Ascends p r
  unfolding ascend
  ascend-Ascends d zero p rooted h = ground (arith, h)
  ascend-Ascends d (suc fuel) p rooted h =
      turn-Ascends p (ascend dir examine fuel (dir p)) (examine p) refl (λ differ.
        let (rooted', above) = d p rooted in
        elim above [
          | inl same ↦ absurd (differ same)
          | inr shorter ↦ ascend-Ascends d fuel (dir p) rooted' (omega (arith, shorter, h))
        ])

  -- From a working directory that is a path from the root on, the loop ends, and it gives the first
  -- directory from there up that is the repository's root, or the error of the first that cannot be
  -- examined before it, or else that none is found.
  pub search_root_ends :
      (p : Text)
      → IsDir dir
      → has_prefix p (text "/") ≡ true
      → (r : Result Text) × (search_root dir examine (ok p) ≡ some r) × Ascends p r
  unfolding search_root
  search_root_ends p d rooted = ascend-Ascends d (suc (length p)) p rooted (omega arith)
