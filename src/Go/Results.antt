-- ===== src/Go/Results.antt =====
-- A Go function's `(T, error)`: a value or an error, and the early return on an error as a bind.
use commerce.Prelude.{◌≡◌, refl, ◌⊎◌, inl, inr, Bool, true, false, Option, none, some}
use commerce.Go.Errors.{Error}

pub data Result {ℓ} (A : Type ℓ) : Type ℓ where
  ok : A → Result A
  err : Error → Result A

abbrev pub is_ok {ℓ} : {A : Type ℓ} → Result A → Bool
is_ok (ok a) = true
is_ok (err e) = false

infixl 5 ◌>>=◌ ◌>>◌
abbrev pub ◌>>=◌ {ℓ κ} : {A : Type ℓ} {B : Type κ} → Result A → (A → Result B) → Result B
err failure >>= next = err failure
ok value >>= next = next value

-- A step whose value is not used.
abbrev pub ◌>>◌ {κ} : {B : Type κ} → Result (Unit {0}) → Result B → Result B
first >> second = first >>= λ _. second

-- `if test { return err }`.
abbrev pub fail_if : Bool → Error → Result (Unit {0})
fail_if true e = err e
fail_if false e = ok tt

-- `if err != nil { return wrap(err) }`, for an error that is an optional value.
abbrev pub fail_with : Option Error → (Error → Error) → Result (Unit {0})
fail_with none f = ok tt
fail_with (some e) f = err (f e)

-- `if err != nil { return wrap(err) }` after a call.
abbrev pub map_err {ℓ} : {A : Type ℓ} → (Error → Error) → Result A → Result A
map_err f (ok a) = ok a
map_err f (err e) = err (f e)

pub Result-cases {ℓ} :
    {A : Type ℓ} (r : Result A) → ((a : A) × (r ≡ ok a)) ⊎ ((e : Error) × (r ≡ err e))
Result-cases (ok a) = inl (a, refl)
Result-cases (err e) = inr (e, refl)

-- A chain of checks that succeeds passed its first one.
pub passed_step {ℓ} :
    {A : Type ℓ} (m : Result (Unit {0})) (r : Result A) (a : A)
    → (m >> r) ≡ ok a
    → (m ≡ ok tt) × (r ≡ ok a)
passed_step (ok _) r a h = (refl, h)
passed_step (err e) r a h = cc

pub passed_if {ℓ} :
    {A : Type ℓ} (b : Bool) (e : Error) (r : Result A) (a : A)
    → (fail_if b e >> r) ≡ ok a
    → (b ≡ false) × (r ≡ ok a)
passed_if true e r a h = cc
passed_if false e r a h = (refl, h)

pub passed_last : (b : Bool) (e : Error) → fail_if b e ≡ ok tt → b ≡ false
passed_last true e h = cc
passed_last false e h = refl
