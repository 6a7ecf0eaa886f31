-- ===== src/Prelude/Decimal/Shapes.antt =====
-- The characters and the length of a printed number.
use Prim.Native.Nat.{ℕ, zero, suc, ◌+◌, ◌-◌, ◌*◌, ◌/◌, ◌%◌, ◌≤◌, ◌<◌}
use mathlib.Core.Path.{◌≡◌, refl}
use mathlib.Core.Bool.{Bool, true}
use mathlib.Core.List.{[], ◌∷◌, ◌++◌}
use mathlib.Core.Logic.{inl, inr}
use native.Mathlib.Omega.{arith}
use commerce.Prelude.Tests.{ltb, Bool-cases}
use commerce.Prelude.Lists.{length, replicate, all}
use commerce.Prelude.Int.{ℤ, pos, negsuc, IsInt}
use commerce.Prelude.Strings.{Text, byte_length}
use commerce.Prelude.Decimal.{digits, pad, decimal, format_padded}

-- Every character passes a test, and the bytes are no more than a bound.
abbrev pub Fits : (ℕ → Bool) → ℕ → Text → Type 0
Fits p k s = (all p s ≡ true) × (byte_length s ≤ k)

all-append : (p : ℕ → Bool) (s t : Text) → all p s ≡ true → all p t ≡ true → all p (s ++ t) ≡ true
all-append p [] t h g = g
all-append p (c ∷ s) t h g = ground (arith, h, all-append p s t)

byte_length-append : (s t : Text) → byte_length (s ++ t) ≡ byte_length s + byte_length t
byte_length-append [] t = omega arith
byte_length-append (c ∷ s) t = omega (arith, byte_length-append s t)

pub append-Fits :
    (p : ℕ → Bool) (j k : ℕ) (s t : Text) → Fits p j s → Fits p k t → Fits p (j + k) (s ++ t)
append-Fits p j k s t (a, m) (b, n) =
    (all-append p s t a b, omega (arith, m, n, byte_length-append s t))

abbrev ten : ℕ → ℕ
ten zero = 1
ten (suc k) = 10 * ten k

-- A test that the digits pass.
module _ (p : ℕ → Bool) (digit : (d : ℕ) → d < 10 → p (48 + d) ≡ true) where
  one-Fits : (d : ℕ) → d < 10 → Fits p 1 ((48 + d) ∷ [])
  one-Fits d h = (ground (arith, digit d h), ground (arith, h))

  digits-Fits : (f k n : ℕ) → n < ten (suc k) → Fits p (suc k) (digits f n)
  unfolding digits
  digits-Fits zero k n h = (refl, omega arith)
  digits-Fits (suc f) zero n h = rw (small n h) (one-Fits n (omega (arith, h)))
    where
      small : (n : ℕ) → n < ten 1 → ltb n 10 ≡ true
      small n h = ground (arith, h)
  digits-Fits (suc f) (suc k) n h = elim (Bool-cases (ltb n 10)) [
    | inl small ↦ let (a, b) = one-Fits n (ground (arith, small)) in rw small (a, omega (arith, b))
    | inr large ↦
        let rest = digits-Fits f k (n / 10) (omega (arith, h)) in
        let last = one-Fits (n % 10) (omega arith) in
        let (a, b) = append-Fits p (suc k) 1 (digits f (n / 10)) ((48 + n % 10) ∷ []) rest last in
        rw large (a, omega (arith, b))
  ]

  zeros-Fits : (w : ℕ) → Fits p w (replicate w b'0')
  zeros-Fits zero = (refl, omega arith)
  zeros-Fits (suc w) =
      let (a, b) = zeros-Fits w in
      let zero_digit = digit 0 (omega arith) in (ground (arith, a, zero_digit), omega (arith, b))

  pad-Fits : (w k : ℕ) (s : Text) → Fits p k s → Fits p (w + k) (pad w s)
  unfolding pad
  pad-Fits w k s h =
      let (a, b) =
        append-Fits p (w - length s) k (replicate (w - length s) b'0') s (zeros-Fits (w - length s))
          h in
      (a, omega (arith, b))

  -- A printed `int` fits in 27 bytes.
  pub format_padded-Fits : (z : ℤ) → IsInt z → p b'-' ≡ true → Fits p 27 (format_padded z)
  unfolding format_padded decimal
  format_padded-Fits (pos n) h minus =
      let (a, b) = pad-Fits 6 20 (digits (suc n) n) (digits-Fits (suc n) 19 n (omega (arith, h))) in
      (a, omega (arith, b))
  format_padded-Fits (negsuc n) h minus =
      let (a, b) =
        pad-Fits 5 20 (digits (suc (suc n)) (suc n))
          (digits-Fits (suc (suc n)) 19 (suc n) (omega (arith, h))) in
      (ground (arith, a, minus), omega (arith, b))
