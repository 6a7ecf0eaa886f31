-- ===== src/Prelude/Decimal.antt =====
-- Decimal printing of numbers, as `%d` and `%06d` of `fmt` print them, and what the digits stand for.
pub mod Shapes
use Prim.Native.Nat.{ℕ, zero, suc, ◌+◌, ◌-◌, ◌*◌, ◌/◌, ◌%◌, ◌<◌}
use mathlib.Core.Path.{◌≡◌, refl, sym, ap, ◌∙◌}
use mathlib.Core.List.{[], ◌∷◌, ◌++◌}
use native.Mathlib.Omega.{arith}
use commerce.Prelude.Tests.{ltb, if◌then◌else◌, Bool-cases}
use commerce.Prelude.Lists.{length, replicate}
use commerce.Prelude.Int.{ℤ, pos, negsuc}
use commerce.Prelude.Strings.{Text}
use mathlib.Core.Logic.{inl, inr}

-- The last digit is split off on each round; `n + 1` rounds are enough.
digits : ℕ → ℕ → Text
digits zero n = []
digits (suc f) n =
    let more = digits f (n / 10) ++ (48 + n % 10) ∷ [] in if ltb n 10 then (48 + n) ∷ [] else more

unfoldable pub decimal : ℕ → Text
unfolding digits
decimal n = digits (suc n) n

-- `%d`.
unfoldable pub format_int : ℤ → Text
unfolding decimal
format_int (pos n) = decimal n
format_int (negsuc n) = b'-' ∷ decimal (suc n)

-- Zeros on the left up to the width.
pad : ℕ → Text → Text
pad w s = replicate (w - length s) b'0' ++ s

-- `%06d`: the sign counts for the width.
unfoldable pub format_padded : ℤ → Text
unfolding decimal pad
format_padded (pos n) = pad 6 (decimal n)
format_padded (negsuc n) = b'-' ∷ pad 5 (decimal (suc n))

-- What a row of digits stands for.
value_from : ℕ → Text → ℕ
value_from acc [] = acc
value_from acc (c ∷ s) = value_from (acc * 10 + (c - 48)) s

pub value : Text → ℕ
value = value_from 0

value_from-append :
    (acc : ℕ) (s t : Text) → value_from acc (s ++ t) ≡ value_from (value_from acc s) t
unfolding value_from
value_from-append acc [] t = refl
value_from-append acc (c ∷ s) t = value_from-append (acc * 10 + (c - 48)) s t

value_from-replicate : (k : ℕ) (s : Text) → value_from 0 (replicate k b'0' ++ s) ≡ value_from 0 s
unfolding value_from
value_from-replicate zero s = refl
value_from-replicate (suc k) s = value_from-replicate k s

value_from-last : (v n : ℕ) → v ≡ n / 10 → value_from v ((48 + n % 10) ∷ []) ≡ n
unfolding value_from
value_from-last v n e = omega arith

value_from-digit : (n : ℕ) → value_from 0 ((48 + n) ∷ []) ≡ n
unfolding value_from
value_from-digit n = omega arith

value-digits : (f n : ℕ) → n < f → value_from 0 (digits f n) ≡ n
unfolding digits
value-digits zero n h = elim h [ ]
value-digits (suc f) n h = elim (Bool-cases (ltb n 10)) [
  | inl small ↦ rw small (value_from-digit n)
  | inr large ↦ rw large (
      value_from-append 0 (digits f (n / 10)) ((48 + n % 10) ∷ [])
      ∙ value_from-last (value_from 0 (digits f (n / 10))) n
          (value-digits f (n / 10) (ground arith)))
]

pub value-decimal : (n : ℕ) → value (decimal n) ≡ n
unfolding value decimal
value-decimal n = value-digits (suc n) n (omega arith)

-- Padding with zeros keeps the value, so a padded number is read back.
pub value-format_padded : (n : ℕ) → value (format_padded (pos n)) ≡ n
unfolding value format_padded
value-format_padded n =
    value_from-replicate (6 - length (decimal n)) (decimal n) ∙ value-digits (suc n) n (omega arith)

pub format_padded_inj : (m n : ℕ) → format_padded (pos m) ≡ format_padded (pos n) → m ≡ n
format_padded_inj m n e = sym (value-format_padded m) ∙ ap value e ∙ value-format_padded n
