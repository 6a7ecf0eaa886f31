-- ===== src/Qualitygate/Subprocesses/Batches.antt =====
-- The batches of arguments that the gate hands to a program (internal/qualitygate/main.go).
use commerce.Prelude.{
  ℤ, pos, negsuc, leb_ℤ, Bool-cases, inl, inr, ℕ, zero, suc, ◌≤◌, ◌<◌, ◌≡◌, refl, ap, List, [], ◌∷◌,
  ◌++◌, length, take, drop, All, Text, arith,
}
use commerce.Qualitygate.Subprocesses.{
  Batched, ended, panicked, unfinished, min_int, batch_then, sliced, batches_from, batches,
}

-- The values of all batches, one batch after the other.
abbrev pub flattened : List (List Text) → List Text
flattened [] = []
flattened (batch ∷ rest) = batch ++ flattened rest

-- A batch has a value at least and no more than the size.
abbrev pub IsBatch : ℕ → List Text → Type 0
IsBatch size batch = (0 < length batch) × (length batch ≤ size)

take-drop : (n : ℕ) (values : List Text) → take n values ++ drop n values ≡ values
take-drop zero values = refl
take-drop (suc n) [] = refl
take-drop (suc n) (v ∷ values) = ap (λ l. v ∷ l) (take-drop n values)

length-take : (n : ℕ) (values : List Text) → length (take n values) ≤ n
length-take zero values = omega arith
length-take (suc n) [] = omega arith
length-take (suc n) (v ∷ values) = omega (arith, length-take n values)

length-drop : (n : ℕ) (values : List Text) → length (drop n values) ≤ length values
length-drop zero values = omega arith
length-drop (suc n) [] = omega arith
length-drop (suc n) (v ∷ values) = omega (arith, length-drop n values)

-- The first batch of a positive size has no more values than the size, nor than there are.
min_positive :
    (n k : ℕ) → (m : ℕ) × (min_int (pos (suc n)) (pos (suc k)) ≡ pos (suc m)) × (m ≤ n) × (m ≤ k)
min_positive n k = elim (Bool-cases (leb_ℤ (pos (suc n)) (pos (suc k)))) [
  | inl e ↦ (n, rw e refl, omega arith, ground (arith, e))
  | inr e ↦ (k, rw e refl, ground (arith, e), omega arith)
]

-- The loop ends with batches that are, one after the other, all the values in their order, and each of
-- which has a value at least and no more than the size.
abbrev pub Ends : ℕ → List Text → Batched → Type 0
Ends size values q =
    (all : List (List Text)) × (q ≡ ended all) × (flattened all ≡ values) × All (IsBatch size) all

batch_then-Ends :
    (n m : ℕ) (v : Text) (values : List Text) (q : Batched)
    → m ≤ n
    → Ends (suc n) (drop m values) q
    → Ends (suc n) (v ∷ values) (batch_then (v ∷ take m values) q)
batch_then-Ends n m v values q l (all, e, same, sizes) = (
  (v ∷ take m values) ∷ all,
  rw e refl,
  rw same (ap (λ l. v ∷ l) (take-drop m values)),
  ((omega arith, omega (arith, length-take m values)), sizes),
)

batches_from-Ends :
    (rounds n : ℕ) (values : List Text)
    → length values ≤ rounds
    → Ends (suc n) values (batches_from rounds values (pos (suc n)))
unfolding batches_from sliced
batches_from-Ends rounds n [] h = ([], refl, refl, tt)
batches_from-Ends zero n (v ∷ values) h = ground (arith, h)
batches_from-Ends (suc rounds) n (v ∷ values) h =
    let (m, e, below, inside) = min_positive n (length values) in
    rw e (
      batch_then-Ends n m v values _ below
        (batches_from-Ends rounds n (drop m values) (omega (arith, length-drop m values))))

-- What the loop does for each size.
abbrev pub Loops : ℤ → List Text → Type 0
Loops size [] = batches [] size ≡ ended []
Loops (pos zero) (v ∷ values) =
    (rounds : ℕ) → batches_from rounds (v ∷ values) (pos zero) ≡ unfinished
Loops (pos (suc n)) (v ∷ values) = Ends (suc n) (v ∷ values) (batches (v ∷ values) (pos (suc n)))
Loops (negsuc n) (v ∷ values) = batches (v ∷ values) (negsuc n) ≡ panicked

min_zero : (k : ℕ) → min_int (pos zero) (pos k) ≡ pos zero
min_zero k = ground arith

min_negative : (n k : ℕ) → min_int (negsuc n) (pos k) ≡ negsuc n
min_negative n k = ground arith

zero_unfinished :
    (rounds : ℕ) (v : Text) (values : List Text)
    → batches_from rounds (v ∷ values) (pos zero) ≡ unfinished
unfolding batches_from sliced
zero_unfinished zero v values = refl
zero_unfinished (suc rounds) v values =
    rw (min_zero (suc (length values)))
      (ap (batch_then (take zero (v ∷ values))) (zero_unfinished rounds v values))

-- The loop over the arguments, for every size. A positive one ends it: its batches, one after the
-- other, are all the values in their order, and each has a value at least and no more than the size.
-- With values, a negative size ends it in the panic of a slice, and for the size zero no number of
-- rounds is enough. Without values it ends at once.
pub batches_complete : (values : List Text) (size : ℤ) → Loops size values
unfolding batches batches_from sliced
batches_complete [] size = refl
batches_complete (v ∷ values) (pos zero) = λ rounds. zero_unfinished rounds v values
batches_complete (v ∷ values) (pos (suc n)) =
    batches_from-Ends (length (v ∷ values)) n (v ∷ values) (omega arith)
batches_complete (v ∷ values) (negsuc n) = rw (min_negative n (suc (length values))) refl
