-- ===== src/Prelude/Strings/Laws.antt =====
-- `strings.TrimSpace` is idempotent, and a trimmed text that is not empty is not blank.
use mathlib.Core.Path.{◌≡◌, refl, ap, ◌∙◌}
use mathlib.Core.Bool.{Bool, true, not}
use mathlib.Core.List.{[], ◌∷◌}
use native.Mathlib.Omega.{arith}
use commerce.Prelude.Strings.{Text, is_space, trim_left, trim_right, trim_space}

trim_right_idem : (s : Text) → trim_right (trim_right s) ≡ trim_right s
unfolding trim_right
trim_right_idem [] = refl
trim_right_idem (c ∷ s) = ground (arith, trim_right_idem s)

-- The text is empty or its first character is no space.
abbrev begins_word : Text → Bool
begins_word [] = true
begins_word (c ∷ s) = not (is_space c)

begins_word-trim_left : (s : Text) → begins_word (trim_left s) ≡ true
unfolding trim_left
begins_word-trim_left [] = refl
begins_word-trim_left (c ∷ s) = ground (arith, begins_word-trim_left s)

begins_word-trim_right : (s : Text) → begins_word s ≡ true → begins_word (trim_right s) ≡ true
unfolding trim_right
begins_word-trim_right [] h = refl
begins_word-trim_right (c ∷ s) h = ground arith

trim_left-eq : (s : Text) → begins_word s ≡ true → trim_left s ≡ s
unfolding trim_left
trim_left-eq [] h = refl
trim_left-eq (c ∷ s) h = ground arith

pub trim_space_idem : (s : Text) → trim_space (trim_space s) ≡ trim_space s
unfolding trim_space
trim_space_idem s =
    ap trim_right (
      trim_left-eq (trim_right (trim_left s))
        (begins_word-trim_right (trim_left s) (begins_word-trim_left s)))
    ∙ trim_right_idem (trim_left s)
