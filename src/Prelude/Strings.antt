-- ===== src/Prelude/Strings.antt =====
-- Go strings as lists of code points, and the functions of `strings` and `strconv` that the program
-- calls. Case mappings are those of ASCII and of the letters outside it that map into it.
pub mod Laws
use Prim.Native.Nat.{ℕ, ◌+◌, ◌-◌}
use Prim.Native.Char.{code}
use Prim.Native.String.{String}
use mathlib.Core.Bool.{Bool, true, false, ◌&&◌, ◌||◌}
use mathlib.Core.List.{List, [], ◌∷◌, ◌++◌}
use mathlib.Core.Option.{Option, none, some}
use commerce.Prelude.Tests.{ltb, leb, nat_beq, if◌then◌else◌}
use commerce.Prelude.Equality.{Eq, nat_eq, list_eq}

abbrev pub Text : Type 0
Text = List ℕ

abbrev pub text : String → Text
text String.[] = []
text (String.◌∷◌ c s) = code c ∷ text s

abbrev pub is_empty {ℓ} : {A : Type ℓ} → List A → Bool
is_empty [] = true
is_empty (c ∷ s) = false

-- `len`: the bytes of the UTF-8 encoding.
abbrev pub rune_len : ℕ → ℕ
rune_len c = if ltb c 0x80 then 1 else if ltb c 0x800 then 2 else if ltb c 0x10000 then 3 else 4

abbrev pub byte_length : Text → ℕ
byte_length [] = 0
byte_length (c ∷ s) = rune_len c + byte_length s

-- `unicode.IsSpace`.
unfoldable pub is_space : ℕ → Bool
is_space c =
    (leb 9 c && leb c 13)
    || nat_beq c 32
    || nat_beq c 0x85
    || nat_beq c 0xa0
    || nat_beq c 0x1680
    || (leb 0x2000 c && leb c 0x200a)
    || nat_beq c 0x2028
    || nat_beq c 0x2029
    || nat_beq c 0x202f
    || nat_beq c 0x205f
    || nat_beq c 0x3000

trim_left : Text → Text
trim_left [] = []
trim_left (c ∷ s) = if is_space c then trim_left s else c ∷ s

trim_right : Text → Text
trim_right [] = []
trim_right (c ∷ s) = let r = trim_right s in if is_space c && is_empty r then [] else c ∷ r

-- `strings.TrimSpace`.
unfoldable pub trim_space : Text → Text
unfolding trim_left trim_right is_space
trim_space s = trim_right (trim_left s)

-- `strings.HasPrefix`, `strings.CutPrefix`.
abbrev pub cut_prefix : Text → Text → Option Text
cut_prefix s [] = some s
cut_prefix [] (p ∷ ps) = none
cut_prefix (c ∷ s) (p ∷ ps) = if nat_beq c p then cut_prefix s ps else none

abbrev pub has_prefix : Text → Text → Bool
has_prefix s p = elim (cut_prefix s p) [ none ↦ false | some _ ↦ true ]

-- `strings.Contains`.
unfoldable pub contains : Text → Text → Bool
contains [] p = is_empty p
contains (c ∷ s) p = has_prefix (c ∷ s) p || contains s p

abbrev pub has_rune : ℕ → Text → Bool
has_rune c [] = false
has_rune c (d ∷ ds) = nat_beq c d || has_rune c ds

-- `strings.ContainsAny`.
unfoldable pub contains_any : Text → Text → Bool
contains_any [] cs = false
contains_any (c ∷ s) cs = has_rune c cs || contains_any s cs

abbrev pub lower_rune : ℕ → ℕ
lower_rune c =
    if leb b'A' c && leb c b'Z'
    then c + 32
    else if nat_beq c 0x212a
    then b'k'
    else if nat_beq c 0x130
    then b'i'
    else c

abbrev pub upper_rune : ℕ → ℕ
upper_rune c =
    if leb b'a' c && leb c b'z'
    then c - 32
    else if nat_beq c 0x17f
    then b'S'
    else if nat_beq c 0x131
    then b'I'
    else c

-- `strings.ToLower`, `strings.ToUpper`.
unfoldable pub to_lower : Text → Text
to_lower [] = []
to_lower (c ∷ s) = lower_rune c ∷ to_lower s

unfoldable pub to_upper : Text → Text
to_upper [] = []
to_upper (c ∷ s) = upper_rune c ∷ to_upper s

-- `strings.Fields`: the words between white space, with the word that is being read.
fields_from : Text → Text → List Text
fields_from [] [] = []
fields_from (w ∷ ws) [] = (w ∷ ws) ∷ []
fields_from [] (c ∷ s) = fields_from (if is_space c then [] else c ∷ []) s
fields_from (w ∷ ws) (c ∷ s) = elim (is_space c) [
  | true ↦ (w ∷ ws) ∷ fields_from [] s
  | false ↦ fields_from (w ∷ ws ++ c ∷ []) s
]

unfoldable pub fields : Text → List Text
unfolding fields_from is_space
fields = fields_from []

-- `strings.Join`.
abbrev pub join : Text → List Text → Text
join sep [] = []
join sep (s ∷ []) = s
join sep (s ∷ t ∷ ts) = s ++ (sep ++ join sep (t ∷ ts))

-- `strings.Split` at one character, with the part that is being read.
split_from : ℕ → Text → Text → List Text
split_from c w [] = w ∷ []
split_from c w (d ∷ s) = elim (nat_beq d c) [
  | true ↦ w ∷ split_from c [] s
  | false ↦ split_from c (w ++ d ∷ []) s
]

unfoldable pub split_at : ℕ → Text → List Text
unfolding split_from
split_at c = split_from c []

instance abbrev pub text_eq : Eq Text
text_eq = list_eq
