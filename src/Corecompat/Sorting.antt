-- ===== src/Corecompat/Sorting.antt =====
-- The order of strings and `slices.Sort` on them (internal/corecompat/contract.go).
use commerce.Prelude.{◌≡◌, refl, ap, ◌∙◌, true, false, List, [], ◌∷◌, Text, arith}
use mathlib.Core.Logic.{∥∥₁_elim}
use mathlib.Core.List.{Perm, Permᴰ}
use commerce.Corecompat.{leb_text, is_sorted, insert_sorted, sort}

leb_text_total : (s t : Text) → leb_text s t ≡ false → leb_text t s ≡ true
leb_text_total [] t h = cc
leb_text_total (c ∷ s) [] h = refl
leb_text_total (c ∷ s) (d ∷ t) h = ground (arith, leb_text_total s t)

insert_sorted-is_sorted :
    (s : Text) (ts : List Text) → is_sorted ts ≡ true → is_sorted (insert_sorted s ts) ≡ true
insert_sorted-is_sorted s [] h = refl
insert_sorted-is_sorted s (t ∷ []) h = ground (arith, leb_text_total s t)
insert_sorted-is_sorted s (t ∷ u ∷ us) h =
    ground (arith, leb_text_total s t, insert_sorted-is_sorted s (u ∷ us))

pub sort-is_sorted : (ts : List Text) → is_sorted (sort ts) ≡ true
sort-is_sorted [] = refl
sort-is_sorted (t ∷ ts) = insert_sorted-is_sorted t (sort ts) (sort-is_sorted ts)

leb_text_antisym : (s t : Text) → leb_text s t ≡ true → leb_text t s ≡ true → s ≡ t
leb_text_antisym [] [] h k = refl
leb_text_antisym [] (d ∷ t) h k = cc
leb_text_antisym (c ∷ s) [] h k = cc
leb_text_antisym (c ∷ s) (d ∷ t) h k = ground (arith, leb_text_antisym s t)

leb_text_trans : (s t u : Text) → leb_text s t ≡ true → leb_text t u ≡ true → leb_text s u ≡ true
leb_text_trans [] t u h k = refl
leb_text_trans (c ∷ s) [] u h k = cc
leb_text_trans (c ∷ s) (d ∷ t) [] h k = cc
leb_text_trans (c ∷ s) (d ∷ t) (e ∷ u) h k = ground (arith, leb_text_trans s t u)

-- Two texts are put into a list in either order.
insert_sorted_comm :
    (s t : Text) (ts : List Text)
    → insert_sorted s (insert_sorted t ts) ≡ insert_sorted t (insert_sorted s ts)
insert_sorted_comm s t [] = ground (arith, leb_text_total s t, leb_text_antisym s t)
insert_sorted_comm s t (u ∷ us) = ground (
  arith,
  insert_sorted_comm s t us,
  leb_text_total s t,
  leb_text_total t s,
  leb_text_total s u,
  leb_text_total t u,
  leb_text_antisym s t,
  leb_text_trans s t u,
  leb_text_trans t s u,
  leb_text_trans s u t,
  leb_text_trans t u s,
)

sort-Permᴰ : {ss ts : List Text} → Permᴰ ss ts → sort ss ≡ sort ts
sort-Permᴰ Permᴰ.nil = refl
sort-Permᴰ (Permᴰ.cons {a} {b} {l₁} {l₂} e d) =
    ap (insert_sorted a) (sort-Permᴰ d) ∙ ap (λ s. insert_sorted s (sort l₂)) e
sort-Permᴰ (Permᴰ.swap {a} {b} {a'} {b'} {l} e f) =
    insert_sorted_comm a b (sort l)
    ∙ ap (λ s. insert_sorted s (insert_sorted a (sort l))) f
    ∙ ap (λ s. insert_sorted a' (insert_sorted s (sort l))) e
sort-Permᴰ (Permᴰ.trans d e) = sort-Permᴰ d ∙ sort-Permᴰ e

-- Sorting forgets the order of the list.
pub sort-Perm : {ss ts : List Text} → Perm ss ts → sort ss ≡ sort ts
sort-Perm {ss} {ts} p =
    let unique : IsProp (sort ss ≡ sort ts) = hlevel in ∥∥₁_elim p unique (λ d. sort-Permᴰ d)
