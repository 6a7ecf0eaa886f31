-- ===== src/Corecompat/Snapshots/Unchanged.antt =====
-- What the comparison of two states of the repository finds (internal/corecompat/contract.go).
use commerce.Prelude.{
  ℕ, suc, ◌≡◌, ◌≢◌, refl, ap, sym, ◌∙◌, ◌↔◌, inl, inr, Bool-cases, true, not, ◌&&◌, [], ◌∷◌, all,
  length, Option, none, some, Text, text, Dict, lookup, insert, lookup-insert, IsDict,
  insert-IsDict, nat_beq, nat_beq_iff, text_eq, ◌==◌, ==_refl, if◌then◌else◌, arith,
}
use commerce.Go.{Error, Result, ok, err}
use commerce.Go.Trees.{Node, regular, symbolic_link, irregular, file, directory, walk}
use commerce.Go.Trees.Invariants.{Answers, walk-P}
use commerce.Corecompat.Snapshots.{visit_state, state_content, walked_state, state_of}
use commerce.Corecompat.Environments.{digest_or_zero, maps_equal}

module _ {V : Type 0} where
  abbrev erase : Text → Dict Text V → Dict Text V
  erase k [] = []
  erase k ((j, v) ∷ d) = if j == k then d else (j, v) ∷ erase k d

  length-erase :
      (k : Text) (v : V) (d : Dict Text V)
      → lookup k d ≡ some v
      → suc (length (erase k d)) ≡ length d
  unfolding lookup
  length-erase k v [] h = cc
  length-erase k v ((j, u) ∷ d) h = ground (arith, length-erase k v d)

  lookup-erase :
      (k j : Text) (d : Dict Text V)
      → IsDict d
      → lookup j (erase k d) ≡ (if k == j then none else lookup j d)
  unfolding lookup
  lookup-erase k j [] i = ground arith
  lookup-erase k j ((l, u) ∷ d) (fresh, i) = ground (
    arith,
    lookup-erase k j d i,
    fresh,
    text_eq.beq_iff l k,
    text_eq.beq_iff k j,
    text_eq.beq_iff l j,
  )

  erase-IsDict : (k : Text) (d : Dict Text V) → IsDict d → IsDict (erase k d)
  unfolding lookup
  erase-IsDict k [] i = tt
  erase-IsDict k ((l, u) ∷ d) (fresh, i) = elim (Bool-cases (l == k)) [
    | inl e ↦ rw e i
    | inr e ↦
        rw e (ground (arith, lookup-erase k l d i, fresh, text_eq.beq_iff k l), erase-IsDict k d i)
  ]

  -- A map whose entries all stand in another one that is as long has the same entries.
  same_entries :
      (left right : Dict Text V)
      → IsDict left
      → IsDict right
      → length left ≡ length right
      → ((k : Text) (v : V) → lookup k left ≡ some v → lookup k right ≡ some v)
      → (k : Text) → lookup k left ≡ lookup k right
  unfolding lookup
  same_entries [] [] i j n h k = refl
  same_entries [] (e ∷ right) i j n h k = ground (arith, n)
  same_entries ((l, u) ∷ left) right (fresh, i) j n h k =
      let here : lookup l right ≡ some u = h l u (rw (==_refl l) refl) in
      let fewer : length left ≡ length (erase l right) =
        omega (arith, n, length-erase l u right here) in
      let rest =
        same_entries left (erase l right) i (erase-IsDict l right j) fewer
          (λ m v g. ground (arith, g, h m v, lookup-erase l m right j, text_eq.beq_iff l m, fresh))
          k in
      ground (arith, here, rest, lookup-erase l k right j, text_eq.beq_iff l k)

  same_length :
      (left right : Dict Text V)
      → IsDict left
      → IsDict right
      → ((k : Text) → lookup k left ≡ lookup k right)
      → length left ≡ length right
  unfolding lookup
  same_length [] [] i j h = refl
  same_length [] ((k, v) ∷ right) i j h = ground (arith, h k, ==_refl k)
  same_length ((l, u) ∷ left) right (fresh, i) j h =
      let here : lookup l right ≡ some u = sym (h l) ∙ rw (==_refl l) refl in
      let rest =
        same_length left (erase l right) i (erase-IsDict l right j)
          (λ m. ground (arith, h m, lookup-erase l m right j, text_eq.beq_iff l m, fresh)) in
      omega (arith, rest, length-erase l u right here)

all_found :
    (right left : Dict Text ℕ) (k : Text) (v : ℕ)
    → all (λ e. nat_beq (digest_or_zero (lookup e.0 right)) e.1) left ≡ true
    → lookup k left ≡ some v
    → v ≢ 0
    → lookup k right ≡ some v
unfolding lookup
all_found right [] k v a h n = cc
all_found right ((j, u) ∷ left) k v a h n = elim (Bool-cases (j == k)) [
  | inl e ↦
      let same : j ≡ k = (text_eq.beq_iff j k).0 e in
      let value : u ≡ v = ground (arith, e, h) in
      found_of (lookup k right) (ground (arith, a, same, value)) n
  | inr e ↦ all_found right left k v (ground (arith, a)) (ground (arith, e, h)) n
]
  where
    found_of : (o : Option ℕ) → nat_beq (digest_or_zero o) v ≡ true → v ≢ 0 → o ≡ some v
    found_of none e n = ground (arith, e, n, nat_beq_iff 0 v)
    found_of (some w) e n = ap some ((nat_beq_iff w v).0 e)

all_agree :
    (right left : Dict Text ℕ)
    → IsDict left
    → ((k : Text) (v : ℕ) → lookup k left ≡ some v → lookup k right ≡ some v)
    → all (λ e. nat_beq (digest_or_zero (lookup e.0 right)) e.1) left ≡ true
unfolding lookup
all_agree right [] i h = refl
all_agree right ((k, v) ∷ left) (fresh, i) h =
    let here : lookup k right ≡ some v = h k v (rw (==_refl k) refl) in
    let rest =
      all_agree right left i (λ m w g. h m w (ground (arith, g, fresh, text_eq.beq_iff k m))) in
    rw (here, (nat_beq_iff v v).1 refl, rest) refl

-- A digest is never the one of zeros, which a missing path reads as.
abbrev pub NonZero : Dict Text ℕ → Type 0
NonZero d = (k : Text) (v : ℕ) → lookup k d ≡ some v → v ≢ 0

-- Two states of the repository compare as equal exactly if they have the same paths with the same
-- digests, where no digest is the one of zeros.
pub maps_equal_iff :
    (left right : Dict Text ℕ)
    → IsDict left
    → IsDict right
    → NonZero left
    → (maps_equal left right ≡ true) ↔ ((path : Text) → lookup path left ≡ lookup path right)
unfolding maps_equal
maps_equal_iff left right i j n = (
  λ h.
      same_entries left right i j (ground (arith, h))
        (λ k v g. all_found right left k v (ground (arith, h)) g (n k v g)),
  λ h.
      rw
        (
          (nat_beq_iff (length left) (length right)).1 (same_length left right i j h),
          all_agree right left i (λ k v g. sym (h k) ∙ g),
        )
        refl,
)

-- A digest for every path that has one, none of them zero.
abbrev pub IsState : Dict Text ℕ → Type 0
IsState d = IsDict d × NonZero d

nothing_read : IsState []
unfolding lookup
nothing_read = (tt, λ k v h. cc)

module _ (sha : Text → ℕ) (nonzero : (content : Text) → sha content ≢ 0) where
  insert-NonZero :
      (path content : Text) (d : Dict Text ℕ) → NonZero d → NonZero (insert path (sha content) d)
  insert-NonZero path content d n k v h = elim (Bool-cases (path == k)) [
    | inl e ↦
        let value : sha content ≡ v = ground (arith, h, e, lookup-insert path k (sha content) d) in
        λ z. nonzero content (value ∙ z)
    | inr e ↦ n k v (ground (arith, h, e, lookup-insert path k (sha content) d))
  ]

  state_content-P :
      (path : Text) (d : Dict Text ℕ) (content : Result Text)
      → IsState d
      → Answers IsState (state_content sha path d content)
  unfolding state_content
  state_content-P path d (err e) p = p
  state_content-P path d (ok content) (i, n) =
      (insert-IsDict path (sha content) d i, insert-NonZero path content d n)

  visit_state-P :
      (path : Text) (node : Node) (d : Dict Text ℕ)
      → IsState d
      → Answers IsState (visit_state sha path node d)
  unfolding visit_state
  visit_state-P path (directory name unlisted nodes) d p =
      elim (Bool-cases (not (path == text ".") && (name == text ".git"))) [
        | inl e ↦ rw e p
        | inr e ↦ rw e p
      ]
  visit_state-P path (file name regular content) d p = state_content-P path d content p
  visit_state-P path (file name symbolic_link content) d p = p
  visit_state-P path (file name irregular content) d p = p

  walked_state-P :
      (q : Result (Unit {0}) × Dict Text ℕ) (d : Dict Text ℕ)
      → IsState q.1
      → walked_state sha q ≡ ok d
      → IsState d
  unfolding walked_state
  walked_state-P (ok _, c) d p h = let same : c ≡ d = cc in rw (sym same) p
  walked_state-P (err e, c) d p h = cc

  pub state_of-P :
      (opened : Option Error) (tree : Result Node) (d : Dict Text ℕ)
      → state_of sha opened tree ≡ ok d
      → IsState d
  unfolding state_of
  state_of-P (some e) tree d h = cc
  state_of-P none (err e) d h = cc
  state_of-P none (ok node) d h =
      walked_state-P (walk (visit_state sha) (text ".") node []) d
        (walk-P IsState (visit_state sha) visit_state-P (text ".") node [] nothing_read) h
