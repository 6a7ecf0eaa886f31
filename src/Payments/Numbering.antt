-- ===== src/Payments/Numbering.antt =====
-- The numbering of the approvals of payments/service.go.
use commerce.Prelude.{
  ℕ, suc, ◌+◌, ◌<◌, ℤ, pos, add_int-pos, int_half, ◌≡◌, sym, ap, ◌∙◌, ◌≢◌, inl, inr, List, [], ◌∷◌,
  ◌++◌, length, Text, text, arith, All, format_padded_inj, append_cancel,
}
use commerce.Go.{Context, Result-cases}
use commerce.Payments.{Service, Authorization, authorize, approved, payment_id}
use commerce.Payments.Policy.{authorize_ok, authorize_err}

pub payment_id_inj : (m n : ℕ) → payment_id (pos m) ≡ payment_id (pos n) → m ≡ n
unfolding payment_id
payment_id_inj m n e = format_padded_inj m n (append_cancel (text "payment-") _ _ e)

-- The approvals are numbered from `n` on.
abbrev IsNumberedFrom : ℕ → List Authorization → Type 0
IsNumberedFrom n [] = Unit {0}
IsNumberedFrom n (a ∷ l) = (a.id ≡ payment_id (pos n)) × IsNumberedFrom (suc n) l

abbrev pub IsNumbered : Service → Type 0
IsNumbered s = IsNumberedFrom 1 (approved s)

-- No two entries have one ID.
abbrev pub HasDistinctIds : List Authorization → Type 0
HasDistinctIds [] = Unit {0}
HasDistinctIds (a ∷ l) = All (λ b. a.id ≢ b.id) l × HasDistinctIds l

IsNumberedFrom-append :
    (n : ℕ) (l : List Authorization) (a : Authorization)
    → IsNumberedFrom n l
    → a.id ≡ payment_id (pos (n + length l))
    → IsNumberedFrom n (l ++ a ∷ [])
IsNumberedFrom-append n [] a h e = (e ∙ ap (λ k. payment_id (pos k)) (omega arith), tt)
IsNumberedFrom-append n (x ∷ l) a h e =
    (h.0, IsNumberedFrom-append (suc n) l a h.1 (e ∙ ap (λ k. payment_id (pos k)) (omega arith)))

-- Authorize keeps the numbering, as long as the count of approvals is an `int`.
pub authorize-IsNumbered :
    (s : Service) (ctx : Context) (reference : Text) (amount : ℤ)
    → length (approved s) + 1 < int_half
    → IsNumbered s
    → IsNumbered (authorize s ctx reference amount).1
unfolding approved
authorize-IsNumbered s ctx reference amount bound h =
    elim (Result-cases (authorize s ctx reference amount).0) [
      | inl (a, o) ↦
          let (ea, es, _, _) = authorize_ok s ctx reference amount a o in
          rw es (
            IsNumberedFrom-append 1 s.approved a h (
              ap (λ (b : Authorization). b.id) ea
              ∙ ap payment_id (add_int-pos (length s.approved) 1 bound ∙ ap pos (omega arith))))
      | inr (e, f) ↦ rw (authorize_err s ctx reference amount e f) h
    ]

fresh_id :
    (m n : ℕ) (a : Authorization) (l : List Authorization)
    → m < n
    → a.id ≡ payment_id (pos m)
    → IsNumberedFrom n l
    → All (λ b. a.id ≢ b.id) l
fresh_id m n a [] h e k = tt
fresh_id m n a (b ∷ l) h e k = (
  (λ same. absurd (omega (arith, payment_id_inj m n (sym e ∙ same ∙ k.0)))),
  fresh_id m (suc n) a l (omega arith) e k.1,
)

distinct_from : (n : ℕ) (l : List Authorization) → IsNumberedFrom n l → HasDistinctIds l
distinct_from n [] h = tt
distinct_from n (a ∷ l) h =
    (fresh_id n (suc n) a l (omega arith) h.0 h.1, distinct_from (suc n) l h.1)

-- So the IDs of the approvals of a numbered service are distinct.
pub IsNumbered-distinct : (s : Service) → IsNumbered s → HasDistinctIds (approved s)
IsNumbered-distinct s h = distinct_from 1 (approved s) h
