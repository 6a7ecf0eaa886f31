-- ===== src/Payments/Policy.antt =====
-- Which payments Authorize approves, and what it records of them.
use commerce.Prelude.{
  ℤ, pos, ◌≤ℤ◌, ◌≡◌, ◌≢◌, ap, inl, inr, ◌↔◌, List, [], ◌∷◌, ◌++◌, Text, is_empty, trim_space, false,
  arith, All,
}
use commerce.Go.{Context, live, Error, Result, ok, err, Result-cases}
use commerce.Payments.{
  Service, Authorization, authorize, offline_authorize, approved, next_authorization,
}

pub authorize_ok :
    (s : Service) (ctx : Context) (reference : Text) (amount : ℤ) (a : Authorization)
    → (authorize s ctx reference amount).0 ≡ ok a
    → (a ≡ next_authorization s reference amount)
      × ((authorize s ctx reference amount).1 ≡ record s { approved = s.approved ++ a ∷ [] })
      × (pos 1 ≤ℤ amount)
      × (amount ≤ℤ s.maximum_cents)
unfolding authorize
authorize_ok s ctx reference amount a h = ground arith

pub authorize_err :
    (s : Service) (ctx : Context) (reference : Text) (amount : ℤ) (e : Error)
    → (authorize s ctx reference amount).0 ≡ err e
    → (authorize s ctx reference amount).1 ≡ s
unfolding authorize
authorize_err s ctx reference amount e h = ground arith

-- What Authorize asks of a payment.
abbrev pub IsAcceptable : Service → Context → Text → ℤ → Type 0
IsAcceptable s ctx reference amount =
    (ctx 0 ≡ live)
    × (is_empty (trim_space reference) ≡ false)
    × (pos 1 ≤ℤ amount)
    × (amount ≤ℤ s.maximum_cents)

pair_of :
    (p : Result Authorization × Service) (e : Error) (s : Service)
    → p.0 ≡ err e
    → p.1 ≡ s
    → p ≡ (err e, s)
pair_of (r, t) e s h k = cc

authorize-IsAcceptable :
    (s : Service) (ctx : Context) (reference : Text) (amount : ℤ) (a : Authorization)
    → (authorize s ctx reference amount).0 ≡ ok a
    → IsAcceptable s ctx reference amount
unfolding authorize
authorize-IsAcceptable s ctx reference amount a h = ground arith

authorize_accepts :
    (s : Service) (ctx : Context) (reference : Text) (amount : ℤ)
    → IsAcceptable s ctx reference amount
    → (authorize s ctx reference amount).0 ≡ ok (next_authorization s reference amount)
unfolding authorize
authorize_accepts s ctx reference amount h = ground arith

-- Authorize approves exactly a payment with a reference, a positive amount within the maximum, and a
-- live context: then it returns the next authorization, and records it at the end, and else nothing. It
-- refuses exactly every other payment, with an error, and records nothing.
pub authorize_iff :
    (s : Service) (ctx : Context) (reference : Text) (amount : ℤ) (a : Authorization) (t : Service)
    → ((authorize s ctx reference amount ≡ (ok a, t)) ↔ (
        IsAcceptable s ctx reference amount
        × (a ≡ next_authorization s reference amount)
        × (t ≡ record s { approved = approved s ++ a ∷ [] })))
      × ((¬ IsAcceptable s ctx reference amount)
          ↔ ((e : Error) × (authorize s ctx reference amount ≡ (err e, s))))
unfolding authorize approved
authorize_iff s ctx reference amount a t = (
  (λ h. ground arith, λ h. ground arith),
  (
    λ h. elim (Result-cases (authorize s ctx reference amount).0) [
      | inl (b, o) ↦ absurd (h (authorize-IsAcceptable s ctx reference amount b o))
      | inr (e, o) ↦ (e, pair_of _ e s o (authorize_err s ctx reference amount e o))
    ],
    λ (e, h) k.
        let accepted = authorize_accepts s ctx reference amount k in
        let failed : (authorize s ctx reference amount).0 ≡ err e = ap (λ p. p.0) h in
        cc (accepted, failed),
  ),
)

-- Every recorded approval is positive and within the maximum.
abbrev pub IsWithin : ℤ → Authorization → Type 0
IsWithin maximum a = (pos 1 ≤ℤ a.amount) × (a.amount ≤ℤ maximum)

All-append_one :
    (m : ℤ) (l : List Authorization) (a : Authorization)
    → All (IsWithin m) l
    → IsWithin m a
    → All (IsWithin m) (l ++ a ∷ [])
All-append_one m [] a h w = (w, tt)
All-append_one m (x ∷ l) a h w = (h.0, All-append_one m l a h.1 w)

-- If every recorded approval is positive and within the maximum, that is so after every Authorize.
pub authorize-IsWithin :
    (s : Service) (ctx : Context) (reference : Text) (amount : ℤ)
    → All (IsWithin s.maximum_cents) (approved s)
    → All (IsWithin s.maximum_cents) (approved (authorize s ctx reference amount).1)
unfolding approved
authorize-IsWithin s ctx reference amount h =
    elim (Result-cases (authorize s ctx reference amount).0) [
      | inl (a, o) ↦
          let (ea, es, p, m) = authorize_ok s ctx reference amount a o in
          rw es (All-append_one s.maximum_cents s.approved a h (rw ea (p, m)))
      | inr (e, f) ↦ rw (authorize_err s ctx reference amount e f) h
    ]

-- The offline fallback never approves: it answers ErrDeclined, or the cancellation of its context.
pub offline_authorize_declines :
    (ctx : Context) (reference : Text) (amount : ℤ) (a : Authorization)
    → ((offline_authorize tt ctx reference amount).0 ≢ ok a)
unfolding offline_authorize
offline_authorize_declines ctx reference amount a = ground arith
