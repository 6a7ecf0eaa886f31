-- ===== src/Payments.antt =====
-- payments/: the Processor interface, the Service that approves within a configured maximum and
-- records its approvals behind a mutex, and the OfflineProcessor that refuses.
pub mod Policy
pub mod Numbering
use commerce.Prelude.{
  ℤ, pos, ltb_ℤ, leb_ℤ, add_int, ◌||◌, List, [], ◌∷◌, ◌++◌, length, Text, text, is_empty,
  trim_space, format_padded,
}
use commerce.Go.{
  Sentinel, sentinel, errorf, end, wrapped, int_arg, Context, Moment, ctx_err, Result, ok, err,
  ◌>>=◌, ◌>>◌, fail_if, fail_with,
}

pub record Settings : Type 0 where
  pub maximum_cents : ℤ

pub record Authorization : Type 0 where
  pub id : Text
  pub reference : Text
  pub amount : ℤ

-- The contract that other modules consume: a processor over its own state `P`.
pub record Processor (P : Type 0) : Type 0 where
  pub authorize : P → Context → Text → ℤ → Result Authorization × P

pub record Service : Type 0 where
  pub maximum_cents : ℤ
  pub approved : List Authorization

unfoldable pub new_service : Settings → Result Service
new_service settings = do
  fail_if (leb_ℤ settings.maximum_cents (pos 0)) (
      errorf "%w: maximum amount must be positive"
        (wrapped (sentinel Sentinel.invalid_payment) end))
  ok (record { maximum_cents = settings.maximum_cents; approved = [] })

-- `fmt.Sprintf("payment-%06d", n)`.
unfoldable pub payment_id : ℤ → Text
payment_id n = text "payment-" ++ format_padded n

authorize_checks : Service → Moment → Text → ℤ → Result (Unit {0})
authorize_checks s now reference amount = do
  fail_with (ctx_err now) (λ e. errorf "authorize payment: %w" (wrapped e end))
  fail_if (is_empty (trim_space reference) || leb_ℤ amount (pos 0)) (
      errorf "%w: reference must be set and amount must be positive"
        (wrapped (sentinel Sentinel.invalid_payment) end))
  fail_if (ltb_ℤ s.maximum_cents amount) (
      errorf "%w: amount %d exceeds configured maximum %d"
        (wrapped (sentinel Sentinel.declined) (int_arg amount (int_arg s.maximum_cents end))))

-- The authorization that the next approval makes.
abbrev pub next_authorization : Service → Text → ℤ → Authorization
next_authorization s reference amount = record {
  id = payment_id (add_int (pos (length s.approved)) (pos 1));
  reference = reference;
  amount = amount;
}

unfoldable pub authorize : Service → Context → Text → ℤ → Result Authorization × Service
unfolding authorize_checks
authorize s ctx reference amount = elim (authorize_checks s (ctx 0) reference amount) [
  | err e ↦ (err e, s)
  | ok _ ↦
      let authorization = next_authorization s reference amount in
      (ok authorization, record s { approved = s.approved ++ authorization ∷ [] })
]

unfoldable pub approved : Service → List Authorization
approved s = s.approved

-- The fallback has no state, and fails closed.
unfoldable pub offline_authorize : Unit {0} → Context → Text → ℤ → Result Authorization × Unit {0}
offline_authorize s ctx reference amount = (
  do
    fail_with (ctx_err (ctx 0)) (λ e. errorf "authorize offline payment: %w" (wrapped e end))
    err (
        errorf "%w: offline payment processing is unavailable"
          (wrapped (sentinel Sentinel.declined) end)),
  s,
)

abbrev pub service_processor : Processor Service
service_processor = record { authorize = authorize }

abbrev pub offline_processor : Processor (Unit {0})
offline_processor = record { authorize = offline_authorize }
