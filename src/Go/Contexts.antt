-- ===== src/Go/Contexts.antt =====
-- Go's `context.Context`, as what the successive looks at it find. The code looks at its context at
-- several points, and it may be cancelled between any two of them: the n-th look of an operation
-- finds `ctx n`. What an operation calls sees the same context from a later look on.
use commerce.Prelude.{ℕ, ◌+◌, ◌≤◌, ◌≡◌, refl, Option, none, some}
use commerce.Go.Errors.{Error}

-- `ended err cause` has `err` for `ctx.Err()` and `cause` for `context.Cause(ctx)`.
pub data Moment : Type 0 where
  live : Moment
  ended : Error → Error → Moment

abbrev pub Context : Type 0
Context = ℕ → Moment

abbrev pub later : ℕ → Context → Context
later k ctx n = ctx (n + k)

abbrev pub ctx_err : Moment → Option Error
ctx_err live = none
ctx_err (ended err cause) = some err

abbrev pub ctx_cause : Moment → Option Error
ctx_cause live = none
ctx_cause (ended err cause) = some cause

-- A context that is never cancelled, and one that was before the call.
abbrev pub background : Context
background n = live

abbrev pub cancelled : Error → Context
cancelled e n = ended e e

-- Once cancelled, a context stays so, with the error that it had.
abbrev pub IsMonotone : Context → Type 0
IsMonotone ctx =
    (m n : ℕ) (err cause : Error) → m ≤ n → ctx m ≡ ended err cause → ctx n ≡ ended err cause

pub live_of_ctx_cause : (m : Moment) → ctx_cause m ≡ none → m ≡ live
live_of_ctx_cause live h = refl
live_of_ctx_cause (ended e cause) h = cc

pub live_of_ctx_err : (m : Moment) → ctx_err m ≡ none → m ≡ live
live_of_ctx_err live h = refl
live_of_ctx_err (ended e cause) h = cc
