-- ===== src/Storage/Repository/Saves.antt =====
-- What Save answers, whatever the executor does.
pub mod Drivers
use commerce.Prelude.{
  ℤ, pos, ◌≤ℤ◌, ◌≡◌, refl, ap, sym, ◌∙◌, inl, inr, true, false, Option, none, some, is_empty,
  trim_space, arith, Bool-cases, Option-cases,
}
use commerce.Go.{
  Error, Sentinel, sentinel, errorf, wrapped, quoted, end, is_error, Context, live, later,
  ctx_cause, live_of_ctx_cause, Result, ok, err, Result-cases,
}
use commerce.Storage.{Record, Executor, insert_order_sql}
use commerce.Storage.Repository.{
  is_valid, validate_record, is_duplicate, save, save_checks, save_result, insert_arguments,
}

-- A record that Save lets pass.
pub record IsValid (r : Record) : Type 0 where
  pub id : is_empty (trim_space r.id) ≡ false
  pub sku : is_empty (trim_space r.sku) ≡ false
  pub quantity : pos 1 ≤ℤ r.quantity
  pub total : pos 1 ≤ℤ r.total_cents
  pub authorization : is_empty (trim_space r.authorization_id) ≡ false

pub is_valid_sound : (r : Record) → is_valid r ≡ true → IsValid r
unfolding is_valid
is_valid_sound r h = ground arith

pub is_valid_complete : (r : Record) → IsValid r → is_valid r ≡ true
unfolding is_valid
is_valid_complete r v = ground arith

-- The error of a record that is not valid.
abbrev invalid_error : Error
invalid_error =
    errorf "%w: every field must be valid" (wrapped (sentinel Sentinel.invalid_record) end)

module _ {S : Type 0} where
  checks_invalid :
      (executor : Option (Executor S)) (ctx : Context) (r : Record)
      → is_valid r ≡ false
      → (e : Error) × (save_checks executor (some ctx) r ≡ err e)
        × (ctx 0 ≡ live → e ≡ invalid_error)
  unfolding save_checks validate_record
  checks_invalid executor ctx r h = elim (Option-cases (ctx_cause (ctx 0))) [
    | inl running ↦ (invalid_error, ground arith, λ _. refl)
    | inr (cause, over) ↦
        (errorf "save order: %w" (wrapped cause end), ground arith, λ now. absurd (ground arith))
  ]

  checks_ok :
      (executor : Option (Executor S)) (ctx : Option Context) (r : Record) (x : Executor S)
      (now : Context)
      → save_checks executor ctx r ≡ ok (x, now)
      → (executor ≡ some x) × (ctx ≡ some now) × (now 0 ≡ live) × (is_valid r ≡ true)
  unfolding save_checks validate_record
  checks_ok executor none r x now h = cc
  checks_ok none (some ctx) r x now h = absurd (ground arith)
  checks_ok (some y) (some ctx) r x now h = elim (Option-cases (ctx_cause (ctx 0))) [
    | inr (cause, over) ↦ absurd (ground arith)
    | inl running ↦ elim (Bool-cases (is_valid r)) [
      | inr wrong ↦ absurd (ground arith)
      | inl valid ↦
          let same : ok (y, ctx) ≡ ok (x, now) = sym (rw (running, save_checks, valid)) ∙ h in
          let at_once : ◌≡◌ {A = Context} ctx now = cc same in
          (cc same, cc same, rw (← at_once) (live_of_ctx_cause (ctx 0) running), valid)
    ]
  ]

  save-refused :
      (executor : Option (Executor S)) (s : S) (ctx : Option Context) (r : Record) (e : Error)
      → save_checks executor ctx r ≡ err e
      → save executor s ctx r ≡ (err e, s)
  unfolding save
  save-refused executor s ctx r e h = rw (h, save)

  save-passed :
      (executor : Option (Executor S)) (s : S) (ctx : Option Context) (r : Record) (x : Executor S)
      (now : Context)
      → save_checks executor ctx r ≡ ok (x, now)
      → save executor s ctx r
        ≡ save_result r
            (ctx_cause (now 2))
            (x.exec_context s (later 1 now) insert_order_sql (insert_arguments r))
  unfolding save
  save-passed executor s ctx r x now h = rw (h, save)

  save_result_ok :
      (r : Record) (cancelled : Option Error) (p : Result (Result ℤ) × S)
      → (save_result r cancelled p).0 ≡ ok tt
      → p ≡ (ok (ok (pos 1)), (save_result r cancelled p).1)
  unfolding save_result
  save_result_ok r cancelled (err e, s) h = cc
  save_result_ok r cancelled (ok (err e), s) h = cc
  save_result_ok r cancelled (ok (ok n), s) h = ground arith

  -- A record with an invalid field never reaches the executor: the store stays as it is, and with a live
  -- context the error is ErrInvalidRecord.
  pub save_invalid :
      (executor : Option (Executor S)) (s : S) (ctx : Context) (r : Record)
      → is_valid r ≡ false
      → (e : Error) × (save executor s (some ctx) r ≡ (err e, s))
        × (ctx 0 ≡ live → is_error e Sentinel.invalid_record ≡ true)
  unfolding save is_error
  save_invalid executor s ctx r h =
      let (e, refused, why) = checks_invalid executor ctx r h in
      (e, rw (refused, save), λ now. rw (why now))

  -- If Save succeeds, the record was valid, the context was live, and the insert statement with the
  -- fields of the record ran once and affected exactly one row.
  pub save_ok :
      (executor : Option (Executor S)) (s : S) (ctx : Option Context) (r : Record)
      → (save executor s ctx r).0 ≡ ok tt
      → (x : Executor S) × (now : Context) × (executor ≡ some x)
        × (ctx ≡ some now)
        × (now 0 ≡ live)
        × IsValid r
        × (x.exec_context s (later 1 now) insert_order_sql (insert_arguments r)
            ≡ (ok (ok (pos 1)), (save executor s ctx r).1))
  save_ok executor s ctx r h = elim (Result-cases (save_checks executor ctx r)) [
    | inr (e, refused) ↦ absurd (cc (ap (λ p. p.0) (save-refused executor s ctx r e refused)))
    | inl ((x, now), passed) ↦
        let (ex, ectx, running, valid) = checks_ok executor ctx r x now passed in
        (
          x,
          now,
          ex,
          ectx,
          running,
          is_valid_sound r valid,
          rw (save-passed executor s ctx r x now passed) (
              save_result_ok r _ _
                (sym (ap (λ p. p.0) (save-passed executor s ctx r x now passed)) ∙ h)),
        )
  ]

  passes :
      (x : Executor S) (ctx : Context) (r : Record)
      → IsValid r
      → ctx 0 ≡ live
      → save_checks (some x) (some ctx) r ≡ ok (x, ctx)
  unfolding save_checks validate_record
  passes x ctx r v now = rw (now, save_checks, is_valid_complete r v)

  save_result_duplicate :
      (r : Record) (e : Error) (s : S)
      → is_duplicate e ≡ true
      → save_result r none (err e, s) ≡ (
        err (errorf "save order %q: %w" (quoted r.id (wrapped (sentinel Sentinel.duplicate) end))),
        s,
      )
  unfolding save_result
  save_result_duplicate r e s h = rw h

  -- For a valid record and a context that is live before and after the statement, an error of
  -- the executor that is a duplicate becomes ErrDuplicate.
  pub save_duplicate :
      (x : Executor S) (s s' : S) (ctx : Context) (r : Record) (e : Error)
      → IsValid r
      → ctx 0 ≡ live
      → ctx 2 ≡ live
      → x.exec_context s (later 1 ctx) insert_order_sql (insert_arguments r) ≡ (err e, s')
      → is_duplicate e ≡ true
      → (f : Error) × (save (some x) s (some ctx) r ≡ (err f, s'))
        × (is_error f Sentinel.duplicate ≡ true)
  unfolding save is_error
  save_duplicate x s s' ctx r e v now after run dup = (
    errorf "save order %q: %w" (quoted r.id (wrapped (sentinel Sentinel.duplicate) end)),
    save-passed (some x) s (some ctx) r x ctx (passes x ctx r v now)
        ∙ rw (run, after) (save_result_duplicate r e s' dup),
    refl,
  )
