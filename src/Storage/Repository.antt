-- ===== src/Storage/Repository.antt =====
-- storage/order_repository.go: the Orders contract over an executor. The executor and the framework's
-- repository query are not this program's code, so they are parameters.
pub mod Saves
use commerce.Prelude.{
  ℕ, ℤ, pos, leb_ℤ, int_beq, Bool, true, false, not, ◌||◌, List, [], ◌∷◌, Option, none, some, Text,
  text, is_empty, trim_space, to_lower, contains, if◌then◌else◌,
}
use commerce.Go.{
  Error, Sentinel, sentinel, errors_new, errorf, end, wrapped, quoted, is_error, error_text,
  Context, later, ctx_cause, Result, ok, err, ◌>>=◌, ◌>>◌, fail_if, fail_with, map_err,
}
use commerce.Storage.{Record, Value, string_value, int_value, Executor, Orders, insert_order_sql}

-- `repository.Query`, as far as this module calls it: at most one record for its arguments.
pub record Query (S : Type 0) : Type 0 where
  pub optional : S → Context → List Value → Result (Option Record) × S

unfoldable pub is_valid : Record → Bool
is_valid r = not (
    is_empty (trim_space r.id)
    || is_empty (trim_space r.sku)
    || leb_ℤ r.quantity (pos 0)
    || leb_ℤ r.total_cents (pos 0)
    || is_empty (trim_space r.authorization_id))

unfoldable pub validate_record : Record → Result (Unit {0})
unfolding is_valid
validate_record r =
    fail_if (not (is_valid r))
      (errorf "%w: every field must be valid" (wrapped (sentinel Sentinel.invalid_record) end))

unfoldable pub is_duplicate : Error → Bool
is_duplicate e =
    is_error e Sentinel.memory_duplicate
    || contains (to_lower (error_text e)) (text "duplicate key")

-- What Save makes of an error of the executor; `cancelled` is what the context says by then.
save_error : Record → Option Error → Error → Error
save_error r (some cause) e = errorf "save order %q: %w" (quoted r.id (wrapped cause end))
save_error r none e =
    if is_duplicate e
    then errorf "save order %q: %w" (quoted r.id (wrapped (sentinel Sentinel.duplicate) end))
    else errorf "save order %q: persistence failed" (quoted r.id end)

-- What Save makes of the count of rows.
save_affected : Record → Result ℤ → Result (Unit {0})
save_affected r (ok n) =
    fail_if (not (int_beq n (pos 1)))
      (errorf "save order %q: persistence cardinality is invalid" (quoted r.id end))
save_affected r (err e) =
    err (errorf "save order %q: persistence cardinality is invalid" (quoted r.id end))

-- The checks of Save before it runs the statement.
save_checks :
    {S : Type 0} → Option (Executor S) → Option Context → Record → Result (Executor S × Context)
save_checks executor none r = err (errors_new "save order: context is nil")
save_checks executor (some ctx) r = do
  fail_with (ctx_cause (ctx 0)) (λ cause. errorf "save order: %w" (wrapped cause end))
  validate_record r
  elim executor [ none ↦ err (errors_new "save order: executor is nil") | some x ↦ ok (x, ctx) ]

-- The arguments of the insert statement.
abbrev pub insert_arguments : Record → List Value
insert_arguments r =
    string_value r.id
    ∷ string_value r.sku
    ∷ int_value r.quantity
    ∷ int_value r.total_cents
    ∷ string_value r.authorization_id
    ∷ []

-- What Save makes of the outcome of the statement.
save_result : {S : Type 0} → Record → Option Error → Result (Result ℤ) × S → Result (Unit {0}) × S
unfolding save_error save_affected
save_result r cancelled (err e, s) = (err (save_error r cancelled e), s)
save_result r cancelled (ok affected, s) = (save_affected r affected, s)

-- The statement runs from the second look at the context on.
save_with : {S : Type 0} → Executor S → Context → Record → S → Result (Unit {0}) × S
unfolding save_result
save_with x ctx r s =
    save_result r (ctx_cause (ctx 2))
      (x.exec_context s (later 1 ctx) insert_order_sql (insert_arguments r))

unfoldable pub save :
    {S : Type 0} → Option (Executor S) → S → Option Context → Record → Result (Unit {0}) × S
unfolding save_checks save_with validate_record
save executor s ctx r = elim (save_checks executor ctx r) [
  | err e ↦ (err e, s)
  | ok (x, ctx') ↦ save_with x ctx' r s
]

unfoldable pub find :
    {S : Type 0} → Option (Query S) → S → Context → Text → Result (Option Record) × S
find none s ctx id = (err (errors_new "find order: repository is nil"), s)
find (some q) s ctx id =
    let id' = trim_space id in
    if is_empty id'
    then (
      err (errorf "%w: order ID is required" (wrapped (sentinel Sentinel.invalid_record) end)),
      s,
    )
    else let (found, s') = q.optional s ctx (string_value id' ∷ []) in
      (map_err (λ e. errorf "find order %q: %w" (quoted id' (wrapped e end))) found, s')

-- What `Scan` stored in the fields, or why it could not.
unfoldable pub decode_record : Result Record → Result Record
decode_record = map_err (λ e. errorf "decode order record: %w" (wrapped e end))

-- The repository as the contract that orders consume; an executor handle is the executor.
abbrev pub order_repository : {S : Type 0} → Option (Query S) → Orders (Option (Executor S)) S
order_repository q = record {
  save = λ x s ctx r. save x s (some ctx) r;
  find = λ x s ctx id. find q s ctx id;
}
