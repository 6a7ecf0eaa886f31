-- ===== src/Storage/Repository/Saves/Drivers.antt =====
-- The repository's save over the memory driver (storage/order_repository.go, storage/memory_*.go). What
-- lies between them, `database/sql`, is a parameter.
use commerce.Prelude.{
  ℕ, ℤ, pos, ◌==◌, if◌then◌else◌, ◌≡◌, refl, sym, ap, ◌∙◌, ◌⊎◌, inl, inr, Bool-cases, false, List,
  Option, none, some, Option-cases, Text, is_some, text_eq, arith,
}
use commerce.Go.{
  Error, Context, later, live, ctx_cause, live_of_ctx_cause, Result, ok, err, Result-cases,
}
use commerce.Storage.{Value, Executor, Record, insert_order_sql}
use commerce.Storage.Memory.{Memory, insert_record}
use commerce.Storage.Memory.Statements.{exec_context}
use commerce.Storage.Memory.Transactions.{Inv, visible}
use commerce.Storage.Memory.Inserts.{
  insert_record_fresh, insert_record_duplicate, insert_record-Inv,
}
use commerce.Storage.Memory.Sql.{exec_context-insert, exec_context_err, HasInts}
use commerce.Storage.Repository.{insert_arguments, save, save_checks, save_result}
use commerce.Storage.Repository.Saves.{checks_ok, save-refused, save-passed}

-- What an executor makes of the driver's answer.
abbrev pub answered : Result ℤ × Memory → Result (Result ℤ) × Memory
answered (ok n, m) = (ok (ok n), m)
answered (err e, m) = (err e, m)

-- The executor hands its statements to the driver, on connection `c`.
abbrev pub HandsTo : Executor Memory → ℕ → Type 0
HandsTo x c =
    (m : Memory) (ctx : Context) (statement : Text) (arguments : List Value)
    → x.exec_context m ctx statement arguments ≡ answered (exec_context m c ctx statement arguments)

exec_context-live :
    (m n : Memory) (c : ℕ) (ctx : Context) (statement : Text) (arguments : List Value) (k : ℤ)
    → exec_context m c ctx statement arguments ≡ (ok k, n)
    → ctx 0 ≡ live
unfolding exec_context
exec_context-live m n c ctx statement arguments k h = elim (Option-cases (ctx_cause (ctx 0))) [
  | inl running ↦ live_of_ctx_cause (ctx 0) running
  | inr (cause, over) ↦
      let refused : exec_context m c ctx statement arguments ≡ (err cause, m) =
        rw (over, exec_context) refl in
      cc (sym refused ∙ h)
]

answered_ok :
    (p : Result ℤ × Memory) (k : ℤ) (n : Memory) → answered p ≡ (ok (ok k), n) → p ≡ (ok k, n)
answered_ok (ok j, m) k n h = cc h
answered_ok (err e, m) k n h = cc

-- An accepted insert of a record: the connection did not see its ID before, and now sees the record
-- under it, and all else as before.
abbrev pub Stored : Memory → ℕ → Record → Memory → Type 0
Stored m c r n =
    (visible m c r.id ≡ none)
    × ((id : Text) → visible n c id ≡ (if r.id == id then some r else visible m c id))
    × Inv n

pub insert_record-Stored :
    (m n : Memory) (c : ℕ) (r : Record)
    → Inv m
    → insert_record m c r ≡ (ok (pos 1), n)
    → Stored m c r n
insert_record-Stored m n c r v h = elim (Bool-cases (is_some (visible m c r.id))) [
  | inl taken ↦ cc (sym (insert_record_duplicate m c r v taken) ∙ h)
  | inr fresh ↦
      let (_, seen) = insert_record_fresh m c r v fresh in
      let left : (insert_record m c r).1 ≡ n = ap (λ q. q.1) h in
      (
        nothing_seen (visible m c r.id) fresh,
        λ id. ap (λ k. visible k c id) (sym left) ∙ seen id,
        rw (sym left) (insert_record-Inv m c r v),
      )
]
  where
    nothing_seen : (o : Option Record) → is_some o ≡ false → o ≡ none
    nothing_seen none h = refl
    nothing_seen (some a) h = cc

-- The insert statement of a record that succeeds inserted it on the connection.
pub exec-inserted :
    (x : Executor Memory) (c : ℕ) (ctx : Context) (m n : Memory) (r : Record)
    → HandsTo x c
    → HasInts r
    → x.exec_context m ctx insert_order_sql (insert_arguments r) ≡ (ok (ok (pos 1)), n)
    → insert_record m c r ≡ (ok (pos 1), n)
exec-inserted x c ctx m n r hands ints h =
    let ran =
      answered_ok _ (pos 1) n (sym (hands m ctx insert_order_sql (insert_arguments r)) ∙ h) in
    let now = exec_context-live m n c ctx insert_order_sql (insert_arguments r) (pos 1) ran in
    sym (exec_context-insert m c ctx r now ints) ∙ ran

insert_record_count :
    (m : Memory) (c : ℕ) (r : Record) (k : ℤ) → (insert_record m c r).0 ≡ ok k → k ≡ pos 1
unfolding insert_record
insert_record_count m c r k h = ground arith

-- Through the driver, the insert statement fails and changes nothing, or it affects one row.
exec_context_all :
    (m : Memory) (c : ℕ) (ctx : Context) (r : Record) (p : Result ℤ × Memory)
    → HasInts r
    → exec_context m c ctx insert_order_sql (insert_arguments r) ≡ p
    → ((e : Error) × (p ≡ (err e, m))) ⊎ (p ≡ (ok (pos 1), p.1))
exec_context_all m c ctx r (err e, n) ints h =
    let same = exec_context_err m c ctx insert_order_sql (insert_arguments r) e (ap (λ q. q.0) h) in
    inl (e, ap (λ k. (err e, k)) (sym (ap (λ q. q.1) h) ∙ same))
exec_context_all m c ctx r (ok k, n) ints h =
    let now = exec_context-live m n c ctx insert_order_sql (insert_arguments r) k h in
    let inserted = sym (exec_context-insert m c ctx r now ints) ∙ h in
    inr (ap (λ j. (ok j, n)) (insert_record_count m c r k (ap (λ q. q.0) inserted)))

-- A save that fails leaves the driver as it was.
save_result-err :
    (r : Record) (cancelled : Option Error) (m : Memory) (p : Result ℤ × Memory) (f : Error)
    → ((e : Error) × (p ≡ (err e, m))) ⊎ (p ≡ (ok (pos 1), p.1))
    → (save_result r cancelled (answered p)).0 ≡ err f
    → (save_result r cancelled (answered p)).1 ≡ m
unfolding save_result
save_result-err r cancelled m (err e, n) f (inl (e', h)) g = ap (λ q. q.1) h
save_result-err r cancelled m (err e, n) f (inr h) g = cc h
save_result-err r cancelled m (ok k, n) f (inl (e', h)) g = cc h
save_result-err r cancelled m (ok k, n) f (inr h) g =
    let one : k ≡ pos 1 = cc h in
    let passed : (save_result r cancelled (ok (ok k), n)).0 ≡ ok tt = rw one refl in cc (passed, g)

pub save_keeps :
    (x : Executor Memory) (c : ℕ) (m : Memory) (ctx : Option Context) (r : Record) (f : Error)
    → HandsTo x c
    → HasInts r
    → (save (some x) m ctx r).0 ≡ err f
    → (save (some x) m ctx r).1 ≡ m
save_keeps x c m ctx r f hands ints h = elim (Result-cases (save_checks (some x) ctx r)) [
  | inr (e, refused) ↦ ap (λ q. q.1) (save-refused (some x) m ctx r e refused)
  | inl ((y, now), passed) ↦
      let (ex, _, _, _) = checks_ok (some x) ctx r y now passed in
      let same : y ≡ x = cc ex in
      let ran =
        save-passed (some x) m ctx r y now passed
        ∙ ap
            (λ (z : Executor Memory).
              save_result r (ctx_cause (now 2))
                (z.exec_context m (later 1 now) insert_order_sql (insert_arguments r)))
            same
        ∙ ap (save_result r (ctx_cause (now 2)))
            (hands m (later 1 now) insert_order_sql (insert_arguments r)) in
      ap (λ q. q.1) ran
      ∙ save_result-err r (ctx_cause (now 2)) m _ f
          (exec_context_all m c (later 1 now) r _ ints refl) (sym (ap (λ q. q.0) ran) ∙ h)
]
