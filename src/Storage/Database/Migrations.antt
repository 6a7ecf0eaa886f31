-- ===== src/Storage/Database/Migrations.antt =====
-- The registry of migrations in the memory session (storage/memory_migration_session.go).
use commerce.Prelude.{ℕ, ◌≡◌, ap, ◌∙◌, List, [], ◌∷◌, ◌++◌, Option, Bool, Text, arith}
use commerce.Go.{Error, Context, later, Result, ok, err}
use commerce.Storage.{Value, Record}
use commerce.Storage.Memory.{
  Memory, Applied, begin_tx, create_schema, insert_record, commit, rollback,
}
use commerce.Storage.Memory.Statements.{exec_context, exec_steps}
use commerce.Storage.Database.{apply, begun, executed, committed, rolled_back}

begin_tx-applied : (m : Memory) (c : ℕ) (ctx : Context) → (begin_tx m c ctx).1.applied ≡ m.applied
unfolding begin_tx
begin_tx-applied m c ctx = ground arith

commit-applied : (m : Memory) (t : ℕ) → (commit m t).1.applied ≡ m.applied
unfolding commit
commit-applied m t = ground arith

rollback-applied : (m : Memory) (t : ℕ) → (rollback m t).1.applied ≡ m.applied
unfolding rollback
rollback-applied m t = ground arith

exec_steps-applied :
    (m : Memory) (c : ℕ) (cause : Option Error) (creates inserts : Bool) (read : Result Record)
    → (exec_steps m c cause creates inserts read).1.applied ≡ m.applied
unfolding create_schema insert_record
exec_steps-applied m c cause creates inserts read = ground arith

exec_context-applied :
    (m : Memory) (c : ℕ) (ctx : Context) (statement : Text) (arguments : List Value)
    → (exec_context m c ctx statement arguments).1.applied ≡ m.applied
unfolding exec_context
exec_context-applied m c ctx statement arguments = exec_steps-applied m c _ _ _ _

-- What a step leaves of a registry that was `before`: one more entry if it succeeds.
abbrev Registers : List Applied → Applied → Result (Unit {0}) × Memory → Type 0
Registers before entry (ok _, m) = m.applied ≡ before ++ entry ∷ []
Registers before entry (err e, m) = m.applied ≡ before

committed-Registers :
    (before : List Applied) (entry : Applied) (p : Result (Unit {0}) × Memory)
    → p.1.applied ≡ before
    → Registers before entry (committed entry p)
unfolding committed
committed-Registers before entry (ok _, m) h = ap (λ l. l ++ entry ∷ []) h
committed-Registers before entry (err e, m) h = h

rolled_back-Registers :
    (before : List Applied) (entry : Applied) (e : Error) (p : Result (Unit {0}) × Memory)
    → p.1.applied ≡ before
    → Registers before entry (rolled_back e p)
unfolding rolled_back
rolled_back-Registers before entry e (ok _, m) h = h
rolled_back-Registers before entry e (err f, m) h = h

executed-Registers :
    {A : Type 0} (before : List Applied) (entry : Applied) (t : ℕ) (p : Result A × Memory)
    → p.1.applied ≡ before
    → Registers before entry (executed t entry p)
unfolding executed
executed-Registers before entry t (ok _, m) h =
    committed-Registers before entry (commit m t) (commit-applied m t ∙ h)
executed-Registers before entry t (err e, m) h =
    rolled_back-Registers before entry e (rollback m t) (rollback-applied m t ∙ h)

begun-Registers :
    (before : List Applied) (entry : Applied) (c : ℕ) (ctx : Context) (statement : Text)
    (p : Result ℕ × Memory)
    → p.1.applied ≡ before
    → Registers before entry (begun c ctx statement entry p)
unfolding begun
begun-Registers before entry c ctx statement (ok t, m) h =
    executed-Registers before entry t (exec_context m c ctx statement [])
      (exec_context-applied m c ctx statement [] ∙ h)
begun-Registers before entry c ctx statement (err e, m) h = h

registered :
    (before : List Applied) (entry : Applied) (p : Result (Unit {0}) × Memory)
    → Registers before entry p
    → (p.0 ≡ ok tt → p.1.applied ≡ before ++ entry ∷ [])
      × ((e : Error) → p.0 ≡ err e → p.1.applied ≡ before)
registered before entry (ok _, m) h = (λ _. h, λ e k. cc)
registered before entry (err f, m) h = (λ k. cc, λ e _. h)

-- Whatever the statement and whenever the context ends: a migration that succeeds adds its entry at
-- the end of the registry, and one that fails, at its begin, its statement or its commit, leaves the
-- registry as it was.
pub apply_registers :
    (m : Memory) (c : ℕ) (ctx : Context) (statement : Text) (entry : Applied)
    → ((apply m c ctx statement entry).0 ≡ ok tt
        → (apply m c ctx statement entry).1.applied ≡ m.applied ++ entry ∷ [])
      × ((e : Error)
          → (apply m c ctx statement entry).0 ≡ err e
          → (apply m c ctx statement entry).1.applied ≡ m.applied)
unfolding apply
apply_registers m c ctx statement entry = registered m.applied entry _ (
    begun-Registers m.applied entry c (later 1 ctx) statement (begin_tx m c ctx)
      (begin_tx-applied m c ctx))
