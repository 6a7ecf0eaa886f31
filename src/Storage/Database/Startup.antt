-- ===== src/Storage/Database/Startup.antt =====
-- storage/database.go: Migrate, which runs when the application starts. The plan and the runner of the
-- framework's migrations, and the PostgreSQL backend, are parameters.
use commerce.Prelude.{
  ℕ, ◌≡◌, refl, ap, sym, ◌∙◌, ◌⊎◌, inl, inr, List, [], ◌∷◌, ◌++◌, Option, none, some, Text, text,
}
use commerce.Go.{errors_new, errorf, end, wrapped, Context, Result, ok, err}
use commerce.Storage.{create_orders_table_sql}
use commerce.Storage.Memory.{Memory, Applied}
use commerce.Storage.Database.{Database, memory_backend, postgres_backend, apply}
use commerce.Storage.Database.Migrations.{apply_registers}

-- `migration.Spec`.
pub record Spec : Type 0 where
  pub version : ℕ
  pub module_id : Text
  pub name : Text
  pub sql : Text

abbrev pub module_id : Text
module_id = text "github.com/spice-framework/commerce/storage"

abbrev pub migration_number : ℕ
migration_number = 202607280001

abbrev pub create_orders : Spec
create_orders = record {
  version = migration_number;
  module_id = module_id;
  name = text "create commerce orders";
  sql = create_orders_table_sql;
}

-- A plan: each statement with the entry that the registry gets for it.
abbrev pub Plan : Type 0
Plan = List (Text × Applied)

-- What the module takes from the framework: `migration.NewPlan`, `Runner.Run` over the memory backend,
-- and over the backend of the PostgreSQL starter, which may not be made. A runner is always made, since
-- the backend that it is given is there.
pub record Framework (N : Type 0) : Type 0 where
  pub new_plan : List Spec → Result Plan
  pub run : Memory → Context → Plan → Result (Unit {0}) × Memory
  pub postgres : N → Result (Context → Plan → Result (Unit {0}) × N)

migrate_error : Result (Unit {0}) → Result (Unit {0})
migrate_error (ok _) = ok tt
migrate_error (err e) = err (errorf "migrate commerce database: %w" (wrapped e end))

module _ {N : Type 0} (framework : Framework N) where
  migrated_memory : Result (Unit {0}) × Memory → Result (Unit {0}) × Database N
  unfolding migrate_error
  migrated_memory (r, m) = (migrate_error r, memory_backend m)

  migrated_postgres : Result (Unit {0}) × N → Result (Unit {0}) × Database N
  unfolding migrate_error
  migrated_postgres (r, n) = (migrate_error r, postgres_backend n)

  -- The run on a backend, or the error of making it.
  with_postgres :
      N
      → Context
      → Plan
      → Result (Context → Plan → Result (Unit {0}) × N)
      → Result (Unit {0}) × Database N
  unfolding migrated_postgres
  with_postgres n ctx plan (err e) = (
    err (errorf "construct commerce PostgreSQL migration backend: %w" (wrapped e end)),
    postgres_backend n,
  )
  with_postgres n ctx plan (ok run) = migrated_postgres (run ctx plan)

  run_plan : Database N → Context → Result Plan → Result (Unit {0}) × Database N
  unfolding migrated_memory with_postgres
  run_plan d ctx (err e) = (err (errorf "construct commerce migration plan: %w" (wrapped e end)), d)
  run_plan (memory_backend m) ctx (ok plan) = migrated_memory (framework.run m ctx plan)
  run_plan (postgres_backend n) ctx (ok plan) = with_postgres n ctx plan (framework.postgres n)

  unfoldable pub migrate : Database N → Option Context → Result (Unit {0}) × Database N
  unfolding run_plan
  migrate d none = (err (errors_new "migrate commerce database: context is nil"), d)
  migrate d (some ctx) = run_plan d ctx (framework.new_plan (create_orders ∷ []))

  -- What the runner documents: it takes the registry as a prefix of the plan, and applies what is
  -- pending in order. For a plan of one entry a run that succeeds applied it, or found it applied.
  abbrev pub RunsPlans : ℕ → Type 0
  RunsPlans c =
      (m n : Memory) (ctx : Context) (statement : Text) (entry : Applied)
      → framework.run m ctx ((statement, entry) ∷ []) ≡ (ok tt, n)
      → ((m.applied ≡ []) × ((now : Context) × (apply m c now statement entry ≡ (ok tt, n))))
        ⊎ ((m.applied ≡ entry ∷ []) × (n ≡ m))

  ran_registers :
      (c : ℕ) (m n : Memory) (ctx : Context) (statement : Text) (entry : Applied)
      → RunsPlans c
      → framework.run m ctx ((statement, entry) ∷ []) ≡ (ok tt, n)
      → n.applied ≡ entry ∷ []
  ran_registers c m n ctx statement entry runs h = elim (runs m n ctx statement entry h) [
    | inl (fresh, (now, done)) ↦
        ap (λ q. q.1.applied) (sym done)
        ∙ (apply_registers m c now statement entry).0 (ap (λ q. q.0) done)
        ∙ ap (λ l. l ++ entry ∷ []) fresh
    | inr (applied, same) ↦ ap (λ k. k.applied) same ∙ applied
  ]

  ran_twice :
      (c : ℕ) (n k : Memory) (ctx : Context) (statement : Text) (entry : Applied)
      → RunsPlans c
      → n.applied ≡ entry ∷ []
      → framework.run n ctx ((statement, entry) ∷ []) ≡ (ok tt, k)
      → k ≡ n
  ran_twice c n k ctx statement entry runs had h = elim (runs n k ctx statement entry h) [
    | inl (fresh, (now, done)) ↦ cc (fresh, had)
    | inr (applied, same) ↦ same
  ]

  migrated_memory_ok :
      (q : Result (Unit {0}) × Memory) (d : Database N)
      → migrated_memory q ≡ (ok tt, d)
      → (q ≡ (ok tt, q.1)) × (d ≡ memory_backend q.1)
  unfolding migrated_memory migrate_error
  migrated_memory_ok (ok _, m) d h = (refl, sym (ap (λ k. k.1) h))
  migrated_memory_ok (err e, m) d h = cc (ap (λ k. k.0) h)

  migrate_ran :
      (m : Memory) (ctx : Context) (plan : Plan) (d : Database N)
      → framework.new_plan (create_orders ∷ []) ≡ ok plan
      → migrate (memory_backend m) (some ctx) ≡ (ok tt, d)
      → (n : Memory) × (framework.run m ctx plan ≡ (ok tt, n)) × (d ≡ memory_backend n)
  unfolding migrate run_plan
  migrate_ran m ctx plan d planned h =
      let (ran, left) =
        migrated_memory_ok (framework.run m ctx plan) d
          (sym (ap (run_plan (memory_backend m) ctx) planned) ∙ h) in
      ((framework.run m ctx plan).1, ran, left)

  -- If the plan of the module's migration has one entry, and the runner does what it documents, then
  -- after a start that migrates the database the registry has this entry alone, and a later start that
  -- succeeds changes nothing.
  pub migrate_once :
      (c : ℕ) (m : Memory) (ctx later_ctx : Context) (statement : Text) (entry : Applied)
      (d e : Database N)
      → RunsPlans c
      → framework.new_plan (create_orders ∷ []) ≡ ok ((statement, entry) ∷ [])
      → migrate (memory_backend m) (some ctx) ≡ (ok tt, d)
      → migrate d (some later_ctx) ≡ (ok tt, e)
      → (e ≡ d) × ((n : Memory) × (d ≡ memory_backend n) × (n.applied ≡ entry ∷ []))
  migrate_once c m ctx later_ctx statement entry d e runs planned first second =
      let (n, ran, left) = migrate_ran m ctx ((statement, entry) ∷ []) d planned first in
      let (k, again, last) =
        migrate_ran n later_ctx ((statement, entry) ∷ []) e planned
          (ap (λ b. migrate b (some later_ctx)) (sym left) ∙ second) in
      let had = ran_registers c m n ctx statement entry runs ran in
      let same = ran_twice c n k later_ctx statement entry runs had again in
      (last ∙ ap memory_backend same ∙ sym left, (n, left, had))
