-- ===== src/Tests/Startups.antt =====
-- A start of the application over the memory driver, and the next one, with a runner of one migration.
use commerce.Prelude.{
  ◌≡◌, refl, ap, sym, ◌∙◌, ◌⊎◌, inl, inr, Bool, Bool-cases, true, ◌&&◌, List, [], ◌∷◌, some, Text,
  text, nat_beq, nat_beq_iff, text_eq, ◌==◌, if◌then◌else◌, arith, copy,
}
use commerce.Go.{Error, errors_new, Context, background, Result, ok, err}
use commerce.Storage.{create_orders_table_sql}
use commerce.Storage.Memory.{Memory, Applied, new_memory, begin_tx, create_schema, commit}
use commerce.Storage.Memory.Statements.{exec_context, normalize_sql}
use commerce.Storage.Database.{Database, memory_backend, apply}
use commerce.Storage.Database.Startup.{
  Framework, Plan, migrate, migrate_once, module_id, migration_number,
}

abbrev same : Applied → Applied → Bool
same a b =
    nat_beq a.version b.version
    && (a.module_id == b.module_id)
    && (a.name == b.name)
    && (a.checksum == b.checksum)

same_sound : (a b : Applied) → same a b ≡ true → a ≡ b
same_sound a b h = ground (
  arith,
  h,
  nat_beq_iff a.version b.version,
  text_eq.beq_iff a.module_id b.module_id,
  text_eq.beq_iff a.name b.name,
  text_eq.beq_iff a.checksum b.checksum,
)

abbrev drifted : Error
drifted = errors_new "the registry is no prefix of the plan"

-- One entry of a plan, by the registry.
abbrev run_entry : Memory → Context → Text → Applied → List Applied → Result (Unit {0}) × Memory
run_entry m ctx statement entry [] = apply m 0 ctx statement entry
run_entry m ctx statement entry (a ∷ []) = if same a entry then (ok tt, m) else (err drifted, m)
run_entry m ctx statement entry (a ∷ b ∷ l) = (err drifted, m)

abbrev run_entries : Memory → Context → Plan → Result (Unit {0}) × Memory
run_entries m ctx [] = (ok tt, m)
run_entries m ctx ((statement, entry) ∷ []) = run_entry m ctx statement entry m.applied
run_entries m ctx (a ∷ b ∷ l) = (err drifted, m)

abbrev first_migration : Applied
first_migration = record {
  version = migration_number;
  module_id = module_id;
  name = text "create commerce orders";
  checksum = text "e3b0";
}

abbrev framework : Framework (Unit {0})
framework = record {
  new_plan = λ specs. ok ((create_orders_table_sql, first_migration) ∷ []);
  run = run_entries;
  postgres = λ n. err drifted;
}

run_entry_ran :
    (m n : Memory) (ctx : Context) (statement : Text) (entry : Applied) (l : List Applied)
    → run_entry m ctx statement entry l ≡ (ok tt, n)
    → ((l ≡ []) × ((now : Context) × (apply m 0 now statement entry ≡ (ok tt, n))))
      ⊎ ((l ≡ entry ∷ []) × (n ≡ m))
run_entry_ran m n ctx statement entry [] h = inl (refl, (ctx, h))
run_entry_ran m n ctx statement entry (a ∷ []) h = elim (Bool-cases (same a entry)) [
  | inl e ↦
      let passed : (ok tt, m) ≡ (ok tt, n) = sym (rw e refl) ∙ h in
      inr (ap (λ b. b ∷ []) (same_sound a entry e), sym (ap (λ q. q.1) passed))
  | inr e ↦
      let failed : run_entry m ctx statement entry (a ∷ []) ≡ (err drifted, m) = rw e refl in
      cc (ap (λ q. q.0) (sym failed ∙ h))
]
run_entry_ran m n ctx statement entry (a ∷ b ∷ l) h = cc (ap (λ q. q.0) h)

abbrev migrated : Database (Unit {0})
migrated = (migrate framework (memory_backend new_memory) (some background)).1

migrate_once_example :
    (migrated ≡ migrated)
    × ((n : Memory) × (migrated ≡ memory_backend n) × (n.applied ≡ first_migration ∷ []))
unfolding migrate apply begin_tx exec_context normalize_sql create_schema commit copy
migrate_once_example =
    migrate_once framework 0 new_memory background background create_orders_table_sql
      first_migration migrated migrated
      (λ m n ctx statement entry. run_entry_ran m n ctx statement entry m.applied) refl refl refl
