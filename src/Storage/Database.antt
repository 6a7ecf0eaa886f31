-- ===== src/Storage/Database.antt =====
-- storage/database.go and storage/memory_migration_session.go: the backend that a URL selects, and one
-- migration through the memory session. `url.Parse` and the PostgreSQL starter are parameters.
pub mod Migrations
pub mod Startup
use Prim.Native.String.{String}
use commerce.Prelude.{
  ℕ, Bool, true, false, not, ◌||◌, List, [], ◌∷◌, ◌++◌, length, Text, text, is_empty, trim_space,
  Eq, text_eq, ◌==◌, if◌then◌else◌,
}
use commerce.Go.{
  Error, errors_new, errorf, join_errors, end, wrapped, Context, later, Result, ok, err, ◌>>=◌,
  ◌>>◌, fail_if, map_err,
}
use commerce.Storage.Memory.{Memory, Applied, new_memory, begin_tx, commit, rollback}
use commerce.Storage.Memory.Statements.{exec_context}

pub record Settings : Type 0 where
  pub url : Text
  pub allow_insecure : Bool

-- A database over a pool of type `N` for PostgreSQL.
pub data Database (N : Type 0) : Type 0 where
  memory_backend : Memory → Database N
  postgres_backend : N → Database N

abbrev pub memory_url : Text
memory_url = text "memory://commerce"

abbrev pub is_postgres : Result Text → Bool
is_postgres (ok scheme) = (scheme == text "postgres") || (scheme == text "postgresql")
is_postgres (err e) = false

-- `parse_scheme` gives the scheme of a URL, and `open_postgres` opens the pool.
unfoldable pub new_database :
    {N : Type 0} → (Text → Result Text) → (Text → Bool → Result N) → Settings → Result (Database N)
new_database parse_scheme open_postgres settings =
    fail_if (not (trim_space settings.url == settings.url) || is_empty (trim_space settings.url))
      (errors_new "construct commerce database: URL is required")
    >> (if settings.url == memory_url
        then ok (memory_backend new_memory)
        else fail_if (not (is_postgres (parse_scheme settings.url)))
            (errors_new "construct commerce database: URL must use memory, postgres, or postgresql")
          >> (map_err (λ e. errorf "construct commerce database: %w" (wrapped e end))
                (open_postgres settings.url settings.allow_insecure)
              >>= λ native. ok (postgres_backend native)))

unfoldable pub mode : {N : Type 0} → Database N → Text
mode (memory_backend m) = text "memory"
mode (postgres_backend n) = text "postgres"

unfoldable pub applied_migrations : {N : Type 0} → Database N → ℕ
applied_migrations (memory_backend m) = length m.applied
applied_migrations (postgres_backend n) = 0

-- The end of Apply, by how the commit ended: the registry has the entry, or the error.
committed : Applied → Result (Unit {0}) × Memory → Result (Unit {0}) × Memory
committed entry (ok _, m) = (ok tt, record m { applied = m.applied ++ entry ∷ [] })
committed entry (err e, m) =
    (err (errorf "commit commerce memory migration: %w" (wrapped e end)), m)

-- The error of the statement, joined with that of the rollback if there is one.
rolled_back : Error → Result (Unit {0}) × Memory → Result (Unit {0}) × Memory
rolled_back e (ok _, m) = (err (errorf "execute commerce memory migration: %w" (wrapped e end)), m)
rolled_back e (err f, m) =
    (err (join_errors (errorf "execute commerce memory migration: %w" (wrapped e end)) f), m)

-- What follows the statement.
executed : {A : Type 0} → ℕ → Applied → Result A × Memory → Result (Unit {0}) × Memory
unfolding committed rolled_back
executed t entry (ok _, m) = committed entry (commit m t)
executed t entry (err e, m) = rolled_back e (rollback m t)

-- What follows the begin, on connection `c`.
begun : ℕ → Context → Text → Applied → Result ℕ × Memory → Result (Unit {0}) × Memory
unfolding executed
begun c ctx statement entry (ok t, m) = executed t entry (exec_context m c ctx statement [])
begun c ctx statement entry (err e, m) =
    (err (errorf "begin commerce memory migration: %w" (wrapped e end)), m)

-- Apply on the pool's one connection `c`, for a migration with its statement and registry entry.
unfoldable pub apply : Memory → ℕ → Context → Text → Applied → Result (Unit {0}) × Memory
unfolding begun
apply m c ctx statement entry = begun c (later 1 ctx) statement entry (begin_tx m c ctx)
