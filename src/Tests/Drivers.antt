-- ===== src/Tests/Drivers.antt =====
-- The memory driver: two transactions that insert one order, and the repository over a connection.
use commerce.Prelude.{
  ℕ, pos, ◌≡◌, refl, false, [], ◌∷◌, none, some, text, lookup, insert, copy, arith, text_eq,
}
use commerce.Go.{Sentinel, sentinel, background, ok, err}
use commerce.Storage.{
  Record, string_value, insert_order_sql, find_order_sql, create_orders_table_sql,
}
use commerce.Storage.Memory.{
  Memory, Applied, create_schema, Transaction, new_memory, begin_tx, insert_record, find, commit,
}
use commerce.Storage.Memory.Statements.{exec_context, query_context, normalize_sql, rows_of, row_of}
use commerce.Storage.Memory.Transactions.{visible}
use commerce.Storage.Memory.Ends.{commit-visible}
use commerce.Storage.Memory.Histories.{
  Reach, Reach-Inv, start, next, begins, inserts, find_reached, first_commit_wins,
}
use commerce.Storage.Memory.Sql.{exec-query}
use commerce.Storage.Database.{apply}

abbrev order : Record
order = record {
  id = text "order-000001";
  sku = text "widget";
  quantity = pos 2;
  total_cents = pos 500;
  authorization_id = text "payment-000001";
}

-- Connections 0 and 1 each have a transaction, and have inserted the order.
abbrev begun : Memory
begun = (begin_tx (begin_tx new_memory 0 background).1 1 background).1

abbrev racing : Memory
racing = (insert_record (insert_record begun 0 order).1 1 order).1

reach_begun : Reach begun
reach_begun = next (next start (begins 0 background)) (begins 1 background)

reach_racing : Reach racing
reach_racing = next (next reach_begun (inserts 0 order)) (inserts 1 order)

abbrev holding : ℕ → Transaction
holding c = record {
  connection = c;
  records = (order.id, order) ∷ [];
  create_schema = false;
  done = false;
}

first_commit_wins_example :
    ((commit racing 0).0 ≡ ok tt)
    × ((commit (commit racing 0).1 1).0 ≡ err (sentinel Sentinel.memory_duplicate))
    × ((commit (commit racing 0).1 1).1.records ≡ (commit racing 0).1.records)
    × (lookup order.id (commit racing 0).1.records ≡ lookup order.id (holding 0).records)
unfolding begin_tx insert_record lookup insert
first_commit_wins_example =
    first_commit_wins racing 0 1 0 1 (holding 0) (holding 1) order.id (Reach-Inv reach_racing) refl
      refl refl refl (λ e. absurd (ground (arith, e))) refl refl refl

find_reached_example : find racing 0 order.id ≡ ok (visible racing 0 order.id)
find_reached_example = find_reached reach_racing 0 order.id

commit-visible_example :
    ((commit racing 0).0 ≡ ok tt)
    × ((commit racing 0).1.active 0 ≡ none)
    × (lookup order.id (commit racing 0).1.records ≡ visible racing 0 order.id)
unfolding begin_tx insert_record lookup insert
commit-visible_example =
    commit-visible racing 0 0 (holding 0) order.id (Reach-Inv reach_racing) refl refl refl

-- The first transaction has committed.
abbrev won : Memory
won = (commit racing 0).1

exec-query_example :
    ((exec_context new_memory 0 background insert_order_sql (row_of order)).0 ≡ ok (pos 1))
    × (query_context
          (exec_context new_memory 0 background insert_order_sql (row_of order)).1
          0
          background
          find_order_sql
          (string_value order.id ∷ [])
        ≡ ok (rows_of (some order)))
unfolding lookup
exec-query_example =
    exec-query new_memory 0 background background order (Reach-Inv start)
      (ground arith, ground arith) refl refl refl

abbrev first_migration : Applied
first_migration = record {
  version = 202607280001;
  module_id = text "github.com/spice-framework/commerce/storage";
  name = text "create commerce orders";
  checksum = text "e3b0";
}

migrated_test : (apply new_memory 0 background create_orders_table_sql first_migration).0 ≡ ok tt
unfolding apply begin_tx exec_context normalize_sql create_schema commit copy
migrated_test = refl
