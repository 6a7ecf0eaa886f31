-- ===== src/Storage.antt =====
-- storage/: the order record, the Orders contract, the repository over an executor, and the memory
-- driver that stands behind `database/sql` in the developer loop.
pub mod Memory
pub mod Repository
pub mod Database
use commerce.Prelude.{ℕ, ℤ, List, Option, Text, text}
use commerce.Go.{Context, Result}

pub record Record : Type 0 where
  pub id : Text
  pub sku : Text
  pub quantity : ℤ
  pub total_cents : ℤ
  pub authorization_id : Text

-- A value that `database/sql` hands to a driver; `other_value` is any type but string and int64.
pub data Value : Type 0 where
  string_value : Text → Value
  int_value : ℤ → Value
  other_value : Value

-- `data.Executor`, as far as this module calls it: a statement with its arguments, answered by what
-- `RowsAffected` then says.
pub record Executor (S : Type 0) : Type 0 where
  pub exec_context : S → Context → Text → List Value → Result (Result ℤ) × S

-- The contract that orders consume, over an executor handle `E` and a store `S`.
pub record Orders (E S : Type 0) : Type 0 where
  pub save : E → S → Context → Record → Result (Unit {0}) × S
  pub find : E → S → Context → Text → Result (Option Record) × S

abbrev pub create_orders_table_sql : Text
create_orders_table_sql =
    text
      "CREATE TABLE IF NOT EXISTS commerce_orders (\n\tid text PRIMARY KEY,\n\tsku text NOT NULL,\n\tquantity bigint NOT NULL CHECK (quantity > 0),\n\ttotal_cents bigint NOT NULL CHECK (total_cents > 0),\n\tauthorization_id text NOT NULL\n);"

abbrev pub insert_order_sql : Text
insert_order_sql =
    text
      "INSERT INTO commerce_orders (\n\tid,\n\tsku,\n\tquantity,\n\ttotal_cents,\n\tauthorization_id\n) VALUES ($1, $2, $3, $4, $5)"

abbrev pub find_order_sql : Text
find_order_sql =
    text
      "SELECT\n\tid,\n\tsku,\n\tquantity,\n\ttotal_cents,\n\tauthorization_id\nFROM commerce_orders\nWHERE id = $1"
