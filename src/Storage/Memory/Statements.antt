-- ===== src/Storage/Memory/Statements.antt =====
-- storage/memory_connection.go and storage/memory_rows.go: the statements that a connection takes, their
-- arguments and their rows.
use commerce.Prelude.{
  ℕ, suc, ℤ, wrap, Bool, true, false, List, [], ◌∷◌, Option, none, some, Text, text, join, fields,
  if◌then◌else◌, text_eq, ◌==◌, get_elem?, int_beq,
}
use commerce.Go.{Error, Sentinel, sentinel, errors_new, Context, ctx_cause, Result, ok, err, ◌>>=◌}
use commerce.Storage.{
  Record, Value, string_value, int_value, other_value, create_orders_table_sql, insert_order_sql,
  find_order_sql,
}
use commerce.Storage.Memory.{Memory, create_schema, insert_record, find}

abbrev string_argument : Value → Option Text
string_argument (string_value s) = some s
string_argument (int_value n) = none
string_argument other_value = none

-- `int(number)`, refused if it is not the same number.
abbrev integer_argument : Value → Option ℤ
integer_argument (int_value n) = if int_beq (wrap n) n then some (wrap n) else none
integer_argument (string_value s) = none
integer_argument other_value = none

build_record : Option Text → Option Text → Option ℤ → Option ℤ → Option Text → Result Record
build_record (some id) (some sku) (some quantity) (some total) (some authorization) = ok (record {
  id = id;
  sku = sku;
  quantity = quantity;
  total_cents = total;
  authorization_id = authorization;
})
build_record _ _ _ _ _ = err (errors_new "commerce memory insert argument types are invalid")

unfoldable pub record_arguments : List Value → Result Record
unfolding build_record
record_arguments (id ∷ sku ∷ quantity ∷ total ∷ authorization ∷ []) =
    build_record (string_argument id) (string_argument sku) (integer_argument quantity)
      (integer_argument total) (string_argument authorization)
record_arguments _ = err (errors_new "commerce memory insert requires five arguments")

unfoldable pub normalize_sql : Text → Text
unfolding fields
normalize_sql statement = join (text " ") (fields statement)

abbrev pub same_sql : Text → Text → Bool
same_sql a b = normalize_sql a == normalize_sql b

-- The branches of ExecContext, over what it looks at: the cancellation, which statement it is, and the
-- record that the arguments make.
abbrev pub exec_steps : Memory → ℕ → Option Error → Bool → Bool → Result Record → Result ℤ × Memory
exec_steps m c (some cause) creates inserts read = (err cause, m)
exec_steps m c none true inserts read = create_schema m c
exec_steps m c none false true (ok r) = insert_record m c r
exec_steps m c none false true (err e) = (err e, m)
exec_steps m c none false false read =
    (err (errors_new "commerce memory driver rejected unknown statement"), m)

unfoldable pub exec_context : Memory → ℕ → Context → Text → List Value → Result ℤ × Memory
exec_context m c ctx statement arguments =
    exec_steps m c (ctx_cause (ctx 0)) (same_sql statement create_orders_table_sql)
      (same_sql statement insert_order_sql) (record_arguments arguments)

-- `memoryRows`: the rows of a result and how many were read.
pub record Rows : Type 0 where
  pub values : List (List Value)
  pub index : ℕ

unfoldable pub next_row : Rows → Result (List Value) × Rows
next_row rows = elim (get_elem? rows.values rows.index) [
  | none ↦ (err (sentinel Sentinel.eof), rows)
  | some row ↦ (ok row, record rows { index = suc rows.index })
]

abbrev pub row_of : Record → List Value
row_of r =
    string_value r.id
    ∷ string_value r.sku
    ∷ int_value r.quantity
    ∷ int_value r.total_cents
    ∷ string_value r.authorization_id
    ∷ []

abbrev pub rows_of : Option Record → Rows
rows_of none = record { values = []; index = 0 }
rows_of (some r) = record { values = row_of r ∷ []; index = 0 }

query_find : Memory → ℕ → List Value → Result Rows
query_find m c (string_value id ∷ []) = find m c id >>= λ found. ok (rows_of found)
query_find m c (int_value n ∷ []) = err (errors_new "commerce memory query requires a string ID")
query_find m c (other_value ∷ []) = err (errors_new "commerce memory query requires a string ID")
query_find m c _ = err (errors_new "commerce memory driver rejected unknown query")

unfoldable pub query_context : Memory → ℕ → Context → Text → List Value → Result Rows
unfolding query_find
query_context m c ctx statement arguments = elim (ctx_cause (ctx 0)) [
  | some cause ↦ err cause
  | none ↦
      if same_sql statement find_order_sql
      then query_find m c arguments
      else err (errors_new "commerce memory driver rejected unknown query")
]
