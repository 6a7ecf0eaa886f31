-- ===== src/Storage/Memory/Sql.antt =====
-- The statements of the module through the driver: which operation each one runs, and a record that
-- goes in as arguments and comes back as a row.
use commerce.Prelude.{
  ℕ, pos, wrap-eq_of_IsInt, IsInt, ◌≡◌, refl, ◌∙◌, Bool, true, false, List, [], ◌∷◌, Option, none,
  some, Text, is_some, text_eq, arith, ==_refl,
}
use commerce.Go.{Error, Context, live, ctx_cause, Result, ok, err}
use commerce.Storage.{
  Record, Value, string_value, insert_order_sql, create_orders_table_sql, find_order_sql,
}
use commerce.Storage.Memory.{Memory, insert_record, create_schema}
use commerce.Storage.Memory.Statements.{
  same_sql, normalize_sql, exec_context, exec_steps, query_context, record_arguments, row_of,
  rows_of,
}
use commerce.Storage.Memory.Transactions.{Inv, visible, find-visible}
use commerce.Storage.Memory.Inserts.{insert_record_fresh, insert_record-Inv}

create_is_create : same_sql create_orders_table_sql create_orders_table_sql ≡ true
unfolding normalize_sql
create_is_create = refl

insert_is_no_create : same_sql insert_order_sql create_orders_table_sql ≡ false
unfolding normalize_sql
insert_is_no_create = refl

insert_is_insert : same_sql insert_order_sql insert_order_sql ≡ true
unfolding normalize_sql
insert_is_insert = refl

find_is_find : same_sql find_order_sql find_order_sql ≡ true
unfolding normalize_sql
find_is_find = refl

-- The numbers of a record are `int`s.
abbrev pub HasInts : Record → Type 0
HasInts r = IsInt r.quantity × IsInt r.total_cents

record_arguments-row_of : (r : Record) → HasInts r → record_arguments (row_of r) ≡ ok r
unfolding record_arguments
record_arguments-row_of r h =
    rw (wrap-eq_of_IsInt r.quantity h.0, wrap-eq_of_IsInt r.total_cents h.1) (ground arith)

-- The module's insert statement, with the fields of a record as its arguments, is an insert of it.
pub exec_context-insert :
    (m : Memory) (c : ℕ) (ctx : Context) (r : Record)
    → ctx 0 ≡ live
    → HasInts r
    → exec_context m c ctx insert_order_sql (row_of r) ≡ insert_record m c r
unfolding exec_context
exec_context-insert m c ctx r now h =
    rw (now, exec_context, insert_is_no_create, insert_is_insert, record_arguments-row_of r h)

-- The module's schema statement creates the schema.
pub exec_context-create :
    (m : Memory) (c : ℕ) (ctx : Context) (arguments : List Value)
    → ctx 0 ≡ live
    → exec_context m c ctx create_orders_table_sql arguments ≡ create_schema m c
unfolding exec_context
exec_context-create m c ctx arguments now = rw (now, exec_context, create_is_create)

-- The module's query, with an ID as its argument, reads what the connection sees.
pub query_context-find :
    (m : Memory) (c : ℕ) (ctx : Context) (id : Text)
    → ctx 0 ≡ live
    → Inv m
    → query_context m c ctx find_order_sql (string_value id ∷ []) ≡ ok (rows_of (visible m c id))
unfolding query_context
query_context-find m c ctx id now v = rw (now, query_context, find_is_find, find-visible m c id v)

insert_record_err :
    (m : Memory) (c : ℕ) (r : Record) (e : Error)
    → (insert_record m c r).0 ≡ err e
    → (insert_record m c r).1 ≡ m
unfolding insert_record
insert_record_err m c r e h = ground arith

create_schema_ok : (m : Memory) (c : ℕ) → (create_schema m c).0 ≡ ok (pos 0)
unfolding create_schema
create_schema_ok m c = ground arith

-- An exec that fails, whatever the statement and the arguments, changes nothing.
pub exec_context_err :
    (m : Memory) (c : ℕ) (ctx : Context) (statement : Text) (arguments : List Value) (e : Error)
    → (exec_context m c ctx statement arguments).0 ≡ err e
    → (exec_context m c ctx statement arguments).1 ≡ m
unfolding exec_context
exec_context_err m c ctx statement arguments e =
    run (ctx_cause (ctx 0)) (same_sql statement create_orders_table_sql)
      (same_sql statement insert_order_sql) (record_arguments arguments)
  where
    run :
        (cause : Option Error) (creates inserts : Bool) (read : Result Record)
        → (exec_steps m c cause creates inserts read).0 ≡ err e
        → (exec_steps m c cause creates inserts read).1 ≡ m
    run (some x) creates inserts read h = refl
    run none true inserts read h = cc (h, create_schema_ok m c)
    run none false true (ok r) h = insert_record_err m c r e h
    run none false true (err x) h = refl
    run none false false read h = refl

-- Under the invariant, on a live context, the insert of a record with `int` fields under an ID
-- that the connection does not see affects one row; a query for that ID on the same connection,
-- with a live context, then answers that record as its one row.
pub exec-query :
    (m : Memory) (c : ℕ) (ctx look : Context) (r : Record)
    → Inv m
    → HasInts r
    → ctx 0 ≡ live
    → look 0 ≡ live
    → is_some (visible m c r.id) ≡ false
    → let after = (exec_context m c ctx insert_order_sql (row_of r)).1 in
      ((exec_context m c ctx insert_order_sql (row_of r)).0 ≡ ok (pos 1))
      × (query_context after c look find_order_sql (string_value r.id ∷ []) ≡ ok (rows_of (some r)))
exec-query m c ctx look r v h now looked fresh =
    let (done, seen) = insert_record_fresh m c r v fresh in
    let v' = insert_record-Inv m c r v in
    rw (exec_context-insert m c ctx r now h) (
      done,
      query_context-find (insert_record m c r).1 c look r.id looked v'
          ∙ rw (seen r.id, ==_refl r.id) refl,
    )
