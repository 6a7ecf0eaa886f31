-- ===== src/Storage/Memory.antt =====
-- storage/memory_*.go: the connector, the connections and the transactions over one database.
-- A connection and a transaction are known by number, in place of their pointers; `active` is the
-- `tx` field of each connection. Each function is what one holder of the mutexes does.
pub mod Statements
pub mod Sql
pub mod Transactions
pub mod Histories
pub mod Ends
pub mod Inserts
pub mod Liveness
pub mod Sessions
use commerce.Prelude.{
  ℕ, suc, ℤ, pos, wrap, Bool, true, false, not, ◌&&◌, ◌||◌, any, List, [], ◌∷◌, Option, none, some,
  Text, text, nat_beq, join, fields, Dict, lookup, insert, copy, has_key, if◌then◌else◌, text_eq,
  ◌==◌, length, get_elem?, int_beq,
}
use commerce.Go.{
  Error, Sentinel, sentinel, errors_new, Context, background, ctx_cause, Result, ok, err, ◌>>=◌,
}
use commerce.Storage.{
  Record, Value, string_value, int_value, other_value, create_orders_table_sql, insert_order_sql,
  find_order_sql,
}

pub record Transaction : Type 0 where
  pub connection : ℕ
  pub records : Dict Text Record
  pub create_schema : Bool
  pub done : Bool

-- A migration that was applied: version, module, name and checksum.
pub record Applied : Type 0 where
  pub version : ℕ
  pub module_id : Text
  pub name : Text
  pub checksum : Text

-- The database with its connections and every transaction that was begun. `next` is a number that no
-- transaction has yet.
pub record Memory : Type 0 where
  pub records : Dict Text Record
  pub applied : List Applied
  pub schema : Bool
  pub active : ℕ → Option ℕ
  pub transactions : ℕ → Option Transaction
  pub next : ℕ

abbrev pub update {ℓ} : {A : Type ℓ} → (ℕ → A) → ℕ → A → ℕ → A
update f k v j = if nat_beq j k then v else f j

-- The state that NewDatabase makes for the memory URL: an empty database whose schema is there.
abbrev pub new_memory : Memory
new_memory = record {
  records = [];
  applied = [];
  schema = true;
  active = λ _. none;
  transactions = λ _. none;
  next = 0;
}

-- Connect makes a connection with no transaction; it holds nothing else.
unfoldable pub connect : Memory → Context → ℕ → Result ℕ × Memory
connect m ctx c = elim (ctx_cause (ctx 0)) [
  | some cause ↦ (err cause, m)
  | none ↦ (ok c, record m { active = update m.active c none })
]

unfoldable pub begin_tx : Memory → ℕ → Context → Result ℕ × Memory
begin_tx m c ctx = elim (ctx_cause (ctx 0)) [
  | some cause ↦ (err cause, m)
  | none ↦ elim (m.active c) [
    | some t ↦ (err (errors_new "commerce memory transaction is already active"), m)
    | none ↦ (
      ok m.next,
      record m {
        active = update m.active c (some m.next);
        transactions =
            update m.transactions m.next
              (some (record { connection = c; records = []; create_schema = false; done = false }));
        next = suc m.next;
      },
    )
  ]
]

unfoldable pub begin : Memory → ℕ → Result ℕ × Memory
unfolding begin_tx
begin m c = begin_tx m c background

pub ping : Context → Option Error
ping ctx = ctx_cause (ctx 0)

-- `connection.tx`, as the transaction that it points to.
abbrev pub current : Memory → ℕ → Option (ℕ × Transaction)
current m c = elim (m.active c) [
  | none ↦ none
  | some t ↦ elim (m.transactions t) [ none ↦ none | some tx ↦ some (t, tx) ]
]

abbrev pub write_tx : Memory → ℕ → Transaction → Memory
write_tx m t tx = record m { transactions = update m.transactions t (some tx) }

unfoldable pub create_schema : Memory → ℕ → Result ℤ × Memory
create_schema m c = elim (current m c) [
  | some (t, tx) ↦ (ok (pos 0), write_tx m t (record tx { create_schema = true }))
  | none ↦ (ok (pos 0), record m { schema = true })
]

unfoldable pub insert_record : Memory → ℕ → Record → Result ℤ × Memory
insert_record m c r = elim (current m c) [
  | some (t, tx) ↦
      if has_key r.id tx.records
      then (err (sentinel Sentinel.memory_duplicate), m)
      else if has_key r.id m.records
      then (err (sentinel Sentinel.memory_duplicate), m)
      else (ok (pos 1), write_tx m t (record tx { records = insert r.id r tx.records }))
  | none ↦
      if not m.schema
      then (err (sentinel Sentinel.memory_schema), m)
      else if has_key r.id m.records
      then (err (sentinel Sentinel.memory_duplicate), m)
      else (ok (pos 1), record m { records = insert r.id r m.records })
]

-- The part of a read that goes to the database.
find_committed : Memory → Text → Result (Option Record)
find_committed m id =
    if not m.schema then err (sentinel Sentinel.memory_schema) else ok (lookup id m.records)

unfoldable pub find : Memory → ℕ → Text → Result (Option Record)
unfolding find_committed
find m c id = elim (current m c) [
  | none ↦ find_committed m id
  | some (t, tx) ↦ elim (lookup id tx.records) [ some r ↦ ok (some r) | none ↦ find_committed m id ]
]

-- The end of a transaction: it is done, and its connection has none.
abbrev pub finish : Memory → ℕ → Transaction → Memory
finish m t tx = record m {
  active = update m.active tx.connection none;
  transactions = update m.transactions t (some (record tx { done = true }));
}

-- Whether the transaction can still end: it is not done, and its connection points to it.
abbrev pub is_open : Memory → ℕ → Transaction → Bool
is_open m t tx =
    not tx.done && elim (m.active tx.connection) [ none ↦ false | some u ↦ nat_beq u t ]

unfoldable pub commit : Memory → ℕ → Result (Unit {0}) × Memory
commit m t = elim (m.transactions t) [
  | none ↦ (err (errors_new "commerce memory transaction is nil"), m)
  | some tx ↦
      if not (is_open m t tx)
      then (err (errors_new "commerce memory transaction is already complete"), m)
      else if any (λ e. has_key e.0 m.records) tx.records
      then (err (sentinel Sentinel.memory_duplicate), finish m t tx)
      else (
        ok tt,
        finish
            (record m {
              schema = tx.create_schema || m.schema;
              records = copy m.records tx.records;
            })
            t tx,
      )
]

unfoldable pub rollback : Memory → ℕ → Result (Unit {0}) × Memory
rollback m t = elim (m.transactions t) [
  | none ↦ (err (errors_new "commerce memory transaction is nil"), m)
  | some tx ↦
      if not (is_open m t tx) then (err (sentinel Sentinel.tx_done), m) else (ok tt, finish m t tx)
]
