-- ===== src/Storage/Memory/Transactions.antt =====
-- The invariant of the memory driver, and what a connection sees: the records of its own open
-- transaction over those of the database.
use commerce.Prelude.{
  ℕ, ◌<◌, ◌≡◌, refl, inl, inr, Bool, true, false, Option, none, some, Text, nat_beq, Dict, lookup,
  or_else, IsDict, text_eq, arith, Bool-cases,
}
use commerce.Go.{ok}
use commerce.Storage.{Record}
use commerce.Storage.Memory.{Memory, Transaction, new_memory, current, find, update, write_tx}

pub record Inv (m : Memory) : Type 0 where
  pub ready : m.schema ≡ true
  pub opened :
      (c t : ℕ)
      → m.active c ≡ some t
      → (tx : Transaction) × (m.transactions t ≡ some tx)
        × (tx.connection ≡ c)
        × (tx.done ≡ false)
        × IsDict tx.records
  pub numbered : (t : ℕ) (tx : Transaction) → m.transactions t ≡ some tx → t < m.next

-- What connection `c` sees.
abbrev pub own : Option (ℕ × Transaction) → Text → Option Record
own none id = none
own (some (t, tx)) id = lookup id tx.records

abbrev pub visible : Memory → ℕ → Text → Option Record
visible m c id = or_else (own (current m c) id) (lookup id m.records)

pub new_memory-Inv : Inv new_memory
new_memory-Inv = record {
  ready = refl;
  opened = λ c t e. absurd (ground arith);
  numbered = λ t tx e. absurd (ground arith);
}

-- A read answers what its connection sees, and never an unready schema.
pub find-visible : (m : Memory) (c : ℕ) (id : Text) → Inv m → find m c id ≡ ok (visible m c id)
unfolding find
find-visible m c id v = ground (arith, v.ready)

pub current-eq :
    (m : Memory) (c t : ℕ)
    → Inv m
    → m.active c ≡ some t
    → (tx : Transaction) × (current m c ≡ some (t, tx))
      × (m.transactions t ≡ some tx)
      × (tx.connection ≡ c)
      × (tx.done ≡ false)
      × IsDict tx.records
current-eq m c t v a =
    let (tx, e, own_c, live, dict) = v.opened c t a in (tx, ground arith, e, own_c, live, dict)

-- A transaction that is rewritten stays open on its connection.
pub write_tx-Inv :
    (m : Memory) (t : ℕ) (tx new : Transaction)
    → Inv m
    → m.transactions t ≡ some tx
    → new.connection ≡ tx.connection
    → new.done ≡ tx.done
    → IsDict new.records
    → Inv (write_tx m t new)
write_tx-Inv m t tx new v e ec ed dict = record {
  ready = v.ready;
  opened = λ c u a.
      let (old, eo, oc, od, odict) = v.opened c u a in
      elim (Bool-cases (nat_beq u t)) [
        | inl same ↦ (new, ground arith, ground arith, ground arith, dict)
        | inr other ↦ (old, ground arith, oc, od, odict)
      ];
  numbered = λ u x h. ground (arith, v.numbered u x, v.numbered t tx);
}

-- The state after a transaction that was open on `c` has ended.
abbrev pub ended : Memory → ℕ → ℕ → Transaction → Dict Text Record → Bool → Memory
ended m c t tx records schema = record m {
  records = records;
  schema = schema;
  active = update m.active c none;
  transactions = update m.transactions t (some (record tx { done = true }));
}

pub owner-eq :
    (m : Memory) (c t : ℕ) (tx : Transaction)
    → Inv m
    → m.active c ≡ some t
    → m.transactions t ≡ some tx
    → (tx.connection ≡ c) × (tx.done ≡ false) × IsDict tx.records
owner-eq m c t tx v a e =
    let (old, eo, oc, od, dict) = v.opened c t a in
    let same : old ≡ tx = ground arith in rw (← same) (oc, od, dict)

pub ended-Inv :
    (m : Memory) (c t : ℕ) (tx : Transaction) (records : Dict Text Record) (schema : Bool)
    → Inv m
    → m.active c ≡ some t
    → m.transactions t ≡ some tx
    → schema ≡ true
    → Inv (ended m c t tx records schema)
ended-Inv m c t tx records schema v a e ready = record {
  ready = ready;
  opened = λ d u b. elim (Bool-cases (nat_beq d c)) [
    | inl same ↦ absurd (ground arith)
    | inr other ↦
        let b' : m.active d ≡ some u = ground arith in
        let (old, eo, oc, od, odict) = v.opened d u b' in
        (old, ground (arith, owner-eq m c t tx v a e), oc, od, odict)
  ];
  numbered = λ u x h. ground (arith, v.numbered u x, v.numbered t tx);
}
