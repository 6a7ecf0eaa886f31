-- ===== src/Storage/Memory/Histories.antt =====
-- Any history of the memory driver: what every state that is reached has, and two transactions that
-- insert one ID.
use commerce.Prelude.{
  ℕ, ◌≡◌, refl, ◌≢◌, inl, inr, true, false, any, [], ◌∷◌, some, Text, Dict, lookup, has_key,
  text_eq, arith, Option-cases, ap, ◌∙◌,
}
use commerce.Go.{Sentinel, sentinel, Context, ok, err, ctx_cause}
use commerce.Storage.{Record}
use commerce.Storage.Memory.{
  Memory, Transaction, new_memory, connect, begin_tx, create_schema, insert_record, find, commit,
  rollback,
}
use commerce.Storage.Memory.Transactions.{
  Inv, visible, find-visible, new_memory-Inv, write_tx-Inv, current-eq, owner-eq,
}
use commerce.Storage.Memory.Inserts.{insert_record-Inv}
use commerce.Storage.Memory.Ends.{
  begin_tx-Inv, commit-Inv, rollback-Inv, collides, commit-publishes, commit-collides,
  commit-visible,
}

pub data Step (m : Memory) : Memory → Type 0 where
  connects : (ctx : Context) (c : ℕ) → Step m (connect m ctx c).1
  begins : (c : ℕ) (ctx : Context) → Step m (begin_tx m c ctx).1
  creates : (c : ℕ) → Step m (create_schema m c).1
  inserts : (c : ℕ) (r : Record) → Step m (insert_record m c r).1
  commits : (t : ℕ) → Step m (commit m t).1
  rolls_back : (t : ℕ) → Step m (rollback m t).1

pub data Reach : Memory → Type 0 where
  start : Reach new_memory
  next : {m n : Memory} → Reach m → Step m n → Reach n

connect-Inv : (m : Memory) (ctx : Context) (c : ℕ) → Inv m → Inv (connect m ctx c).1
unfolding connect
connect-Inv m ctx c v = elim (Option-cases (ctx_cause (ctx 0))) [
  | inr (e, over) ↦ rw (over, connect) v
  | inl running ↦
      rw (running, connect)
        (record {
          ready = v.ready;
          opened = λ d t a. v.opened d t (ground arith);
          numbered = v.numbered;
        })
]

create_schema-Inv : (m : Memory) (c : ℕ) → Inv m → Inv (create_schema m c).1
unfolding create_schema
create_schema-Inv m c v = elim (Option-cases (m.active c)) [
  | inl idle ↦
      rw (idle, create_schema) (record { ready = refl; opened = v.opened; numbered = v.numbered })
  | inr (t, a) ↦
      let (tx, _, e, _, _, dict) = current-eq m c t v a in
      rw (a, create_schema, e) (write_tx-Inv m t tx _ v e refl refl dict)
]

Step-Inv : {m n : Memory} → Step m n → Inv m → Inv n
Step-Inv {m} (connects ctx c) v = connect-Inv m ctx c v
Step-Inv {m} (begins c ctx) v = begin_tx-Inv m c ctx v
Step-Inv {m} (creates c) v = create_schema-Inv m c v
Step-Inv {m} (inserts c r) v = insert_record-Inv m c r v
Step-Inv {m} (commits t) v = commit-Inv m t v
Step-Inv {m} (rolls_back t) v = rollback-Inv m t v

pub Reach-Inv : {m : Memory} → Reach m → Inv m
Reach-Inv start = new_memory-Inv
Reach-Inv (next r s) = Step-Inv s (Reach-Inv r)

-- In every state that the driver reaches from the new one, a read answers what its connection
-- sees: the records of its own open transaction, over those of the database. It never reports an
-- unready schema.
pub find_reached : {m : Memory} → Reach m → (c : ℕ) (id : Text) → find m c id ≡ ok (visible m c id)
find_reached r c id = find-visible _ c id (Reach-Inv r)

any_held :
    (d : Dict Text Record) (id : Text) (l : Dict Text Record)
    → has_key id l ≡ true
    → has_key id d ≡ true
    → any (λ e. has_key e.0 d) l ≡ true
unfolding lookup
any_held d id [] h k = cc
any_held d id (x ∷ l) h k = ground (arith, any_held d id l, text_eq.beq_iff x.0 id)

-- Under the invariant, take two transactions, open on different connections, that hold one ID,
-- where the first holds no ID of the database. If the first commits, it publishes its record;
-- then the commit of the second is refused as a duplicate and changes no record of the database.
pub first_commit_wins :
    (m : Memory) (c d t u : ℕ) (tx uy : Transaction) (id : Text)
    → Inv m
    → m.active c ≡ some t
    → m.transactions t ≡ some tx
    → m.active d ≡ some u
    → m.transactions u ≡ some uy
    → d ≢ c
    → has_key id tx.records ≡ true
    → has_key id uy.records ≡ true
    → collides m tx ≡ false
    → let after = (commit m t).1 in
      ((commit m t).0 ≡ ok tt)
      × ((commit after u).0 ≡ err (sentinel Sentinel.memory_duplicate))
      × ((commit after u).1.records ≡ after.records)
      × (lookup id after.records ≡ lookup id tx.records)
first_commit_wins m c d t u tx uy id v a e b f ne ht hu free =
    let (done, idle, published) = commit-visible m c t tx id v a e free in
    let after = (commit m t).1 in
    let shown : lookup id after.records ≡ lookup id tx.records = published ∙ ground arith in
    let b' : after.active d ≡ some u = rw (commit-publishes m c t tx v a e free) (ground arith) in
    let f' : after.transactions u ≡ some uy =
      rw (commit-publishes m c t tx v a e free)
        (ground (arith, owner-eq m c t tx v a e, owner-eq m d u uy v b f)) in
    let clash = any_held after.records id uy.records hu (rw shown ht) in
    let v' = commit-Inv m t v in
    let refused = commit-collides after d u uy v' b' f' clash in
    (done, ap (λ r. r.0) refused, ap (λ r. r.1.records) refused, shown)
