-- ===== src/Storage/Memory/Ends.antt =====
-- The beginning and the two ends of a transaction.
use commerce.Prelude.{
  ℕ, suc, ◌≡◌, refl, inl, inr, Bool, true, false, any, ap, ◌∙◌, [], none, some, Text, nat_beq, Dict,
  lookup, copy, has_key, lookup-copy, text_eq, arith, Option-cases, Bool-cases, ◌||◌,
}
use commerce.Go.{Sentinel, sentinel, Context, ok, err, ctx_cause}
use commerce.Storage.{Record}
use commerce.Storage.Memory.{
  Memory, Transaction, begin_tx, commit, rollback, update, is_open, finish,
}
use commerce.Storage.Memory.Transactions.{Inv, visible, ended, ended-Inv, owner-eq}

-- A transaction that begins has no records of its own: its connection sees the database.
pub begin_tx-visible :
    (m : Memory) (c : ℕ) (ctx : Context) (t : ℕ)
    → (begin_tx m c ctx).0 ≡ ok t
    → (m.active c ≡ none)
      × ((begin_tx m c ctx).1.active c ≡ some t)
      × ((id : Text) → visible (begin_tx m c ctx).1 c id ≡ lookup id m.records)
unfolding begin_tx lookup
begin_tx-visible m c ctx t h = (ground arith, ground arith, λ id. ground arith)

begun-Inv :
    (m : Memory) (c : ℕ)
    → Inv m
    → m.active c ≡ none
    → Inv (record m {
      active = update m.active c (some m.next);
      transactions =
          update m.transactions m.next
            (some (record { connection = c; records = []; create_schema = false; done = false }));
      next = suc m.next;
    })
begun-Inv m c v idle = record {
  ready = v.ready;
  opened = λ d u b. elim (Bool-cases (nat_beq d c)) [
    | inl same ↦ (
      record { connection = c; records = []; create_schema = false; done = false },
      ground arith,
      ground arith,
      refl,
      tt,
    )
    | inr other ↦
        let (x, ex, ox, lx, dx) = v.opened d u (ground arith) in
        (x, ground (arith, v.numbered u x ex), ox, lx, dx)
  ];
  numbered = λ u x h. ground (arith, v.numbered u x);
}

pub begin_tx-Inv : (m : Memory) (c : ℕ) (ctx : Context) → Inv m → Inv (begin_tx m c ctx).1
unfolding begin_tx
begin_tx-Inv m c ctx v = elim (Option-cases (ctx_cause (ctx 0))) [
  | inl running ↦ elim (Option-cases (m.active c)) [
    | inl idle ↦ rw (running, begin_tx, idle) (begun-Inv m c v idle)
    | inr (t, busy) ↦ rw (running, begin_tx, busy) v
  ]
  | inr (e, over) ↦ rw (over, begin_tx) v
]

-- Whether a transaction holds an ID that the database has come to hold too.
abbrev pub collides : Memory → Transaction → Bool
collides m tx = any (λ e. has_key e.0 m.records) tx.records

module _ (m : Memory) (c t : ℕ) (tx : Transaction) (v : Inv m) (a : m.active c ≡ some t)
    (e : m.transactions t ≡ some tx) where
  open_here : is_open m t tx ≡ true
  open_here = let (ec, ed, _) = owner-eq m c t tx v a e in ground arith

  finish-eq :
      (records : Dict Text Record) (schema : Bool)
      → finish (record m { records = records; schema = schema }) t tx
        ≡ ended m c t tx records schema
  finish-eq records schema =
      ap
        (λ (k : ℕ). record m {
          records = records;
          schema = schema;
          active = update m.active k none;
          transactions = update m.transactions t (some (record tx { done = true }));
        })
        (owner-eq m c t tx v a e).0

  pub commit-collides :
      collides m tx ≡ true
      → commit m t ≡ (err (sentinel Sentinel.memory_duplicate), ended m c t tx m.records m.schema)
  unfolding commit
  commit-collides h = rw (e, commit, open_here, h, finish-eq m.records m.schema)

  pub commit-publishes :
      collides m tx ≡ false
      → commit m t
        ≡ (ok tt, ended m c t tx (copy m.records tx.records) (tx.create_schema || m.schema))
  unfolding commit
  commit-publishes h = rw (
    e,
    commit,
    open_here,
    h,
    finish-eq (copy m.records tx.records) (tx.create_schema || m.schema),
  )

  pub rollback-eq : rollback m t ≡ (ok tt, ended m c t tx m.records m.schema)
  unfolding rollback
  rollback-eq = rw (e, rollback, open_here, finish-eq m.records m.schema)

-- Under the invariant, the commit of an open transaction that holds no ID of the database
-- succeeds and publishes exactly what its connection saw; the connection then has no transaction.
pub commit-visible :
    (m : Memory) (c t : ℕ) (tx : Transaction) (id : Text)
    → Inv m
    → m.active c ≡ some t
    → m.transactions t ≡ some tx
    → collides m tx ≡ false
    → ((commit m t).0 ≡ ok tt)
      × ((commit m t).1.active c ≡ none)
      × (lookup id (commit m t).1.records ≡ visible m c id)
commit-visible m c t tx id v a e h =
    let (_, _, dict) = owner-eq m c t tx v a e in
    rw (commit-publishes m c t tx v a e h)
      (refl, ground arith, lookup-copy id m.records tx.records dict ∙ ground arith)

-- Under the invariant, the commit of an open transaction that holds an ID of the database is
-- refused as a duplicate and the database stays as it was; the transaction is over all the same,
-- so that a rollback after it is refused.
pub commit_refused :
    (m : Memory) (c t : ℕ) (tx : Transaction)
    → Inv m
    → m.active c ≡ some t
    → m.transactions t ≡ some tx
    → collides m tx ≡ true
    → ((commit m t).0 ≡ err (sentinel Sentinel.memory_duplicate))
      × ((commit m t).1.records ≡ m.records)
      × ((commit m t).1.active c ≡ none)
      × (rollback (commit m t).1 t ≡ (err (sentinel Sentinel.tx_done), (commit m t).1))
unfolding rollback
commit_refused m c t tx v a e h =
    rw (commit-collides m c t tx v a e h) (refl, refl, ground arith, ground arith)

-- Under the invariant, the rollback of an open transaction succeeds and drops its records: the
-- database stays as it was, and its connection sees the database again.
pub rollback-visible :
    (m : Memory) (c t : ℕ) (tx : Transaction) (id : Text)
    → Inv m
    → m.active c ≡ some t
    → m.transactions t ≡ some tx
    → ((rollback m t).0 ≡ ok tt)
      × ((rollback m t).1.records ≡ m.records)
      × (visible (rollback m t).1 c id ≡ lookup id m.records)
rollback-visible m c t tx id v a e = rw (rollback-eq m c t tx v a e) (refl, refl, ground arith)

-- Whether an end of a transaction is accepted or not, it keeps the invariant.
closed_or_open :
    (m : Memory) (t : ℕ) (tx : Transaction)
    → is_open m t tx ≡ true
    → (tx.done ≡ false) × (m.active tx.connection ≡ some t)
closed_or_open m t tx h = ground arith

commit_missing : (m : Memory) (t : ℕ) → m.transactions t ≡ none → (commit m t).1 ≡ m
unfolding commit
commit_missing m t h = rw (h, commit)

commit_closed :
    (m : Memory) (t : ℕ) (tx : Transaction)
    → m.transactions t ≡ some tx
    → is_open m t tx ≡ false
    → (commit m t).1 ≡ m
unfolding commit
commit_closed m t tx e h = rw (e, commit, h)

rollback_missing : (m : Memory) (t : ℕ) → m.transactions t ≡ none → (rollback m t).1 ≡ m
unfolding rollback
rollback_missing m t h = rw (h, rollback)

rollback_closed :
    (m : Memory) (t : ℕ) (tx : Transaction)
    → m.transactions t ≡ some tx
    → is_open m t tx ≡ false
    → (rollback m t).1 ≡ m
unfolding rollback
rollback_closed m t tx e h = rw (e, rollback, h)

pub commit-Inv : (m : Memory) (t : ℕ) → Inv m → Inv (commit m t).1
commit-Inv m t v = elim (Option-cases (m.transactions t)) [
  | inl missing ↦ rw (commit_missing m t missing) v
  | inr (tx, e) ↦ elim (Bool-cases (is_open m t tx)) [
    | inl o ↦
        let (_, a) = closed_or_open m t tx o in
        elim (Bool-cases (collides m tx)) [
          | inl h ↦
              rw (commit-collides m tx.connection t tx v a e h)
                (ended-Inv m tx.connection t tx m.records m.schema v a e v.ready)
          | inr h ↦
              rw (commit-publishes m tx.connection t tx v a e h)
                (ended-Inv m tx.connection t tx _ _ v a e (ground (arith, v.ready)))
        ]
    | inr closed ↦ rw (commit_closed m t tx e closed) v
  ]
]

pub rollback-Inv : (m : Memory) (t : ℕ) → Inv m → Inv (rollback m t).1
rollback-Inv m t v = elim (Option-cases (m.transactions t)) [
  | inl missing ↦ rw (rollback_missing m t missing) v
  | inr (tx, e) ↦ elim (Bool-cases (is_open m t tx)) [
    | inl o ↦
        let (_, a) = closed_or_open m t tx o in
        rw (rollback-eq m tx.connection t tx v a e)
          (ended-Inv m tx.connection t tx m.records m.schema v a e v.ready)
    | inr closed ↦ rw (rollback_closed m t tx e closed) v
  ]
]
