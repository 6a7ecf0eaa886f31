-- ===== src/Storage/Memory/Inserts.antt =====
-- What an insert does to what the connections see.
use commerce.Prelude.{
  ℕ, pos, ◌≡◌, refl, ◌≢◌, inl, inr, true, false, none, some, Text, insert, is_some, insert-IsDict,
  lookup-insert, if◌then◌else◌, text_eq, ◌==◌, arith, Option-cases, Bool-cases,
}
use commerce.Go.{Sentinel, sentinel, ok, err}
use commerce.Storage.{Record}
use commerce.Storage.Memory.{Memory, Transaction, insert_record, write_tx}
use commerce.Storage.Memory.Transactions.{Inv, visible, current-eq, write_tx-Inv}

-- An ID that the connection already sees is refused, and nothing changes.
pub insert_record_duplicate :
    (m : Memory) (c : ℕ) (r : Record)
    → Inv m
    → is_some (visible m c r.id) ≡ true
    → insert_record m c r ≡ (err (sentinel Sentinel.memory_duplicate), m)
unfolding insert_record
insert_record_duplicate m c r v h = ground (arith, v.ready)

-- The outcome of an insert that is accepted, outside a transaction and inside one.
accepted_outside :
    (m : Memory) (c : ℕ) (r : Record)
    → Inv m
    → m.active c ≡ none
    → is_some (visible m c r.id) ≡ false
    → insert_record m c r ≡ (ok (pos 1), record m { records = insert r.id r m.records })
unfolding insert_record
accepted_outside m c r v a h = ground (arith, v.ready)

accepted_inside :
    (m : Memory) (c t : ℕ) (tx : Transaction) (r : Record)
    → m.active c ≡ some t
    → m.transactions t ≡ some tx
    → is_some (visible m c r.id) ≡ false
    → insert_record m c r
      ≡ (ok (pos 1), write_tx m t (record tx { records = insert r.id r tx.records }))
unfolding insert_record
accepted_inside m c t tx r a e h = ground arith

visible_after_outside :
    (m : Memory) (c : ℕ) (r : Record) (id : Text)
    → m.active c ≡ none
    → visible (record m { records = insert r.id r m.records }) c id
      ≡ (if r.id == id then some r else visible m c id)
visible_after_outside m c r id a = ground (arith, lookup-insert r.id id r m.records)

visible_after_inside :
    (m : Memory) (c t : ℕ) (tx : Transaction) (r : Record) (id : Text)
    → m.active c ≡ some t
    → m.transactions t ≡ some tx
    → visible (write_tx m t (record tx { records = insert r.id r tx.records })) c id
      ≡ (if r.id == id then some r else visible m c id)
visible_after_inside m c t tx r id a e = ground (arith, lookup-insert r.id id r tx.records)

-- Any other record is accepted; then the connection sees it under its ID, and all else as before.
pub insert_record_fresh :
    (m : Memory) (c : ℕ) (r : Record)
    → Inv m
    → is_some (visible m c r.id) ≡ false
    → ((insert_record m c r).0 ≡ ok (pos 1))
      × ((id : Text)
          → visible (insert_record m c r).1 c id ≡ (if r.id == id then some r else visible m c id))
insert_record_fresh m c r v h = elim (Option-cases (m.active c)) [
  | inl idle ↦
      rw (accepted_outside m c r v idle h) (refl, λ id. visible_after_outside m c r id idle)
  | inr (t, a) ↦
      let (tx, _, e, _, _, _) = current-eq m c t v a in
      rw (accepted_inside m c t tx r a e h) (refl, λ id. visible_after_inside m c t tx r id a e)
]

-- Another connection is not on the transaction that is rewritten.
visible_elsewhere :
    (m : Memory) (c d t : ℕ) (tx new : Transaction) (id : Text)
    → Inv m
    → m.active c ≡ some t
    → d ≢ c
    → visible (write_tx m t new) d id ≡ visible m d id
visible_elsewhere m c d t tx new id v a ne = elim (Option-cases (m.active d)) [
  | inl idle ↦ ground arith
  | inr (u, b) ↦
      let (_, ec, oc, _, _) = v.opened c t a in
      let (_, ed, od, _, _) = v.opened d u b in ground arith
]

-- Under the invariant, an insert on a connection with a transaction, accepted or not, leaves the
-- database alone, and every other connection sees what it saw.
pub insert_record_isolated :
    (m : Memory) (c d t : ℕ) (r : Record) (id : Text)
    → Inv m
    → m.active c ≡ some t
    → d ≢ c
    → ((insert_record m c r).1.records ≡ m.records)
      × (visible (insert_record m c r).1 d id ≡ visible m d id)
insert_record_isolated m c d t r id v a ne =
    let (tx, _, e, _, _, _) = current-eq m c t v a in
    elim (Bool-cases (is_some (visible m c r.id))) [
      | inl known ↦ rw (insert_record_duplicate m c r v known) (refl, refl)
      | inr fresh ↦
          rw (accepted_inside m c t tx r a e fresh) (refl, visible_elsewhere m c d t tx _ id v a ne)
    ]

pub insert_record-Inv : (m : Memory) (c : ℕ) (r : Record) → Inv m → Inv (insert_record m c r).1
insert_record-Inv m c r v = elim (Bool-cases (is_some (visible m c r.id))) [
  | inl known ↦ rw (insert_record_duplicate m c r v known) v
  | inr fresh ↦ elim (Option-cases (m.active c)) [
    | inl idle ↦
        rw (accepted_outside m c r v idle fresh)
          (record { ready = v.ready; opened = v.opened; numbered = v.numbered })
    | inr (t, a) ↦
        let (tx, _, e, _, _, dict) = current-eq m c t v a in
        rw (accepted_inside m c t tx r a e fresh)
          (write_tx-Inv m t tx _ v e refl refl (insert-IsDict r.id r tx.records dict))
  ]
]
