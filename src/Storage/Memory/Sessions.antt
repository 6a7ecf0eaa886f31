-- ===== src/Storage/Memory/Sessions.antt =====
-- One transaction of the memory driver from its begin to its end (storage/memory_*.go).
use commerce.Prelude.{
  ℕ, ◌≡◌, ap, sym, ◌∙◌, inl, inr, Bool-cases, [], some, Text, lookup, text_eq, arith,
}
use mathlib.Core.Path.{subst}
use commerce.Go.{Error, Context, ok, err}
use commerce.Storage.{Record}
use commerce.Storage.Memory.{Memory, begin_tx, insert_record, commit, rollback}
use commerce.Storage.Memory.Transactions.{Inv, visible, current-eq}
use commerce.Storage.Memory.Ends.{
  begin_tx-visible, begin_tx-Inv, collides, commit-visible, commit_refused,
}

begin_tx-records :
    (m n : Memory) (c t : ℕ) (ctx : Context) → begin_tx m c ctx ≡ (ok t, n) → n.records ≡ m.records
unfolding begin_tx
begin_tx-records m n c t ctx h = ground (arith, h)

pub insert_record-active :
    (m : Memory) (c : ℕ) (r : Record) → (insert_record m c r).1.active ≡ m.active
unfolding insert_record
insert_record-active m c r = ground arith

pub inserted_records :
    (m : Memory) (c t : ℕ) (r : Record)
    → Inv m
    → m.active c ≡ some t
    → (insert_record m c r).1.records ≡ m.records
unfolding insert_record
inserted_records m c t r v a = let (tx, e, _, _, _) = v.opened c t a in ground (arith, a, e)

pub rollback-records : (m : Memory) (t : ℕ) → (rollback m t).1.records ≡ m.records
unfolding rollback
rollback-records m t = ground arith

-- A commit that succeeds publishes what its connection saw.
pub commit_published :
    (m n : Memory) (c t : ℕ) (id : Text)
    → Inv m
    → m.active c ≡ some t
    → commit m t ≡ (ok tt, n)
    → lookup id n.records ≡ visible m c id
commit_published m n c t id v a h =
    let (tx, _, e, _, _, _) = current-eq m c t v a in
    elim (Bool-cases (collides m tx)) [
      | inl taken ↦ cc (sym (commit_refused m c t tx v a e taken).0 ∙ ap (λ k. k.0) h)
      | inr free ↦
          ap (λ k. lookup id k.1.records) (sym h) ∙ (commit-visible m c t tx id v a e free).2
    ]

-- One that fails leaves the database as it was.
pub commit_lost :
    (m n : Memory) (c t : ℕ) (f : Error)
    → Inv m
    → m.active c ≡ some t
    → commit m t ≡ (err f, n)
    → n.records ≡ m.records
commit_lost m n c t f v a h =
    let (tx, _, e, _, _, _) = current-eq m c t v a in
    elim (Bool-cases (collides m tx)) [
      | inl taken ↦ ap (λ k. k.1.records) (sym h) ∙ (commit_refused m c t tx v a e taken).1
      | inr free ↦ cc (sym (commit-visible m c t tx [] v a e free).0 ∙ ap (λ k. k.0) h)
    ]

pub begun :
    (m n : Memory) (c t : ℕ) (ctx : Context)
    → Inv m
    → begin_tx m c ctx ≡ (ok t, n)
    → Inv n
      × (n.active c ≡ some t)
      × ((id : Text) → visible n c id ≡ lookup id m.records)
      × (n.records ≡ m.records)
begun m n c t ctx v h =
    let (_, active, seen) = begin_tx-visible m c ctx t (ap (λ k. k.0) h) in
    subst
      (λ k.
        Inv k
        × (k.active c ≡ some t)
        × ((id : Text) → visible k c id ≡ lookup id m.records)
        × (k.records ≡ m.records))
      (ap (λ k. k.1) h)
      (
        begin_tx-Inv m c ctx v,
        active,
        seen,
        ap (λ k. k.1.records) h ∙ begin_tx-records m n c t ctx h,
      )
