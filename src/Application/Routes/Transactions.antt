-- ===== src/Application/Routes/Transactions.antt =====
-- The route of placements over the memory driver: the transaction around orders/controller.go, the place
-- of its work (orders/service.go) and its end (storage/memory_*.go).
use commerce.Prelude.{
  ℕ, ℤ, pos, IsInt, ◌==◌, if◌then◌else◌, ◌≡◌, refl, ap, sym, ◌∙◌, inl, inr, Option, none, some,
  Text, lookup, text_eq,
}
use commerce.Go.{Context, later, Result, ok}
use commerce.Inventory
use mathlib.Core.Path.{subst}
use commerce.Inventory.Stock.{IsStock, Took, reserve-Took}
use commerce.Payments.{Processor}
use commerce.Storage.{Executor}
use commerce.Storage.Memory.{Memory, begin_tx, insert_record}
use commerce.Storage.Memory.Transactions.{Inv, visible}
use commerce.Storage.Memory.Sessions.{
  begun, insert_record-active, inserted_records, commit_published, commit_lost, rollback-records,
}
use commerce.Storage.Repository.{Query, order_repository}
use commerce.Storage.Repository.Saves.Drivers.{HandsTo, insert_record-Stored}
use commerce.Orders.{Order, record_of, place_within}
use commerce.Orders.Steps.{place-Placed}
use commerce.Orders.Atomicity.{place_atomic}
use commerce.Orders.Persistence.{place-inserted}
use commerce.Orders.Controller as Controller
use commerce.Orders.Controller.{PlaceOrderRequest, OrderResponse, order_response}
use commerce.Orders.Controller.Answers.{place_ok, place_err}
use commerce.Application.Routes.Settlements.{
  Till, Uncommitted, Managed, refused, committed, lost, rolled_back, Settled, placing,
}

Uncommitted-records :
    (m n : Memory) (c t : ℕ)
    → Inv m
    → m.active c ≡ some t
    → Uncommitted m t n
    → n.records ≡ m.records
Uncommitted-records m n c t v a (inl (f, h)) = commit_lost m n c t f v a h
Uncommitted-records m n c t v a (inr (r, h)) = ap (λ k. k.1.records) (sym h) ∙ rollback-records m t

taken :
    {P V : Type 0} (w : Till P V) (left : Inventory.Service) (ctx : Context) (quantity : ℤ)
    → IsStock w.inventory.stock
    → Inventory.reserve w.inventory ctx w.settings.sku quantity ≡ (ok tt, left)
    → Took w.inventory w.settings.sku quantity left
taken w left ctx quantity stock h =
    subst (Took w.inventory w.settings.sku quantity) (ap (λ k. k.1) h)
      (reserve-Took w.inventory ctx w.settings.sku quantity stock (ap (λ k. k.0) h))

module _ {P V : Type 0} (processor : Processor P) (q : Option (Query Memory)) (c : ℕ)
    (request : PlaceOrderRequest) (int : IsInt request.body.quantity) where
  abbrev work : Option (Executor Memory) → Context → Till P V → Result OrderResponse × Till P V
  work = placing processor q request

  -- A placement inside the transaction that succeeds.
  module _ (w left : Till P V) (x : Executor Memory) (inner start : Context) (t : ℕ) (m : Memory)
      (a : OrderResponse) (v : Inv w.store) (hands : HandsTo x c)
      (begins : begin_tx w.store c start ≡ (ok t, m))
      (ran : work (some x) inner (record w { store = m }) ≡ (ok a, left)) where
    placed_inside :
        (o : Order) × (a ≡ order_response o)
        × (insert_record m c (record_of o) ≡ (ok (pos 1), left.store))
        × (Inventory.reserve w.inventory (later 1 inner) w.settings.sku request.body.quantity
            ≡ (ok tt, left.inventory))
    unfolding place_within
    placed_inside =
        let (o, placed, shown) =
          place_ok processor (order_repository q) (record w { store = m }) (some x) inner request a
            left ran in
        let p =
          place-Placed processor (order_repository q) (record w { store = m }) (some x) inner
            (record { quantity = request.body.quantity }) o (ap (λ k. k.0) placed) in
        (
          o,
          shown,
          place-inserted processor q x c (record w { store = m }) inner
                (record { quantity = request.body.quantity }) o hands int (ap (λ k. k.0) placed)
              ∙ ap (λ k. (ok (pos 1), k.1.store)) placed,
          p.stocked
              ∙ ap (λ (k : Till P V). (ok tt, k.inventory)) (sym p.left ∙ ap (λ k. k.1) placed),
        )

    -- Its transaction is open, and its connection sees the order beside the database.
    left_inside :
        (o : Order) × (a ≡ order_response o)
        × Inv left.store
        × (left.store.active c ≡ some t)
        × (left.store.records ≡ w.store.records)
        × (lookup o.id w.store.records ≡ none)
        × ((id : Text)
            → visible left.store c id
              ≡ (if o.id == id then some (record_of o) else lookup id w.store.records))
    left_inside =
        let (o, shown, inserted, _) = placed_inside in
        let (inv, active, seen, same) = begun w.store m c t start v begins in
        let (fresh, known, kept) = insert_record-Stored m left.store c (record_of o) inv inserted in
        (
          o,
          shown,
          kept,
          ap (λ k. k.1.active c) (sym inserted)
              ∙ ap (λ (f : ℕ → Option ℕ). f c) (insert_record-active m c (record_of o))
              ∙ active,
          ap (λ k. k.1.records) (sym inserted)
              ∙ inserted_records m c t (record_of o) inv active
              ∙ same,
          sym (seen o.id) ∙ fresh,
          λ id. rw (sym (seen id)) (known id),
        )

  -- If the transaction ends with no commit after the placement in it succeeded, then the database is as
  -- it was before the transaction, but the units that the placement reserved stay out of the stock.
  pub commit_lost-Took :
      (w left : Till P V) (x : Executor Memory) (inner start : Context) (t : ℕ) (m n : Memory)
      (a : OrderResponse)
      → Inv w.store
      → IsStock w.inventory.stock
      → HandsTo x c
      → begin_tx w.store c start ≡ (ok t, m)
      → Controller.place processor
          (order_repository q)
          (record w { store = m })
          (some x)
          inner
          request
        ≡ (ok a, left)
      → Uncommitted left.store t n
      → (n.records ≡ w.store.records)
        × Took w.inventory w.settings.sku request.body.quantity left.inventory
  commit_lost-Took w left x inner start t m n a v stock hands begins ran ends =
      let (_, _, inv, active, same, _, _) =
        left_inside w left x inner start t m a v hands begins ran in
      let (_, _, _, stocked) = placed_inside w left x inner start t m a v hands begins ran in
      (
        Uncommitted-records left.store n c t inv active ends ∙ same,
        taken w left.inventory (later 1 inner) request.body.quantity stock stocked,
      )

  -- What Within leaves, however it ended.
  pub managed-Settled :
      (w : Till P V) (p : Result OrderResponse × Till P V)
      → Inv w.store
      → IsStock w.inventory.stock
      → Managed c work w p
      → Settled c work w request.body.quantity p
  unfolding place_within
  managed-Settled w p v stock (refused e) = (refl, inl refl)
  managed-Settled w p v stock (committed x inner start t m n a left hands begins ran ends) =
      let (o, shown, inv, active, _, fresh, seen) =
        left_inside w left x inner start t m a v hands begins ran in
      let (_, _, _, stocked) = placed_inside w left x inner start t m a v hands begins ran in
      (
        (o, shown, fresh, λ id. commit_published left.store n c t id inv active ends ∙ seen id),
        taken w left.inventory (later 1 inner) request.body.quantity stock stocked,
      )
  managed-Settled w p v stock (lost x inner start t m n a left e hands begins ran ends) =
      let (same, short) =
        commit_lost-Took w left x inner start t m n a v stock hands begins ran ends in
      (same, inr (x, inner, start, t, m, n, a, left, hands, begins, ran, ends, refl, short))
  managed-Settled w p v stock (rolled_back x inner start t m n left f e r hands begins ran ends) =
      let (_, _, _, same) = begun w.store m c t start v begins in
      let (g, placed) =
        place_err processor (order_repository q) (record w { store = m }) (some x) inner request f
          left ran in
      let (kept, stored) =
        (place_atomic processor q x c (record w { store = m }) inner
          (record { quantity = request.body.quantity }) g hands stock int (ap (λ k. k.0) placed)) in
      (
        ap (λ k. k.1.records) (sym ends)
            ∙ rollback-records left.store t
            ∙ ap (λ k. k.1.store.records) (sym placed)
            ∙ ap (λ (k : Memory). k.records) stored
            ∙ same,
        inl (ap (λ k. k.1.inventory) (sym placed) ∙ kept),
      )
