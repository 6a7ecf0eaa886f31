-- ===== src/Orders/Persistence.antt =====
-- Placements over the memory driver: orders/service.go through storage/order_repository.go onto
-- storage/memory_*.go. What lies between the repository and the driver, `database/sql`, is a parameter.
use commerce.Prelude.{
  ℕ, pos, IsInt, mul_int-IsInt, ◌≡◌, refl, ap, ◌∙◌, false, Option, some, lookup, text_eq, ==_refl,
}
use mathlib.Core.Path.{subst}
use commerce.Go.{Context, later, Result, ok}
use commerce.Payments.{Processor}
use commerce.Storage.{Executor}
use commerce.Storage.Memory.{Memory, Transaction, insert_record, commit}
use commerce.Storage.Memory.Transactions.{Inv}
use commerce.Storage.Memory.Ends.{collides, commit-visible}
use commerce.Storage.Memory.Sql.{HasInts}
use commerce.Storage.Repository.{Query, order_repository}
use commerce.Storage.Repository.Saves.{save_ok}
use commerce.Storage.Repository.Saves.Drivers.{HandsTo, Stored, insert_record-Stored, exec-inserted}
use commerce.Orders.{Service, Request, Order, record_of, place}
use commerce.Orders.Steps.{place-Placed}

module _ {P V : Type 0} (processor : Processor P) (q : Option (Query Memory)) where
  -- The record of an order that is placed is inserted on the connection.
  pub place-inserted :
      (x : Executor Memory) (c : ℕ) (w : Service (Option (Executor Memory)) P Memory V)
      (ctx : Context) (request : Request) (o : Order)
      → HandsTo x c
      → IsInt request.quantity
      → (place processor (order_repository q) w (some x) ctx request).0 ≡ ok o
      → insert_record w.store c (record_of o)
        ≡ (ok (pos 1), (place processor (order_repository q) w (some x) ctx request).1.store)
  place-inserted x c w ctx request o hands int h =
      let p = place-Placed processor (order_repository q) w (some x) ctx request o h in
      let (y, now, ex, _, _, _, ran) =
        save_ok (some x) w.store (some (later 1 (later 1 (later 1 ctx)))) (record_of o)
          (ap (λ k. k.0) p.kept) in
      let same : x ≡ y = cc ex in
      let ints : HasInts (record_of o) =
        rw p.ordered (int, mul_int-IsInt request.quantity w.settings.unit_price_cents) in
      let final = ap (λ (k : Service (Option (Executor Memory)) P Memory V). k.store) p.left in
      rw final (
        exec-inserted y c _ w.store p.store (record_of o) (subst (λ k. HandsTo k c) same hands) ints
          (ran ∙ ap (λ (k : Result (Unit {0}) × Memory). (ok (ok (pos 1)), k.1)) p.kept))

  -- Over the memory driver, an order that is placed through a connection has an ID that the connection
  -- did not see before; afterwards the connection sees the order's record under it and every other
  -- record as before, and the driver's invariant holds. The executor hands its statements to the
  -- driver on that connection, and the quantity is an `int`.
  pub place-Stored :
      (x : Executor Memory) (c : ℕ) (w : Service (Option (Executor Memory)) P Memory V)
      (ctx : Context) (request : Request) (o : Order)
      → HandsTo x c
      → Inv w.store
      → IsInt request.quantity
      → (place processor (order_repository q) w (some x) ctx request).0 ≡ ok o
      → Stored w.store c
          (record_of o)
          (place processor (order_repository q) w (some x) ctx request).1.store
  place-Stored x c w ctx request o hands v int h =
      insert_record-Stored w.store _ c (record_of o) v
        (place-inserted x c w ctx request o hands int h)

  -- If the connection has a transaction by then, which holds no ID of the database, its commit succeeds
  -- and the database has the record of the order.
  pub place-committed :
      (x : Executor Memory) (c : ℕ) (w : Service (Option (Executor Memory)) P Memory V)
      (ctx : Context) (request : Request) (o : Order) (t : ℕ) (tx : Transaction) (store : Memory)
      → HandsTo x c
      → Inv w.store
      → IsInt request.quantity
      → (place processor (order_repository q) w (some x) ctx request).0 ≡ ok o
      → (place processor (order_repository q) w (some x) ctx request).1.store ≡ store
      → store.active c ≡ some t
      → store.transactions t ≡ some tx
      → collides store tx ≡ false
      → ((commit store t).0 ≡ ok tt) × (lookup o.id (commit store t).1.records ≡ some (record_of o))
  place-committed x c w ctx request o t tx store hands v int h left a e free =
      let (_, seen, inv) =
        subst (Stored w.store c (record_of o)) left
          (place-Stored x c w ctx request o hands v int h) in
      let (done, _, published) = commit-visible store c t tx o.id inv a e free in
      (done, published ∙ seen o.id ∙ rw (==_refl o.id) refl)
