-- ===== src/Application/Routes/Settlements.antt =====
-- What the transaction around a placement leaves, by how it ended: what `Manager.Within` documents, and
-- what the answer to POST /orders tells (spice_http_route_orders_controller_place_595331ef4208_gen.go).
use commerce.Prelude.{
  ℕ, ℤ, ◌==◌, if◌then◌else◌, ◌≡◌, ◌⊎◌, Option, none, some, Text, lookup, text_eq,
}
use commerce.Go.{Error, Context, Result, ok, err}
use commerce.Inventory.Stock.{Took}
use commerce.Payments.{Processor}
use commerce.Storage.{Executor}
use commerce.Storage.Memory.{Memory, begin_tx, commit, rollback}
use commerce.Storage.Repository.{Query, order_repository}
use commerce.Storage.Repository.Saves.Drivers.{HandsTo}
use commerce.Orders.{Service, Order, record_of}
use commerce.Orders.Controller as Controller
use commerce.Orders.Controller.{PlaceOrderRequest, OrderResponse, order_response}

abbrev pub Till : Type 0 → Type 0 → Type 0
Till P V = Service (Option (Executor Memory)) P Memory V

-- The end of a transaction whose commit failed: the driver refused the commit, or `database/sql` rolled
-- the transaction back, since the context of the request had ended.
abbrev pub Uncommitted : Memory → ℕ → Memory → Type 0
Uncommitted m t n =
    ((f : Error) × (commit m t ≡ (err f, n))) ⊎ ((r : Result (Unit {0})) × (rollback m t ≡ (r, n)))

-- What `Manager.Within` documents, over a pool that gives out connection `c`: it refuses to begin and
-- changes nothing, or it begins a transaction and runs the work on it. It commits if the work
-- succeeds, and rolls back if it fails; an error of any of these is its error.
pub data Managed {P V : Type 0} (c : ℕ)
    (work : Option (Executor Memory) → Context → Till P V → Result OrderResponse × Till P V)
    (w : Till P V) : Result OrderResponse × Till P V → Type 0 where
  refused : (e : Error) → Managed c work w (err e, w)
  committed :
      (x : Executor Memory) (inner start : Context) (t : ℕ) (m n : Memory) (a : OrderResponse)
      (left : Till P V)
      → HandsTo x c
      → begin_tx w.store c start ≡ (ok t, m)
      → work (some x) inner (record w { store = m }) ≡ (ok a, left)
      → commit left.store t ≡ (ok tt, n)
      → Managed c work w (ok a, record left { store = n })
  lost :
      (x : Executor Memory) (inner start : Context) (t : ℕ) (m n : Memory) (a : OrderResponse)
      (left : Till P V) (e : Error)
      → HandsTo x c
      → begin_tx w.store c start ≡ (ok t, m)
      → work (some x) inner (record w { store = m }) ≡ (ok a, left)
      → Uncommitted left.store t n
      → Managed c work w (err e, record left { store = n })
  rolled_back :
      (x : Executor Memory) (inner start : Context) (t : ℕ) (m n : Memory) (left : Till P V)
      (f e : Error) (r : Result (Unit {0}))
      → HandsTo x c
      → begin_tx w.store c start ≡ (ok t, m)
      → work (some x) inner (record w { store = m }) ≡ (err f, left)
      → rollback left.store t ≡ (r, n)
      → Managed c work w (err e, record left { store = n })

-- A sale: the database has the order of the response, whose ID it did not have, and is else as before.
abbrev pub Sold : {P V : Type 0} → Till P V → OrderResponse → Till P V → Type 0
Sold w a w' =
    (o : Order) × (a ≡ order_response o)
    × (lookup o.id w.store.records ≡ none)
    × ((id : Text)
        → lookup id w'.store.records
          ≡ (if o.id == id then some (record_of o) else lookup id w.store.records))

-- The one way in which a request that is answered with a problem takes stock: its transaction began on
-- connection `c`, the placement in it succeeded, and the commit of this transaction failed, or it was
-- rolled back in its place. What is left is what the placement left, over the store of that end.
abbrev pub LostCommit :
    {P V : Type 0}
    → ℕ
    → (Option (Executor Memory) → Context → Till P V → Result OrderResponse × Till P V)
    → Till P V
    → ℤ
    → Till P V
    → Type 0
LostCommit {P} {V} c work w quantity w' =
    (x : Executor Memory) × (inner : Context) × (start : Context) × (t : ℕ) × (m : Memory)
    × (n : Memory) × (a : OrderResponse) × (left : Till P V) × HandsTo x c
    × (begin_tx w.store c start ≡ (ok t, m))
    × (work (some x) inner (record w { store = m }) ≡ (ok a, left))
    × Uncommitted left.store t n
    × (w' ≡ record left { store = n })
    × Took w.inventory w.settings.sku quantity w'.inventory

abbrev pub Unsold :
    {P V : Type 0}
    → ℕ
    → (Option (Executor Memory) → Context → Till P V → Result OrderResponse × Till P V)
    → Till P V
    → ℤ
    → Till P V
    → Type 0
Unsold c work w quantity w' =
    (w'.store.records ≡ w.store.records)
    × ((w'.inventory ≡ w.inventory) ⊎ LostCommit c work w quantity w')

abbrev pub Settled :
    {P V : Type 0}
    → ℕ
    → (Option (Executor Memory) → Context → Till P V → Result OrderResponse × Till P V)
    → Till P V
    → ℤ
    → Result OrderResponse × Till P V
    → Type 0
Settled c work w quantity (ok a, w') =
    Sold w a w' × Took w.inventory w.settings.sku quantity w'.inventory
Settled c work w quantity (err e, w') = Unsold c work w quantity w'

-- The work of the route's transaction.
abbrev pub placing :
    {P V : Type 0}
    → Processor P
    → Option (Query Memory)
    → PlaceOrderRequest
    → Option (Executor Memory)
    → Context
    → Till P V
    → Result OrderResponse × Till P V
placing processor q request x inner w =
    Controller.place processor (order_repository q) w x inner request
