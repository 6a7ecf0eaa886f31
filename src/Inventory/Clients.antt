-- ===== src/Inventory/Clients.antt =====
-- Any number of clients of one service, as an interleaving of its critical sections. A client holds
-- what it reserved until it gives it back or settles it; nobody else gives it back.
use commerce.Prelude.{
  ℕ, ◌+◌, ◌<◌, ℤ, pos, pos_part, int_half, ◌≡◌, ◌≢◌, false, inl, inr, List, [], ◌∷◌, ◌++◌, none,
  some, Text, is_empty, Dict, lookup, insert, lookup-insert, lookup-insert_self, Option-cases,
  arith, if◌then◌else◌, text_eq, All, ◌==◌,
}
use commerce.Go.{Context, Error, ok, err}
use commerce.Inventory.{Service, reserve, release, stock_of}
use commerce.Inventory.Stock.{IsStock, reserve-Took, reserve_err, release_entry, insert-IsStock}

pub record Shop : Type 0 where
  pub service : Service
  pub held : List (Text × ℕ)
  pub sold : List (Text × ℕ)

pub data Step (w : Shop) : Shop → Type 0 where
  reserved :
      (ctx : Context) (sku : Text) (k : ℕ)
      → (reserve w.service ctx sku (pos k)).0 ≡ ok tt
      → Step w
          (record w { service = (reserve w.service ctx sku (pos k)).1; held = (sku, k) ∷ w.held })
  refused :
      (ctx : Context) (sku : Text) (quantity : ℤ) (e : Error)
      → (reserve w.service ctx sku quantity).0 ≡ err e
      → Step w (record w { service = (reserve w.service ctx sku quantity).1 })
  released :
      (sku : Text) (k : ℕ) (before rest : List (Text × ℕ))
      → w.held ≡ before ++ (sku, k) ∷ rest
      → Step w (record w { service = (release w.service sku (pos k)).1; held = before ++ rest })
  settled :
      (sku : Text) (k : ℕ) (before rest : List (Text × ℕ))
      → w.held ≡ before ++ (sku, k) ∷ rest
      → Step w (record w { held = before ++ rest; sold = (sku, k) ∷ w.sold })

pub data Reach (v : Shop) : Shop → Type 0 where
  here : Reach v v
  next : {w x : Shop} → Reach v w → Step w x → Reach v x

-- The units of one SKU in a list of reservations, and on the shelf.
abbrev pub units : Text → List (Text × ℕ) → ℕ
units sku [] = 0
units sku ((j, k) ∷ l) = (if j == sku then k else 0) + units sku l

abbrev pub on_hand : Service → Text → ℕ
on_hand s sku = pos_part (stock_of s sku)

-- What is held was taken from an entry, in a positive quantity.
abbrev IsHeld : Dict Text ℤ → Text × ℕ → Type 0
IsHeld d (sku, k) = (0 < k) × (is_empty sku ≡ false) × (lookup sku d ≢ none)

-- For every SKU, what is on the shelf, held and sold makes up the total that there ever was.
pub record Inv (total : Text → ℕ) (w : Shop) : Type 0 where
  pub stock : IsStock w.service.stock
  pub counted :
      (sku : Text) → on_hand w.service sku + units sku w.held + units sku w.sold ≡ total sku
  pub taken : All (IsHeld w.service.stock) w.held

units-append : (sku : Text) (l m : List (Text × ℕ)) → units sku (l ++ m) ≡ units sku l + units sku m
units-append sku [] m = omega arith
units-append sku (x ∷ l) m = omega (arith, units-append sku l m)

module _ (P : Text × ℕ → Type 0) where
  All-remove :
      (before rest : List (Text × ℕ)) (x : Text × ℕ)
      → All P (before ++ x ∷ rest)
      → All P (before ++ rest)
  All-remove [] rest x a = a.1
  All-remove (y ∷ before) rest x a = (a.0, All-remove before rest x a.1)

  All-at : (before rest : List (Text × ℕ)) (x : Text × ℕ) → All P (before ++ x ∷ rest) → P x
  All-at [] rest x a = a.0
  All-at (y ∷ before) rest x a = All-at before rest x a.1

-- Entries never vanish, so what was taken from one can go back.
IsHeld-insert :
    (sku : Text) (n : ℤ) (d : Dict Text ℤ) (l : List (Text × ℕ))
    → All (IsHeld d) l
    → All (IsHeld (insert sku n d)) l
IsHeld-insert sku n d [] a = tt
IsHeld-insert sku n d (x ∷ l) a = ground (arith, lookup-insert sku x.0 n d, IsHeld-insert sku n d l)

on_hand-insert :
    (s : Service) (sku j : Text) (m : ℕ)
    → on_hand (record { stock = insert sku (pos m) s.stock }) j
      ≡ (if sku == j then m else on_hand s j)
on_hand-insert s sku j m = ground (arith, lookup-insert sku j (pos m) s.stock)

-- A held reservation in the middle of the list counts once.
units-middle :
    (j sku : Text) (k : ℕ) (before rest : List (Text × ℕ))
    → units j (before ++ (sku, k) ∷ rest) ≡ (if sku == j then k else 0) + units j (before ++ rest)
units-middle j sku k before rest =
    omega (arith, units-append j before ((sku, k) ∷ rest), units-append j before rest)

-- The entry that a held reservation was taken from.
held_entry :
    (s : Service) (sku : Text) (k : ℕ)
    → IsStock s.stock
    → IsHeld s.stock (sku, k)
    → (m : ℕ) × (lookup sku s.stock ≡ some (pos m)) × (on_hand s sku ≡ m)
held_entry s sku k h (_, _, known) = elim (Option-cases (lookup sku s.stock)) [
  | inl missing ↦ absurd (known missing)
  | inr (n, found) ↦ (pos_part n, ground (arith, h sku n found), ground (arith, found))
]

module _ (total : Text → ℕ) (bounded : (sku : Text) → total sku < int_half) where
  reserved-Inv :
      (w : Shop) (ctx : Context) (sku : Text) (k : ℕ)
      → Inv total w
      → (reserve w.service ctx sku (pos k)).0 ≡ ok tt
      → Inv total
          (record w { service = (reserve w.service ctx sku (pos k)).1; held = (sku, k) ∷ w.held })
  reserved-Inv w ctx sku k v o =
      let t = reserve-Took w.service ctx sku (pos k) v.stock o in
      rw t.changed (record {
        stock = insert-IsStock sku t.left w.service.stock (omega (arith, t.bounded)) v.stock;
        counted = λ j. ground (
          arith,
          v.counted j,
          on_hand-insert w.service sku j t.left,
          text_eq.beq_iff sku j,
          t.found,
          t.asked,
        );
        taken = (
          (
            (ground arith),
            t.named,
            ground (arith, lookup-insert_self sku (pos t.left) w.service.stock),
          ),
          IsHeld-insert sku (pos t.left) w.service.stock w.held v.taken,
        );
      })

  released-Inv :
      (w : Shop) (sku : Text) (k : ℕ) (before rest : List (Text × ℕ))
      → Inv total w
      → w.held ≡ before ++ (sku, k) ∷ rest
      → Inv total (record w { service = (release w.service sku (pos k)).1; held = before ++ rest })
  released-Inv w sku k before rest v e =
      let taken = rw e at v.taken in
      let (p, named, known) = All-at (IsHeld w.service.stock) before rest (sku, k) taken in
      let (m, found, count) = held_entry w.service sku k v.stock (p, named, known) in
      let middle = units-middle sku sku k before rest in
      let room : m + k < int_half =
        ground (arith, e, v.counted sku, bounded sku, middle, text_eq.beq_iff sku sku, count) in
      let step = release_entry w.service sku m k named found p room in
      rw step (record {
        stock = insert-IsStock sku (m + k) w.service.stock room v.stock;
        counted = λ j. ground (
          arith,
          v.counted j,
          on_hand-insert w.service sku j (m + k),
          units-middle j sku k before rest,
          text_eq.beq_iff sku j,
          e,
          found,
        );
        taken =
            IsHeld-insert sku (pos (m + k)) w.service.stock (before ++ rest)
              (All-remove (IsHeld w.service.stock) before rest (sku, k) taken);
      })

  -- Every step keeps the account, whoever takes it.
  Step-Inv : {w x : Shop} → Step w x → Inv total w → Inv total x
  Step-Inv {w} (reserved ctx sku k o) v = reserved-Inv w ctx sku k v o
  Step-Inv {w} (refused ctx sku q e f) v = rw (reserve_err w.service ctx sku q e f) v
  Step-Inv {w} (released sku k before rest e) v = released-Inv w sku k before rest v e
  Step-Inv {w} (settled sku k before rest e) v = record {
    stock = v.stock;
    counted = λ j. ground (arith, v.counted j, units-middle j sku k before rest, e);
    taken = All-remove (IsHeld w.service.stock) before rest (sku, k) (rw e at v.taken);
  }

  -- From a shop whose account is right, every sequence of reservations, refusals, releases and
  -- settlements leads to one whose account is right: for each SKU, what is on the shelf, held and sold
  -- makes up the same total.
  pub Reach-Inv : {v w : Shop} → Inv total v → Reach v w → Inv total w
  Reach-Inv h here = h
  Reach-Inv h (next r st) = Step-Inv st (Reach-Inv h r)
