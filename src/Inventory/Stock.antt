-- ===== src/Inventory/Stock.antt =====
-- What Reserve and Release do to the stock, on every branch.
use commerce.Prelude.{
  ℕ, ◌+◌, ◌-◌, ◌<◌, ℤ, pos, negsuc, ◌≤ℤ◌, ltb_ℤ, leb_ℤ, add_int, sub_int, sub_int-pos, add_int-pos,
  IsInt, int_half, ◌≡◌, refl, ap, ◌∙◌, ◌≢◌, inl, inr, ◌↔◌, true, false, some, Text, is_empty, Dict,
  lookup, insert, lookup-insert, lookup-insert_self, insert-insert-lookup, Option-cases, arith,
  text_eq,
}
use commerce.Go.{
  Sentinel, sentinel, errorf, end, wrapped, int_arg, quoted, Error, Context, live, ok, err,
  Result-cases,
}
use commerce.Inventory.{Service, reserve, release, stock_of, available}

-- Every entry is an `int`, and no stock is negative.
abbrev pub IsStock : Dict Text ℤ → Type 0
IsStock d = (sku : Text) (n : ℤ) → lookup sku d ≡ some n → (pos 0 ≤ℤ n) × IsInt n

-- What a successful reservation found, and what it left.
pub reserve_lem :
    (s : Service) (ctx : Context) (sku : Text) (quantity : ℤ)
    → (reserve s ctx sku quantity).0 ≡ ok tt
    → (ctx 0 ≡ live)
      × (is_empty sku ≡ false)
      × (leb_ℤ quantity (pos 0) ≡ false)
      × (ltb_ℤ (stock_of s sku) quantity ≡ false)
      × ((reserve s ctx sku quantity).1
          ≡ record { stock = insert sku (sub_int (stock_of s sku) quantity) s.stock })
unfolding reserve
reserve_lem s ctx sku quantity h = ground arith

pub reserve_err :
    (s : Service) (ctx : Context) (sku : Text) (quantity : ℤ) (e : Error)
    → (reserve s ctx sku quantity).0 ≡ err e
    → (reserve s ctx sku quantity).1 ≡ s
unfolding reserve
reserve_err s ctx sku quantity e h = ground arith

-- Reserve succeeds exactly if its context is live, the SKU is named, the quantity is positive, and the
-- stock covers it.
pub reserve-ok_iff :
    (s : Service) (ctx : Context) (sku : Text) (quantity : ℤ)
    → ((reserve s ctx sku quantity).0 ≡ ok tt) ↔ (
        (ctx 0 ≡ live)
        × (is_empty sku ≡ false)
        × (pos 1 ≤ℤ quantity)
        × (quantity ≤ℤ available s sku))
unfolding reserve available
reserve-ok_iff s ctx sku quantity = (λ h. ground arith, λ h. ground arith)

-- Stock that covers a positive quantity is an entry, not the zero value of a missing key.
pub lookup_of_covers :
    (s : Service) (sku : Text) (quantity : ℤ)
    → leb_ℤ quantity (pos 0) ≡ false
    → ltb_ℤ (stock_of s sku) quantity ≡ false
    → (n : ℤ) × (lookup sku s.stock ≡ some n) × (stock_of s sku ≡ n)
lookup_of_covers s sku quantity p c = elim (Option-cases (lookup sku s.stock)) [
  | inl missing ↦ absurd (ground arith)
  | inr (n, found) ↦ (n, found, ground arith)
]

-- Taking a covered quantity off a stock leaves an `int` that is not negative, by as much smaller.
pub sub_int-covered :
    (n q : ℤ)
    → pos 0 ≤ℤ n
    → IsInt n
    → leb_ℤ q (pos 0) ≡ false
    → ltb_ℤ n q ≡ false
    → (m k : ℕ) × (n ≡ pos (m + k)) × (q ≡ pos k) × (sub_int n q ≡ pos m) × (add_int (pos m) q ≡ n)
sub_int-covered (pos a) (pos b) h i p c = (
  a - b,
  b,
  ground arith,
  refl,
  sub_int-pos a b (ground arith) i,
  (add_int-pos (a - b) b (ground arith) ∙ ground arith),
)
sub_int-covered (pos a) (negsuc b) h i p c = absurd (ground arith)
sub_int-covered (negsuc a) q h i p c = absurd (ground arith)

-- A successful reservation, in numbers: `m + k` units were there, `k` were asked for, `m` are left.
pub record Took (s : Service) (sku : Text) (quantity : ℤ) (after : Service) : Type 0 where
  pub left : ℕ
  pub units : ℕ
  pub found : lookup sku s.stock ≡ some (pos (left + units))
  pub asked : quantity ≡ pos units
  pub positive : 0 < units
  pub bounded : left + units < int_half
  pub named : is_empty sku ≡ false
  pub changed : after ≡ record { stock = insert sku (pos left) s.stock }

pub reserve-Took :
    (s : Service) (ctx : Context) (sku : Text) (quantity : ℤ)
    → IsStock s.stock
    → (reserve s ctx sku quantity).0 ≡ ok tt
    → Took s sku quantity (reserve s ctx sku quantity).1
reserve-Took s ctx sku quantity h r =
    let (_, named, positive, covered, changed) = reserve_lem s ctx sku quantity r in
    let (n, found, e) = lookup_of_covers s sku quantity positive covered in
    let (n_pos, n_int) = h sku n found in
    let (m, k, en, ek, es, _) = sub_int-covered n quantity n_pos n_int positive (ground arith) in
    record {
      left = m;
      units = k;
      found = ground arith;
      asked = ek;
      positive = ground arith;
      bounded = ground arith;
      named = named;
      changed = rw (changed, e, es) refl;
    }

-- A write of an `int` that is not negative keeps the stock well formed.
pub insert-IsStock :
    (sku : Text) (m : ℕ) (d : Dict Text ℤ)
    → m < int_half
    → IsStock d
    → IsStock (insert sku (pos m) d)
insert-IsStock sku m d b h j n e = ground (arith, lookup-insert sku j (pos m) d, h j n)

-- Whatever Reserve answers, the stock stays well formed: never negative, never out of range.
pub reserve-IsStock :
    (s : Service) (ctx : Context) (sku : Text) (quantity : ℤ)
    → IsStock s.stock
    → IsStock (reserve s ctx sku quantity).1.stock
reserve-IsStock s ctx sku quantity h = elim (Result-cases (reserve s ctx sku quantity).0) [
  | inl (_, o) ↦
      let t = reserve-Took s ctx sku quantity h o in
      rw t.changed (insert-IsStock sku t.left s.stock (omega (arith, t.bounded)) h)
  | inr (e, f) ↦ rw (reserve_err s ctx sku quantity e f) h
]

-- Release, on an entry that has room for the units.
pub release_entry :
    (s : Service) (sku : Text) (m k : ℕ)
    → is_empty sku ≡ false
    → lookup sku s.stock ≡ some (pos m)
    → 0 < k
    → m + k < int_half
    → release s sku (pos k) ≡ (ok tt, record { stock = insert sku (pos (m + k)) s.stock })
unfolding release
release_entry s sku m k named found p b = ground (arith, add_int-pos m k)

-- From a well-formed stock, releasing what a reservation took restores the service exactly.
pub release-reserve :
    (s : Service) (ctx : Context) (sku : Text) (quantity : ℤ)
    → IsStock s.stock
    → (reserve s ctx sku quantity).0 ≡ ok tt
    → release (reserve s ctx sku quantity).1 sku quantity ≡ (ok tt, s)
release-reserve s ctx sku quantity h r =
    let t = reserve-Took s ctx sku quantity h r in
    rw (t.changed, t.asked)
      (release_entry _ sku t.left t.units t.named (lookup-insert_self sku (pos t.left) s.stock)
          t.positive t.bounded
        ∙ ap (λ d. (ok tt, record { stock = d }))
            (insert-insert-lookup sku (pos (t.left + t.units)) (pos t.left) s.stock t.found))

-- Reserve touches no other SKU.
pub available-reserve_ne :
    (s : Service) (ctx : Context) (sku other : Text) (quantity : ℤ)
    → sku ≢ other
    → available (reserve s ctx sku quantity).1 other ≡ available s other
unfolding reserve available
available-reserve_ne s ctx sku other quantity ne = ground (
  arith,
  lookup-insert sku other (sub_int (stock_of s sku) quantity) s.stock,
  text_eq.beq_iff sku other,
)

-- What a refused reservation says when the stock does not cover it.
abbrev pub short_error : Service → Text → ℤ → Error
short_error s sku quantity = errorf "%w: requested %d units of %q, available %d" (
    wrapped (sentinel Sentinel.insufficient_stock)
      (int_arg quantity (quoted sku (int_arg (stock_of s sku) end))))

pub reserve_short :
    (s : Service) (ctx : Context) (sku : Text) (quantity : ℤ)
    → ctx 0 ≡ live
    → is_empty sku ≡ false
    → leb_ℤ quantity (pos 0) ≡ false
    → ltb_ℤ (stock_of s sku) quantity ≡ true
    → (reserve s ctx sku quantity).0 ≡ err (short_error s sku quantity)
unfolding reserve
reserve_short s ctx sku quantity now named positive short = ground arith
