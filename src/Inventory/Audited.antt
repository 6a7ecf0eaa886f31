-- ===== src/Inventory/Audited.antt =====
-- What Audit accepts, that construction yields it and that reservations keep it.
use commerce.Prelude.{
  some, ℕ, ℤ, pos, ◌≤ℤ◌, IsInt, ◌≡◌, refl, inl, inr, ◌↔◌, false, [], ◌∷◌, Text, is_empty,
  trim_space, trim_space_idem, Dict, lookup, insert, arith, text_eq, All,
}
use commerce.Go.{Context, live, ok, Result-cases}
use commerce.Inventory.{Service, Settings, new_service, reserve, audit, audit_entries}
use commerce.Inventory.Stock.{IsStock, reserve-Took, reserve_err}

-- An entry that Audit lets pass: a SKU that is not blank, and stock that is not negative.
abbrev pub IsEntry : Text × ℤ → Type 0
IsEntry (sku, n) = (is_empty (trim_space sku) ≡ false) × (pos 0 ≤ℤ n)

audit_entries-ok : (d : Dict Text ℤ) → All IsEntry d → audit_entries d ≡ ok tt
unfolding audit_entries
audit_entries-ok [] a = refl
audit_entries-ok (x ∷ d) a = ground (arith, audit_entries-ok d a.1)

All-audit_entries : (d : Dict Text ℤ) → audit_entries d ≡ ok tt → All IsEntry d
unfolding audit_entries
All-audit_entries [] h = tt
All-audit_entries (x ∷ d) h = ground (arith, All-audit_entries d)

-- Audit passes exactly if its context is live and every entry is valid.
pub audit-ok_iff :
    (s : Service) (ctx : Context) → (audit s ctx ≡ ok tt) ↔ ((ctx 0 ≡ live) × All IsEntry s.stock)
unfolding audit
audit-ok_iff s ctx =
    (λ h. ground (arith, All-audit_entries s.stock), λ h. ground (arith, audit_entries-ok s.stock))

new_service_cases :
    (settings : Settings) (s : Service)
    → new_service settings ≡ ok s
    → (s ≡ record { stock = (trim_space settings.sku, settings.initial_stock) ∷ [] })
      × (is_empty (trim_space settings.sku) ≡ false)
      × (pos 0 ≤ℤ settings.initial_stock)
unfolding new_service
new_service_cases settings s h = ground arith

single-IsStock : (sku : Text) (n : ℤ) → pos 0 ≤ℤ n → IsInt n → IsStock ((sku, n) ∷ [])
unfolding lookup
single-IsStock sku n p i j m e = ground arith

-- A service that was constructed from an `int` has one entry, under the trimmed SKU; its stock is
-- well formed, and Audit accepts it.
pub new_service-IsStock :
    (settings : Settings) (s : Service)
    → IsInt settings.initial_stock
    → new_service settings ≡ ok s
    → (s ≡ record { stock = (trim_space settings.sku, settings.initial_stock) ∷ [] })
      × IsStock s.stock
      × All IsEntry s.stock
new_service-IsStock settings s i h =
    let (e, named, p) = new_service_cases settings s h in
    (
      e,
      rw e (single-IsStock (trim_space settings.sku) settings.initial_stock p i),
      rw e ((rw trim_space_idem named, p), tt),
    )

insert-All :
    (sku : Text) (m : ℕ) (n : ℤ) (d : Dict Text ℤ)
    → lookup sku d ≡ some n
    → All IsEntry d
    → All IsEntry (insert sku (pos m) d)
unfolding lookup insert
insert-All sku m n [] e a = cc
insert-All sku m n (x ∷ d) e a = ground (arith, insert-All sku m n d)

-- A well-formed stock that Audit accepts is accepted after every reservation, successful or not.
pub audit-reserve :
    (s : Service) (ctx look : Context) (sku : Text) (quantity : ℤ)
    → IsStock s.stock
    → audit s look ≡ ok tt
    → audit (reserve s ctx sku quantity).1 look ≡ ok tt
audit-reserve s ctx look sku quantity h a =
    let (now, entries) = (audit-ok_iff s look).0 a in
    elim (Result-cases (reserve s ctx sku quantity).0) [
      | inl (_, o) ↦
          let t = reserve-Took s ctx sku quantity h o in
          rw t.changed
            ((audit-ok_iff _ look).1 (now, insert-All sku t.left _ s.stock t.found entries))
      | inr (e, f) ↦ rw (reserve_err s ctx sku quantity e f) a
    ]
