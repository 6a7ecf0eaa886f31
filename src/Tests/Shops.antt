-- ===== src/Tests/Shops.antt =====
-- Stock and payments on the shop of the placements: reservations, clients and approvals.
use commerce.Prelude.{
  ℕ, pos, ◌≡◌, refl, ◌↔◌, ◌≤ℤ◌, false, [], ◌∷◌, ◌++◌, Text, text, lookup, insert, is_empty,
  int_half, wrap, sub_int, arith, text_eq, ◌==◌, if◌then◌else◌, ◌<◌,
}
use commerce.Go.{Error, err, live, background, ok}
use commerce.Inventory
use commerce.Inventory.Stock.{release-reserve, reserve-ok_iff}
use commerce.Inventory.Clients as Clients
use commerce.Payments
use commerce.Payments.{Authorization, service_processor}
use commerce.Payments.Policy.{IsAcceptable, authorize_iff}
use commerce.Tests.Placements.{shop_inventory, shop_stock, charged}

release-reserve_example :
    Inventory.release
      (Inventory.reserve shop_inventory background (text "widget") (pos 4)).1
      (text "widget")
      (pos 4)
    ≡ (ok tt, shop_inventory)
unfolding Inventory.reserve lookup insert wrap sub_int
release-reserve_example =
    release-reserve shop_inventory background (text "widget") (pos 4) shop_stock refl

reserve-ok_iff_example :
    ((Inventory.reserve shop_inventory background (text "widget") (pos 4)).0 ≡ ok tt) ↔ (
      (background 0 ≡ live)
      × (is_empty (text "widget") ≡ false)
      × (pos 1 ≤ℤ pos 4)
      × (pos 4 ≤ℤ Inventory.available shop_inventory (text "widget")))
reserve-ok_iff_example = reserve-ok_iff shop_inventory background (text "widget") (pos 4)

-- One client reserves four widgets of the ten.
abbrev opened : Clients.Shop
opened = record { service = shop_inventory; held = []; sold = [] }

abbrev holding : Clients.Shop
holding = record {
  service = (Inventory.reserve shop_inventory background (text "widget") (pos 4)).1;
  held = (text "widget", 4) ∷ [];
  sold = [];
}

abbrev widgets : Text → ℕ
widgets sku = if text "widget" == sku then 10 else 0

widgets_bounded : (sku : Text) → widgets sku < int_half
widgets_bounded sku = ground arith

opened-Inv : Clients.Inv widgets opened
unfolding lookup
opened-Inv = record { stock = shop_stock; counted = λ sku. ground arith; taken = tt }

Reach-Inv_example : Clients.Inv widgets holding
unfolding Inventory.reserve lookup insert
Reach-Inv_example =
    Clients.Reach-Inv widgets widgets_bounded opened-Inv
      (Clients.next Clients.here (Clients.reserved background (text "widget") 4 refl))

abbrev approval : Payments.Authorization
approval = Payments.next_authorization charged (text "order-000002") (pos 700)

abbrev charged_twice : Payments.Service
charged_twice = record charged { approved = Payments.approved charged ++ approval ∷ [] }

authorize_iff_example :
    ((Payments.authorize charged background (text "order-000002") (pos 700)
        ≡ (ok approval, charged_twice))
      ↔ (IsAcceptable charged background (text "order-000002") (pos 700)
          × (approval ≡ Payments.next_authorization charged (text "order-000002") (pos 700))
          × (charged_twice
              ≡ record charged { approved = Payments.approved charged ++ approval ∷ [] })))
    × ((¬ IsAcceptable charged background (text "order-000002") (pos 700)) ↔ (
        (e : Error) × (Payments.authorize charged background (text "order-000002") (pos 700)
          ≡ (err e, charged))))
authorize_iff_example =
    authorize_iff charged background (text "order-000002") (pos 700) approval charged_twice
