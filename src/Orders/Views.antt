-- ===== src/Orders/Views.antt =====
-- orders/view_audit.go: the listener that counts the views of each order.
use commerce.Prelude.{
  ℕ, ◌+◌, ◌%◌, ◌≡◌, refl, ap, ◌∙◌, Bool, true, false, [], Option, none, some, Text, is_empty,
  trim_space, if◌then◌else◌, ◌==◌, text_eq, Dict, lookup, insert, lookup-insert, int_mod,
}
use commerce.Go.{Error, errors_new, Context, ctx_cause}
use commerce.Orders.{OrderViewed, Publisher}

pub record ViewAudit : Type 0 where
  pub views : Dict Text ℕ

abbrev pub new_view_audit : ViewAudit
new_view_audit = record { views = [] }

-- A `uint64` of the map, 0 when the key is missing.
abbrev pub count_or : Option ℕ → ℕ
count_or none = 0
count_or (some n) = n

abbrev pub count_of : Text → ViewAudit → ℕ
count_of id audit = count_or (lookup id audit.views)

record_checks : Option Error → Text → Option Error
record_checks (some cause) id = some cause
record_checks none id =
    if is_empty id then some (errors_new "record order view: order ID is required") else none

-- `views[id]++`, on 64 bits.
unfoldable pub counted : ViewAudit → Text → Option Error → Option Error × ViewAudit
counted audit id (some e) = (some e, audit)
counted audit id none =
    (none, record { views = insert id ((count_of id audit + 1) % int_mod) audit.views })

unfoldable pub record_view : ViewAudit → Context → OrderViewed → Option Error × ViewAudit
unfolding record_checks
record_view audit ctx viewed =
    let id = trim_space viewed.id in counted audit id (record_checks (ctx_cause (ctx 0)) id)

unfoldable pub views : ViewAudit → Text → ℕ
views audit id = count_of (trim_space id) audit

-- The publisher of the service, with the audit as its one listener.
abbrev pub audit_publisher : Publisher ViewAudit
audit_publisher = record { publish = record_view }

count_or-if :
    (b : Bool) (n : ℕ) (o : Option ℕ)
    → count_or (if b then some n else o) ≡ (if b then n else count_or o)
count_or-if true n o = refl
count_or-if false n o = refl

counted_lem :
    (audit : ViewAudit) (at key : Text) (e : Option Error)
    → (counted audit at e).0 ≡ none
    → count_of key (counted audit at e).1
      ≡ (if at == key then (count_of at audit + 1) % int_mod else count_of key audit)
unfolding counted
counted_lem audit at key (some e) h = cc
counted_lem audit at key none h =
    ap count_or (lookup-insert at key ((count_of at audit + 1) % int_mod) audit.views)
    ∙ count_or-if (at == key) _ (lookup key audit.views)

-- An event that is accepted adds one, modulo 2 ^ 64, to the count of its order, and leaves the count
-- of every other order; orders are told apart without the white space around their IDs.
pub record_view_lem :
    (audit : ViewAudit) (ctx : Context) (viewed : OrderViewed) (id : Text)
    → (record_view audit ctx viewed).0 ≡ none
    → views (record_view audit ctx viewed).1 id ≡ (
        if trim_space viewed.id == trim_space id
        then (views audit viewed.id + 1) % int_mod
        else views audit id)
unfolding record_view views
record_view_lem audit ctx viewed id h = counted_lem audit (trim_space viewed.id) (trim_space id) _ h

counted_err :
    (audit : ViewAudit) (at : Text) (o : Option Error) (e : Error)
    → (counted audit at o).0 ≡ some e
    → (counted audit at o).1 ≡ audit
unfolding counted
counted_err audit at (some f) e h = refl
counted_err audit at none e h = cc

-- An event that is refused, because the context ended or the ID is blank, counts nothing.
pub record_view_err :
    (audit : ViewAudit) (ctx : Context) (viewed : OrderViewed) (e : Error)
    → (record_view audit ctx viewed).0 ≡ some e
    → (record_view audit ctx viewed).1 ≡ audit
unfolding record_view
record_view_err audit ctx viewed e h = counted_err audit (trim_space viewed.id) _ e h
