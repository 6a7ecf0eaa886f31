-- ===== src/Notifications.antt =====
-- notifications/: the composition of a receipt, and the transport that delivers it. `net/mail`, the
-- mail messages of the framework, its test sender and the SMTP starter are parameters.
pub mod Data
pub mod Receipts
use Prim.Native.String.{String}
use commerce.Prelude.{
  ℕ, ℤ, pos, ltb, leb, leb_ℤ, Bool, true, false, not, ◌&&◌, ◌||◌, List, [], ◌∷◌, ◌++◌, all, Option,
  none, some, is_some, Text, text, is_empty, byte_length, trim_space, contains_any, format_int, Eq,
  text_eq, ◌==◌, nat_beq, if◌then◌else◌,
}
use commerce.Go.{
  Error, Sentinel, sentinel, errors_new, errorf, end, wrapped, text_arg, Context, Moment, later,
  ctx_cause, Result, ok, err, ◌>>=◌, ◌>>◌, fail_if, fail_with, map_err,
}
pub use Data.*

address_error : String → Error
address_error label =
    errorf "construct commerce mail transport: %s address is invalid" (text_arg (text label) end)

module _ {T M S : Type 0} (mail : Mail T M S) where
  unfoldable pub validate_address : String → Text → Result (Unit {0})
  unfolding address_error
  validate_address label value = do
    fail_if (is_empty value || not (trim_space value == value) || contains_any value (text "\r\n"))
        (address_error label)
    parsed ← map_err (λ e. address_error label) (mail.parse_address value)
    fail_if (is_empty parsed) (address_error label)

  new_transport : Settings → Result (Delivery S)
  new_transport settings =
      if settings.transport == text "test"
      then map_err (λ e. errorf "construct commerce test mail transport: %w" (wrapped e end))
          (mail.new_test settings.test_capacity)
        >>= (λ sender. ok (record { sender = sender; mode = text "test" }))
      else if settings.transport == text "smtp"
      then map_err (λ e. errorf "construct commerce SMTP transport: %w" (wrapped e end))
          (mail.new_smtp settings)
        >>= (λ sender. ok (record { sender = sender; mode = text "smtp" }))
      else err (errors_new "construct commerce mail transport: transport must be test or smtp")

  unfoldable pub new_delivery : Settings → Result (Delivery S)
  unfolding new_transport
  new_delivery settings =
      validate_address "from" settings.from
      >> (validate_address "recipient" settings.recipient >> new_transport settings)

module _ {M S : Type 0} (transport : Sender M S) where
  sent_by : Delivery S → Option Error × S → Option Error × Delivery S
  sent_by d (o, sender) = (o, record d { sender = sender })

  unfoldable pub send : Delivery S → Context → M → Option Error × Delivery S
  unfolding sent_by
  send d ctx message = sent_by d (transport.send d.sender ctx message)

-- The messages of the test transport, and none of any other.
unfoldable pub messages : {S X : Type 0} → (S → List X) → Delivery S → List X
messages snapshots d = if d.mode == text "test" then snapshots d.sender else []

unfoldable pub new_notifier :
    {T S D : Type 0}
    → Settings
    → Option S
    → Option (Delivery D)
    → Option T
    → Result (Notifier T S D)
new_notifier settings (some s) (some d) (some now) =
    ok (record { settings = settings; sender = s; delivery = d; now = now })
new_notifier settings none d now = err (errors_new "construct commerce notifier: sender is nil")
new_notifier settings (some s) none now =
    err (errors_new "construct commerce notifier: delivery is nil")
new_notifier settings (some s) (some d) none =
    err (errors_new "construct commerce notifier: clock is nil")

abbrev pub is_safe_rune : ℕ → Bool
is_safe_rune c =
    (leb b'a' c && leb c b'z')
    || (leb b'A' c && leb c b'Z')
    || (leb b'0' c && leb c b'9')
    || nat_beq c b'-'
    || nat_beq c b'_'

unfoldable pub safe_identifier : Text → Bool
safe_identifier value =
    if is_empty value || ltb 128 (byte_length value) then false else all is_safe_rune value

unfoldable pub validate_receipt : Receipt → Result (Unit {0})
validate_receipt r =
    fail_if
      (not (safe_identifier r.order_id)
        || not (safe_identifier r.sku)
        || not (safe_identifier r.authorization_id)
        || leb_ℤ r.quantity (pos 0)
        || leb_ℤ r.total_cents (pos 0))
      (errorf "%w: every field must be valid" (wrapped (sentinel Sentinel.invalid_receipt) end))

abbrev pub message_id : Receipt → Text
message_id r = text "receipt-" ++ (r.order_id ++ text "@commerce.example")

unfoldable pub receipt_body : Receipt → Text
receipt_body r =
    text "Order: "
    ++ (r.order_id
        ++ (text "\nSKU: "
            ++ (r.sku
                ++ (text "\nQuantity: "
                    ++ (format_int r.quantity
                        ++ (text "\nTotal: "
                            ++ (format_int r.total_cents
                                ++ (text " cents\nAuthorization: "
                                    ++ (r.authorization_id ++ text "\n")))))))))

abbrev pub attachment_name : Receipt → Text
attachment_name r = r.order_id ++ text ".txt"

unfoldable pub receipt_spec : {T : Type 0} → Settings → T → Receipt → MessageSpec T
receipt_spec settings now r = record {
  id = message_id r;
  date = now;
  from = settings.from;
  to = settings.recipient ∷ [];
  subject = text "Spice Commerce receipt " ++ r.order_id;
  text_body = receipt_body r;
  attachments =
      record {
        filename = attachment_name r;
        content_type = text "text/plain; charset=utf-8";
        contents = receipt_body r;
      }
      ∷ [];
}

module _ {T M S D : Type 0} (new_message : MessageSpec T → Result M) (sender : Sender M S) where
  -- The end of SendReceipt, by how the send ended: a failure is reported as the context's cause, if it
  -- ended, and else as ErrDelivery.
  delivered : Notifier T S D → Moment → Receipt → Option Error × S → Result Sent × Notifier T S D
  delivered n now r (none, s) = (
    ok (record {
      message_id = message_id r;
      transport = n.delivery.mode;
      accepted = true;
      attachment = attachment_name r;
    }),
    record n { sender = s },
  )
  delivered n now r (some e, s) = (
    fail_with (ctx_cause now) (λ cause. errorf "send commerce receipt: %w" (wrapped cause end))
        >> err (sentinel Sentinel.delivery),
    record n { sender = s },
  )

  -- What follows the composition of the message, by how it ended.
  composed : Notifier T S D → Context → Moment → Receipt → Result M → Result Sent × Notifier T S D
  unfolding delivered
  composed n ctx after r (err e) =
      (err (errorf "%w: compose message" (wrapped (sentinel Sentinel.invalid_receipt) end)), n)
  composed n ctx after r (ok message) =
      delivered n after r (sender.send n.sender (later 1 ctx) message)

  receipt_checked :
      Notifier T S D → Context → Moment → Receipt → Result (Unit {0}) → Result Sent × Notifier T S D
  unfolding composed
  receipt_checked n ctx after r (err e) = (err e, n)
  receipt_checked n ctx after r (ok _) =
      composed n ctx after r (new_message (receipt_spec n.settings n.now r))

  -- `ctx 0` is what the look before the checks finds, and `after` what the look after a failed send
  -- does; the transport's own looks come in between.
  unfoldable pub send_receipt :
      Notifier T S D → Context → Moment → Receipt → Result Sent × Notifier T S D
  unfolding receipt_checked
  send_receipt n ctx after r = receipt_checked n ctx after r (
      fail_with (ctx_cause (ctx 0)) (λ e. errorf "send commerce receipt: %w" (wrapped e end))
      >> validate_receipt r)
