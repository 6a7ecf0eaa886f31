-- ===== src/Notifications/Receipts.antt =====
-- The validation of receipts and the outcomes of sending one (notifications/notifier.go).
use commerce.Prelude.{
  ℕ, ◌≤◌, pos, leb_ℤ, ◌≡◌, refl, true, false, not, ◌||◌, [], ◌∷◌, ◌++◌, all, Option, none, some,
  Text, text, is_empty, byte_length, contains_any, has_rune, arith,
}
use commerce.Go.{
  Error, Sentinel, sentinel, Context, Moment, live, later, ctx_cause, Result, ok, err, fail_with,
  ◌>>◌,
}
use commerce.Notifications.{
  Settings, Receipt, MessageSpec, AttachmentSpec, Sender, Notifier, send_receipt, receipt_checked,
  composed, delivered, validate_receipt, safe_identifier, is_safe_rune, receipt_spec, message_id,
  attachment_name,
}

-- The characters of an identifier that passed, and its length.
abbrev pub IsSafe : Text → Type 0
IsSafe value =
    (all is_safe_rune value ≡ true) × (is_empty value ≡ false) × (byte_length value ≤ 128)

safe_identifier-IsSafe : (value : Text) → safe_identifier value ≡ true → IsSafe value
unfolding safe_identifier
safe_identifier-IsSafe value h = ground arith

has_rune-safe :
    (c : ℕ) (cs : Text)
    → is_safe_rune c ≡ true
    → all (λ c. not (is_safe_rune c)) cs ≡ true
    → has_rune c cs ≡ false
has_rune-safe c [] h k = refl
has_rune-safe c (d ∷ cs) h k = ground (arith, has_rune-safe c cs h)

-- No character of an identifier is one of `cs`, if none of `cs` may stand in an identifier.
contains_any-safe :
    (value cs : Text)
    → all is_safe_rune value ≡ true
    → all (λ c. not (is_safe_rune c)) cs ≡ true
    → contains_any value cs ≡ false
unfolding contains_any
contains_any-safe [] cs h k = refl
contains_any-safe (c ∷ s) cs h k = ground (arith, has_rune-safe c cs, contains_any-safe s cs)

contains_any-append :
    (s t cs : Text) → contains_any (s ++ t) cs ≡ (contains_any s cs || contains_any t cs)
unfolding contains_any
contains_any-append [] t cs = refl
contains_any-append (c ∷ s) t cs = ground (arith, contains_any-append s t cs)

-- What validation lets through.
pub validate_receipt_ok :
    (r : Receipt)
    → validate_receipt r ≡ ok tt
    → IsSafe r.order_id
      × IsSafe r.sku
      × IsSafe r.authorization_id
      × (leb_ℤ r.quantity (pos 0) ≡ false)
      × (leb_ℤ r.total_cents (pos 0) ≡ false)
unfolding validate_receipt
validate_receipt_ok r h =
    let (a, b, c, d, e) = parts in
    (
      safe_identifier-IsSafe r.order_id a,
      safe_identifier-IsSafe r.sku b,
      safe_identifier-IsSafe r.authorization_id c,
      d,
      e,
    )
  where
    parts :
        (safe_identifier r.order_id ≡ true)
        × (safe_identifier r.sku ≡ true)
        × (safe_identifier r.authorization_id ≡ true)
        × (leb_ℤ r.quantity (pos 0) ≡ false)
        × (leb_ℤ r.total_cents (pos 0) ≡ false)
    parts = ground (arith, h)

-- No character that an identifier may not have gets from a receipt into the text around its order ID.
around-safe :
    (before id after cs : Text)
    → all is_safe_rune id ≡ true
    → all (λ c. not (is_safe_rune c)) cs ≡ true
    → contains_any before cs ≡ false
    → contains_any after cs ≡ false
    → contains_any (before ++ (id ++ after)) cs ≡ false
around-safe before id after cs h k b a =
    rw
      (
        contains_any-append before (id ++ after) cs,
        contains_any-append id after cs,
        b,
        a,
        contains_any-safe id cs h k,
      )
      refl

-- A receipt that validation lets through makes a message whose ID and subject hold no line break and
-- no angle bracket, and whose one attachment has a file name that holds no path separator, quotation
-- mark or line break.
pub receipt_spec_safe :
    {T : Type 0} (settings : Settings) (now : T) (r : Receipt)
    → validate_receipt r ≡ ok tt
    → (contains_any (receipt_spec settings now r).id (text "\r\n<>") ≡ false)
      × (contains_any (receipt_spec settings now r).subject (text "\r\n<>") ≡ false)
      × ((a : AttachmentSpec) × ((receipt_spec settings now r).attachments ≡ a ∷ [])
          × (contains_any a.filename (text "/\\\"\r\n") ≡ false))
unfolding receipt_spec contains_any
receipt_spec_safe settings now r h =
    let (safe, _, _) = (validate_receipt_ok r h).0 in
    (
      around-safe (text "receipt-") r.order_id (text "@commerce.example") (text "\r\n<>") safe refl
          refl refl,
      rw
          (
            contains_any-append (text "Spice Commerce receipt ") r.order_id (text "\r\n<>"),
            contains_any-safe r.order_id (text "\r\n<>") safe refl,
          )
          refl,
      (_, refl, around-safe [] r.order_id (text ".txt") (text "/\\\"\r\n") safe refl refl refl),
    )

module _ {T M S D : Type 0} (new_message : MessageSpec T → Result M) where
  -- With a context that is live at first, a valid receipt, a message that composes and a sender
  -- that accepts it, the result names the message, the transport and the attachment.
  pub send_receipt_lem :
      (sender : Sender M S) (n : Notifier T S D) (ctx : Context) (after : Moment) (r : Receipt)
      (message : M) (s : S)
      → ctx 0 ≡ live
      → validate_receipt r ≡ ok tt
      → new_message (receipt_spec n.settings n.now r) ≡ ok message
      → sender.send n.sender (later 1 ctx) message ≡ (none, s)
      → send_receipt new_message sender n ctx after r ≡ (
        ok (record {
          message_id = message_id r;
          transport = n.delivery.mode;
          accepted = true;
          attachment = attachment_name r;
        }),
        record n { sender = s },
      )
  unfolding send_receipt receipt_checked composed delivered
  send_receipt_lem sender n ctx after r message s now valid composes sent =
      rw (now, valid, composes, sent) refl

  delivered_lem :
      (sender : Sender M S) (n : Notifier T S D) (r : Receipt) (e : Error) (s : S)
      → delivered new_message sender n live r (some e, s)
        ≡ (err (sentinel Sentinel.delivery), record n { sender = s })
  unfolding delivered
  delivered_lem sender n r e s = refl

  -- With a valid receipt whose message composes, when the transport refuses it with any error,
  -- and the context is live before and after: the error is ErrDelivery and nothing of the
  -- transport's.
  pub send_receipt_refused :
      (sender : Sender M S) (n : Notifier T S D) (ctx : Context) (r : Receipt) (message : M)
      (e : Error) (s : S)
      → ctx 0 ≡ live
      → validate_receipt r ≡ ok tt
      → new_message (receipt_spec n.settings n.now r) ≡ ok message
      → sender.send n.sender (later 1 ctx) message ≡ (some e, s)
      → send_receipt new_message sender n ctx live r
        ≡ (err (sentinel Sentinel.delivery), record n { sender = s })
  unfolding send_receipt receipt_checked composed
  send_receipt_refused sender n ctx r message e s now valid composes sent =
      rw (now, valid, composes, sent) (delivered_lem sender n r e s)

  unsent_lem :
      (sender : Sender M S) (n : Notifier T S D) (ctx : Context) (after : Moment) (r : Receipt)
      (o : Option Error) (f : Error → Error) (e : Error)
      → (receipt_checked new_message sender n ctx after r (fail_with o f >> err e)).1 ≡ n
  unfolding receipt_checked
  unsent_lem sender n ctx after r none f e = refl
  unsent_lem sender n ctx after r (some c) f e = refl

  -- An invalid receipt is not handed to the sender.
  pub send_receipt_unsent :
      (sender : Sender M S) (n : Notifier T S D) (ctx : Context) (after : Moment) (r : Receipt)
      (e : Error)
      → validate_receipt r ≡ err e
      → (send_receipt new_message sender n ctx after r).1 ≡ n
  unfolding send_receipt
  send_receipt_unsent sender n ctx after r e h =
      rw h (unsent_lem sender n ctx after r (ctx_cause (ctx 0)) _ e)
