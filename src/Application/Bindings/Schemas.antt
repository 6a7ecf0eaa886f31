-- ===== src/Application/Bindings/Schemas.antt =====
-- The schema of the configuration declares what the modules' settings are bound from
-- (spice_configuration_gen.go and the settings_spice_gen.go of each module).
use commerce.Prelude.{
  ℤ, IsInt, wrap-eq_of_IsInt, ◌≡◌, refl, ap, ◌∙◌, Bool, true, Option, none, some, Text, text,
  is_some, arith,
}
use Prim.Native.String.{String}
use commerce.Go.{Result, ok, err, ◌>>=◌, map_err}
use commerce.Application.Configuration.{Snapshot, Kind, IsResolved, schema, kind_of, declared-Reads}
use commerce.Application.Bindings.{
  bound, as_int, decode_error, bind_string, bind_int, bind_boolean, bind_duration, bind_orders,
  bind_inventory, bind_payments, bind_storage, bind_platform, bind_notifications,
}

abbrev pub Binds : {A : Type 0} → Result A → Type 0
Binds {A} r = (a : A) × (r ≡ ok a)

and_then :
    {A B : Type 0} (r : Result A) (f : A → Result B)
    → Binds r
    → ((a : A) → Binds (f a))
    → Binds (r >>= f)
and_then (ok a) f h g = g a
and_then (err e) f (a, h) g = cc h

bound-Binds :
    {A X : Type 0} (raw : Result A) (put : A → Result X) (o : Option Text) (key field : String)
    (x : X)
    → (is_some o ≡ true → (a : A) × (raw ≡ ok a) × Binds (put a))
    → Binds (bound raw put o key field x)
unfolding bound
bound-Binds raw put none key field x h = (x, refl)
bound-Binds raw put (some v) key field x h =
    let (a, e, (b, done)) = h refl in
    (b, ap (λ r. map_err (decode_error key field) r >>= put) e ∙ done)

module _ (s : Snapshot) (resolved : IsResolved s schema) (key field : String) {X : Type 0} where
  string-Binds :
      (put : Text → X → X) (x : X)
      → kind_of (text key) schema ≡ some Kind.string
      → Binds (bind_string s key field put x)
  unfolding bind_string
  string-Binds put x declared =
      bound-Binds _ (λ v. ok (put v x)) (s.lookup (text key)) key field x
        (λ there.
          let (v, e) = declared-Reads s schema (text key) Kind.string resolved declared there in
          (v, e, (put v x, refl)))

  boolean-Binds :
      (put : Bool → X → X) (x : X)
      → kind_of (text key) schema ≡ some Kind.boolean
      → Binds (bind_boolean s key field put x)
  unfolding bind_boolean
  boolean-Binds put x declared =
      bound-Binds _ (λ v. ok (put v x)) (s.lookup (text key)) key field x
        (λ there.
          let (v, e) = declared-Reads s schema (text key) Kind.boolean resolved declared there in
          (v, e, (put v x, refl)))

  duration-Binds :
      (put : ℤ → X → X) (x : X)
      → kind_of (text key) schema ≡ some Kind.duration
      → Binds (bind_duration s key field put x)
  unfolding bind_duration
  duration-Binds put x declared =
      bound-Binds _ (λ v. ok (put v x)) (s.lookup (text key)) key field x
        (λ there.
          let (v, e, i) =
            declared-Reads s schema (text key) Kind.duration resolved declared there in
          (v, e, (put v x, refl)))

  as_int-Binds : (put : ℤ → X → X) (x : X) (z : ℤ) → IsInt z → Binds (as_int s key field put x z)
  unfolding as_int
  as_int-Binds put x z i = (put z x, rw (wrap-eq_of_IsInt z i) (ground arith))

  int-Binds :
      (put : ℤ → X → X) (x : X)
      → kind_of (text key) schema ≡ some Kind.integer
      → Binds (bind_int s key field put x)
  unfolding bind_int
  int-Binds put x declared =
      bound-Binds _ (as_int s key field put x) (s.lookup (text key)) key field x (λ there.
        let (v, e, i) = declared-Reads s schema (text key) Kind.integer resolved declared there in
        (v, e, as_int-Binds put x v i))

module _ (s : Snapshot) (resolved : IsResolved s schema) where
  bind_orders-Binds : Binds (bind_orders s)
  unfolding bind_orders
  bind_orders-Binds =
      and_then _ _ (string-Binds s resolved "commerce.orders.sku" "orders.Settings.SKU" _ _ refl)
        (λ x.
          int-Binds s resolved "commerce.orders.unit-price-cents" "orders.Settings.UnitPriceCents" _
            x refl)

  bind_inventory-Binds : Binds (bind_inventory s)
  unfolding bind_inventory
  bind_inventory-Binds =
      and_then _ _
        (string-Binds s resolved "commerce.inventory.sku" "inventory.Settings.SKU" _ _ refl)
        (λ x.
          int-Binds s resolved "commerce.inventory.initial-stock" "inventory.Settings.InitialStock"
            _ x refl)

  bind_payments-Binds : Binds (bind_payments s)
  unfolding bind_payments
  bind_payments-Binds =
      int-Binds s resolved "commerce.payments.maximum-cents" "payments.Settings.MaximumCents" _ _
        refl

  bind_storage-Binds : Binds (bind_storage s)
  unfolding bind_storage
  bind_storage-Binds =
      and_then _ _ (string-Binds s resolved "commerce.database.url" "storage.Settings.URL" _ _ refl)
        (λ x.
          boolean-Binds s resolved "commerce.database.allow-insecure"
            "storage.Settings.AllowInsecure" _ x refl)

  bind_platform-Binds : Binds (bind_platform s)
  unfolding bind_platform
  bind_platform-Binds =
      and_then _ _
        (and_then _ _
          (and_then _ _
            (and_then _ _
              (and_then _ _
                (string-Binds s resolved "commerce.server.address" "platform.Settings.Address" _ _
                  refl)
                (λ x.
                  duration-Binds s resolved "commerce.server.read-header-timeout"
                    "platform.Settings.ReadHeaderTimeout" _ x refl))
              (λ x.
                duration-Binds s resolved "commerce.server.read-timeout"
                  "platform.Settings.ReadTimeout" _ x refl))
            (λ x.
              duration-Binds s resolved "commerce.server.write-timeout"
                "platform.Settings.WriteTimeout" _ x refl))
          (λ x.
            duration-Binds s resolved "commerce.server.idle-timeout" "platform.Settings.IdleTimeout"
              _ x refl))
        (λ x.
          string-Binds s resolved "commerce.server.developer-token"
            "platform.Settings.DeveloperToken" _ x refl)

  bind_notifications-Binds : Binds (bind_notifications s)
  unfolding bind_notifications
  bind_notifications-Binds =
      and_then _ _
        (and_then _ _
          (and_then _ _
            (and_then _ _
              (and_then _ _
                (and_then _ _
                  (and_then _ _
                    (and_then _ _
                      (and_then _ _
                        (and_then _ _
                          (string-Binds s resolved "commerce.mail.transport"
                            "notifications.Settings.Transport" _ _ refl)
                          (λ x.
                            string-Binds s resolved "commerce.mail.from"
                              "notifications.Settings.From" _ x refl))
                        (λ x.
                          string-Binds s resolved "commerce.mail.recipient"
                            "notifications.Settings.Recipient" _ x refl))
                      (λ x.
                        int-Binds s resolved "commerce.mail.test-capacity"
                          "notifications.Settings.TestCapacity" _ x refl))
                    (λ x.
                      string-Binds s resolved "commerce.mail.smtp-address"
                        "notifications.Settings.SMTPAddress" _ x refl))
                  (λ x.
                    string-Binds s resolved "commerce.mail.smtp-server-name"
                      "notifications.Settings.SMTPServerName" _ x refl))
                (λ x.
                  string-Binds s resolved "commerce.mail.smtp-mode"
                    "notifications.Settings.SMTPMode" _ x refl))
              (λ x.
                string-Binds s resolved "commerce.mail.smtp-username"
                  "notifications.Settings.SMTPUsername" _ x refl))
            (λ x.
              string-Binds s resolved "commerce.mail.smtp-password"
                "notifications.Settings.SMTPPassword" _ x refl))
          (λ x.
            duration-Binds s resolved "commerce.mail.timeout" "notifications.Settings.Timeout" _ x
              refl))
        (λ x.
          int-Binds s resolved "commerce.mail.max-attempts" "notifications.Settings.MaxAttempts" _ x
            refl)

  -- Every property that the settings of a module are bound from is declared in the schema with the kind
  -- that the binder reads: a configuration that is resolved against the schema binds for all of the six
  -- modules.
  pub bind-resolved :
      Binds (bind_orders s)
      × Binds (bind_inventory s)
      × Binds (bind_payments s)
      × Binds (bind_storage s)
      × Binds (bind_platform s)
      × Binds (bind_notifications s)
  bind-resolved = (
    bind_orders-Binds, bind_inventory-Binds, bind_payments-Binds, bind_storage-Binds,
    bind_platform-Binds, bind_notifications-Binds,
  )
