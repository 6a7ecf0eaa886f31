-- ===== src/Application/Bindings.antt =====
-- internal/spicegen/commerce/sources/*/settings_spice_gen.go: how the settings of each module are bound from
-- the configuration. A property that is not configured leaves Go's zero value.
pub mod Schemas
use Prim.Native.String.{String}
use commerce.Prelude.{
  ℤ, pos, wrap, leb_ℤ, Bool, false, not, ◌&&◌, [], Option, none, some, Text, text,
}
use commerce.Go.{
  Error, errorf, end, wrapped, text_arg, Result, ok, err, ◌>>=◌, ◌>>◌, fail_if, map_err,
}
use commerce.Inventory
use commerce.Payments
use commerce.Platform
use commerce.Orders.Data as Orders
use commerce.Storage.Database as Database
use commerce.Notifications.Data as Notifications
use commerce.Application.Configuration.{Snapshot}

abbrev pub decode_error : String → String → Error → Error
decode_error key field e =
    errorf "decode configuration property %s for github.com/spice-framework/commerce/%s: %w"
      (text_arg (text key) (text_arg (text field) (wrapped e end)))

abbrev pub outside_int : String → String → Error
outside_int key field =
    errorf
      "decode configuration property %s for github.com/spice-framework/commerce/%s: value is outside int"
      (text_arg (text key) (text_arg (text field) end))

module _ {X : Type 0} where
  -- One property of a key and a field: a value that is there is read, and goes into the settings.
  bound : {A : Type 0} → Result A → (A → Result X) → Option Text → String → String → X → Result X
  bound raw put none key field x = ok x
  bound raw put (some _) key field x = map_err (decode_error key field) raw >>= put

  module _ (s : Snapshot) (key field : String) where
    unfoldable pub bind_string : (Text → X → X) → X → Result X
    unfolding bound
    bind_string put x =
        bound (s.required_string (text key)) (λ v. ok (put v x)) (s.lookup (text key)) key field x

    unfoldable pub bind_boolean : (Bool → X → X) → X → Result X
    unfolding bound
    bind_boolean put x =
        bound (s.boolean (text key)) (λ b. ok (put b x)) (s.lookup (text key)) key field x

    unfoldable pub bind_duration : (ℤ → X → X) → X → Result X
    unfolding bound
    bind_duration put x =
        bound (s.duration (text key)) (λ d. ok (put d x)) (s.lookup (text key)) key field x

    -- The conversion to `int` and back has to give the value that was read.
    as_int : (ℤ → X → X) → X → ℤ → Result X
    as_int put x z =
        fail_if (not (leb_ℤ (wrap z) z && leb_ℤ z (wrap z))) (outside_int key field)
        >> ok (put (wrap z) x)

    unfoldable pub bind_int : (ℤ → X → X) → X → Result X
    unfolding bound as_int
    bind_int put x = bound (s.integer (text key)) (as_int put x) (s.lookup (text key)) key field x

unfoldable pub bind_orders : Snapshot → Result Orders.Settings
bind_orders s =
    ok (record { sku = []; unit_price_cents = pos 0 })
    >>= bind_string s "commerce.orders.sku" "orders.Settings.SKU" (λ v x. record x { sku = v })
    >>= bind_int s "commerce.orders.unit-price-cents" "orders.Settings.UnitPriceCents"
        (λ v x. record x { unit_price_cents = v })

unfoldable pub bind_inventory : Snapshot → Result Inventory.Settings
bind_inventory s =
    ok (record { sku = []; initial_stock = pos 0 })
    >>= bind_string s "commerce.inventory.sku" "inventory.Settings.SKU"
        (λ v x. record x { sku = v })
    >>= bind_int s "commerce.inventory.initial-stock" "inventory.Settings.InitialStock"
        (λ v x. record x { initial_stock = v })

unfoldable pub bind_payments : Snapshot → Result Payments.Settings
bind_payments s =
    ok (record { maximum_cents = pos 0 })
    >>= bind_int s "commerce.payments.maximum-cents" "payments.Settings.MaximumCents"
        (λ v x. record x { maximum_cents = v })

unfoldable pub bind_storage : Snapshot → Result Database.Settings
bind_storage s =
    ok (record { url = []; allow_insecure = false })
    >>= bind_string s "commerce.database.url" "storage.Settings.URL" (λ v x. record x { url = v })
    >>= bind_boolean s "commerce.database.allow-insecure" "storage.Settings.AllowInsecure"
        (λ v x. record x { allow_insecure = v })

unfoldable pub bind_platform : Snapshot → Result Platform.Settings
bind_platform s =
    ok (record {
      address = [];
      read_header_timeout = pos 0;
      read_timeout = pos 0;
      write_timeout = pos 0;
      idle_timeout = pos 0;
      developer_token = [];
    })
    >>= bind_string s "commerce.server.address" "platform.Settings.Address"
        (λ v x. record x { address = v })
    >>= bind_duration s "commerce.server.read-header-timeout" "platform.Settings.ReadHeaderTimeout"
        (λ v x. record x { read_header_timeout = v })
    >>= bind_duration s "commerce.server.read-timeout" "platform.Settings.ReadTimeout"
        (λ v x. record x { read_timeout = v })
    >>= bind_duration s "commerce.server.write-timeout" "platform.Settings.WriteTimeout"
        (λ v x. record x { write_timeout = v })
    >>= bind_duration s "commerce.server.idle-timeout" "platform.Settings.IdleTimeout"
        (λ v x. record x { idle_timeout = v })
    >>= bind_string s "commerce.server.developer-token" "platform.Settings.DeveloperToken"
        (λ v x. record x { developer_token = v })

unfoldable pub bind_notifications : Snapshot → Result Notifications.Settings
bind_notifications s =
    ok (record {
      transport = [];
      from = [];
      recipient = [];
      test_capacity = pos 0;
      smtp_address = [];
      smtp_server_name = [];
      smtp_mode = [];
      smtp_username = [];
      smtp_password = [];
      timeout = pos 0;
      max_attempts = pos 0;
    })
    >>= bind_string s "commerce.mail.transport" "notifications.Settings.Transport"
        (λ v x. record x { transport = v })
    >>= bind_string s "commerce.mail.from" "notifications.Settings.From"
        (λ v x. record x { from = v })
    >>= bind_string s "commerce.mail.recipient" "notifications.Settings.Recipient"
        (λ v x. record x { recipient = v })
    >>= bind_int s "commerce.mail.test-capacity" "notifications.Settings.TestCapacity"
        (λ v x. record x { test_capacity = v })
    >>= bind_string s "commerce.mail.smtp-address" "notifications.Settings.SMTPAddress"
        (λ v x. record x { smtp_address = v })
    >>= bind_string s "commerce.mail.smtp-server-name" "notifications.Settings.SMTPServerName"
        (λ v x. record x { smtp_server_name = v })
    >>= bind_string s "commerce.mail.smtp-mode" "notifications.Settings.SMTPMode"
        (λ v x. record x { smtp_mode = v })
    >>= bind_string s "commerce.mail.smtp-username" "notifications.Settings.SMTPUsername"
        (λ v x. record x { smtp_username = v })
    >>= bind_string s "commerce.mail.smtp-password" "notifications.Settings.SMTPPassword"
        (λ v x. record x { smtp_password = v })
    >>= bind_duration s "commerce.mail.timeout" "notifications.Settings.Timeout"
        (λ v x. record x { timeout = v })
    >>= bind_int s "commerce.mail.max-attempts" "notifications.Settings.MaxAttempts"
        (λ v x. record x { max_attempts = v })
