-- ===== src/Application/Configuration.antt =====
-- internal/spicegen/commerce/spice_configuration_gen.go: the schema of the application's configuration, and
-- what the framework's config package gives of a configuration that is resolved against it.
use Prim.Native.String.{String}
use commerce.Prelude.{
  ℤ, IsInt, ◌≡◌, refl, ap, sym, ◌∙◌, Bool, Bool-cases, true, false, inl, inr, List, [], ◌∷◌, Option,
  none, some, Text, text, is_some, All, text_eq, ◌==◌, if◌then◌else◌,
}
use mathlib.Core.Path.{subst}
use commerce.Go.{Result, ok}

pub data Kind : Type 0 where
  string integer boolean duration : Kind

-- `config.Property`. The module is the path after the repository's, and a default is there or not.
pub record Property : Type 0 where
  pub key : Text
  pub kind : Kind
  pub module_name : String
  pub environment : String
  pub default : Option String
  pub secret : Bool
  pub description : String

abbrev property : String → Kind → String → String → Option String → Bool → String → Property
property key kind module_name environment default secret description = record {
  key = text key;
  kind = kind;
  module_name = module_name;
  environment = environment;
  default = default;
  secret = secret;
  description = description;
}

abbrev pub schema : List Property
schema =
    property "commerce.orders.sku" Kind.string "orders" "" (some "SKU-RED") false ""
    ∷ property "commerce.orders.unit-price-cents" Kind.integer "orders" "" (some "2500") false ""
    ∷ property "commerce.database.url" Kind.string "storage" "SPICE_COMMERCE_DATABASE_URL"
        (some "memory://commerce") true ""
    ∷ property "commerce.database.allow-insecure" Kind.boolean "storage"
        "SPICE_COMMERCE_DATABASE_ALLOW_INSECURE" (some "false") false ""
    ∷ property "commerce.payments.maximum-cents" Kind.integer "payments" "" (some "1000000") false
        ""
    ∷ property "commerce.server.address" Kind.string "platform" "SPICE_COMMERCE_ADDRESS"
        (some "127.0.0.1:8081") false ""
    ∷ property "commerce.server.read-header-timeout" Kind.duration "platform" "" (some "5s") false
        ""
    ∷ property "commerce.server.read-timeout" Kind.duration "platform" "" (some "15s") false ""
    ∷ property "commerce.server.write-timeout" Kind.duration "platform" "" (some "15s") false ""
    ∷ property "commerce.server.idle-timeout" Kind.duration "platform" "" (some "60s") false ""
    ∷ property "commerce.server.developer-token" Kind.string "platform"
        "SPICE_COMMERCE_DEVELOPER_TOKEN" none true ""
    ∷ property "commerce.inventory.sku" Kind.string "inventory" "" (some "SKU-RED") false ""
    ∷ property "commerce.inventory.initial-stock" Kind.integer "inventory" "" (some "10") false ""
    ∷ property "commerce.mail.transport" Kind.string "notifications" "SPICE_COMMERCE_MAIL_TRANSPORT"
        (some "test") false ""
    ∷ property "commerce.mail.from" Kind.string "notifications" "SPICE_COMMERCE_MAIL_FROM"
        (some "Spice Commerce <no-reply@commerce.example>") false ""
    ∷ property "commerce.mail.recipient" Kind.string "notifications" "SPICE_COMMERCE_MAIL_RECIPIENT"
        (some "Developer <developer@commerce.example>") true ""
    ∷ property "commerce.mail.test-capacity" Kind.integer "notifications" "" (some "100") false ""
    ∷ property "commerce.mail.smtp-address" Kind.string "notifications"
        "SPICE_COMMERCE_MAIL_SMTP_ADDRESS" none false ""
    ∷ property "commerce.mail.smtp-server-name" Kind.string "notifications"
        "SPICE_COMMERCE_MAIL_SMTP_SERVER_NAME" none false ""
    ∷ property "commerce.mail.smtp-mode" Kind.string "notifications" "SPICE_COMMERCE_MAIL_SMTP_MODE"
        (some "starttls") false ""
    ∷ property "commerce.mail.smtp-username" Kind.string "notifications"
        "SPICE_COMMERCE_MAIL_SMTP_USERNAME" none true ""
    ∷ property "commerce.mail.smtp-password" Kind.string "notifications"
        "SPICE_COMMERCE_MAIL_SMTP_PASSWORD" none true ""
    ∷ property "commerce.mail.timeout" Kind.duration "notifications" "" (some "5s") false ""
    ∷ property "commerce.mail.max-attempts" Kind.integer "notifications" "" (some "1") false ""
    ∷ property "spice.cache.commerce.catalog.capacity" Kind.integer "orders"
        "SPICE_CACHE_COMMERCE_CATALOG_CAPACITY" (some "256") false
        "Maximum entries for cache commerce.catalog"
    ∷ property "spice.cache.commerce.catalog.ttl" Kind.duration "orders"
        "SPICE_CACHE_COMMERCE_CATALOG_TTL" (some "5m") false
        "Entry lifetime for cache commerce.catalog"
    ∷ property "spice.async.max-concurrency" Kind.integer "" "SPICE_ASYNC_MAX_CONCURRENCY"
        (some "16") false "Maximum concurrent generated asynchronous tasks"
    ∷ property "spice.shutdown-timeout" Kind.duration "" "SPICE_SHUTDOWN_TIMEOUT" (some "10s") false
        ""
    ∷ []

-- `config.Snapshot`: the raw value of a key, and its readings.
pub record Snapshot : Type 0 where
  pub lookup : Text → Option Text
  pub required_string : Text → Result Text
  pub integer : Text → Result ℤ
  pub boolean : Text → Result Bool
  pub duration : Text → Result ℤ

-- That a value which is there can be read as its kind. Integers and durations have 64 bits.
abbrev pub Reads : Snapshot → Kind → Text → Type 0
Reads s string key = (v : Text) × (s.required_string key ≡ ok v)
Reads s integer key = (z : ℤ) × (s.integer key ≡ ok z) × IsInt z
Reads s boolean key = (b : Bool) × (s.boolean key ≡ ok b)
Reads s duration key = (z : ℤ) × (s.duration key ≡ ok z) × IsInt z

-- What `config.Resolve` documents of its snapshot: each value of a property has the property's kind.
abbrev pub IsResolved : Snapshot → List Property → Type 0
IsResolved s l = All (λ p. is_some (s.lookup p.key) ≡ true → Reads s p.kind p.key) l

abbrev pub kind_of : Text → List Property → Option Kind
kind_of key [] = none
kind_of key (p ∷ l) = if p.key == key then some p.kind else kind_of key l

-- A key that the schema declares is read as the kind that it is declared with.
pub declared-Reads :
    (s : Snapshot) (l : List Property) (key : Text) (k : Kind)
    → IsResolved s l
    → kind_of key l ≡ some k
    → is_some (s.lookup key) ≡ true
    → Reads s k key
declared-Reads s [] key k h found there = cc found
declared-Reads s (p ∷ l) key k h found there = elim (Bool-cases (p.key == key)) [
  | inl same ↦
      let keys = (text_eq.beq_iff p.key key).0 same in
      let kinds : some p.kind ≡ some k = sym (rw same refl) ∙ found in
      subst (λ j. Reads s j key) (some_inj kinds)
        (subst (λ j. Reads s p.kind j) keys (h.0 (ap (λ j. is_some (s.lookup j)) keys ∙ there)))
  | inr other ↦
      let rest : kind_of key (p ∷ l) ≡ kind_of key l = rw other refl in
      declared-Reads s l key k h.1 (sym rest ∙ found) there
]
  where
    some_inj : {a b : Kind} → some a ≡ some b → a ≡ b
    some_inj e = cc e
