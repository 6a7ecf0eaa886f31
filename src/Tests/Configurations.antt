-- ===== src/Tests/Configurations.antt =====
-- The configuration of the application by its defaults.
use Prim.Native.String.{String}
use commerce.Prelude.{
  ℕ, ◌+◌, ◌*◌, ◌-◌, ℤ, pos, ◌≡◌, refl, false, List, [], ◌∷◌, Option, none, some, Text, text,
  text_eq, wrap, ◌==◌, if◌then◌else◌, arith,
}
use commerce.Go.{errors_new, Result, ok, err}
use commerce.Application.Configuration.{Property, Snapshot, IsResolved, schema}
use commerce.Application.Bindings.{
  bind_string, bind_int, bind_orders, bind_inventory, bind_payments, bind_storage, bind_platform,
  bind_notifications,
}
use commerce.Application.Bindings.Schemas.{Binds, bind-resolved}

abbrev default_text : Option String → Option Text
default_text none = none
default_text (some s) = some (text s)

abbrev default_of : Text → List Property → Option Text
default_of key [] = none
default_of key (p ∷ l) = if p.key == key then default_text p.default else default_of key l

abbrev required : Option Text → Result Text
required none = err (errors_new "not resolved")
required (some v) = ok v

abbrev digits : ℕ → Text → ℕ
digits n [] = n
digits n (c ∷ s) = digits (n * 10 + (c - 48)) s

abbrev integer_of : Option Text → Result ℤ
integer_of none = err (errors_new "not resolved")
integer_of (some v) = ok (pos (digits 0 v))

-- Every key has its default. Durations and truth values are read as zero and false.
abbrev pub defaults : Snapshot
defaults = record {
  lookup = λ key. default_of key schema;
  required_string = λ key. required (default_of key schema);
  integer = λ key. integer_of (default_of key schema);
  boolean = λ key. ok false;
  duration = λ key. ok (pos 0);
}

defaults-IsResolved : IsResolved defaults schema
defaults-IsResolved = (
  λ there. (text "SKU-RED", refl),
  (
    λ there. (pos 2500, refl, omega arith),
    (
      λ there. (text "memory://commerce", refl),
      (
        λ there. (false, refl),
        (
          λ there. (pos 1000000, refl, omega arith),
          (
            λ there. (text "127.0.0.1:8081", refl),
            (
              λ there. (pos 0, refl, omega arith),
              (
                λ there. (pos 0, refl, omega arith),
                (
                  λ there. (pos 0, refl, omega arith),
                  (
                    λ there. (pos 0, refl, omega arith),
                    (
                      λ there. cc there,
                      (
                        λ there. (text "SKU-RED", refl),
                        (
                          λ there. (pos 10, refl, omega arith),
                          (
                            λ there. (text "test", refl),
                            (
                              λ there. (text "Spice Commerce <no-reply@commerce.example>", refl),
                              (
                                λ there. (text "Developer <developer@commerce.example>", refl),
                                (
                                  λ there. (pos 100, refl, omega arith),
                                  (
                                    λ there. cc there,
                                    (
                                      λ there. cc there,
                                      (
                                        λ there. (text "starttls", refl),
                                        (
                                          λ there. cc there,
                                          (
                                            λ there. cc there,
                                            (
                                              λ there. (pos 0, refl, omega arith),
                                              (
                                                λ there. (pos 1, refl, omega arith),
                                                (
                                                  λ there. (pos 256, refl, omega arith),
                                                  (
                                                    λ there. (pos 0, refl, omega arith),
                                                    (
                                                      λ there. (pos 16, refl, omega arith),
                                                      (λ there. (pos 0, refl, omega arith), tt),
                                                    ),
                                                  ),
                                                ),
                                              ),
                                            ),
                                          ),
                                        ),
                                      ),
                                    ),
                                  ),
                                ),
                              ),
                            ),
                          ),
                        ),
                      ),
                    ),
                  ),
                ),
              ),
            ),
          ),
        ),
      ),
    ),
  ),
)

bind-resolved_example :
    Binds (bind_orders defaults)
    × Binds (bind_inventory defaults)
    × Binds (bind_payments defaults)
    × Binds (bind_storage defaults)
    × Binds (bind_platform defaults)
    × Binds (bind_notifications defaults)
bind-resolved_example = bind-resolved defaults defaults-IsResolved

-- The stock of the defaults.
inventory_defaults :
    bind_inventory defaults ≡ ok (record { sku = text "SKU-RED"; initial_stock = pos 10 })
unfolding bind_inventory bind_string bind_int wrap
inventory_defaults = refl
