-- ===== src/Corecompat/Requirements.antt =====
-- The check of the module file, and the packages to check (internal/corecompat/contract.go).
use commerce.Prelude.{
  ◌≡◌, refl, ap, sym, ◌∙◌, Bool, true, false, not, ◌&&◌, ◌||◌, List, [], ◌∷◌, any, Text, text,
  is_empty, fields, nat_eq, text_eq, list_eq, ◌==◌, ==_refl, list_beq_iff, arith,
}
use commerce.Go.{Error, ok, fail_if, passed_step, passed_if, passed_last}
use commerce.Corecompat.{Contract, ModuleCompatibility, is_sorted, insert_sorted, sort}
use commerce.Corecompat.Modules.{
  Requirement, ModuleMetadata, requirement_version, validate_line, validate_module_contract,
  is_tooling, without_tooling, nonempty_packages, product_packages,
}
use commerce.Corecompat.Sorting.{sort-is_sorted}

-- Whether a list has a text.
abbrev pub has : Text → List Text → Bool
has s ts = any (λ t. t == s) ts

has-insert_sorted :
    (s t : Text) (ts : List Text) → has s (insert_sorted t ts) ≡ ((t == s) || has s ts)
has-insert_sorted s t [] = refl
has-insert_sorted s t (u ∷ us) = ground (arith, has-insert_sorted s t us)

pub has-sort : (s : Text) (ts : List Text) → has s (sort ts) ≡ has s ts
has-sort s [] = refl
has-sort s (t ∷ ts) = has-insert_sorted s t (sort ts) ∙ ap (λ b. (t == s) || b) (has-sort s ts)

has-without_tooling :
    (s : Text) (ts : List Text) → has s (without_tooling ts) ≡ (has s ts && not (is_tooling s))
has-without_tooling s [] = refl
has-without_tooling s (t ∷ ts) = ground (arith, has-without_tooling s ts, list_beq_iff t s)

nonempty_packages_ok :
    (ps qs : List Text) → nonempty_packages ps ≡ ok qs → (qs ≡ ps) × (is_empty qs ≡ false)
unfolding nonempty_packages
nonempty_packages_ok [] qs h = cc
nonempty_packages_ok (p ∷ ps) qs h = (cc, ground (arith, h))

-- The packages that are checked are in order, at least one, and exactly those that `go list` names
-- and that are not the two of the tooling.
pub product_packages_ok :
    (content : Text) (ps : List Text)
    → product_packages content ≡ ok ps
    → (is_sorted ps ≡ true)
      × (is_empty ps ≡ false)
      × ((s : Text) → has s ps ≡ (has s (fields content) && not (is_tooling s)))
unfolding product_packages
product_packages_ok content ps h =
    let found = without_tooling (fields content) in
    let (same, some_) = nonempty_packages_ok (sort found) ps h in
    (
      rw same (sort-is_sorted found),
      some_,
      λ s. ap (has s) same ∙ has-sort s found ∙ has-without_tooling s (fields content),
    )

-- Whether a module file requires a version of a module, directly if that is asked for.
abbrev pub Requires : List Requirement → Text → Bool → Text → Type 0
Requires rs name direct version =
    any
      (λ (r : Requirement).
        (r.path == name) && (not direct || not r.indirect) && (r.version == version))
      rs
    ≡ true

requirement_version-Requires :
    (rs : List Requirement) (name : Text) (direct : Bool)
    → is_empty (requirement_version rs name direct) ≡ false
    → Requires rs name direct (requirement_version rs name direct)
unfolding requirement_version
requirement_version-Requires [] name direct h = cc
requirement_version-Requires (r ∷ rs) name direct h =
    ground (arith, requirement_version-Requires rs name direct, ==_refl r.version)

validate_line-Requires :
    (metadata : ModuleMetadata) (name : Text) (line : ModuleCompatibility) (direct : Bool)
    → validate_line metadata name line direct ≡ ok tt
    → Requires metadata.require line.path direct line.minimum
unfolding validate_line
validate_line-Requires metadata name line direct h =
    let (given, h1) = passed_if _ _ _ tt h in
    let equal = true_of_not _ (passed_last _ _ h1) in
    let same =
      (list_beq_iff (requirement_version metadata.require line.path direct) line.minimum).0 equal in
    rw (sym same) (requirement_version-Requires metadata.require line.path direct given)
  where
    true_of_not : (b : Bool) → not b ≡ false → b ≡ true
    true_of_not true h = refl
    true_of_not false h = cc

-- A module file that passes requires the core module directly at the contract's minimum, requires the
-- toolchain at its minimum, and declares exactly the contract's tools.
pub validate_module_contract_ok :
    (c : Contract) (metadata : ModuleMetadata)
    → validate_module_contract c metadata ≡ ok tt
    → Requires metadata.require c.core.path true c.core.minimum
      × Requires metadata.require c.toolchain.line.path false c.toolchain.line.minimum
      × ((tool : Text) → has tool metadata.tool ≡ has tool c.toolchain.tools)
unfolding validate_module_contract
validate_module_contract_ok c metadata h =
    let (core, h1) = passed_step _ _ tt h in
    let (toolchain, h2) = passed_step _ _ tt h1 in
    let same = tools_same (sort metadata.tool) c.toolchain.tools _ h2 in
    (
      validate_line-Requires metadata (text "core") c.core true core,
      validate_line-Requires metadata (text "toolchain") c.toolchain.line false toolchain,
      λ tool. sym (has-sort tool metadata.tool) ∙ ap (has tool) same,
    )
  where
    tools_same : (ts us : List Text) (e : Error) → fail_if (not (ts == us)) e ≡ ok tt → ts ≡ us
    tools_same ts us e h = (list_beq_iff ts us).0 (ground (arith, passed_last (not (ts == us)) e h))
