-- ===== src/Corecompat/Contracts.antt =====
-- The validation of contracts and the boundaries of a line (internal/corecompat/contract.go).
use commerce.Prelude.{
  pos, ◌≡◌, refl, ◌↔◌, Bool, true, false, not, ◌&&◌, List, [], any, Text, text, is_empty,
  trim_space, nat_eq, text_eq, list_eq, ◌==◌, ==_refl, list_beq_iff, int_beq, length, ◌≤◌, arith,
}
use commerce.Go.{Error, Result, ok, err, fail_if, passed_step, passed_if, passed_last, ◌>>◌}
use commerce.Corecompat.{
  Contract, ModuleCompatibility, Boundary, validate_contract, validate_module_line, validate_tools,
  validate_tool_list, padded_error, no_tools_error, unsorted_error, tools_error, boundaries,
  required_tools, core_module_path, toolchain_module_path, is_padded, is_sorted, minimum_boundary,
  current_boundary, all_boundaries,
}

-- A line whose three values are given and have no white space around them.
abbrev pub IsLine : ModuleCompatibility → Type 0
IsLine l =
    (is_empty l.path ≡ false)
    × (is_empty l.minimum ≡ false)
    × (is_empty l.current ≡ false)
    × (trim_space l.path ≡ l.path)
    × (trim_space l.minimum ≡ l.minimum)
    × (trim_space l.current ≡ l.current)

validate_module_line_iff :
    (name : Text) (l : ModuleCompatibility) → (validate_module_line name l ≡ ok tt) ↔ IsLine l
unfolding validate_module_line
validate_module_line_iff name l = (
  λ h. ground (
    arith,
    list_beq_iff (trim_space l.path) l.path,
    list_beq_iff (trim_space l.minimum) l.minimum,
    list_beq_iff (trim_space l.current) l.current,
    h,
  ),
  λ h. ground (
    arith,
    list_beq_iff (trim_space l.path) l.path,
    list_beq_iff (trim_space l.minimum) l.minimum,
    list_beq_iff (trim_space l.current) l.current,
    h,
  ),
)

-- The contracts that the program accepts.
abbrev pub IsContract : Contract → Type 0
IsContract c =
    (int_beq c.schema (pos 2) ≡ true)
    × IsLine c.core
    × IsLine c.toolchain.line
    × (c.core.path ≡ core_module_path)
    × (c.toolchain.line.path ≡ toolchain_module_path)
    × (c.toolchain.tools ≡ required_tools)

true_of_not : (b : Bool) → not b ≡ false → b ≡ true
true_of_not true h = refl
true_of_not false h = cc

last_passed :
    (a b : Bool) (e f : Error) (m : Result (Unit {0})) (c : Bool) (g : Error) (d : Bool) (h : Error)
    → (fail_if a e >> (fail_if b f >> (m >> (fail_if c g >> fail_if d h)))) ≡ ok tt
    → d ≡ false
last_passed true b e f m c g d h p = cc
last_passed false true e f m c g d h p = cc
last_passed false false e f (err x) c g d h p = cc
last_passed false false e f (ok _) true g d h p = cc
last_passed false false e f (ok _) false g d h p = passed_last d h p

validate_tool_list_sound :
    (tools : List Text) → validate_tool_list tools ≡ ok tt → tools ≡ required_tools
unfolding validate_tool_list
validate_tool_list_sound tools h = (list_beq_iff tools required_tools).0 (
    true_of_not (tools == required_tools) (
      last_passed (is_padded tools) (is_empty tools) padded_error no_tools_error
        (validate_tools [] tools) (not (is_sorted tools)) unsorted_error
        (not (tools == required_tools)) (tools_error tools) h))

validate_contract_sound : (c : Contract) → validate_contract c ≡ ok tt → IsContract c
unfolding validate_contract
validate_contract_sound c h =
    let (schema, h1) = passed_if _ _ _ tt h in
    let (core, h2) = passed_step _ _ tt h1 in
    let (toolchain, h3) = passed_step _ _ tt h2 in
    let (core_path, h4) = passed_if _ _ _ tt h3 in
    let (toolchain_path, h5) = passed_if _ _ _ tt h4 in
    (
      true_of_not _ schema,
      (validate_module_line_iff _ c.core).0 core,
      (validate_module_line_iff _ c.toolchain.line).0 toolchain,
      (text_eq.beq_iff _ _).0 (true_of_not _ core_path),
      (text_eq.beq_iff _ _).0 (true_of_not _ toolchain_path),
      validate_tool_list_sound c.toolchain.tools h5,
    )

required_tools_pass : validate_tool_list required_tools ≡ ok tt
unfolding validate_tool_list validate_tools trim_space
required_tools_pass = refl

validate_contract_complete : (c : Contract) → IsContract c → validate_contract c ≡ ok tt
unfolding validate_contract
validate_contract_complete c (schema, core, toolchain, core_path, toolchain_path, tools) =
    rw
      (
        schema,
        (validate_module_line_iff (text "core") c.core).1 core,
        (validate_module_line_iff (text "toolchain") c.toolchain.line).1 toolchain,
        (text_eq.beq_iff c.core.path core_module_path).1 core_path,
        (text_eq.beq_iff c.toolchain.line.path toolchain_module_path).1 toolchain_path,
        tools,
      )
      required_tools_pass

-- A contract validates exactly if it has schema 2, gives both lines in full and without white space
-- around a value, names the two modules, and lists exactly the three tools in order.
pub validate_contract_iff : (c : Contract) → (validate_contract c ≡ ok tt) ↔ IsContract c
validate_contract_iff c = (validate_contract_sound c, validate_contract_complete c)

-- Whether a list of boundaries has one with these two versions.
abbrev pub Covers : List Boundary → Text → Text → Type 0
Covers bs core toolchain =
    any (λ (b : Boundary). (b.core_version == core) && (b.toolchain_version == toolchain)) bs ≡ true

all_boundaries-Covers :
    (m c : Boundary)
    → Covers (all_boundaries m c) m.core_version m.toolchain_version
      × Covers (all_boundaries m c) c.core_version c.toolchain_version
      × (length (all_boundaries m c) ≤ 2)
all_boundaries-Covers m c = ground (
  arith,
  ==_refl m.core_version,
  ==_refl m.toolchain_version,
  ==_refl c.core_version,
  ==_refl c.toolchain_version,
)

-- The line `all` checks both the minimum and the current versions of the contract, and no more than
-- two boundaries.
pub boundaries_all :
    (c : Contract)
    → (bs : List Boundary) × (boundaries c (text "all") ≡ ok bs)
      × Covers bs c.core.minimum c.toolchain.line.minimum
      × Covers bs c.core.current c.toolchain.line.current
      × (length bs ≤ 2)
unfolding boundaries
boundaries_all c =
    let (m, n, l) = all_boundaries-Covers (minimum_boundary c) (current_boundary c) in
    (all_boundaries (minimum_boundary c) (current_boundary c), refl, m, n, l)
