-- ===== src/Corecompat.antt =====
-- internal/corecompat/contract.go: the compatibility contract, its validation, the boundaries that a
-- line selects, and the check of the module file against it. The files, the JSON decoder and the `go`
-- command are outside this module.
pub mod Modules
pub mod Contracts
pub mod Sorting
pub mod Roots
pub mod Snapshots
pub mod Commands
pub mod Requirements
pub mod Environments
use Prim.Native.String.{String}
use commerce.Prelude.{
  ℕ, ℤ, pos, ltb, Bool, true, false, not, ◌&&◌, ◌||◌, List, [], ◌∷◌, ◌++◌, map, any, all, Option,
  none, some, Text, text, is_empty, trim_space, fields, Eq, text_eq, list_eq, ◌==◌, nat_beq,
  int_beq, if◌then◌else◌,
}
use commerce.Go.{
  Error, errors_new, errorf, end, wrapped, int_arg, text_arg, quoted, Result, ok, err, ◌>>=◌, ◌>>◌,
  fail_if,
}

pub record ModuleCompatibility : Type 0 where
  pub path : Text
  pub minimum : Text
  pub current : Text

pub record ToolCompatibility : Type 0 where
  pub line : ModuleCompatibility
  pub tools : List Text

pub record Contract : Type 0 where
  pub schema : ℤ
  pub core : ModuleCompatibility
  pub toolchain : ToolCompatibility

pub record Boundary : Type 0 where
  pub name : Text
  pub core_version : Text
  pub toolchain_version : Text

abbrev pub compatibility_file : Text
compatibility_file = text "spice-compatibility.json"

abbrev pub repository_module : Text
repository_module = text "github.com/spice-framework/commerce"

abbrev pub core_module_path : Text
core_module_path = text "github.com/spice-framework/spice"

abbrev pub toolchain_module_path : Text
toolchain_module_path = text "github.com/spice-framework/toolchain"

abbrev pub spice_tool_path : Text
spice_tool_path = text "github.com/spice-framework/toolchain/cmd/spice"

abbrev pub annotation_tool_path : Text
annotation_tool_path = text "github.com/spice-framework/toolchain/cmd/spice-annotation-core"

abbrev pub style_tool_path : Text
style_tool_path = text "github.com/spice-framework/toolchain/cmd/spicestyle"

-- The order of Go's strings: that of the code points, which that of the UTF-8 bytes agrees with.
abbrev pub leb_text : Text → Text → Bool
leb_text [] t = true
leb_text (c ∷ s) [] = false
leb_text (c ∷ s) (d ∷ t) = if ltb c d then true else if nat_beq c d then leb_text s t else false

-- `slices.IsSorted` and `slices.Sort` on strings.
abbrev pub is_sorted : List Text → Bool
is_sorted [] = true
is_sorted (s ∷ []) = true
is_sorted (s ∷ t ∷ ts) = leb_text s t && is_sorted (t ∷ ts)

abbrev pub insert_sorted : Text → List Text → List Text
insert_sorted s [] = s ∷ []
insert_sorted s (t ∷ ts) = if leb_text s t then s ∷ t ∷ ts else t ∷ insert_sorted s ts

abbrev pub sort : List Text → List Text
sort [] = []
sort (s ∷ ts) = insert_sorted s (sort ts)

-- `strings.TrimSpace(value) != value`, for any of the values.
abbrev pub is_padded : List Text → Bool
is_padded = any (λ value. not (trim_space value == value))

abbrev pub padded_error : Error
padded_error =
    errorf "%s values must not contain surrounding whitespace" (text_arg compatibility_file end)

unfoldable pub validate_module_line : Text → ModuleCompatibility → Result (Unit {0})
validate_module_line name line = do
  fail_if (is_empty line.path || is_empty line.minimum || is_empty line.current) (
      errorf "%s requires explicit %s module, minimum, and current values"
        (text_arg compatibility_file (text_arg name end)))
  fail_if (is_padded (line.path ∷ line.minimum ∷ line.current ∷ [])) padded_error

-- The loop over the tools, with the set of those seen.
unfoldable pub validate_tools : List Text → List Text → Result (Unit {0})
validate_tools seen [] = ok tt
validate_tools seen (tool ∷ tools) =
    if is_empty tool
    then err (errorf "%s tool paths must not be empty" (text_arg compatibility_file end))
    else elim (any (λ s. s == tool) seen) [
      | true ↦
          err (errorf "%s tool %q is duplicated" (text_arg compatibility_file (quoted tool end)))
      | false ↦ validate_tools (tool ∷ seen) tools
    ]

-- `%v` of a slice of strings.
abbrev pub shown_words : List Text → Text
shown_words [] = []
shown_words (s ∷ []) = s
shown_words (s ∷ t ∷ ts) = s ++ (32 ∷ shown_words (t ∷ ts))

abbrev pub shown_list : List Text → Text
shown_list ts = b'[' ∷ (shown_words ts ++ b']' ∷ [])

abbrev pub required_tools : List Text
required_tools = sort (spice_tool_path ∷ annotation_tool_path ∷ style_tool_path ∷ [])

abbrev pub no_tools_error : Error
no_tools_error = errorf "%s requires at least one tool" (text_arg compatibility_file end)

abbrev pub unsorted_error : Error
unsorted_error = errorf "%s tool paths must be sorted" (text_arg compatibility_file end)

abbrev pub tools_error : List Text → Error
tools_error tools = errorf "%s tools are %v; require %v" (
    text_arg compatibility_file
      (text_arg (shown_list tools) (text_arg (shown_list required_tools) end)))

-- The checks of the contract's tools.
unfoldable pub validate_tool_list : List Text → Result (Unit {0})
validate_tool_list tools = do
  fail_if (is_padded tools) padded_error
  fail_if (is_empty tools) no_tools_error
  validate_tools [] tools
  fail_if (not (is_sorted tools)) unsorted_error
  fail_if (not (tools == required_tools)) (tools_error tools)

unfoldable pub validate_contract : Contract → Result (Unit {0})
validate_contract result = do
  fail_if (not (int_beq result.schema (pos 2))) (
      errorf "%s schema %d is unsupported"
        (text_arg compatibility_file (int_arg result.schema end)))
  validate_module_line (text "core") result.core
  validate_module_line (text "toolchain") result.toolchain.line
  fail_if (not (result.core.path == core_module_path)) (
      errorf "%s core module is %q; require %s"
        (text_arg compatibility_file (quoted result.core.path (text_arg core_module_path end))))
  fail_if (not (result.toolchain.line.path == toolchain_module_path)) (
      errorf "%s toolchain module is %q; require %s" (
        text_arg compatibility_file
          (quoted result.toolchain.line.path (text_arg toolchain_module_path end))))
  validate_tool_list result.toolchain.tools

abbrev pub minimum_boundary : Contract → Boundary
minimum_boundary c = record {
  name = text "minimum";
  core_version = c.core.minimum;
  toolchain_version = c.toolchain.line.minimum;
}

abbrev pub current_boundary : Contract → Boundary
current_boundary c = record {
  name = text "current";
  core_version = c.core.current;
  toolchain_version = c.toolchain.line.current;
}

-- The boundaries of `all`: one, if the two agree on both versions.
abbrev pub all_boundaries : Boundary → Boundary → List Boundary
all_boundaries minimum current =
    if (minimum.core_version == current.core_version)
      && (minimum.toolchain_version == current.toolchain_version)
    then record minimum { name = text "minimum/current" } ∷ []
    else minimum ∷ current ∷ []

unfoldable pub boundaries : Contract → Text → Result (List Boundary)
boundaries c line =
    if line == text "minimum"
    then ok (minimum_boundary c ∷ [])
    else if line == text "current"
    then ok (current_boundary c ∷ [])
    else if line == text "all"
    then ok (all_boundaries (minimum_boundary c) (current_boundary c))
    else err (
        errorf "compatibility line %q is invalid; require minimum, current, or all"
          (quoted line end))
