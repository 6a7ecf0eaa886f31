-- ===== src/Qualitygate/Subprocesses.antt =====
-- internal/qualitygate/main.go: the subprocesses of the gate, their environments, and batches of
-- arguments.
pub mod Offline
pub mod Batches
use Prim.Native.String.{String}
use commerce.Prelude.{
  ℤ, pos, negsuc, leb_ℤ, zero, suc, length, ℕ, zero, suc, ◌+◌, Bool, true, false, List, [], ◌∷◌,
  ◌++◌, length, take, drop, Option, none, some, Text, text, is_empty, trim_space, join, Dict, copy,
  text_eq, if◌then◌else◌,
}
use commerce.Go.{Error, errors_new, errorf, end, wrapped, text_arg, quoted, Result, ok, err}
use commerce.Go.Actions.{Command, Answer, Host, Action, lift, ◌>>=◌, ◌>>◌, for_each, execute}
use commerce.Corecompat.{sort}
use commerce.Corecompat.Environments.{kept, added}

abbrev pub module_path : Text
module_path = text "github.com/spice-framework/commerce"

-- The map that the overrides of a call are copied into.
abbrev pub offline_values : Dict Text Text
offline_values =
    (text "GOWORK", text "off")
    ∷ (text "GOPROXY", text "off")
    ∷ (text "GOFLAGS", [])
    ∷ (text "GOTOOLCHAIN", text "local")
    ∷ []

unfoldable pub merged_environment : List Text → Dict Text Text → List Text
merged_environment base overrides =
    let values = copy offline_values overrides in sort (kept values base ++ added values)

abbrev pub online_values : Dict Text Text
online_values =
    (text "GOWORK", text "off") ∷ (text "GOFLAGS", []) ∷ (text "GOTOOLCHAIN", text "local") ∷ []

unfoldable pub online_environment : List Text → List Text
online_environment base = sort (kept online_values base ++ added online_values)

-- What `command` returns, and what `capture` does, by how the program ended.
run_result : Text → List Text → Option Error → Result (Unit {0})
run_result executable arguments none = ok tt
run_result executable arguments (some e) = err (
    errorf "%s %s: %w" (text_arg executable (text_arg (join (text " ") arguments) (wrapped e end))))

captured : Text → List Text → Answer → Option Error → Result Text
captured executable arguments answer none = ok answer.stdout
captured executable arguments answer (some e) = err (
    errorf "%s %s: %w\n%s" (
      text_arg executable (
        text_arg (join (text " ") arguments)
          (wrapped e (text_arg (trim_space answer.stderr) end)))))

-- The path that a tool's resolution printed.
tool_found : Text → Text → Result Text
tool_found name path =
    if is_empty path then err (errorf "resolve tool %q: empty path" (quoted name end)) else ok path

module _ {W : Type 0} (host : Host W) where
  unfoldable pub command : Text → Dict Text Text → Text → List Text → Action W (Unit {0})
  unfolding run_result
  command directory environment executable arguments = do
    answer ← execute host (record {
      directory = directory;
      environment = merged_environment host.environ environment;
      executable = executable;
      arguments = arguments;
    })
    lift (run_result executable arguments answer.failure)

  unfoldable pub capture : Text → Dict Text Text → Text → List Text → Action W Text
  unfolding captured
  capture directory environment executable arguments = do
    answer ← execute host (record {
      directory = directory;
      environment = merged_environment host.environ environment;
      executable = executable;
      arguments = arguments;
    })
    lift (captured executable arguments answer answer.failure)

  unfoldable pub network_go_command : Text → List Text → Action W (Unit {0})
  unfolding run_result
  network_go_command directory arguments = do
    answer ← execute host (record {
      directory = directory;
      environment = online_environment host.environ;
      executable = text "go";
      arguments = arguments;
    })
    lift (run_result (text "go") arguments answer.failure)

  unfoldable pub tool_path : Text → Text → Action W Text
  unfolding tool_found
  tool_path root name = do
    stdout ←
        capture root [] (text "go") (text "tool" ∷ text "-C" ∷ text "tools" ∷ text "-n" ∷ name ∷ [])
    lift (tool_found name (trim_space stdout))

-- `min` on integers.
abbrev pub min_int : ℤ → ℤ → ℤ
min_int a b = if leb_ℤ a b then a else b

-- How the loop of `batches` ends: with the batches, in the panic of a slice with a negative bound, or
-- not within the rounds.
pub data Batched : Type 0 where
  ended : List (List Text) → Batched
  panicked : Batched
  unfinished : Batched

abbrev pub batch_then : List Text → Batched → Batched
batch_then batch (ended rest) = ended (batch ∷ rest)
batch_then batch panicked = panicked
batch_then batch unfinished = unfinished

-- `values[:length]` and `values[length:]`, where `length` is at most the number of values.
unfoldable pub sliced : ℤ → List Text → (List Text → Batched) → Batched
sliced (pos length) values next = batch_then (take length values) (next (drop length values))
sliced (negsuc length) values next = panicked

-- The loop, in a number of rounds.
unfoldable pub batches_from : ℕ → List Text → ℤ → Batched
unfolding sliced
batches_from rounds [] size = ended []
batches_from zero (v ∷ values) size = unfinished
batches_from (suc rounds) (v ∷ values) size =
    sliced (min_int size (pos (length (v ∷ values)))) (v ∷ values)
      (λ rest. batches_from rounds rest size)

-- A round of a positive size takes a value at least, so as many rounds as there are values are enough.
unfoldable pub batches : List Text → ℤ → Batched
unfolding batches_from
batches values size = batches_from (length values) values size
