-- ===== src/Tests/Machines.antt =====
-- A machine on which every program passes, and the two verification programs on it.
use commerce.Prelude.{
  ℕ, pos, ◌≤◌, ◌≡◌, refl, ◌↔◌, inl, inr, Bool, true, List, [], ◌∷◌, All, length, Option, none, some,
  Text, text, has_prefix, has_rune, text_eq, ◌==◌, if◌then◌else◌, ltb, arith,
}
use commerce.Go.{Error, Result, ok}
use commerce.Go.Trees.{Node, regular, file, directory, no_nodes, node_then}
use commerce.Go.Actions.{Host, World}
use commerce.Qualitygate
use commerce.Qualitygate.Steps.{Allowed, run-Allowed}
use commerce.Qualitygate.{Step, required_go_version}
use commerce.Qualitygate.Subprocesses.{batches}
use commerce.Qualitygate.Subprocesses.Batches.{Ends, batches_complete}
use commerce.Qualitygate.Files.{check_identity}
use commerce.Qualitygate.Files.Identity.{Clean, IsCanonical, check_identity_iff}
use commerce.Qualitygate.Checks.{coverage}
use commerce.Qualitygate.Checks.Temporaries.{coverage-Left}
use commerce.Corecompat.Roots.{IsDir, Ascends, search_root, search_root_ends}

abbrev pub module_file : Text
module_file = text "module github.com/spice-framework/commerce\n\ngo 1.26.5\n"

abbrev pub tree : Node
tree = directory (text ".") none (
    node_then (file (text "go.mod") regular (ok module_file))
      (node_then (directory (text "vendor") none no_nodes) no_nodes))

abbrev pub machine : Host (Unit {0})
machine = record {
  environ = text "PATH=/bin" ∷ text "GOPROXY=direct" ∷ [];
  version = required_go_version;
  elapsed = λ s. text "1ms";
  open_root = λ s path. none;
  execute = λ s c. (record { failure = none; stdout = text "/bin/tool"; stderr = [] }, s);
  read_tree = λ s path. ok tree;
  read_file = λ s path. ok module_file;
  write_file = λ s path content. (ok tt, s);
  close_file = λ s path. (ok tt, s);
  make_directory = λ s path. (ok tt, s);
  create_temp = λ s pattern. (ok (text "/tmp/one"), s);
  remove = λ s path. (none, s);
}

abbrev pub at_rest : World (Unit {0})
at_rest = record { state = tt; ran = []; temporary = [] }

-- Numbers in place of the floating point ones, and the length of a content in place of its digest.
abbrev read_number : Text → Result ℕ
read_number t = ok (length t)

abbrev is_low : ℕ → Bool
is_low n = ltb n 2

abbrev pub root : Text
root = text "/srv/commerce"

run-Allowed_example :
    All
      (Allowed (text "verify"))
      (Qualitygate.run machine length read_number is_low
        (λ n. [])
        root
        (text "verify")
        at_rest).1.ran
run-Allowed_example =
    run-Allowed machine length read_number is_low (λ n. []) root (text "verify") at_rest refl

coverage-Left_example :
    (coverage machine read_number is_low (λ n. []) root at_rest).1.temporary ≡ []
coverage-Left_example =
    coverage-Left machine (λ s path. refl) (λ s path. refl) read_number is_low (λ n. []) root
      at_rest refl

abbrev sources : List Text
sources = text "a.go" ∷ text "b.go" ∷ text "c.go" ∷ []

batches_complete_example : Ends 2 sources (batches sources (pos 2))
batches_complete_example = batches_complete sources (pos 2)

check_identity_iff_example : (check_identity none (ok module_file) (ok tree) ≡ ok tt) ↔ (
    (content : Text) × (top : Node) × (◌≡◌ {A = Option Error} none none)
    × (◌≡◌ {A = Result Text} (ok module_file) (ok content))
    × (◌≡◌ {A = Result Node} (ok tree) (ok top))
    × IsCanonical content
    × Clean (text ".") top)
check_identity_iff_example = check_identity_iff none (ok module_file) (ok tree)

-- The parent of a path below the root: all before its last slash.
abbrev before_last : Text → Text
before_last [] = []
before_last (c ∷ s) = if has_rune b'/' s then c ∷ before_last s else []

abbrev parent : Text → Text
parent [] = text "."
parent (c ∷ s) = c ∷ before_last s

before_last-shorter : (c : ℕ) (s : Text) → length (before_last (c ∷ s)) ≤ length s
before_last-shorter c [] = omega arith
before_last-shorter c (d ∷ s) = ground (arith, before_last-shorter d s)

still_rooted :
    (c : ℕ) (s t : Text)
    → has_prefix (c ∷ s) (text "/") ≡ true
    → has_prefix (c ∷ t) (text "/") ≡ true
still_rooted c s t h = ground (arith, h)

parent-IsDir : IsDir parent
parent-IsDir [] h = cc
parent-IsDir (c ∷ []) h = (h, inl refl)
parent-IsDir (c ∷ d ∷ s) h =
    (still_rooted c (d ∷ s) (before_last (d ∷ s)) h, inr (omega (arith, before_last-shorter d s)))

search_root_ends_example :
    (r : Result Text) × (search_root parent (λ p. ok (p == root)) (ok (text "/srv/commerce/orders"))
      ≡ some r)
    × Ascends parent (λ p. ok (p == root)) (text "/srv/commerce/orders") r
search_root_ends_example =
    search_root_ends parent (λ p. ok (p == root)) (text "/srv/commerce/orders") parent-IsDir refl
