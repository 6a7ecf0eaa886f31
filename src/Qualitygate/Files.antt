-- ===== src/Qualitygate/Files.antt =====
-- internal/qualitygate/main.go: the walks over the repository's files. The digest of a content,
-- `sha256.Sum256`, is a parameter.
pub mod Identity
use Prim.Native.String.{String}
use commerce.Prelude.{
  ℕ, Bool, true, false, not, ◌&&◌, ◌||◌, List, [], ◌∷◌, ◌++◌, any, all, length, Option, none, some,
  Text, text, trim_space, contains, split_at, Dict, lookup, insert, nat_beq, text_eq, ◌==◌,
  if◌then◌else◌,
}
use commerce.Go.{
  Error, errors_new, errorf, end, wrapped, text_arg, quoted, Result, ok, err, ◌>>=◌, ◌>>◌, fail_if,
  fail_with, map_err,
}
use commerce.Go.Trees.{
  Node, Kind, regular, symbolic_link, irregular, file, directory, Visit, go_on, skip_dir, stop,
  walk, extension,
}
use commerce.Corecompat.{sort}
use commerce.Corecompat.Environments.{digest_or_zero}
use commerce.Qualitygate.Subprocesses.{module_path}

abbrev pub legacy_module_path : Text
legacy_module_path = text "github.com/spice-framework/spice/examples/commerce"

-- `slices.Contains` of the directories that every walk leaves out.
abbrev pub is_skipped : Text → Bool
is_skipped name = any (λ s. s == name) (text ".git" ∷ text "tools" ∷ text "vendor" ∷ [])

unfoldable pub has_module_directive : Text → Text → Bool
has_module_directive content expected =
    any (λ line. trim_space line == (text "module " ++ expected)) (split_at b'\n' content)

unfoldable pub identity_file : Text → Bool
identity_file name =
    any (λ e. e == extension name)
      (text ".go"
        ∷ text ".json"
        ∷ text ".md"
        ∷ text ".mod"
        ∷ text ".sum"
        ∷ text ".yaml"
        ∷ text ".yml"
        ∷ [])

-- What the walk of checkIdentity finds in one file that is read.
identity_content : Text → Result Text → Visit (Unit {0})
identity_content path (err e) =
    stop (errorf "read identity file %q: %w" (quoted path (wrapped e end))) tt
identity_content path (ok content) =
    if contains content legacy_module_path
    then stop (errorf "legacy monorepo module path remains in %s" (text_arg path end)) tt
    else go_on tt

unfoldable pub visit_identity : Text → Node → Unit {0} → Visit (Unit {0})
unfolding identity_content
visit_identity path (directory name unlisted nodes) s =
    if not (path == text ".") && is_skipped name then skip_dir tt else go_on tt
visit_identity path (file name kind content) s =
    if identity_file name then identity_content path content else go_on tt

-- The check of a repository by its module file and its tree.
unfoldable pub check_identity : Option Error → Result Text → Result Node → Result (Unit {0})
check_identity opened go_mod tree = do
  fail_with opened (λ e. errorf "open repository root: %w" (wrapped e end))
  content ← map_err (λ e. errorf "read go.mod: %w" (wrapped e end)) go_mod
  fail_if (not (has_module_directive content module_path))
      (errorf "go.mod does not declare canonical module %s" (text_arg module_path end))
  fail_if (contains content (text "\nreplace ") || contains content (text "\nreplace ("))
      (errors_new "committed Commerce go.mod must not contain replace directives")
  root ← tree
  (walk visit_identity (text ".") root tt).0

-- The function of the walk of goFiles, from the root path on, with the files so far.
unfoldable pub visit_go : Text → Text → Node → List Text → Visit (List Text)
visit_go root path (directory name unlisted nodes) files =
    if not (path == root) && is_skipped name then skip_dir files else go_on files
visit_go root path (file name kind content) files =
    if extension name == text ".go" then go_on (files ++ path ∷ []) else go_on files

sorted_files : Result (Unit {0}) × List Text → Result (List Text)
sorted_files (ok _, files) = ok (sort files)
sorted_files (err e, files) = err e

unfoldable pub go_files : Text → Result Node → Result (List Text)
unfolding sorted_files
go_files root tree = tree >>= (λ node. sorted_files (walk (visit_go root) root node []))

module _ (sha : Text → ℕ) where
  digest_content : Text → Dict Text ℕ → Result Text → Visit (Dict Text ℕ)
  digest_content path digests (err e) = stop e digests
  digest_content path digests (ok content) = go_on (insert path (sha content) digests)

  unfoldable pub visit_digest : Text → Node → Dict Text ℕ → Visit (Dict Text ℕ)
  unfolding digest_content
  visit_digest path (directory name unlisted nodes) digests = go_on digests
  visit_digest path (file name symbolic_link content) digests =
      stop (errorf "vendor contains symbolic link %q" (quoted path end)) digests
  visit_digest path (file name regular content) digests = digest_content path digests content
  visit_digest path (file name irregular content) digests = digest_content path digests content

  digests_of : Result (Unit {0}) × Dict Text ℕ → Result (Dict Text ℕ)
  digests_of (ok _, digests) = ok digests
  digests_of (err e, digests) = err e

  unfoldable pub tree_digests : Text → Option Error → Result Node → Result (Dict Text ℕ)
  unfolding digests_of
  tree_digests root opened tree = do
    fail_with opened (λ e. errorf "open digest root %q: %w" (quoted root (wrapped e end)))
    node ← tree
    digests_of (walk visit_digest (text ".") node [])

unfoldable pub equal_digests : Dict Text ℕ → Dict Text ℕ → Bool
equal_digests left right =
    nat_beq (length left) (length right)
    && all (λ e. nat_beq (digest_or_zero (lookup e.0 right)) e.1) left
