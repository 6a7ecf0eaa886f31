-- ===== src/Corecompat/Snapshots.antt =====
-- internal/corecompat/contract.go: the state of the repository, a digest for every regular file, and
-- the copy of the application. The digest of a content, `sha256.Sum256`, is a parameter.
pub mod Files
pub mod Unchanged
use Prim.Native.String.{String}
use commerce.Prelude.{
  ℕ, Bool, true, false, not, ◌&&◌, ◌||◌, List, [], ◌∷◌, ◌++◌, Option, none, some, Text, text, Dict,
  insert, text_eq, ◌==◌, if◌then◌else◌,
}
use commerce.Go.{
  Error, errors_new, errorf, end, wrapped, text_arg, quoted, Result, ok, err, fail_if, fail_with,
  ◌>>=◌, ◌>>◌,
}
use commerce.Go.Trees.{
  Node, Kind, regular, symbolic_link, irregular, file, directory, Visit, go_on, skip_dir, stop,
  walk, child,
}
use commerce.Go.Actions.{Host, World, Action}
use commerce.Go.Actions as Actions

module _ (sha : Text → ℕ) where
  state_content : Text → Dict Text ℕ → Result Text → Visit (Dict Text ℕ)
  state_content path state (err e) =
      stop (errorf "read compatibility state %q: %w" (quoted path (wrapped e end))) state
  state_content path state (ok content) = go_on (insert path (sha content) state)

  unfoldable pub visit_state : Text → Node → Dict Text ℕ → Visit (Dict Text ℕ)
  unfolding state_content
  visit_state path (directory name unlisted nodes) state =
      if not (path == text ".") && (name == text ".git") then skip_dir state else go_on state
  visit_state path (file name regular content) state = state_content path state content
  visit_state path (file name symbolic_link content) state = go_on state
  visit_state path (file name irregular content) state = go_on state

  walked_state : Result (Unit {0}) × Dict Text ℕ → Result (Dict Text ℕ)
  walked_state (ok _, state) = ok state
  walked_state (err e, state) = err e

  -- The state, by whether the root opens and by its tree.
  unfoldable pub state_of : Option Error → Result Node → Result (Dict Text ℕ)
  unfolding walked_state
  state_of opened tree = do
    fail_with opened (λ e. errorf "open compatibility repository root: %w" (wrapped e end))
    node ← tree
    walked_state (walk visit_state (text ".") node [])

  unfoldable pub repository_state : {W : Type 0} → Host W → Text → W → Result (Dict Text ℕ)
  repository_state host root s = state_of (host.open_root s root) (host.read_tree s root)

-- The copy of the application, which leaves out the directories of Git and of the vendored code.
module _ {W : Type 0} (host : Host W) (destination : Text) where
  -- What a visit answers after a call that changes the machine, by how the call ended.
  visited : (Error → Error) → Result (Unit {0}) × W → Visit W
  visited f (ok _, s) = go_on s
  visited f (err e, s) = stop (f e) s

  copy_content : Text → W → Result Text → Visit W
  copy_content path s (err e) =
      stop (errorf "read application file %q: %w" (quoted path (wrapped e end))) s
  copy_content path s (ok content) =
      visited (λ e. errorf "write mirror file %q: %w" (quoted path (wrapped e end)))
        (host.write_file s (child destination path) content)

  unsupported : Text → W → Visit W
  unsupported path s =
      stop (errorf "application contains unsupported non-regular file %q" (quoted path end)) s

  unfoldable pub visit_copy : Text → Node → W → Visit W
  unfolding visited copy_content unsupported
  visit_copy path (directory name unlisted nodes) s =
      if not (path == text ".") && ((name == text ".git") || (name == text "vendor"))
      then skip_dir s
      else if path == text "."
      then go_on s
      else visited (λ e. errorf "create mirror directory %q: %w" (quoted path (wrapped e end)))
          (host.make_directory s (child destination path))
  visit_copy path (file name regular content) s = copy_content path s content
  visit_copy path (file name symbolic_link content) s = unsupported path s
  visit_copy path (file name irregular content) s = unsupported path s

  copied : Result Node → W → Result (Unit {0}) × W
  copied (err e) s = (err e, s)
  copied (ok node) s = walk visit_copy (text ".") node s

  opened_both : Text → W → Result (Unit {0})
  opened_both source s =
      fail_with (host.open_root s source)
        (λ e. errorf "open source application root: %w" (wrapped e end))
      >> fail_with (host.open_root s destination)
          (λ e. errorf "open destination application root: %w" (wrapped e end))

  unfoldable pub copy_application : Text → Action W (Unit {0})
  unfolding copied opened_both
  copy_application source =
      Actions.◌>>=◌ (Actions.reading (opened_both source))
        (λ _. Actions.changing (λ s. copied (host.read_tree s source) s))
