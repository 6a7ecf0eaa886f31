-- ===== src/Qualitygate/Files/Identity.antt =====
-- Which trees the identity walk accepts.
use commerce.Prelude.{
  ◌≡◌, refl, ap, sym, ◌∙◌, ◌↔◌, inl, inr, Bool, true, false, not, ◌&&◌, ◌||◌, Option, none, some,
  Text, text, contains, text_eq, ◌==◌, Bool-cases, if◌then◌else◌,
}
use commerce.Go.{Error, errors_new, errorf, end, text_arg, Result, ok, err, fail_if, ◌>>◌}
use commerce.Qualitygate.Subprocesses.{module_path}
use commerce.Go.Trees.{
  Node, Nodes, file, directory, no_nodes, node_then, go_on, skip_dir, walk, walk_all, after_file,
  after_directory, after_entry, name_of, child,
}
use commerce.Qualitygate.Files.{
  identity_file, identity_content, is_skipped, legacy_module_path, visit_identity, check_identity,
  has_module_directive,
}

-- A tree below a path in which every directory that is not left out is listed, and every identity file
-- can be read and does not name the legacy module.
unfoldable mutual
  pub Clean : Text → Node → Type 0
  Clean path (file name kind content) =
      identity_file name ≡ true
      → (found : Text) × (content ≡ ok found) × (contains found legacy_module_path ≡ false)
  Clean path (directory name unlisted nodes) =
      (not (path == text ".") && is_skipped name) ≡ false → (unlisted ≡ none) × AllClean path nodes

  pub AllClean : Text → Nodes → Type 0
  AllClean path no_nodes = Unit {0}
  AllClean path (node_then node rest) = Clean (child path (name_of node)) node × AllClean path rest

-- Whether the walk does not enter a directory.
abbrev left_out : Text → Text → Bool
left_out path name = not (path == text ".") && is_skipped name

entered_iff :
    (b : Bool) (unlisted : Option Error) (below : Unit {0} → Result (Unit {0}) × Unit {0})
    → ((after_directory unlisted below (if b then skip_dir tt else go_on tt)).0 ≡ ok tt)
      ↔ (b ≡ false → (unlisted ≡ none) × ((below tt).0 ≡ ok tt))
entered_iff true unlisted below = (λ h f. cc, λ h. refl)
entered_iff false none below = (λ h f. (refl, h), λ h. (h refl).1)
entered_iff false (some e) below = (λ h f. cc, λ h. cc ((h refl).0))

read_iff :
    (path : Text) (b : Bool) (content : Result Text)
    → ((after_file (if b then identity_content path content else go_on tt)).0 ≡ ok tt) ↔ (
        b ≡ true
        → (found : Text) × (content ≡ ok found) × (contains found legacy_module_path ≡ false))
unfolding identity_content
read_iff path false content = (λ h f. cc, λ h. refl)
read_iff path true (err e) = (λ h f. cc, λ h. cc ((h refl).1))
read_iff path true (ok content) = elim (Bool-cases (contains content legacy_module_path)) [
  | inl named ↦ (λ h f. cc (named, h), λ h. cc (named, (h refl).1, (h refl).2))
  | inr free ↦ (λ h f. (content, refl, free), λ h. rw free refl)
]

both_iff :
    (q : Result (Unit {0}) × Unit {0}) (next : Unit {0} → Result (Unit {0}) × Unit {0})
    → ((after_entry next q).0 ≡ ok tt) ↔ ((q.0 ≡ ok tt) × ((next tt).0 ≡ ok tt))
both_iff (ok _, s) next = (λ h. (refl, h), λ h. h.1)
both_iff (err e, s) next = (λ h. cc, λ h. cc (h.0))

mutual
  unfolding walk visit_identity Clean

  walk_sound :
      (path : Text) (node : Node) → (walk visit_identity path node tt).0 ≡ ok tt → Clean path node
  walk_sound path (file name kind content) h = (read_iff path (identity_file name) content).0 h
  walk_sound path (directory name unlisted nodes) h = λ f.
      let (listed, below) =
        (entered_iff (left_out path name) unlisted (walk_all visit_identity path nodes)).0 h f in
      (listed, walk_all_sound path nodes below)

  walk_all_sound :
      (path : Text) (nodes : Nodes)
      → (walk_all visit_identity path nodes tt).0 ≡ ok tt
      → AllClean path nodes
  walk_all_sound path no_nodes h = tt
  walk_all_sound path (node_then node rest) h =
      let (first, next) =
        (both_iff (walk visit_identity (child path (name_of node)) node tt)
            (walk_all visit_identity path rest)).0
          h in
      (walk_sound (child path (name_of node)) node first, walk_all_sound path rest next)

mutual
  unfolding walk visit_identity Clean

  walk_complete :
      (path : Text) (node : Node) → Clean path node → (walk visit_identity path node tt).0 ≡ ok tt
  walk_complete path (file name kind content) c = (read_iff path (identity_file name) content).1 c
  walk_complete path (directory name unlisted nodes) c =
      (entered_iff (left_out path name) unlisted (walk_all visit_identity path nodes)).1
        (λ f. ((c f).0, walk_all_complete path nodes (c f).1))

  walk_all_complete :
      (path : Text) (nodes : Nodes)
      → AllClean path nodes
      → (walk_all visit_identity path nodes tt).0 ≡ ok tt
  walk_all_complete path no_nodes c = refl
  walk_all_complete path (node_then node rest) c =
      (both_iff (walk visit_identity (child path (name_of node)) node tt)
          (walk_all visit_identity path rest)).1
        (walk_complete (child path (name_of node)) node c.0, walk_all_complete path rest c.1)

-- A module file that names the module and replaces none.
abbrev pub IsCanonical : Text → Type 0
IsCanonical content =
    (has_module_directive content module_path ≡ true)
    × (contains content (text "\nreplace ") ≡ false)
    × (contains content (text "\nreplace (") ≡ false)

passing :
    (named first second : Bool) (e f : Error) (r : Result (Unit {0}))
    → ((fail_if (not named) e >> (fail_if (first || second) f >> r)) ≡ ok tt)
      ↔ ((named ≡ true) × (first ≡ false) × (second ≡ false) × (r ≡ ok tt))
passing true false false e f r = (λ h. (refl, refl, refl, h), λ h. h.3)
passing true false true e f r = (λ h. cc, λ h. cc)
passing true true second e f r = (λ h. cc, λ h. cc)
passing false first second e f r = (λ h. cc, λ h. cc)

complete :
    (content : Text) (root : Node)
    → has_module_directive content module_path ≡ true
    → contains content (text "\nreplace ") ≡ false
    → contains content (text "\nreplace (") ≡ false
    → (walk visit_identity (text ".") root tt).0 ≡ ok tt
    → check_identity none (ok content) (ok root) ≡ ok tt
unfolding check_identity
complete content root named first second walked = rw (named, first, second) walked

abbrev legacy_error : Error
legacy_error = errors_new "committed Commerce go.mod must not contain replace directives"

abbrev module_error : Error
module_error = errorf "go.mod does not declare canonical module %s" (text_arg module_path end)

content_iff :
    (content : Text) (r : Result (Unit {0}))
    → ((fail_if (not (has_module_directive content module_path)) module_error
          >> (fail_if
                (contains content (text "\nreplace ") || contains content (text "\nreplace ("))
                legacy_error
              >> r))
        ≡ ok tt)
      ↔ (IsCanonical content × (r ≡ ok tt))
content_iff content r =
    let (to, from) =
      passing (has_module_directive content module_path) (contains content (text "\nreplace "))
        (contains content (text "\nreplace (")) module_error legacy_error r in
    (λ h. let (a, b, c, d) = to h in ((a, b, c), d), λ ((a, b, c), d). from (a, b, c, d))

-- The check of the identity passes exactly for a root that can be opened, a module file that
-- can be read, names the module and replaces none, and a tree that can be read and in which every directory that is not left out can
-- be listed and no identity file is unreadable or names the legacy module.
pub check_identity_iff :
    (opened : Option Error) (go_mod : Result Text) (tree : Result Node)
    → (check_identity opened go_mod tree ≡ ok tt) ↔ (
        (content : Text) × (root : Node) × (opened ≡ none)
        × (go_mod ≡ ok content)
        × (tree ≡ ok root)
        × IsCanonical content
        × Clean (text ".") root)
unfolding check_identity
check_identity_iff (some e) go_mod tree = (λ h. cc, λ (_, _, h, _, _, _, _). cc)
check_identity_iff none (err e) tree = (λ h. cc, λ (_, _, _, h, _, _, _). cc)
check_identity_iff none (ok content) (err e) =
    (λ h. cc ((content_iff content (err e)).0 h).1, λ (_, _, _, _, h, _, _). cc)
check_identity_iff none (ok content) (ok root) = (
  λ h.
      let (canonical, walked) =
        (content_iff content (walk visit_identity (text ".") root tt).0).0 h in
      (content, root, refl, refl, refl, canonical, walk_sound (text ".") root walked),
  λ (c, r, _, ec, er, (named, first, second), clean).
      let same : content ≡ c = cc in
      let tree_same : r ≡ root = cc in
      complete content root (ap (λ t. has_module_directive t module_path) same ∙ named)
        (ap (λ t. contains t (text "\nreplace ")) same ∙ first)
        (ap (λ t. contains t (text "\nreplace (")) same ∙ second)
        (walk_complete (text ".") root (rw (sym tree_same) clean)),
)
