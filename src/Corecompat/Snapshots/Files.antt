-- ===== src/Corecompat/Snapshots/Files.antt =====
-- The state of the repository, described by the files of its tree (internal/corecompat/contract.go).
use commerce.Prelude.{
  ℕ, ◌≡◌, refl, ap, sym, ◌∙◌, Bool, true, false, not, ◌&&◌, List, [], ◌∷◌, ◌++◌, All, Option, none,
  some, Text, text, Dict, lookup, insert, lookup-insert, text_eq, ◌==◌, if◌then◌else◌,
}
use commerce.Go.{Error, Result, ok, err}
use commerce.Go.Trees.{
  Node, Nodes, regular, symbolic_link, irregular, file, directory, no_nodes, node_then, go_on,
  skip_dir, walk, walk_all, child, name_of, after_directory, after_entry,
}
use commerce.Corecompat.Snapshots.{visit_state, state_content, walked_state, state_of}

-- The regular files outside the directories of Git, with their paths and what a read of them gives, in
-- the order of the entries.
unfoldable mutual
  pub files : Text → Node → List (Text × Result Text)
  files path (file name regular content) = (path, content) ∷ []
  files path (file name symbolic_link content) = []
  files path (file name irregular content) = []
  files path (directory name unlisted nodes) =
      let below = files_all path nodes in
      if not (path == text ".") && (name == text ".git") then [] else below

  pub files_all : Text → Nodes → List (Text × Result Text)
  files_all path no_nodes = []
  files_all path (node_then node rest) =
      files (child path (name_of node)) node ++ files_all path rest

module _ (sha : Text → ℕ) where
  -- The digest of the file at a path, if there is one; a path names one file.
  abbrev pub digest_at : Text → List (Text × Result Text) → Option ℕ → Option ℕ
  digest_at path [] found = found
  digest_at path ((p, ok content) ∷ rest) found =
      digest_at path rest (if p == path then some (sha content) else found)
  digest_at path ((p, err e) ∷ rest) found = digest_at path rest found

  -- A file whose content was read.
  abbrev pub IsRead : Text × Result Text → Type 0
  IsRead f = (content : Text) × (f.1 ≡ ok content)

  -- What a state has after files were read into it.
  abbrev Reads : List (Text × Result Text) → Dict Text ℕ → Dict Text ℕ → Type 0
  Reads l d d' = All IsRead l × ((path : Text) → lookup path d' ≡ digest_at path l (lookup path d))

  digest_at-append :
      (path : Text) (l k : List (Text × Result Text)) (o : Option ℕ)
      → digest_at path (l ++ k) o ≡ digest_at path k (digest_at path l o)
  digest_at-append path [] k o = refl
  digest_at-append path ((p, ok content) ∷ l) k o = digest_at-append path l k _
  digest_at-append path ((p, err e) ∷ l) k o = digest_at-append path l k o

  All-append : (l k : List (Text × Result Text)) → All IsRead l → All IsRead k → All IsRead (l ++ k)
  All-append [] k a b = b
  All-append (f ∷ l) k (a, rest) b = (a, All-append l k rest b)

  Reads-trans :
      (l k : List (Text × Result Text)) (d e f : Dict Text ℕ)
      → Reads l d e
      → Reads k e f
      → Reads (l ++ k) d f
  Reads-trans l k d e f (a, p) (b, q) = (
    All-append l k a b,
    λ path.
        q path ∙ ap (digest_at path k) (p path) ∙ sym (digest_at-append path l k (lookup path d)),
  )

  directory-Reads :
      (hidden : Bool) (unlisted : Option Error)
      (below : Dict Text ℕ → Result (Unit {0}) × Dict Text ℕ) (l : List (Text × Result Text))
      (d d' : Dict Text ℕ)
      → ((e : Dict Text ℕ) → below d ≡ (ok tt, e) → Reads l d e)
      → after_directory unlisted below (if hidden then skip_dir d else go_on d) ≡ (ok tt, d')
      → Reads (if hidden then [] else l) d d'
  directory-Reads true none below l d d' reads h = (tt, λ k. ap (λ p. lookup k p.1) (sym h))
  directory-Reads true (some e) below l d d' reads h = (tt, λ k. ap (λ p. lookup k p.1) (sym h))
  directory-Reads false none below l d d' reads h = reads d' h
  directory-Reads false (some e) below l d d' reads h = cc h

  entry-Reads :
      (next : Dict Text ℕ → Result (Unit {0}) × Dict Text ℕ) (q : Result (Unit {0}) × Dict Text ℕ)
      (l k : List (Text × Result Text)) (d d' : Dict Text ℕ)
      → ((e : Dict Text ℕ) → q ≡ (ok tt, e) → Reads l d e)
      → ((e : Dict Text ℕ) → next e ≡ (ok tt, d') → Reads k e d')
      → after_entry next q ≡ (ok tt, d')
      → Reads (l ++ k) d d'
  entry-Reads next (ok _, e) l k d d' first others h =
      Reads-trans l k d e d' (first e refl) (others e h)
  entry-Reads next (err f, e) l k d d' first others h = cc h

  mutual
    unfolding walk walk_all files files_all visit_state state_content

    walk-Reads :
        (path : Text) (node : Node) (d d' : Dict Text ℕ)
        → walk (visit_state sha) path node d ≡ (ok tt, d')
        → Reads (files path node) d d'
    walk-Reads path (file name regular (ok content)) d d' h =
        let ended : insert path (sha content) d ≡ d' = ap (λ p. p.1) h in
        (
          ((content, refl), tt),
          λ k. ap (lookup k) (sym ended) ∙ lookup-insert path k (sha content) d,
        )
    walk-Reads path (file name regular (err e)) d d' h = cc h
    walk-Reads path (file name symbolic_link content) d d' h =
        (tt, λ k. ap (lookup k) (sym (ap (λ p. p.1) h)))
    walk-Reads path (file name irregular content) d d' h =
        (tt, λ k. ap (lookup k) (sym (ap (λ p. p.1) h)))
    walk-Reads path (directory name unlisted nodes) d d' h =
        directory-Reads (not (path == text ".") && (name == text ".git")) unlisted
          (walk_all (visit_state sha) path nodes) (files_all path nodes) d d'
          (λ e. walk_all-Reads path nodes d e) h

    walk_all-Reads :
        (path : Text) (nodes : Nodes) (d d' : Dict Text ℕ)
        → walk_all (visit_state sha) path nodes d ≡ (ok tt, d')
        → Reads (files_all path nodes) d d'
    walk_all-Reads path no_nodes d d' h = (tt, λ k. ap (lookup k) (sym (ap (λ p. p.1) h)))
    walk_all-Reads path (node_then node rest) d d' h =
        entry-Reads (walk_all (visit_state sha) path rest)
          (walk (visit_state sha) (child path (name_of node)) node d)
          (files (child path (name_of node)) node) (files_all path rest) d d'
          (λ e. walk-Reads (child path (name_of node)) node d e)
          (λ e. walk_all-Reads path rest e d') h

  walked_state-ok :
      (q : Result (Unit {0}) × Dict Text ℕ) (d : Dict Text ℕ)
      → walked_state sha q ≡ ok d
      → q ≡ (ok tt, d)
  unfolding walked_state
  walked_state-ok (ok _, c) d h = cc h
  walked_state-ok (err e, c) d h = cc h

  -- A state of the repository has the digest of each file of its tree, all of which were read, and no
  -- other path.
  pub state_of-files :
      (opened : Option Error) (tree : Result Node) (d : Dict Text ℕ)
      → state_of sha opened tree ≡ ok d
      → (node : Node) × (tree ≡ ok node)
        × All IsRead (files (text ".") node)
        × ((path : Text) → lookup path d ≡ digest_at path (files (text ".") node) none)
  unfolding state_of lookup
  state_of-files (some e) tree d h = cc h
  state_of-files none (err e) d h = cc h
  state_of-files none (ok node) d h =
      let (read, same) = walk-Reads (text ".") node [] d (walked_state-ok _ d h) in
      (node, refl, read, same)
