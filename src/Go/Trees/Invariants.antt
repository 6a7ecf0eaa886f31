-- ===== src/Go/Trees/Invariants.antt =====
-- Invariants of the state that a walk hands from entry to entry.
use commerce.Prelude.{Option, none, some, Text}
use commerce.Go.Errors.{Error}
use commerce.Go.Results.{Result, ok, err}
use commerce.Go.Trees.{
  Node, Nodes, file, directory, no_nodes, node_then, Visit, go_on, skip_dir, stop, name_of, child,
  after_file, after_directory, after_entry, walk, walk_all,
}

-- What a visit answers has `P`, whatever the walk does next.
abbrev pub Answers {ℓ} : {S : Type 0} → (S → Type ℓ) → Visit S → Type ℓ
Answers P (go_on s) = P s
Answers P (skip_dir s) = P s
Answers P (stop e s) = P s

module _ {ℓ} {S : Type 0} (P : S → Type ℓ) where
  after_file-P : (v : Visit S) → Answers P v → P (after_file v).1
  after_file-P (go_on s) p = p
  after_file-P (skip_dir s) p = p
  after_file-P (stop e s) p = p

  after_directory-P :
      (unlisted : Option Error) (below : S → Result (Unit {0}) × S) (v : Visit S)
      → ((s : S) → P s → P (below s).1)
      → Answers P v
      → P (after_directory unlisted below v).1
  after_directory-P none below (go_on s) k p = k s p
  after_directory-P (some e) below (go_on s) k p = p
  after_directory-P none below (skip_dir s) k p = p
  after_directory-P (some e) below (skip_dir s) k p = p
  after_directory-P none below (stop e s) k p = p
  after_directory-P (some f) below (stop e s) k p = p

  after_entry-P :
      (next : S → Result (Unit {0}) × S) (q : Result (Unit {0}) × S)
      → ((s : S) → P s → P (next s).1)
      → P q.1
      → P (after_entry next q).1
  after_entry-P next (ok _, s) k p = k s p
  after_entry-P next (err e, s) k p = p

module _ {ℓ} {S : Type 0} (P : S → Type ℓ) (visit : Text → Node → S → Visit S)
    (keeps : (path : Text) (node : Node) (s : S) → P s → Answers P (visit path node s)) where
  mutual
    unfolding walk

    -- A walk keeps what every visit keeps.
    pub walk-P : (path : Text) (node : Node) (s : S) → P s → P (walk visit path node s).1
    walk-P path (file name kind content) s p =
        after_file-P P (visit path (file name kind content) s)
          (keeps path (file name kind content) s p)
    walk-P path (directory name unlisted nodes) s p =
        after_directory-P P unlisted (walk_all visit path nodes)
          (visit path (directory name unlisted nodes) s) (walk_all-P path nodes)
          (keeps path (directory name unlisted nodes) s p)

    walk_all-P : (path : Text) (nodes : Nodes) (s : S) → P s → P (walk_all visit path nodes s).1
    walk_all-P path no_nodes s p = p
    walk_all-P path (node_then node rest) s p =
        after_entry-P P (walk_all visit path rest) (walk visit (child path (name_of node)) node s)
          (walk_all-P path rest) (walk-P (child path (name_of node)) node s p)
