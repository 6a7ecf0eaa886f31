-- ===== src/Go/Trees.antt =====
-- A directory tree and the walk of `fs.WalkDir` over it, in the order of its entries.
pub mod Invariants
use commerce.Prelude.{
  Bool, true, false, List, [], ◌∷◌, ◌++◌, Option, none, some, Text, text, is_empty, ◌&&◌, nat_beq,
  Eq, text_eq, ◌==◌, if◌then◌else◌,
}
use commerce.Go.Errors.{Error}
use commerce.Go.Results.{Result, ok, err}

pub data Kind : Type 0 where
  regular symbolic_link irregular : Kind

-- A file has a name, a kind and what a read of it gives; a directory a name, the error of listing it,
-- if there is one, and its entries.
mutual
  pub data Node : Type 0 where
    file : Text → Kind → Result Text → Node
    directory : Text → Option Error → Nodes → Node

  pub data Nodes : Type 0 where
    no_nodes : Nodes
    node_then : Node → Nodes → Nodes

-- What the function of a walk answers at an entry, with its state.
pub data Visit (S : Type 0) : Type 0 where
  go_on : S → Visit S
  skip_dir : S → Visit S
  stop : Error → S → Visit S

abbrev pub name_of : Node → Text
name_of (file name kind content) = name
name_of (directory name unlisted nodes) = name

-- `path.Join`, below the root `.` or a directory.
abbrev pub child : Text → Text → Text
child path name = if path == text "." then name else path ++ b'/' ∷ name

module _ {S : Type 0} where
  abbrev pub after_file : Visit S → Result (Unit {0}) × S
  after_file (go_on s) = (ok tt, s)
  after_file (skip_dir s) = (ok tt, s)
  after_file (stop e s) = (err e, s)

  -- What follows the visit of a directory, by whether it can be listed, and of an entry.
  abbrev pub after_directory :
      Option Error → (S → Result (Unit {0}) × S) → Visit S → Result (Unit {0}) × S
  after_directory none below (go_on s) = below s
  after_directory (some e) below (go_on s) = (err e, s)
  after_directory unlisted below (skip_dir s) = (ok tt, s)
  after_directory unlisted below (stop e s) = (err e, s)

  abbrev pub after_entry :
      (S → Result (Unit {0}) × S) → Result (Unit {0}) × S → Result (Unit {0}) × S
  after_entry next (ok _, s) = next s
  after_entry next (err e, s) = (err e, s)

  unfoldable mutual
    pub walk : (Text → Node → S → Visit S) → Text → Node → S → Result (Unit {0}) × S
    walk visit path (file name kind content) s = after_file (visit path (file name kind content) s)
    walk visit path (directory name unlisted nodes) s =
        after_directory unlisted (walk_all visit path nodes)
          (visit path (directory name unlisted nodes) s)

    pub walk_all : (Text → Node → S → Visit S) → Text → Nodes → S → Result (Unit {0}) × S
    walk_all visit path no_nodes s = (ok tt, s)
    walk_all visit path (node_then node rest) s =
        after_entry (walk_all visit path rest) (walk visit (child path (name_of node)) node s)

-- `filepath.Ext` of a name: from its last dot on.
abbrev pub extension : Text → Text
extension [] = []
extension (c ∷ s) =
    let rest = extension s in if is_empty rest && nat_beq c b'.' then c ∷ s else rest
