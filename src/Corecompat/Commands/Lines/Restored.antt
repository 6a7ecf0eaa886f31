-- ===== src/Corecompat/Commands/Lines/Restored.antt =====
-- What the verification of a boundary leaves of the repository (internal/corecompat/contract.go).
use commerce.Prelude.{
  All, text, ℕ, ◌≡◌, ◌≢◌, refl, ap, sym, ◌∙◌, Bool, Bool-cases, inl, inr, true, false, Option, none,
  some, Text, Dict, lookup, text_eq, if◌then◌else◌,
}
use commerce.Go.{Error, Result, ok, err}
use commerce.Go.Actions.{Host, World, Action, reading, deferring, joined, followed, ◌>>=◌}
use commerce.Corecompat.{Contract, Boundary}
use commerce.Corecompat.Environments.{maps_equal}
use commerce.Go.Trees.{Node}
use commerce.Corecompat.Snapshots.{repository_state}
use commerce.Corecompat.Snapshots.Files.{files, digest_at, IsRead, state_of-files}
use commerce.Corecompat.Snapshots.Unchanged.{IsState, state_of-P, maps_equal_iff}
use commerce.Corecompat.Commands.Lines.{
  Decoders, compared, compare_state, modified_error, run_boundary,
}

compared-none :
    (before : Dict Text ℕ) (r : Result (Dict Text ℕ))
    → compared before r ≡ none
    → (after : Dict Text ℕ) × (r ≡ ok after) × (maps_equal before after ≡ true)
unfolding compared
compared-none before (err e) h = cc
compared-none before (ok after) h = elim (Bool-cases (maps_equal before after)) [
  | inl e ↦ (after, refl, e)
  | inr e ↦ cc (some_none (maps_equal before after) e h)
]
  where
    some_none :
        (b : Bool) → b ≡ false → (if b then none else some modified_error) ≡ none → true ≡ false
    some_none true e h = cc
    some_none false e h = cc

joined-ok :
    (r : Result (Unit {0})) (o : Option Error) → joined r o ≡ ok tt → (r ≡ ok tt) × (o ≡ none)
joined-ok (ok _) none h = (refl, refl)
joined-ok (ok _) (some e) h = cc
joined-ok (err e) none h = cc
joined-ok (err e) (some f) h = cc

module _ {W : Type 0} (host : Host W) (decoders : Decoders) (sha : Text → ℕ) (root : Text) where
  -- The trees of the repository in two worlds have the same regular files outside the directories of
  -- Git, by their paths and digests, and all these files could be read.
  abbrev pub Unchanged : World W → World W → Type 0
  Unchanged w u =
      (before : Node) × (after : Node) × (host.read_tree w.state root ≡ ok before)
      × (host.read_tree u.state root ≡ ok after)
      × All (IsRead sha) (files (text ".") before)
      × All (IsRead sha) (files (text ".") after)
      × ((path : Text)
          → digest_at sha path (files (text ".") before) none
            ≡ digest_at sha path (files (text ".") after) none)

  same_files :
      (w u : World W) (before after : Dict Text ℕ)
      → repository_state sha host root w.state ≡ ok before
      → repository_state sha host root u.state ≡ ok after
      → ((path : Text) → lookup path before ≡ lookup path after)
      → Unchanged w u
  unfolding repository_state
  same_files w u before after first last same =
      let (b, read_b, all_b, at_b) =
        state_of-files sha (host.open_root w.state root) (host.read_tree w.state root) before
          first in
      let (a, read_a, all_a, at_a) =
        state_of-files sha (host.open_root u.state root) (host.read_tree u.state root) after last in
      (b, a, read_b, read_a, all_b, all_a, λ path. sym (at_b path) ∙ same path ∙ at_a path)

  repository_state-IsState :
      ((content : Text) → sha content ≢ 0)
      → (s : W) (d : Dict Text ℕ) → repository_state sha host root s ≡ ok d
      → IsState d
  unfolding repository_state
  repository_state-IsState n s d h =
      state_of-P sha n (host.open_root s root) (host.read_tree s root) d h

  deferring-Unchanged :
      ((content : Text) → sha content ≢ 0)
      → (m : Action W (Unit {0})) (w u : World W) (r : Result (Dict Text ℕ))
      → repository_state sha host root w.state ≡ r
      → followed (λ before. deferring (compare_state host sha root before) m) (r, w) ≡ (ok tt, u)
      → Unchanged w u
  unfolding deferring compare_state
  deferring-Unchanged n m w u (err e) g h = cc
  deferring-Unchanged n m w u (ok before) g h =
      let left = (m w).1 in
      let (passed, none_) =
        joined-ok (m w).0 (compared before (repository_state sha host root left.state))
          (ap (λ q. q.0) h) in
      let (after, read, equal) = compared-none before _ none_ in
      let first = repository_state-IsState n w.state before g in
      let last = repository_state-IsState n left.state after read in
      let ended : left ≡ u = ap (λ q. q.1) h in
      same_files w u before after g
        (ap (λ v. repository_state sha host root v.state) (sym ended) ∙ read)
        ((maps_equal_iff before after first.0 last.0 first.1).0 equal)

  -- A boundary that passes leaves the repository as it was: its tree could be read before and after, with
  -- every regular file outside the directories of Git; a path has such a file after exactly if it had
  -- one before, and with the same digest, if no content has the digest of zeros.
  pub run_boundary-Unchanged :
      ((content : Text) → sha content ≢ 0)
      → (contract : Contract) (boundary : Boundary) (w u : World W)
      → run_boundary host decoders sha root contract boundary w ≡ (ok tt, u)
      → Unchanged w u
  unfolding run_boundary ◌>>=◌ reading
  run_boundary-Unchanged n contract boundary w u h =
      deferring-Unchanged n _ w u (repository_state sha host root w.state) refl h
