-- ===== src/Go/Actions/Temporaries.antt =====
-- The temporary files and trees that an action makes and removes.
use commerce.Prelude.{◌≡◌, refl, ap, ◌∙◌, List, [], ◌∷◌, Option, none, some, Text, ==_refl, text_eq}
use commerce.Go.Errors.{Error}
use commerce.Go.Results.{Result, ok, err}
use commerce.Go.Actions.{
  Command, Host, World, Action, without, changing, ◌>>=◌, followed, wrapping, wrap_error, deferring,
  execute, recorded, removed, create_temp, remove, remove_quietly,
}
use commerce.Go.Actions.Preservation.{Preserves}

-- The temporary files and trees that are there.
abbrev pub Left : {W : Type 0} → List Text → World W → Type 0
Left l w = w.temporary ≡ l

-- The removal of a temporary file or tree always succeeds.
abbrev pub Removes : {W : Type 0} → Host W → Type 0
Removes {W} host = (s : W) (path : Text) → (host.remove s path).0 ≡ none

-- A file that is open for writing can always be closed.
abbrev pub Closes : {W : Type 0} → Host W → Type 0
Closes {W} host = (s : W) (path : Text) → (host.close_file s path).0 ≡ ok tt

module _ {W : Type 0} (host : Host W) (l : List Text) where
  pub execute-Left : (c : Command) → Preserves (Left l) (execute host c)
  unfolding execute
  execute-Left c = record { holds = λ w p. p }

  pub changing-Left : {A : Type 0} (f : W → Result A × W) → Preserves (Left l) (changing f)
  unfolding changing
  changing-Left f = record { holds = λ w p. p }

module _ {W : Type 0} (host : Host W) (removes : Removes host) where
  removed-Left :
      (o : Option Error) (s : W) (path : Text) (w : World W)
      → o ≡ none
      → Left (path ∷ []) w
      → Left [] (removed o s path w).1
  unfolding removed
  removed-Left none s path w h p = ap (without path) p ∙ rw (==_refl path) refl
  removed-Left (some e) s path w h p = cc

  pub remove-Left :
      (path : Text) (w : World W) → Left (path ∷ []) w → Left [] (remove host path w).1
  unfolding remove
  remove-Left path w p =
      removed-Left (host.remove w.state path).0 (host.remove w.state path).1 path w
        (removes w.state path) p

  pub remove_quietly-Left :
      (path : Text) (w : World W) → Left (path ∷ []) w → Left [] (remove_quietly host path w).1
  unfolding remove_quietly
  remove_quietly-Left path w p = remove-Left path w p

  pub deferring-Left :
      (path : Text) (last : World W → Option Error × World W) (m : Action W (Unit {0}))
      → ((w : World W) → Left (path ∷ []) w → Left [] (last w).1)
      → Preserves (Left (path ∷ [])) m
      → (w : World W) → Left (path ∷ []) w
      → Left [] (deferring last m w).1
  unfolding deferring
  deferring-Left path last m kl km w p = kl (m w).1 (km.holds w p)

  recorded-Left :
      (f : Error → Error) (r : Result Text) (s : W) (w : World W)
      (next : Text → Action W (Unit {0}))
      → Left [] w
      → ((path : Text) (v : World W) → Left (path ∷ []) v → Left [] (next path v).1)
      → Left [] (followed next (wrap_error f (recorded r s w))).1
  unfolding recorded
  recorded-Left f (ok path) s w next p k = k path _ (ap (λ l. path ∷ l) p)
  recorded-Left f (err e) s w next p k = p

  -- What is made with `create_temp` is gone if all that follows removes it.
  pub create_temp-Left :
      (pattern : Text) (f : Error → Error) (next : Text → Action W (Unit {0}))
      → ((path : Text) (v : World W) → Left (path ∷ []) v → Left [] (next path v).1)
      → Preserves (Left []) (wrapping f (create_temp host pattern) >>= next)
  unfolding create_temp wrapping ◌>>=◌
  create_temp-Left pattern f next k = record {
    holds = λ w p. let (r, s) = host.create_temp w.state pattern in recorded-Left f r s w next p k;
  }
