-- ===== src/Go/Actions/Preservation.antt =====
-- Invariants of the world that an action keeps, by the way it is built.
use commerce.Prelude.{List, [], ◌∷◌, Option, none, some, Text, All, All-append_one}
use commerce.Go.Errors.{Error}
use commerce.Go.Results.{Result, ok, err}
use commerce.Go.Actions.{
  Command, Host, World, Action, lift, followed, ◌>>=◌, wrap_error, wrapping, for_each, deferring,
  cleaned, cleaning, reading, changing, recorded, removed, execute, create_temp, remove,
  remove_quietly,
}

-- Whether it fails or not, the action leaves a world with `P`, if it found one.
pub record Preserves {W A : Type 0} (P : World W → Type 0) (m : Action W A) : Type 0 where
  pub holds : (w : World W) → P w → P (m w).1

wrapped-P :
    {W A : Type 0} (P : World W → Type 0) (f : Error → Error) (q : Result A × World W)
    → P q.1
    → P (wrap_error f q).1
wrapped-P P f (ok a, w) p = p
wrapped-P P f (err e, w) p = p

module _ {W : Type 0} {P : World W → Type 0} where
  pub Preserves-lift : {A : Type 0} (r : Result A) → Preserves P (lift r)
  unfolding lift
  Preserves-lift r = record { holds = λ w p. p }

  pub Preserves-reading : {A : Type 0} (f : W → Result A) → Preserves P (reading f)
  unfolding reading
  Preserves-reading f = record { holds = λ w p. p }

  followed-P :
      {A B : Type 0} (f : A → Action W B) (q : Result A × World W)
      → ((a : A) → Preserves P (f a))
      → P q.1
      → P (followed f q).1
  followed-P f (err e, w) kf p = p
  followed-P f (ok a, w) kf p = (kf a).holds w p

  pub Preserves-bind :
      {A B : Type 0} (m : Action W A) (f : A → Action W B)
      → Preserves P m
      → ((a : A) → Preserves P (f a))
      → Preserves P (m >>= f)
  unfolding ◌>>=◌
  Preserves-bind m f km kf = record { holds = λ w p. followed-P f (m w) kf (km.holds w p) }

  pub Preserves-wrapping :
      {A : Type 0} (f : Error → Error) (m : Action W A) → Preserves P m → Preserves P (wrapping f m)
  unfolding wrapping
  Preserves-wrapping f m km = record { holds = λ w p. wrapped-P P f (m w) (km.holds w p) }

  pub Preserves-for_each :
      {A : Type 0} (l : List A) (body : A → Action W (Unit {0}))
      → ((a : A) → Preserves P (body a))
      → Preserves P (for_each l body)
  unfolding for_each
  Preserves-for_each [] body k = Preserves-lift (ok tt)
  Preserves-for_each (a ∷ l) body k =
      Preserves-bind (body a) (λ _. for_each l body) (k a) (λ _. Preserves-for_each l body k)

  pub Preserves-deferring :
      {A : Type 0} (last : World W → Option Error × World W) (m : Action W A)
      → ((w : World W) → P w → P (last w).1)
      → Preserves P m
      → Preserves P (deferring last m)
  unfolding deferring
  Preserves-deferring last m kl km = record { holds = λ w p. kl (m w).1 (km.holds w p) }

  cleaned-P :
      {A : Type 0} (last : World W → Option Error × World W) (q : Result A × World W)
      → ((w : World W) → P w → P (last w).1)
      → P q.1
      → P (cleaned last q).1
  cleaned-P last (ok a, w) kl p = p
  cleaned-P last (err e, w) kl p = kl w p

  pub Preserves-cleaning :
      {A : Type 0} (last : World W → Option Error × World W) (m : Action W A)
      → ((w : World W) → P w → P (last w).1)
      → Preserves P m
      → Preserves P (cleaning last m)
  unfolding cleaning
  Preserves-cleaning last m kl km = record { holds = λ w p. cleaned-P last (m w) kl (km.holds w p) }

pub ruleset preserving = (
  Preserves-cleaning, Preserves-lift, Preserves-reading, Preserves-bind, Preserves-wrapping,
  Preserves-for_each, Preserves-deferring,
)

-- Every command that ran is in `Q`.
abbrev pub Ran : {W : Type 0} → (Command → Type 0) → World W → Type 0
Ran Q w = All Q w.ran

pub execute-Ran :
    {W : Type 0} (Q : Command → Type 0) (host : Host W) (c : Command)
    → Q c
    → Preserves (Ran Q) (execute host c)
unfolding execute
execute-Ran Q host c q = record { holds = λ w p. All-append_one Q w.ran c p q }

module _ {W : Type 0} (Q : Command → Type 0) where
  pub changing-Ran : {A : Type 0} (f : W → Result A × W) → Preserves (Ran Q) (changing f)
  unfolding changing
  changing-Ran f = record { holds = λ w p. p }

  recorded-Ran : (r : Result Text) (s : W) (w : World W) → Ran Q w → Ran Q (recorded r s w).1
  unfolding recorded
  recorded-Ran (ok path) s w p = p
  recorded-Ran (err e) s w p = p

  pub create_temp-Ran :
      (host : Host W) (pattern : Text) → Preserves (Ran Q) (create_temp host pattern)
  unfolding create_temp
  create_temp-Ran host pattern = record {
    holds = λ w p. let (r, s) = host.create_temp w.state pattern in recorded-Ran r s w p;
  }

  removed-Ran :
      (o : Option Error) (s : W) (path : Text) (w : World W)
      → Ran Q w
      → Ran Q (removed o s path w).1
  unfolding removed
  removed-Ran none s path w p = p
  removed-Ran (some e) s path w p = p

  pub remove-Ran :
      (host : Host W) (path : Text) (w : World W) → Ran Q w → Ran Q (remove host path w).1
  unfolding remove
  remove-Ran host path w p = let (o, s) = host.remove w.state path in removed-Ran o s path w p

  pub remove_quietly-Ran :
      (host : Host W) (path : Text) (w : World W) → Ran Q w → Ran Q (remove_quietly host path w).1
  unfolding remove_quietly
  remove_quietly-Ran host path w p = remove-Ran host path w p
