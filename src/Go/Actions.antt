-- ===== src/Go/Actions.antt =====
-- Programs that run other programs and touch files, as Go's `os` and `os/exec` let them: a world that
-- every call takes and gives back. The machine behind it is a parameter; what the program did to it,
-- the commands that ran and the temporary files that are there, is recorded beside the machine's state.
pub mod Preservation
pub mod Temporaries
use Prim.Native.String.{String}
use commerce.Prelude.{
  Bool, List, [], ◌∷◌, ◌++◌, Option, none, some, Text, Eq, text_eq, ◌==◌, if◌then◌else◌,
}
use commerce.Go.Errors.{Error, join_nonnil}
use commerce.Go.Trees.{Node}
use commerce.Go.Results.{Result, ok, err, fail_if}

-- One call of `exec.Cmd.Run`, and what it left: how it failed, and what it wrote.
pub record Command : Type 0 where
  pub directory : Text
  pub environment : List Text
  pub executable : Text
  pub arguments : List Text

pub record Answer : Type 0 where
  pub failure : Option Error
  pub stdout : Text
  pub stderr : Text

-- The machine over its state `W`. `elapsed` is what `time.Since` prints at the moment.
pub record Host (W : Type 0) : Type 0 where
  pub environ : List Text
  pub version : Text
  pub elapsed : W → Text
  pub open_root : W → Text → Option Error
  pub execute : W → Command → Answer × W
  pub read_tree : W → Text → Result Node
  pub read_file : W → Text → Result Text
  pub write_file : W → Text → Text → Result (Unit {0}) × W
  pub close_file : W → Text → Result (Unit {0}) × W
  pub make_directory : W → Text → Result (Unit {0}) × W
  pub create_temp : W → Text → Result Text × W
  pub remove : W → Text → Option Error × W

pub record World (W : Type 0) : Type 0 where
  pub state : W
  pub ran : List Command
  pub temporary : List Text

abbrev pub Action : Type 0 → Type 0 → Type 0
Action W A = World W → Result A × World W

-- The result of a body with the error of its deferred call.
abbrev pub joined : {A : Type 0} → Result A → Option Error → Result A
joined (ok a) none = ok a
joined (ok a) (some e) = err e
joined (err e) none = err e
joined (err e) (some f) = err (Error.join_errors e f)

abbrev pub without : Text → List Text → List Text
without path [] = []
without path (p ∷ l) = if p == path then without path l else p ∷ without path l

module _ {W : Type 0} where
  unfoldable pub lift : {A : Type 0} → Result A → Action W A
  lift r w = (r, w)

  -- A call that reads the machine, and one that changes it.
  unfoldable pub reading : {A : Type 0} → (W → Result A) → Action W A
  reading f w = (f w.state, w)

  unfoldable pub changing : {A : Type 0} → (W → Result A × W) → Action W A
  changing f w = let (r, s) = f w.state in (r, record w { state = s })

  -- What follows a call, unless it failed.
  abbrev pub followed : {A B : Type 0} → (A → Action W B) → Result A × World W → Result B × World W
  followed f (err e, w) = (err e, w)
  followed f (ok a, w) = f a w

  infixl 5 ◌>>=◌ ◌>>◌
  unfoldable pub ◌>>=◌ : {A B : Type 0} → Action W A → (A → Action W B) → Action W B
  ◌>>=◌ m f w = followed f (m w)

  abbrev pub ◌>>◌ : {B : Type 0} → Action W (Unit {0}) → Action W B → Action W B
  m >> k = m >>= (λ _. k)

  -- `if err := m; err != nil { return wrap(err) }`.
  abbrev pub wrap_error : {A : Type 0} → (Error → Error) → Result A × World W → Result A × World W
  wrap_error f (ok a, w) = (ok a, w)
  wrap_error f (err e, w) = (err (f e), w)

  unfoldable pub wrapping : {A : Type 0} → (Error → Error) → Action W A → Action W A
  wrapping f m w = wrap_error f (m w)

  -- A loop over a list, which stops at the first error.
  unfoldable pub for_each : {A : Type 0} → List A → (A → Action W (Unit {0})) → Action W (Unit {0})
  for_each [] body = lift (ok tt)
  for_each (a ∷ l) body = body a >>= (λ _. for_each l body)

  -- A call on the way out of a body that failed, whose error is only a warning.
  abbrev pub cleaned :
      {A : Type 0} → (World W → Option Error × World W) → Result A × World W → Result A × World W
  cleaned last (ok a, w) = (ok a, w)
  cleaned last (err e, w) = (err e, (last w).1)

  unfoldable pub cleaning :
      {A : Type 0} → (World W → Option Error × World W) → Action W A → Action W A
  cleaning last m w = cleaned last (m w)

  -- A deferred call, which runs however the body ended and whose error joins its result.
  unfoldable pub deferring :
      {A : Type 0} → (World W → Option Error × World W) → Action W A → Action W A
  deferring last m w = let (r, w') = m w in let (o, w'') = last w' in (joined r o, w'')

  -- What a call leaves, which made or removed a temporary file or tree.
  recorded : Result Text → W → World W → Result Text × World W
  recorded (ok path) s w = (ok path, record w { state = s; temporary = path ∷ w.temporary })
  recorded (err e) s w = (err e, record w { state = s })

  removed : Option Error → W → Text → World W → Option Error × World W
  removed none s path w = (none, record w { state = s; temporary = without path w.temporary })
  removed (some e) s path w = (some e, record w { state = s })

module _ {W : Type 0} (host : Host W) where
  -- The call of a program, whether it fails or not.
  unfoldable pub execute : Command → Action W Answer
  execute c w =
      let (answer, s) = host.execute w.state c in
      (ok answer, record w { state = s; ran = w.ran ++ c ∷ [] })

  -- `os.CreateTemp` or `os.MkdirTemp` with a pattern.
  unfoldable pub create_temp : Text → Action W Text
  unfolding recorded
  create_temp pattern w = let (r, s) = host.create_temp w.state pattern in recorded r s w

  -- `os.Remove` or `os.RemoveAll` of a temporary file or tree.
  unfoldable pub remove : Text → World W → Option Error × World W
  unfolding removed
  remove path w = let (o, s) = host.remove w.state path in removed o s path w

  -- The same, with a warning in place of the error.
  unfoldable pub remove_quietly : Text → World W → Option Error × World W
  remove_quietly path w = (none, (remove path w).1)
