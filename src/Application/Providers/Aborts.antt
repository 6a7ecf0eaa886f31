-- ===== src/Application/Providers/Aborts.antt =====
-- The failures of the construction: what the coordinator of the lifecycle is asked, and when.
use commerce.Prelude.{Option, none, some, ◌≡◌, refl}
use Prim.Native.String.{String}
use commerce.Go.{Error, Context, Result, ok, err}
use commerce.Application.Configuration.{Snapshot}
use commerce.Application.Providers.Beans.{BeanSource}
use commerce.Application.Providers.Steps.{
  Types, Parts, Overrides, Build, Acquired, then_built, ◌>>=◌, built, abort_with, keep_cleanup,
  acquired, bean, stepped, registration_error, construction_error,
}
use commerce.Application.Providers.{construct_application_dependencies}

module _ {t : Types} (parts : Parts t) (ctx : Context) where
  -- The states that follow one another by registrations that succeed.
  pub data Registered : t.Coordinator → t.Coordinator → Type 0 where
    unregistered : {c : t.Coordinator} → Registered c c
    registered :
        {c d e : t.Coordinator}
        → Registered c d
        → (module_name source : String) → (cleanup : t.Cleanup)
        → parts.register d module_name source cleanup ≡ (none, e)
        → Registered c e

  -- The same, where the last registration may have failed.
  pub data Attempted : t.Coordinator → t.Coordinator → Type 0 where
    attempted : {c d : t.Coordinator} → Registered c d → Attempted c d
    refused :
        {c d e : t.Coordinator}
        → Registered c d
        → (module_name source : String) → (cleanup : t.Cleanup) → (cause : Error)
        → parts.register d module_name source cleanup ≡ (some cause, e)
        → Attempted c e

  pub record Abort (c d : t.Coordinator) (e : Error) : Type 0 where
    at : t.Coordinator
    cause : Error
    before : Attempted c at
    only : parts.abort at ctx cause ≡ (e, d)

  -- How a step ends that starts in `c`.
  pub EndsFrom : {A : Type 0} → t.Coordinator → Result A × t.Coordinator → Type 0
  EndsFrom c (ok a, d) = Registered c d
  EndsFrom c (err e, d) = Abort c d e

  Registered-trans : {c d e : t.Coordinator} → Registered c d → Registered d e → Registered c e
  Registered-trans p unregistered = p
  Registered-trans p (registered q n s z eq) = registered (Registered-trans p q) n s z eq

  Attempted-trans : {c d e : t.Coordinator} → Registered c d → Attempted d e → Attempted c e
  Attempted-trans p (attempted q) = attempted (Registered-trans p q)
  Attempted-trans p (refused q n s z cause eq) = refused (Registered-trans p q) n s z cause eq

  EndsFrom-trans :
      {A : Type 0} {c d : t.Coordinator}
      → Registered c d
      → (r : Result A × t.Coordinator) → EndsFrom d r
      → EndsFrom c r
  unfolding EndsFrom
  EndsFrom-trans p (ok a, e) q = Registered-trans p q
  EndsFrom-trans p (err x, e) q = record {
    at = q.at;
    cause = q.cause;
    before = Attempted-trans p q.before;
    only = q.only;
  }

  -- Every run of the step ends so.
  unfoldable pub Ends : {A : Type 0} → Build t.Coordinator A → Type 0
  Ends m = (c : t.Coordinator) → EndsFrom c (m c)

  then_built-EndsFrom :
      {A B : Type 0}
      → (f : A → Build t.Coordinator B) → ((a : A) → (d : t.Coordinator) → EndsFrom d (f a d))
      → (c : t.Coordinator) → (r : Result A × t.Coordinator) → EndsFrom c r
      → EndsFrom c (then_built f r)
  unfolding EndsFrom
  then_built-EndsFrom f p c (ok a, d) q = EndsFrom-trans q (f a d) (p a d)
  then_built-EndsFrom f p c (err e, d) q = q

  pub bind-Ends :
      {A B : Type 0}
      → (m : Build t.Coordinator A) → (f : A → Build t.Coordinator B) → Ends m
      → ((a : A) → Ends (f a))
      → Ends (m >>= f)
  unfolding Ends ◌>>=◌
  bind-Ends m f p q c = then_built-EndsFrom f q c (m c) (p c)

  pub built-Ends : {A : Type 0} → (a : A) → Ends (built a)
  unfolding Ends EndsFrom built
  built-Ends a c = unregistered

  abort_with-EndsFrom :
      (A : Type 0)
      → (c d : t.Coordinator) → (cause : Error) → Attempted c d
      → EndsFrom c (abort_with parts ctx {A = A} cause d)
  unfolding EndsFrom abort_with
  abort_with-EndsFrom A c d cause p = record { at = d; cause = cause; before = p; only = refl }

  pub stepped-Ends :
      {A : Type 0} → (f : Error → Error) → (r : Result A) → Ends (stepped parts ctx f r)
  unfolding Ends EndsFrom stepped
  stepped-Ends {A} f (ok a) c = unregistered
  stepped-Ends {A} f (err e) c = abort_with-EndsFrom A c c (f e) (attempted unregistered)

  pub keep_cleanup-EndsFrom :
      {A : Type 0}
      → (f : Error → Error) → (module_name source : String) → (a : A) → (z : t.Cleanup)
      → (c : t.Coordinator) → (r : Option Error × t.Coordinator)
      → parts.register c module_name source z ≡ r
      → EndsFrom c (keep_cleanup parts ctx f a r)
  unfolding EndsFrom keep_cleanup
  keep_cleanup-EndsFrom f n s a z c (none, d) eq = registered unregistered n s z eq
  keep_cleanup-EndsFrom {A} f n s a z c (some e, d) eq =
      abort_with-EndsFrom A c d (f e) (refused unregistered n s z e eq)

  acquired-Ends :
      {A : Type 0} (b : BeanSource) → (r : Acquired t.Cleanup A) → Ends (acquired parts ctx b r)
  unfolding Ends EndsFrom acquired
  acquired-Ends {A} b (err e) c =
      abort_with-EndsFrom A c c (construction_error b e) (attempted unregistered)
  acquired-Ends {A} b (ok (a, none)) c = unregistered
  acquired-Ends {A} b (ok (a, some z)) c =
      keep_cleanup-EndsFrom (registration_error b) b.module_name b.source a z c
        (parts.register c b.module_name b.source z) refl

  bean-Ends :
      {A : Type 0} (b : BeanSource)
      → (o : Option (Context → Acquired t.Cleanup A)) → (r : Acquired t.Cleanup A)
      → Ends (bean parts ctx b o r)
  unfolding bean
  bean-Ends b none r = acquired-Ends b r
  bean-Ends b (some f) r = acquired-Ends b (f ctx)

  pub construct_application_dependencies-Ends :
      (overrides : Overrides t)
      → (snapshot : Snapshot)
      → Ends (construct_application_dependencies t parts ctx overrides snapshot)
  unfolding construct_application_dependencies
  construct_application_dependencies-Ends overrides snapshot =
      search (bind-Ends, bean-Ends, stepped-Ends, built-Ends) depth 60
