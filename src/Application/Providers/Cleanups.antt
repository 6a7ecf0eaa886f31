-- ===== src/Application/Providers/Cleanups.antt =====
-- The cleanups that a construction without overrides leaves with the coordinator of the lifecycle.
use commerce.Prelude.{Option, none, some, ◌≡◌, refl}
use commerce.Go.{Error, Context, Result, ok, err}
use commerce.Application.Configuration.{Snapshot}
use commerce.Application.Providers.Beans.{BeanSource, database_bean}
use commerce.Application.Providers.Steps.{
  Types, Parts, Build, then_built, ◌>>=◌, built, abort_with, keep_cleanup, acquired, bean, stepped,
  plain, without_cleanup, with_cleanup, no_overrides,
}
use commerce.Application.Providers.{Dependencies, construct_application_dependencies}

-- What a step that succeeds has as its value and next state.
pub Ensures : {C A : Type 0} → (A → C → Type 0) → Result A × C → Type 0
Ensures P (ok a, d) = P a d
Ensures P (err e, d) = Unit {0}

then_built-Ensures :
    {C A B : Type 0} (P : B → C → Type 0)
    → (f : A → Build C B) → (r : Result A × C) → Ensures (λ a d. Ensures P (f a d)) r
    → Ensures P (then_built f r)
unfolding Ensures
then_built-Ensures P f (ok a, d) p = p
then_built-Ensures P f (err e, d) p = tt

pub Ensures-map :
    {C A : Type 0} {P Q : A → C → Type 0}
    → (r : Result A × C) → Ensures P r
    → ((a : A) → (d : C) → P a d → Q a d)
    → Ensures Q r
unfolding Ensures
Ensures-map (ok a, d) p f = f a d p
Ensures-map (err e, d) p f = tt

pub bind-Ensures :
    {C A B : Type 0} (P : B → C → Type 0)
    → (m : Build C A) → (f : A → Build C B) → (c : C) → Ensures (λ a d. Ensures P (f a d)) (m c)
    → Ensures P ((m >>= f) c)
unfolding ◌>>=◌
bind-Ensures P m f c = then_built-Ensures P f (m c)

module _ {t : Types} (parts : Parts t) (ctx : Context) where
  stepped-Ensures :
      {A : Type 0} (P : A → t.Coordinator → Type 0)
      → (f : Error → Error) → (r : Result A) → (c : t.Coordinator) → ((a : A) → P a c)
      → Ensures P (stepped parts ctx f r c)
  unfolding Ensures stepped abort_with
  stepped-Ensures P f (ok a) c p = p a
  stepped-Ensures P f (err e) c p = tt

  plain-Ensures :
      {A : Type 0} (P : A → t.Coordinator → Type 0)
      → (b : BeanSource) → (a : A) → (c : t.Coordinator) → P a c
      → Ensures P (bean parts ctx b none (plain a) c)
  unfolding Ensures bean acquired
  plain-Ensures P b a c p = p

  without_cleanup-Ensures :
      {A : Type 0} (P : A → t.Coordinator → Type 0)
      → (b : BeanSource) → (r : Result A) → (c : t.Coordinator) → ((a : A) → P a c)
      → Ensures P (bean parts ctx b none (without_cleanup b r) c)
  unfolding Ensures bean acquired abort_with
  without_cleanup-Ensures P b (ok a) c p = p a
  without_cleanup-Ensures P b (err e) c p = tt

  pub keep_cleanup-Ensures :
      {A : Type 0} (P : A → t.Coordinator → Type 0)
      → (f : Error → Error) → (a : A) → (r : Option Error × t.Coordinator)
      → ((d : t.Coordinator) → r ≡ (none, d) → P a d)
      → Ensures P (keep_cleanup parts ctx f a r)
  unfolding Ensures keep_cleanup abort_with
  keep_cleanup-Ensures P f a (none, d) p = p d refl
  keep_cleanup-Ensures P f a (some e, d) p = tt

  with_cleanup-Ensures :
      {A : Type 0} (P : A → t.Coordinator → Type 0)
      → (b : BeanSource) → (close : A → t.Cleanup) → (r : Result A) → (c : t.Coordinator)
      → ((a : A)
          → (d : t.Coordinator) → parts.register c b.module_name b.source (close a) ≡ (none, d)
          → P a d)
      → Ensures P (bean parts ctx b none (with_cleanup b close r) c)
  unfolding Ensures bean acquired abort_with
  with_cleanup-Ensures P b close (ok a) c p = keep_cleanup-Ensures P _ a _ (p a)
  with_cleanup-Ensures P b close (err e) c p = tt

  pub built-Ensures :
      {A : Type 0} (P : A → t.Coordinator → Type 0)
      → (a : A) → (c : t.Coordinator) → P a c
      → Ensures P (built a c)
  unfolding Ensures built
  built-Ensures P a c p = p

  -- The steps before the rest of the construction.
  module _ {A B : Type 0} (P : B → t.Coordinator → Type 0) (g : A → Build t.Coordinator B)
      (c : t.Coordinator) where
    pub stepped_then-Ensures :
        (f : Error → Error)
        → (r : Result A) → ((a : A) → Ensures P (g a c))
        → Ensures P ((stepped parts ctx f r >>= g) c)
    stepped_then-Ensures f r p = bind-Ensures P _ g c (stepped-Ensures _ f r c p)

    plain_then-Ensures :
        (b : BeanSource)
        → (a : A) → Ensures P (g a c)
        → Ensures P ((bean parts ctx b none (plain a) >>= g) c)
    plain_then-Ensures b a p = bind-Ensures P _ g c (plain-Ensures _ b a c p)

    constructed_then-Ensures :
        (b : BeanSource)
        → (r : Result A) → ((a : A) → Ensures P (g a c))
        → Ensures P ((bean parts ctx b none (without_cleanup b r) >>= g) c)
    constructed_then-Ensures b r p = bind-Ensures P _ g c (without_cleanup-Ensures _ b r c p)

    kept_then-Ensures :
        (b : BeanSource)
        → (close : A → t.Cleanup) → (r : Result A)
        → ((a : A)
            → (d : t.Coordinator) → parts.register c b.module_name b.source (close a) ≡ (none, d)
            → Ensures P (g a d))
        → Ensures P ((bean parts ctx b none (with_cleanup b close r) >>= g) c)
    kept_then-Ensures b close r p = bind-Ensures P _ g c (with_cleanup-Ensures _ b close r c p)

  -- The one registration of a construction: the database's cleanup, which succeeded.
  pub DatabaseKept : t.Coordinator → Dependencies t → t.Coordinator → Type 0
  DatabaseKept c deps d =
      parts.register c database_bean.module_name database_bean.source (parts.cleanup deps.database)
      ≡ (none, d)

  -- A construction of the beans without overrides registers, when it succeeds, the cleanup of the database
  -- alone.
  pub construct_application_dependencies-Ensures :
      (snapshot : Snapshot)
      → (c : t.Coordinator)
      → Ensures
          (DatabaseKept c)
          (construct_application_dependencies t parts ctx (no_overrides t) snapshot c)
  unfolding construct_application_dependencies no_overrides DatabaseKept
  construct_application_dependencies-Ensures snapshot c =
      search
        (
          stepped_then-Ensures, plain_then-Ensures, constructed_then-Ensures, kept_then-Ensures,
          built-Ensures,
        )
        depth 60
