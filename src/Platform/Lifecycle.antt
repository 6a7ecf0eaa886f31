-- ===== src/Platform/Lifecycle.antt =====
-- The histories of the server's lifecycle (platform/server.go).
use commerce.Prelude.{◌≡◌, ◌≢◌, refl, ap, ◌∙◌, true, false, Option, none, is_some, Text, arith}
use commerce.Go.{Error, Sentinel, is_error, Context, Result, is_ok}
use commerce.Platform.{
  Server, Selected, IsSelectable, stopped, address, start, stop, served, done, bound, start_checked,
  serve_error,
}

-- A call of Start, with what the network and the context are then, or of Stop, with what the shutdown
-- returned and the select found.
pub data Step {C W : Type 0} : Server C W → Server C W → Type 0 where
  starts :
      {s : Server C W} (listen : Text → Result Text) (ctx : Context) → Step s (start listen s ctx).1
  stops :
      {s : Server C W} (shutdown : Option Error) (selected : Selected)
      → IsSelectable s selected
      → Step s (stop s shutdown selected).1

pub data Reach {C W : Type 0} : Server C W → Server C W → Type 0 where
  here : {s : Server C W} → Reach s s
  and_then : {s t u : Server C W} → Reach s t → Step t u → Reach s u

module _ {C W : Type 0} where
  -- A server that is started has a listener, and only then.
  abbrev pub Inv : Server C W → Type 0
  Inv s = s.started ≡ is_some s.listener

  -- Start on a server that is started fails and changes nothing.
  pub start_started :
      (listen : Text → Result Text) (s : Server C W) (ctx : Context)
      → s.started ≡ true
      → (is_ok (start listen s ctx).0 ≡ false) × ((start listen s ctx).1 ≡ s)
  unfolding start start_checked bound
  start_started listen s ctx h = ground arith

  start-Inv :
      (listen : Text → Result Text) (s : Server C W) (ctx : Context)
      → Inv s
      → Inv (start listen s ctx).1
  unfolding start start_checked bound
  start-Inv listen s ctx h = ground arith

  stop-Inv :
      (s : Server C W) (shutdown : Option Error) (selected : Selected)
      → Inv s
      → Inv (stop s shutdown selected).1
  unfolding stop stopped
  stop-Inv s shutdown (served e) h = ground arith
  stop-Inv s shutdown (done e) h = ground arith

  -- Whatever is started and stopped, the server is started exactly if it has a listener.
  pub Reach-Inv : {s t : Server C W} → Reach s t → Inv s → Inv t
  Reach-Inv here i = i
  Reach-Inv (and_then r (starts listen ctx)) i = start-Inv listen _ ctx (Reach-Inv r i)
  Reach-Inv (and_then r (stops shutdown selected possible)) i =
      stop-Inv _ shutdown selected (Reach-Inv r i)

  -- A server, but for what a Stop has done to it.
  abbrev pub Keeps : Server C W → Server C W → Type 0
  Keeps s t = t ≡ record s { shut_down = t.shut_down; observed = t.observed }

  stop-Keeps :
      (s : Server C W) (shutdown : Option Error) (selected : Selected)
      → Keeps s (stop s shutdown selected).1
  unfolding stop stopped
  stop-Keeps s shutdown (served e) = ground arith
  stop-Keeps s shutdown (done e) = ground arith

  Keeps-trans : (s t u : Server C W) → Keeps s t → Keeps t u → Keeps s u
  Keeps-trans s t u p q =
      q ∙ ap (λ (k : Server C W). record k { shut_down = u.shut_down; observed = u.observed }) p

  kept : {s t : Server C W} → Reach s t → s.started ≡ true → Keeps s t
  kept here h = refl
  kept {s = s} (and_then {t = t} r (starts listen ctx)) h =
      let same = kept r h in
      let on : t.started ≡ true = ap (λ (k : Server C W). k.started) same ∙ h in
      Keeps-trans s t _ same (rw (start_started listen t ctx on).1 refl)
  kept {s = s} (and_then {t = t} r (stops shutdown selected possible)) h =
      Keeps-trans s t _ (kept r h) (stop-Keeps t shutdown selected)

  -- Once a server has bound an address, no later Start or Stop changes the server, but for the shutdown
  -- and the result of the serve that a Stop receives: it stays started, with its listener, so Address
  -- gives the same answer from then on, and every later Start fails, also after a Stop.
  pub Reach-bound :
      {s t : Server C W}
      → Reach s t
      → s.started ≡ true
      → Keeps s t
        × (t.started ≡ true)
        × (address t ≡ address s)
        × ((listen : Text → Result Text) (ctx : Context) → is_ok (start listen t ctx).0 ≡ false)
  unfolding address
  Reach-bound {s = s} {t = t} r h =
      let same = kept r h in
      let on : t.started ≡ true = ap (λ (k : Server C W). k.started) same ∙ h in
      (same, on, ap address same, λ listen ctx. (start_started listen t ctx on).0)

  -- Stop on a server that was never started returns nothing, and on one that drained cleanly, where
  -- the shutdown returned nothing and the serve ended with ErrServerClosed, nothing either; any other
  -- end of a started server is an error.
  pub stop_lem :
      (s : Server C W) (shutdown : Option Error) (e : Error)
      → (s.started ≡ false → (stop s shutdown (served e)).0 ≡ none)
        × (s.started ≡ true
            → is_error e Sentinel.server_closed ≡ true
            → (stop s none (served e)).0 ≡ none)
        × (s.started ≡ true → (stop s shutdown (done e)).0 ≢ none)
  unfolding stop serve_error
  stop_lem s shutdown e = (λ h. rw h refl, λ h k. rw (h, k) refl, λ h k. ground (arith, h, k))
