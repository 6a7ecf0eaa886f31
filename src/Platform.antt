-- ===== src/Platform.antt =====
-- platform/server.go: the HTTP server's construction with its developer authentication, and the
-- lifecycle of its listener. `net`, `net/http` and the security package of the framework are
-- parameters.
pub mod Authentication
pub mod Lifecycle
use Prim.Native.String.{String}
use commerce.Prelude.{
  ℕ, ◌≡◌, ℤ, pos, ltb, leb_ℤ, Bool, true, false, not, ◌&&◌, ◌||◌, List, [], ◌∷◌, Option, none, some,
  Text, text, is_empty, byte_length, trim_space, contains_any, cut_prefix, to_lower, to_upper, Eq,
  text_eq, ◌==◌, nat_beq, if◌then◌else◌,
}
use commerce.Go.{
  Error, Sentinel, sentinel, errors_new, errorf, end, wrapped, text_arg, is_error, join_nonnil,
  Context, Moment, ctx_err, Result, ok, err, ◌>>=◌, ◌>>◌, fail_if, fail_with, map_err,
}

pub record Settings : Type 0 where
  pub address : Text
  pub read_header_timeout : ℤ
  pub read_timeout : ℤ
  pub write_timeout : ℤ
  pub idle_timeout : ℤ
  pub developer_token : Text

-- What the server reads of a request: the `Authorization` header and the context of type `C`.
pub record Request (C : Type 0) : Type 0 where
  pub authorization : Text
  pub context : C

abbrev pub Handler : Type 0 → Type 0 → Type 0
Handler C W = Request C → W

-- What the server calls: the host of `net.SplitHostPort`, whether `net.ParseIP` reads a loopback
-- address, the principal of the developer, its attachment to a context, and `http.Error`.
pub record Net (C W A : Type 0) : Type 0 where
  pub split_host : Text → Result Text
  pub is_loopback_ip : Text → Bool
  pub new_principal : String → String → List String → Result A
  pub with_principal : C → A → Result C
  pub http_error : String → ℕ → W

-- The server over its HTTP handler. `listener` is the address that is bound, `shut_down` says whether
-- `httpServer.Shutdown` was called, and `observed` whether the result of the serve was received from
-- `serveErrors`, which gets one for each start.
pub record Server (C W : Type 0) : Type 0 where
  pub addr : Text
  pub handler : Handler C W
  pub read_header_timeout : ℤ
  pub read_timeout : ℤ
  pub write_timeout : ℤ
  pub idle_timeout : ℤ
  pub listener : Option Text
  pub started : Bool
  pub shut_down : Bool
  pub observed : Bool

-- `strings.EqualFold(host, "localhost")`: no letter of the name has a fold that the two mappings miss.
abbrev pub is_localhost : Text → Bool
is_localhost host = to_lower (to_upper host) == text "localhost"

abbrev pub is_bad_token : Text → Bool
is_bad_token token =
    ltb (byte_length token) 16
    || ltb 1024 (byte_length token)
    || not (trim_space token == token)
    || contains_any token (text "\0\r\n\t ")

-- Whether a header presents the token.
abbrev pub presents_suffix : Text → Option Text → Bool
presents_suffix token none = false
presents_suffix token (some presented) =
    nat_beq (byte_length presented) (byte_length token) && presented == token

unfoldable pub presents : Text → Text → Bool
presents token header = presents_suffix token (cut_prefix header (text "Bearer "))

module _ {C W A : Type 0} (net : Net C W A) where
  unfoldable pub loopback_host : Text → Bool
  loopback_host host = is_localhost host || net.is_loopback_ip host

  abbrev is_loopback_address : Result Text → Bool
  is_loopback_address (ok host) = loopback_host host
  is_loopback_address (err e) = false

  -- The request as it goes on, with the principal in its context.
  attached : Handler C W → Request C → Result C → W
  attached next request (ok context) = next (record request { context = context })
  attached next request (err e) = net.http_error "authentication unavailable" 500

  unfoldable pub authenticate : Text → A → Handler C W → Handler C W
  unfolding attached
  authenticate token principal next request =
      if presents token request.authorization
      then attached next request (net.with_principal request.context principal)
      else next request

  unfoldable pub developer_authentication : Text → Text → Handler C W → Result (Handler C W)
  developer_authentication address token next =
      if is_empty token
      then ok next
      else fail_if (is_bad_token token) (
          errors_new
            "construct commerce developer authentication: token must contain 16 to 1024 non-space bytes")
        >> (fail_if (not (is_loopback_address (net.split_host address))) (
              errors_new
                "construct commerce developer authentication: token requires a loopback server address")
            >> (map_err
                  (λ e. errorf "construct commerce developer authentication: %w" (wrapped e end))
                  (net.new_principal "commerce-developer" "spice://commerce/developer"
                    ("orders:notify" ∷ "orders:read" ∷ "orders:write" ∷ []))
                >>= λ principal. ok (authenticate token principal next)))

  -- What NewServer builds around a handler that is secured.
  abbrev pub server_of : Settings → Handler C W → Server C W
  server_of settings handler = record {
    addr = settings.address;
    handler = handler;
    read_header_timeout = settings.read_header_timeout;
    read_timeout = settings.read_timeout;
    write_timeout = settings.write_timeout;
    idle_timeout = settings.idle_timeout;
    listener = none;
    started = false;
    shut_down = false;
    observed = false;
  }

  with_handler : Settings → Option (Handler C W) → Bool → Result (Server C W)
  with_handler settings none database = err (errors_new "construct commerce server: handler is nil")
  with_handler settings (some handler) database =
      fail_if (not database) (errors_new "construct commerce server: database is nil")
      >> (developer_authentication settings.address settings.developer_token handler >>= λ secured.
          ok (server_of settings secured))

  -- The last argument says whether there is a database.
  unfoldable pub new_server : Settings → Option (Handler C W) → Bool → Result (Server C W)
  unfolding with_handler
  new_server settings handler database =
      fail_if (is_empty (trim_space settings.address))
        (errors_new "construct commerce server: address is empty")
      >> (fail_if
            (leb_ℤ settings.read_header_timeout (pos 0)
              || leb_ℤ settings.read_timeout (pos 0)
              || leb_ℤ settings.write_timeout (pos 0)
              || leb_ℤ settings.idle_timeout (pos 0))
            (errors_new "construct commerce server: all HTTP timeouts must be positive")
          >> with_handler settings handler database)

module _ {C W : Type 0} where
  -- What follows the listen, which the caller's network answers.
  bound : Server C W → Result Text → Result (Unit {0}) × Server C W
  bound s (ok address) = (ok tt, record s { listener = some address; started = true })
  bound s (err e) =
      (err (errorf "start commerce server on %s: %w" (text_arg s.addr (wrapped e end))), s)

  start_checked : Server C W → Result Text → Result (Unit {0}) → Result (Unit {0}) × Server C W
  unfolding bound
  start_checked s listen (err e) = (err e, s)
  start_checked s listen (ok _) = bound s listen

  unfoldable pub start :
      (Text → Result Text) → Server C W → Context → Result (Unit {0}) × Server C W
  unfolding start_checked
  start listen s ctx = start_checked s (listen s.addr) (
      fail_with (ctx_err (ctx 0)) (λ e. errorf "start commerce server: %w" (wrapped e end))
      >> fail_if s.started (errors_new "start commerce server: server is already started"))

  unfoldable pub address : Server C W → Text
  address s = elim s.listener [ none ↦ s.addr | some bound_address ↦ bound_address ]

-- What the select of Stop finds first: the result of the serve, or the end of the context with its
-- error.
pub data Selected : Type 0 where
  served : Error → Selected
  done : Error → Selected

serve_error : Selected → Option Error
serve_error (served e) = if is_error e Sentinel.server_closed then none else some e
serve_error (done e) = some e

-- What the shutdown and the select leave of the server: what was received is no longer there.
stopped : {C W : Type 0} → Server C W → Selected → Server C W
stopped s (served e) = record s { shut_down = true; observed = true }
stopped s (done e) = record s { shut_down = true }

-- Stop, by what the shutdown returned and what the select found.
unfoldable pub stop :
    {C W : Type 0} → Server C W → Option Error → Selected → Option Error × Server C W
unfolding serve_error stopped
stop s shutdown selected =
    if s.started
    then (join_nonnil shutdown (serve_error selected), stopped s selected)
    else (none, s)

-- What the select can find: a result of the serve that was not received yet, or the end of the context.
abbrev pub IsSelectable : {C W : Type 0} → Server C W → Selected → Type 0
IsSelectable s (served e) = s.observed ≡ false
IsSelectable s (done e) = Unit {0}
