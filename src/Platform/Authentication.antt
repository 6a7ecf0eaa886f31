-- ===== src/Platform/Authentication.antt =====
-- The developer authentication of platform/server.go, and the construction of a server around it.
use commerce.Prelude.{
  ◌≤◌, ◌≡◌, refl, ap, ◌∙◌, ◌↔◌, inl, inr, true, false, [], ◌∷◌, ◌++◌, Option, none, some, Text,
  text, is_empty, byte_length, cut_prefix, text_eq, ==_refl, Bool-cases, arith,
}
use commerce.Go.{Error, Result, ok, err, ◌>>=◌, ◌>>◌}
use commerce.Platform.{
  Settings, Request, Handler, Net, Server, presents, presents_suffix, is_loopback_address,
  loopback_host, attached, authenticate, developer_authentication, new_server, with_handler,
  server_of,
}

cut_prefix-append : (p s : Text) → cut_prefix (p ++ s) p ≡ some s
cut_prefix-append [] s = refl
cut_prefix-append (c ∷ p) s = ground (arith, cut_prefix-append p s)

append_of_cut_prefix : (p s t : Text) → cut_prefix s p ≡ some t → s ≡ p ++ t
append_of_cut_prefix [] s t h = cc
append_of_cut_prefix (c ∷ p) [] t h = cc
append_of_cut_prefix (c ∷ p) (d ∷ s) t h = ground (arith, append_of_cut_prefix p s t)

presents_suffix_self : (token : Text) → presents_suffix token (some token) ≡ true
presents_suffix_self token = ground (arith, ==_refl token)

token_of_presents_suffix :
    (token : Text) (o : Option Text) → presents_suffix token o ≡ true → o ≡ some token
token_of_presents_suffix token none h = cc
token_of_presents_suffix token (some presented) h = ground (arith, text_eq.beq_iff presented token)

-- A header presents the token exactly if it is `Bearer `, and then the token, to the byte.
pub presents_iff :
    (token header : Text) → (presents token header ≡ true) ↔ (header ≡ text "Bearer " ++ token)
unfolding presents
presents_iff token header = (
  λ h.
      append_of_cut_prefix (text "Bearer ") header token
        (token_of_presents_suffix token (cut_prefix header (text "Bearer ")) h),
  λ h.
      ap (λ s. presents_suffix token (cut_prefix s (text "Bearer "))) h
      ∙ ap (presents_suffix token) (cut_prefix-append (text "Bearer ") token)
      ∙ presents_suffix_self token,
)

-- What a constructor that passed its two checks built, and of what.
built_of_checks :
    {A B : Type 0} (first second : Result (Unit {0})) (r : Result A) (build : A → B) (b : B)
    → (first >> (second >> (r >>= (λ a. ok (build a))))) ≡ ok b
    → (a : A) × (r ≡ ok a) × (b ≡ build a)
built_of_checks (ok _) (ok _) (ok a) build b h = (a, refl, cc)
built_of_checks (ok _) (ok _) (err e) build b h = cc
built_of_checks (ok _) (err e) r build b h = cc
built_of_checks (err e) second r build b h = cc

module _ {C W A : Type 0} (net : Net C W A) where
  -- A request whose header is not `Bearer ` and the token reaches the handler as it came; one whose
  -- header is reaches it with the developer's principal in its context, or is answered 500 when the
  -- principal cannot be attached.
  pub authenticate_lem :
      (token : Text) (principal : A) (next : Handler C W) (request : Request C)
      → (¬ (request.authorization ≡ text "Bearer " ++ token)
          → authenticate net token principal next request ≡ next request)
        × ((context : C)
            → request.authorization ≡ text "Bearer " ++ token
            → net.with_principal request.context principal ≡ ok context
            → authenticate net token principal next request
              ≡ next (record request { context = context }))
        × ((e : Error)
            → request.authorization ≡ text "Bearer " ++ token
            → net.with_principal request.context principal ≡ err e
            → authenticate net token principal next request
              ≡ net.http_error "authentication unavailable" 500)
  unfolding authenticate attached
  authenticate_lem token principal next request = (
    λ other. elim (Bool-cases (presents token request.authorization)) [
      | inl h ↦ absurd (other ((presents_iff token request.authorization).0 h))
      | inr h ↦ rw h refl
    ],
    λ context same h. rw ((presents_iff token request.authorization).1 same, h) refl,
    λ e same h. rw ((presents_iff token request.authorization).1 same, h) refl,
  )

  loopback_of :
      (split : Result Text)
      → is_loopback_address net split ≡ true
      → (host : Text) × (split ≡ ok host) × (loopback_host net host ≡ true)
  loopback_of (ok host) h = (host, refl, h)
  loopback_of (err e) h = cc

  -- Authentication with a token is set up only for a token of 16 to 1024 bytes, on an address whose
  -- host is a loopback.
  pub developer_authentication_guard :
      (address token : Text) (next handler : Handler C W)
      → developer_authentication net address token next ≡ ok handler
      → is_empty token ≡ false
      → (16 ≤ byte_length token)
        × (byte_length token ≤ 1024)
        × ((host : Text) × (net.split_host address ≡ ok host) × (loopback_host net host ≡ true))
  unfolding developer_authentication
  developer_authentication_guard address token next handler h present =
      let (low, high, local) = guards in (low, high, loopback_of (net.split_host address) local)
    where
      guards :
          (16 ≤ byte_length token)
          × (byte_length token ≤ 1024)
          × (is_loopback_address net (net.split_host address) ≡ true)
      guards = ground (arith, h, present)

  -- A server that is built has the authentication of its settings before the handler.
  new_server_built :
      (settings : Settings) (next : Handler C W) (server : Server C W)
      → new_server net settings (some next) true ≡ ok server
      → (handler : Handler C W) × (developer_authentication net settings.address
            settings.developer_token next
          ≡ ok handler)
        × (server ≡ server_of net settings handler)
  unfolding new_server with_handler
  new_server_built settings next server h =
      built_of_checks _ _
        (developer_authentication net settings.address settings.developer_token next)
        (server_of net settings) server h

  -- A server that is built over a handler and a database with a developer token has an address
  -- whose host is a loopback.
  pub new_server_token :
      (settings : Settings) (next : Handler C W) (server : Server C W)
      → new_server net settings (some next) true ≡ ok server
      → is_empty settings.developer_token ≡ false
      → (host : Text) × (net.split_host server.addr ≡ ok host) × (loopback_host net host ≡ true)
  new_server_token settings next server h present =
      let (handler, e, built) = new_server_built settings next server h in
      let (_, _, local) =
        developer_authentication_guard settings.address settings.developer_token next handler e
          present in
      rw built local
