-- ===== src/Identity/Handlers.antt =====
-- pkg/authentication/authentication.go: the middlewares and handlers around the user of a request.
pub mod Cleared
pub mod Tests
use wundergraph.Prelude.{
  ℕ, Bool, true, false, not, ◌&&◌, Option, none, some, List, [], ◌∷◌, ◌++◌, Bytes, str, ◌==◌,
  if◌then◌else◌, is_empty, map,
}
use wundergraph.Prelude.Int.{ℤ, pos, negsuc}
use wundergraph.Auth.User.{User, remove_internal_fields}
use wundergraph.Auth.Domain.{sanitize_domain, remove_subdomain}
use wundergraph.Load.{ConfigurationVariable, string}
use wundergraph.Hooks.Header.{Header, get}
use wundergraph.Hooks.Client.Monad.{Result, ok, err}
use wundergraph.Hooks.Client.{
  Env, World, MiddlewareHookResponse, HookError, revalidate_authentication, or_nil,
  do_authentication_request,
}
use wundergraph.Identity.Approval.{AuthHooks, Approval, UserCodec, handle_post_logout}
use wundergraph.Identity.Tokens.{UserLoadConfig, Loader, Memory}
use wundergraph.Identity.Cookies.{Request, CookieCodec, Loaded, load}
use wundergraph.Identity.Saved.{Cookie, SaveCodec, SaveResult, save}
use wundergraph.Identity.Providers.{
  ProviderSet, by_id, Disconnected, failed, no_result, redirect, disconnect,
  requires_client_cooperation,
}

-- wgpb.JwksAuthProvider
pub record JwksProvider : Type 0 where
  pub user_info_endpoint : Option ConfigurationVariable
  pub jwks_url : Option ConfigurationVariable
  pub jwks_json : Option ConfigurationVariable
  pub user_info_cache_ttl_seconds : ℤ

-- `host` is the host of url.Parse, `get_jwks` keyfunc.Get and `new_json` keyfunc.NewJSON, each none for
-- an error.
module _ (getenv : Bytes → Bytes) (host : Bytes → Option Bytes)
    (get_jwks : Bytes → Option (List Bytes)) (new_json : Bytes → Option (List Bytes)) where
  config_with : JwksProvider → Bytes → Option (List Bytes) → List UserLoadConfig
  config_with p issuer none = []
  config_with p issuer (some keys) =
      record {
        jwks = some keys;
        user_info_endpoint = string getenv p.user_info_endpoint;
        cache_ttl_seconds = p.user_info_cache_ttl_seconds;
        issuer = issuer;
      }
      ∷ []

  -- the keys of a provider, from its URL, else from its JSON, else none
  unfoldable pub keys_of : JwksProvider → Option (List Bytes)
  keys_of p =
      let url = string getenv p.jwks_url in
      let json = string getenv p.jwks_json in
      if not (is_empty url)
      then get_jwks url
      else if not (is_empty json)
      then new_json json
      else some []

  -- the body of the loop of NewLoadUserMw
  unfoldable pub config_of : JwksProvider → List UserLoadConfig
  unfolding config_with keys_of
  config_of p = elim (host (string getenv p.user_info_endpoint)) [
    | none ↦ []
    | some issuer ↦ config_with p issuer (keys_of p)
  ]

  -- the loop: a provider with an error is left out
  unfoldable pub new_load_user_configs : List JwksProvider → List UserLoadConfig
  unfolding config_of
  new_load_user_configs [] = []
  new_load_user_configs (p ∷ ps) = config_of p ++ new_load_user_configs ps

-- the user that the middleware of NewLoadUserMw puts into the context, which is UserFromContext for the
-- handlers after it
unfoldable pub user_from_context : Loaded → Option User
user_from_context (user, loaded) = if loaded then some user else none

-- UserHandler
pub record UserHandler : Type 0 where
  pub has_revalidate_hook : Bool
  pub host : Bytes
  pub insecure_cookies : Bool

-- What UserHandler answers: 404, 304, or the user as JSON, with the ETag if it is not empty, and
-- indented unless the client accepts application/json
pub data UserAnswer : Type 0 where
  not_found : UserAnswer
  not_modified : UserAnswer
  sends_user : Bytes → Bool → User → UserAnswer

-- the answer and the cookies that come with it
pub record UserResponse : Type 0 where
  pub answer : UserAnswer
  pub cookies : List Cookie

-- `codec` is encoding/json, and `save_codec` is gob, xxhash and securecookie.
module _ (env : Env) (codec : UserCodec) (save_codec : SaveCodec) (h : UserHandler) where
  set_if : Option Bytes → Bytes → Bytes → Bytes
  set_if none key data' = data'
  set_if (some value) key data' = or_nil (env.set data' value (key ∷ []))

  unfoldable pub revalidate_data : User → Bytes → Bytes
  unfolding set_if
  revalidate_data user user_json = set_if user.id_token (str "id_token") (
      set_if user.access_token (str "access_token")
        (or_nil (env.set (str "{}") user_json (str "user" ∷ []))))

  -- the user of the hook's answer, with the tokens of the one before
  revalidated : User → Bytes → Option User
  revalidated user response = elim (codec.unmarshal_approval response) [
    | none ↦ none
    | some a ↦
        if not (a.status == str "ok")
        then none
        else some (record a.user { access_token = user.access_token; id_token = user.id_token })
  ]

  read_revalidation : User → Result HookError (Option MiddlewareHookResponse) → Option User
  unfolding revalidated
  read_revalidation user (err e) = none
  read_revalidation user (ok none) = none
  read_revalidation user (ok (some out)) =
      if not (is_empty out.error) then none else revalidated user out.response

  -- the hook revalidateAuthentication: the user that it gives, or none where the client is told 404
  unfoldable pub revalidate : User → World → Option User × World
  unfolding read_revalidation revalidate_data
  revalidate user s = elim (codec.marshal_user user) [
    | none ↦ (none, s)
    | some user_json ↦
        let (result, s') =
          do_authentication_request env revalidate_authentication (revalidate_data user user_json)
            s in
        (read_revalidation user result, s')
  ]

  -- from `if tag := r.Header.Get("If-None-Match")` on
  unfoldable pub answer_user : Header → User → UserAnswer
  unfolding remove_internal_fields
  answer_user header user =
      let tag = get (str "If-None-Match") header in
      if not (is_empty tag) && tag == user.etag
      then not_modified
      else sends_user user.etag (not (get (str "Accept") header == str "application/json"))
          (remove_internal_fields user)

  -- the user of the hook is saved
  unfoldable pub save_and_answer : Header → Option User → UserResponse
  unfolding answer_user
  save_and_answer header none = record { answer = not_found; cookies = [] }
  save_and_answer header (some user) =
      let saved = save save_codec user h.host h.insecure_cookies in
      record {
        answer = if saved.ok then answer_user header saved.user else not_found;
        cookies = saved.cookies;
      }

  -- ServeHTTP, for the user of the context; `asked` is r.URL.Query().Has("revalidate")
  unfoldable pub user_serve_http : Header → Bool → Option User → World → UserResponse × World
  unfolding save_and_answer
  user_serve_http header asked none s = (record { answer = not_found; cookies = [] }, s)
  user_serve_http header asked (some user) s =
      if user.from_cookie && h.has_revalidate_hook && asked
      then (let (user', s') = revalidate user s in (save_and_answer header user', s'))
      else (record { answer = answer_user header user; cookies = [] }, s)

-- the http.Cookie of a reset, whose SameSite is SameSiteStrictMode; a negative MaxAge tells the client to
-- forget the cookie
pub record ResetCookie : Type 0 where
  pub name : Bytes
  pub value : Bytes
  pub path : Bytes
  pub domain : Bytes
  pub max_age : ℤ
  pub http_only : Bool
  pub secure : Bool

unfoldable pub reset_each : List Bytes → Bytes → Bool → List ResetCookie
reset_each [] host secure = []
reset_each (name ∷ names) host secure =
    record {
      name = name;
      value = [];
      path = str "/";
      domain = remove_subdomain (sanitize_domain host);
      max_age = negsuc 0;
      http_only = true;
      secure = secure;
    }
    ∷ reset_each names host secure

-- resetUserCookies, for the Host of the request
unfoldable pub reset_user_cookies : Bytes → Bool → List ResetCookie
unfolding reset_each
reset_user_cookies host secure = reset_each (str "user" ∷ str "id" ∷ []) host secure

-- what UserLogoutHandler does: the cookies, and the URL for the client if there is one
pub record LogoutResponse : Type 0 where
  pub reset : List ResetCookie
  pub redirect_to : Option Bytes

redirect_of : Disconnected → Option Bytes
redirect_of (redirect url) = if requires_client_cooperation (redirect url) then some url else none
redirect_of d = none

-- logoutFromProvider; its errors are only logged
unfoldable pub logout_from_provider : (Bytes → Bytes → Bool) → ProviderSet → User → Option Bytes
unfolding redirect_of
logout_from_provider end_session providers user =
    if not (user.provider_name == str "oidc")
    then none
    else if is_empty user.provider_id
    then none
    else elim (by_id user.provider_id providers) [
      | none ↦ none
      | some p ↦ redirect_of (disconnect end_session p user)
    ]

-- UserLogoutHandler.ServeHTTP; `from_provider` is that the request asks for the logout from the provider
-- too, with any letters of "true" in upper case
unfoldable pub logout_serve_http :
    Env
    → UserCodec
    → AuthHooks
    → (Bytes → Bytes → Bool)
    → ProviderSet
    → Bytes
    → Bool
    → Bool
    → Option User
    → World
    → LogoutResponse × World
unfolding reset_user_cookies logout_from_provider
logout_serve_http env codec hooks end_session providers host insecure from_provider none s =
    (record { reset = reset_user_cookies host (not insecure); redirect_to = none }, s)
logout_serve_http env codec hooks end_session providers host insecure from_provider (some user) s =
    (
      record {
        reset = reset_user_cookies host (not insecure);
        redirect_to =
            if from_provider then logout_from_provider end_session providers user else none;
      },
      handle_post_logout env codec hooks (some user) s,
    )

-- RequiresAuthentication: the status 401, or the handler that follows
unfoldable pub requires_authentication : {A : Type 0} → Option User → A → Option A
requires_authentication none handler = none
requires_authentication (some user) handler = some handler

-- the domain for which NewCSRFMw protects a request, if it does
unfoldable pub csrf_domain : Bytes → Option User → Option Bytes
csrf_domain host none = none
csrf_domain host (some user) =
    if user.from_cookie then some (remove_subdomain (sanitize_domain host)) else none
