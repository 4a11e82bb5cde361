-- ===== src/Identity/Handlers/Cleared.antt =====
-- The handlers of users in pkg/authentication/authentication.go: what a browser keeps after a logout, and
-- what a client learns of a user.
use wundergraph.Prelude.Int.{pos, negsuc}
use wundergraph.Prelude.{
  ◌≡◌, ◌⊎◌, inl, inr, refl, Bool, true, false, not, ◌&&◌, Option, none, some, List, [], ◌∷◌, Bytes,
  str, ◌==◌, eq_refl, if◌then◌else◌, is_empty, arith, Bool-cases, if_cases, All,
}
use wundergraph.Auth.User.{User, remove_internal_fields}
use wundergraph.Auth.Domain.{sanitize_domain, remove_subdomain}
use wundergraph.Hooks.Header.{Header, get}
use wundergraph.Hooks.Client.{Env, World}
use wundergraph.Identity.Approval.{AuthHooks, UserCodec}
use wundergraph.Identity.Providers.{ProviderSet}
use wundergraph.Identity.Saved.{Cookie, SaveCodec, session_cookie, save}
use wundergraph.Identity.Handlers.{
  UserHandler, UserAnswer, not_found, not_modified, sends_user, UserResponse, answer_user,
  save_and_answer, user_serve_http, logout_serve_http, ResetCookie, reset_each, reset_user_cookies,
}

-- The cookies of a browser: one that is set replaces the one of its name, domain and path, and one with a
-- negative MaxAge only removes that.
abbrev pub Jar : Type 0
Jar = List Cookie

same_cookie : ResetCookie → Cookie → Bool
same_cookie r c = r.name == c.name && (r.domain == c.domain && r.path == c.path)

unfoldable pub forget : ResetCookie → Jar → Jar
unfolding same_cookie
forget r [] = []
forget r (c ∷ jar) = let rest = forget r jar in if same_cookie r c then rest else c ∷ rest

-- A cookie that is not to be forgotten is kept, for as many seconds as its MaxAge, where 0 is none.
unfoldable pub take_cookie : ResetCookie → Jar → Jar
unfolding forget
take_cookie r jar = elim r.max_age [
  | negsuc n ↦ forget r jar
  | pos n ↦
      record {
        name = r.name;
        value = r.value;
        path = r.path;
        domain = r.domain;
        max_age = n;
        secure = r.secure;
        http_only = r.http_only;
      }
      ∷ forget r jar
]

unfoldable pub take_cookies : List ResetCookie → Jar → Jar
unfolding take_cookie
take_cookies [] jar = jar
take_cookies (r ∷ rs) jar = take_cookies rs (take_cookie r jar)

-- a cookie of a login for a host
abbrev pub IsLogin : Bytes → Cookie → Type 0
IsLogin host c =
    ((c.name ≡ str "user") ⊎ (c.name ≡ str "id"))
    × (c.domain ≡ remove_subdomain (sanitize_domain host))
    × (c.path ≡ str "/")

abbrev pub HasNoLogin : Bytes → Jar → Type 0
HasNoLogin host = All (λ c. ¬ (IsLogin host c))

module _ (r : ResetCookie) where
  forget-removes : (jar : Jar) → All (λ c. same_cookie r c ≡ false) (forget r jar)
  unfolding forget
  forget-removes [] = tt
  forget-removes (c ∷ jar) =
      let rest = forget-removes jar in
      elim (Bool-cases (same_cookie r c)) [ inl e ↦ rw e rest | inr e ↦ rw e (e, rest) ]

  forget-keeps : (P : Cookie → Type 0) (jar : Jar) → All P jar → All P (forget r jar)
  unfolding forget
  forget-keeps P [] h = tt
  forget-keeps P (c ∷ jar) h =
      let rest = forget-keeps P jar h.1 in
      elim (Bool-cases (same_cookie r c)) [ inl e ↦ rw e rest | inr e ↦ rw e (h.0, rest) ]

All-both :
    {P Q R : Cookie → Type 0} (f : (c : Cookie) → P c → Q c → R c) (jar : Jar)
    → All P jar
    → All Q jar
    → All R jar
All-both f [] p q = tt
All-both f (c ∷ jar) p q = (f c p.0 q.0, All-both f jar p.1 q.1)

reset : Bytes → Bytes → Bool → ResetCookie
reset name host secure = record {
  name = name;
  path = str "/";
  domain = remove_subdomain (sanitize_domain host);
  max_age = negsuc 0;
  http_only = true;
  value = [];
  secure = secure;
}

same_cookie-login :
    (name host : Bytes) (secure : Bool) (c : Cookie)
    → c.name ≡ name
    → c.domain ≡ remove_subdomain (sanitize_domain host)
    → c.path ≡ str "/"
    → same_cookie (reset name host secure) c ≡ true
unfolding same_cookie reset
same_cookie-login name host secure c n d p = rw (n, d, p, eq_refl, eq_refl) (eq_refl (str "/"))

reset_user_cookies-HasNoLogin :
    (host : Bytes) (secure : Bool) (jar : Jar)
    → HasNoLogin host (take_cookies (reset_user_cookies host secure) jar)
unfolding reset_user_cookies reset_each take_cookies take_cookie reset
reset_user_cookies-HasNoLogin host secure jar =
    let user = reset (str "user") host secure in
    let id = reset (str "id") host secure in
    All-both
      (λ c not_user not_id login. elim login.0 [
        | inl n ↦
            absurd (ground (arith, same_cookie-login (str "user") host secure c n login.1 login.2))
        | inr n ↦
            absurd (ground (arith, same_cookie-login (str "id") host secure c n login.1 login.2))
      ])
      (forget id (forget user jar))
      (forget-keeps id (λ c. same_cookie user c ≡ false) (forget user jar)
        (forget-removes user jar))
      (forget-removes id (forget user jar))

-- After a browser has got the answer of UserLogoutHandler, none of its cookies is a login for the host of
-- that request: none is named "user" or "id" and has the path "/" and the domain that Save gives its
-- cookies for the host. So it is whatever cookies there were before, whether the request had a user or
-- not, whether the logout from the provider is asked for or not, and whatever the hook answers.
pub logout_serve_http-HasNoLogin :
    (env : Env) (codec : UserCodec) (hooks : AuthHooks) (end_session : Bytes → Bytes → Bool)
    (providers : ProviderSet) (host : Bytes) (insecure from_provider : Bool) (user : Option User)
    (s : World) (jar : Jar)
    → HasNoLogin host (
        take_cookies
          (logout_serve_http env codec hooks end_session providers host insecure from_provider user
            s).0.reset
          jar)
unfolding logout_serve_http
logout_serve_http-HasNoLogin env codec hooks end_session providers host insecure from_provider none
      s jar =
    reset_user_cookies-HasNoLogin host (not insecure) jar
logout_serve_http-HasNoLogin env codec hooks end_session providers host insecure from_provider
      (some user) s jar =
    reset_user_cookies-HasNoLogin host (not insecure) jar

-- the cookies that Save sets are logins for its domain
pub session_cookie-IsLogin :
    (name value host : Bytes) (insecure : Bool)
    → (name ≡ str "user") ⊎ (name ≡ str "id")
    → IsLogin host (session_cookie name value host insecure)
unfolding session_cookie
session_cookie-IsLogin name value host insecure h = (h, refl, refl)

-- What a client learns of a user has no token in it.
abbrev pub HidesTokens : UserAnswer → Type 0
HidesTokens (sends_user tag indented u) =
    (u.access_token ≡ none)
    × (u.raw_access_token ≡ [])
    × (u.id_token ≡ none)
    × (u.raw_id_token ≡ [])
HidesTokens _ = Unit

module _ (env : Env) (codec : UserCodec) (save_codec : SaveCodec) (h : UserHandler) where
  answer_user-HidesTokens :
      (header : Header) (u : User) → HidesTokens (answer_user env codec save_codec h header u)
  unfolding answer_user remove_internal_fields
  answer_user-HidesTokens header u =
      if_cases HidesTokens
        (not (is_empty (get (str "If-None-Match") header))
          && get (str "If-None-Match") header == u.etag)
        not_modified
        (sends_user u.etag (not (get (str "Accept") header == str "application/json"))
          (remove_internal_fields u))
        tt (refl, refl, refl, refl)

  save_and_answer-HidesTokens :
      (header : Header) (u : Option User)
      → HidesTokens (save_and_answer env codec save_codec h header u).answer
  unfolding save_and_answer
  save_and_answer-HidesTokens header none = tt
  save_and_answer-HidesTokens header (some u) =
      let saved = save save_codec u h.host h.insecure_cookies in
      if_cases HidesTokens saved.ok (answer_user env codec save_codec h header saved.user) not_found
        (answer_user-HidesTokens header saved.user) tt

  -- Whoever asks for the user, with or without its revalidation and whatever the hook answers: the user
  -- that the handler sends has no access token and no ID token in it, neither parsed nor raw.
  pub user_serve_http-HidesTokens :
      (header : Header) (asked : Bool) (u : Option User) (s : World)
      → HidesTokens (user_serve_http env codec save_codec h header asked u s).0.answer
  unfolding user_serve_http
  user_serve_http-HidesTokens header asked none s = tt
  user_serve_http-HidesTokens header asked (some u) s =
      if_cases (λ (x : UserResponse × World). HidesTokens x.0.answer)
        (u.from_cookie && h.has_revalidate_hook && asked) _ _ (save_and_answer-HidesTokens header _)
        (answer_user-HidesTokens header u)
