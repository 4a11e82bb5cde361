-- ===== src/Identity/Cookies.antt =====
-- User.Load of pkg/authentication/authentication.go: the user of a request, from its bearer token or
-- from its cookies.
use wundergraph.Prelude.{
  Bool, true, false, not, Option, none, some, List, Bytes, str, ◌==◌, if◌then◌else◌, is_empty,
  has_prefix, trim_prefix,
}
use wundergraph.Auth.User.{User}
use wundergraph.Hooks.Header.{Header, get}
use wundergraph.Identity.{try_parse_jwt}
use wundergraph.Identity.Tokens.{UserLoadConfig, Loader, Memory, accept_token}

-- The request, with its query's `revalidate` and its cookies `user` and `id`.
pub record Request : Type 0 where
  pub header : Header
  pub revalidate : Bytes
  pub user_cookie : Option Bytes
  pub id_cookie : Option Bytes

-- securecookie's Decode for the two cookies. For a user it gets the target too, since package gob leaves
-- the fields as they are that had their zero value when the user was encoded. None is its error, which
-- leaves the target as it was.
pub record CookieCodec : Type 0 where
  pub decode_user : Bytes → User → Option User
  pub decode_id : Bytes → Option Bytes

-- The user that Load leaves, and whether it returns no error.
abbrev pub Loaded : Type 0
Loaded = User × Bool

module _ (loader : Loader) (cookies : CookieCodec) where
  open loader use {decode64}
  open cookies use {decode_user, decode_id}

  abbrev pub with_id_token : User → Bytes → User
  with_id_token u raw = record u { raw_id_token = raw; id_token = try_parse_jwt decode64 raw }

  -- the user after the cookie `user` was decoded
  unfoldable pub after_user_cookie : Bytes → User → User
  after_user_cookie value u = elim (decode_user value u) [
    | none ↦ u
    | some decoded ↦ record decoded { from_cookie = true }
  ]

  unfoldable pub load_id_cookie : Request → User → Loaded
  load_id_cookie r u = elim r.id_cookie [
    | none ↦ (u, false)
    | some value ↦ elim (decode_id value) [
      | none ↦ (with_id_token u u.raw_id_token, false)
      | some raw ↦ (with_id_token u raw, true)
    ]
  ]

  -- from `cookie, err := r.Cookie("user")` on
  unfoldable pub load_cookies : Request → User → Loaded
  unfolding after_user_cookie load_id_cookie
  load_cookies r u = elim r.user_cookie [
    | none ↦ (u, false)
    | some value ↦ load_id_cookie r (after_user_cookie value u)
  ]

  -- what a token gives, or else the cookies
  unfoldable pub or_cookies : Loaded → Option User × Memory loader → Loaded × Memory loader
  or_cookies from_cookies (none, m) = (from_cookies, m)
  or_cookies from_cookies (some user, m) = ((user, true), m)

  -- Load; a nil slice of configurations is none
  unfoldable pub load :
      Option (List UserLoadConfig) → Request → User → Memory loader → Loaded × Memory loader
  unfolding load_cookies or_cookies
  load none r u m = (load_cookies r u, m)
  load (some cfgs) r u m =
      let authorization = get (str "Authorization") r.header in
      let text = trim_prefix authorization (str "Bearer ") in
      if is_empty authorization
      then (load_cookies r u, m)
      else if not (has_prefix authorization (str "Bearer "))
      then ((u, false), m)
      else or_cookies (load_cookies r u)
          (accept_token loader cfgs text (r.revalidate == str "true") m)
