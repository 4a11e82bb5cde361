-- ===== src/Identity/Saved.antt =====
-- User.Save of pkg/authentication/authentication.go, and its round trip with User.Load.
use wundergraph.Prelude.{
  ℕ, ◌≡◌, Bool, true, false, not, Option, none, some, List, [], ◌∷◌, ◌++◌, Bytes, str,
}
use wundergraph.Prelude.Int.{pos, show_int}
use wundergraph.Auth.User.{User, no_user}
use wundergraph.Auth.Domain.{sanitize_domain, remove_subdomain}
use wundergraph.Identity.Cookies.{Request, CookieCodec}

-- http.Cookie. SameSite is SameSiteStrictMode in all cookies here.
pub record Cookie : Type 0 where
  pub name : Bytes
  pub value : Bytes
  pub path : Bytes
  pub domain : Bytes
  pub max_age : ℕ
  pub secure : Bool
  pub http_only : Bool

-- xxhash of the gob encoding of a user, and securecookie's Encode for the two cookies; none is an error
pub record SaveCodec : Type 0 where
  pub hash : User → Option ℕ
  pub encode_user : User → Option Bytes
  pub encode_id : Bytes → Option Bytes

-- What Save leaves: the user, the cookies that it sets, and whether it returns no error.
pub record SaveResult : Type 0 where
  pub user : User
  pub cookies : List Cookie
  pub ok : Bool

-- a cookie for 30 days
unfoldable pub session_cookie : Bytes → Bytes → Bytes → Bool → Cookie
session_cookie name value domain insecure = record {
  name = name;
  value = value;
  path = str "/";
  domain = remove_subdomain (sanitize_domain domain);
  max_age = 2592000;
  secure = not insecure;
  http_only = true;
}

-- the user without its tokens, which would take too much space in the cookie
abbrev pub without_tokens : User → User
without_tokens u = record u {
  id_token = none;
  access_token = none;
  raw_access_token = [];
  raw_id_token = [];
}

-- fmt.Sprintf("W/\"%d\"", hash.Sum64())
unfoldable pub etag_of : ℕ → Bytes
etag_of h = str "W/\"" ++ show_int (pos h) ++ str "\""

module _ (codec : SaveCodec) where
  open codec use {hash, encode_user, encode_id}

  -- from the encoding of the user on
  unfoldable pub save_cookies : Bytes → Bool → Bytes → User → SaveResult
  save_cookies domain insecure raw_id_token u = elim (encode_user u) [
    | none ↦ record { user = u; cookies = []; ok = false }
    | some value ↦
        let first = session_cookie (str "user") value domain insecure in
        elim (encode_id raw_id_token) [
          | none ↦ record { user = u; cookies = first ∷ []; ok = false }
          | some id ↦ record {
            user = u;
            cookies = first ∷ session_cookie (str "id") id domain insecure ∷ [];
            ok = true;
          }
        ]
  ]

  -- Save
  unfoldable pub save : User → Bytes → Bool → SaveResult
  unfolding save_cookies
  save u domain insecure = elim (hash (without_tokens u)) [
    | none ↦ record { user = without_tokens u; cookies = []; ok = false }
    | some h ↦
        save_cookies domain insecure u.raw_id_token (record (without_tokens u) { etag = etag_of h })
  ]

-- securecookie decodes what it has encoded, of ID tokens, and of a user into one that has only zero
-- values.
abbrev pub Decodes : CookieCodec → SaveCodec → User → Type 0
Decodes cookies codec u =
    ((s : Bytes) → codec.encode_user u ≡ some s → cookies.decode_user s no_user ≡ some u)
    × ((id s : Bytes) → codec.encode_id id ≡ some s → cookies.decode_id s ≡ some id)

-- The request brings the cookies that were set.
abbrev pub Brings : Request → List Cookie → Type 0
Brings r (first ∷ second ∷ []) =
    (r.user_cookie ≡ some first.value) × (r.id_cookie ≡ some second.value)
Brings r _ = ⊥
