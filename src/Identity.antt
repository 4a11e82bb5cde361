-- ===== src/Identity.antt =====
-- pkg/authentication: the users that tokens and cookies stand for. Here the claims of a token
-- (oidc.go) and what tryParseJWT reads of it (authentication.go).
pub mod Approval
pub mod Tokens
pub mod Cookies
pub mod Saved
pub mod Providers
pub mod Handlers
pub mod Laws
pub mod Tests
use wundergraph.Prelude.{
  ℕ, Bool, true, false, not, Option, none, some, List, [], ◌∷◌, Bytes, str, ◌==◌, if◌then◌else◌,
  split,
}
use wundergraph.Auth.User.{Json, Fields, no_fields, field, User, no_user}

-- Claims
pub record Claims : Type 0 where
  pub issuer : Bytes
  pub subject : Bytes
  pub name : Bytes
  pub given_name : Bytes
  pub family_name : Bytes
  pub middle_name : Bytes
  pub nick_name : Bytes
  pub preferred_username : Bytes
  pub profile : Bytes
  pub picture : Bytes
  pub website : Bytes
  pub email : Bytes
  pub email_verified : Bool
  pub gender : Bytes
  pub birth_date : Bytes
  pub zone_info : Bytes
  pub locale : Bytes
  pub location : Bytes
  pub raw : Fields

-- Claims{}, which is also what null decodes to
abbrev pub no_claims : Claims
no_claims = record {
  issuer = [];
  subject = [];
  name = [];
  given_name = [];
  family_name = [];
  middle_name = [];
  nick_name = [];
  preferred_username = [];
  profile = [];
  picture = [];
  website = [];
  email = [];
  email_verified = false;
  gender = [];
  birth_date = [];
  zone_info = [];
  locale = [];
  location = [];
  raw = no_fields;
}

one_of : List Bytes → Bytes → Bool
one_of [] claim = false
one_of (k ∷ ks) claim = let rest = one_of ks claim in if k == claim then true else rest

abbrev handled_claims : List Bytes
handled_claims =
    str "iss"
    ∷ str "sub"
    ∷ str "name"
    ∷ str "given_name"
    ∷ str "family_name"
    ∷ str "middle_name"
    ∷ str "nickname"
    ∷ str "preferred_username"
    ∷ str "profile"
    ∷ str "picture"
    ∷ str "website"
    ∷ str "email"
    ∷ str "email_verified"
    ∷ str "gender"
    ∷ str "birthdate"
    ∷ str "zoneinfo"
    ∷ str "location"
    ∷ str "locale"
    ∷ []

-- isCustomClaim
unfoldable pub is_custom_claim : Bytes → Bool
unfolding one_of
is_custom_claim claim = not (one_of handled_claims claim)

-- the loop of Custom
unfoldable pub custom_fields : Fields → Fields
custom_fields no_fields = no_fields
custom_fields (field k v raw) =
    let rest = custom_fields raw in if is_custom_claim k then field k v rest else rest

-- Custom
unfoldable pub custom_of : Claims → Fields
unfolding custom_fields
custom_of c = custom_fields c.raw

-- ToUser
unfoldable pub to_user : Claims → User
unfolding custom_of
to_user c = record no_user {
  user_id = c.subject;
  name = c.name;
  first_name = c.given_name;
  last_name = c.family_name;
  middle_name = c.middle_name;
  nick_name = c.nick_name;
  preferred_username = c.preferred_username;
  profile = c.profile;
  picture = c.picture;
  website = c.website;
  email = c.email;
  email_verified = c.email_verified;
  gender = c.gender;
  birth_date = c.birth_date;
  zone_info = c.zone_info;
  locale = c.locale;
  location = c.location;
  custom_claims = custom_of c;
}

abbrev payload_of : List Bytes → Option Bytes
payload_of (header ∷ payload ∷ signature ∷ []) = some payload
payload_of _ = none

-- tryParseJWT; `decode` is base64.RawURLEncoding.DecodeString, whose error is none. A nil result is none.
unfoldable pub try_parse_jwt : (decode : Bytes → Option Bytes) → Bytes → Option Bytes
try_parse_jwt decode token = elim (payload_of (split b'.' token)) [
  | none ↦ none
  | some payload ↦ decode payload
]
