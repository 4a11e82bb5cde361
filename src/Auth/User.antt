-- ===== src/Auth/User.antt =====
-- pkg/authentication/authentication.go: the user of a request, and the JSON values of its claims.
use wundergraph.Prelude.{Bool, false, Option, none, List, [], Bytes}
use wundergraph.Prelude.Int.{ℤ}

-- A float64 as the code sees it: whether `x == float64(int(x))`, `int64(x)`, and its text by
-- `strconv.FormatFloat(x, 'f', -1, 64)`.
pub record Float : Type 0 where
  pub integral : Bool
  pub as_int : ℤ
  pub shown : Bytes

-- A decoded JSON value (interface{}). An object is a Go map: of two entries with one key the first
-- counts.
mutual
  pub data Json : Type 0 where
    null : Json
    text : Bytes → Json
    bool : Bool → Json
    number : Float → Json
    array : Items → Json
    object : Fields → Json

  pub data Items : Type 0 where
    no_items : Items
    item : Json → Items → Items

  pub data Fields : Type 0 where
    no_fields : Fields
    field : Bytes → Json → Fields → Fields

-- `ExpiresAt` is not read by the modelled code, and left out.
pub record User : Type 0 where
  pub provider_name : Bytes
  pub provider_id : Bytes
  pub user_id : Bytes
  pub name : Bytes
  pub first_name : Bytes
  pub last_name : Bytes
  pub middle_name : Bytes
  pub nick_name : Bytes
  pub preferred_username : Bytes
  pub profile : Bytes
  pub picture : Bytes
  pub website : Bytes
  pub email : Bytes
  pub email_verified : Bool
  pub gender : Bytes
  pub birth_date : Bytes
  pub zone_info : Bytes
  pub locale : Bytes
  pub location : Bytes
  pub custom_claims : Fields
  pub custom_attributes : List Bytes
  pub roles : List Bytes
  pub etag : Bytes
  pub from_cookie : Bool
  pub access_token : Option Bytes
  pub raw_access_token : Bytes
  pub id_token : Option Bytes
  pub raw_id_token : Bytes

-- User{}
abbrev pub no_user : User
no_user = record {
  provider_name = [];
  provider_id = [];
  user_id = [];
  name = [];
  first_name = [];
  last_name = [];
  middle_name = [];
  nick_name = [];
  preferred_username = [];
  profile = [];
  picture = [];
  website = [];
  email = [];
  email_verified = false;
  gender = [];
  birth_date = [];
  zone_info = [];
  locale = [];
  location = [];
  custom_claims = no_fields;
  custom_attributes = [];
  roles = [];
  etag = [];
  from_cookie = false;
  access_token = none;
  raw_access_token = [];
  id_token = none;
  raw_id_token = [];
}

-- RemoveInternalFields
unfoldable pub remove_internal_fields : User → User
remove_internal_fields u = record u {
  etag = [];
  from_cookie = false;
  access_token = none;
  raw_access_token = [];
  id_token = none;
  raw_id_token = [];
}
