-- ===== src/Claims.antt =====
-- pkg/apihandler/apihandler.go: the claims of a user that are injected into an operation's variables.
pub mod Custom
pub mod Injection
pub mod Tests
use wundergraph.Prelude.{
  Bool, true, false, not, Option, none, some, List, [], ◌∷◌, ◌++◌, Bytes, str, ◌==◌, if◌then◌else◌,
}
use wundergraph.Prelude.Int.{ℤ, show_int}
use wundergraph.Auth.User.{
  Json, null, text, bool, number, array, object, Fields, no_fields, field, User,
}

-- wgpb.ClaimType; USERID and PROVIDER are other names of `subject` and `issuer`, and `unhandled` is
-- any number that the enumeration does not name.
pub data ClaimType : Type 0 where
  issuer subject name given_name family_name middle_name nick_name preferred_username : ClaimType
  profile picture website email email_verified gender birth_date zone_info locale : ClaimType
  location custom unhandled : ClaimType

-- wgpb.ValueType; `unknown_value` is any number that the enumeration does not name.
pub data ValueType : Type 0 where
  string_value int_value float_value boolean_value unknown_value : ValueType

pub record CustomClaim : Type 0 where
  pub name : Bytes
  pub json_path_components : List Bytes
  pub type : ValueType
  pub required : Bool

-- wgpb.ClaimConfig. A custom claim without its Custom, whose path the code cannot read without a panic,
-- is one with an empty path here, on which it panics too.
pub record ClaimConfig : Type 0 where
  pub claim_type : ClaimType
  pub variable_name : Bytes
  pub custom : CustomClaim

-- The errors of the injection. The first three are `ValidationError`s, for the client.
pub data ClaimError : Type 0 where
  not_found wrong_type not_integral : CustomClaim → ClaimError
  unhandled_value : ClaimError
  unhandled_claim set_failed : ClaimType → ClaimError

-- What a call returns, or that it panics.
pub data Outcome (A : Type 0) : Type 0 where
  ok : A → Outcome A
  err : ClaimError → Outcome A
  panic : Outcome A

-- m[key]: nil where the key is missing
unfoldable pub index : Fields → Bytes → Json
index no_fields key = null
index (field k v rest) key = let later = index rest key in if k == key then v else later

abbrev fields_of : Json → Option Fields
fields_of (object m) = some m
fields_of _ = none

-- lookupJsonPath, on the keys from keyIndex on; none is a panic, for an index out of range
unfoldable pub lookup_json_path : Json → List Bytes → Option Json
unfolding index
lookup_json_path value [] = none
lookup_json_path value (key ∷ []) =
    some (elim (fields_of value) [ none ↦ null | some m ↦ index m key ])
lookup_json_path value (key ∷ next ∷ keys) = elim (fields_of value) [
  | none ↦ some null
  | some m ↦ lookup_json_path (index m key) (next ∷ keys)
]

abbrev pub quoted : Bytes → Bytes
quoted s = b'"' ∷ s ++ b'"' ∷ []

abbrev pub bool_text : Bool → Bytes
bool_text true = str "true"
bool_text false = str "false"

-- The text that a custom claim puts in, or nothing where the claim is missing and not required.
unfoldable pub replacement : CustomClaim → Json → Outcome (Option Bytes)
replacement c null = if c.required then err (not_found c) else ok none
replacement c (text x) = elim c.type [
  | string_value ↦ ok (some (quoted x))
  | _ ↦ err (wrong_type c)
]
replacement c (bool x) = elim c.type [
  | boolean_value ↦ ok (some (bool_text x))
  | _ ↦ err (wrong_type c)
]
replacement c (number x) = elim c.type [
  | int_value ↦ if not x.integral then err (not_integral c) else ok (some (show_int x.as_int))
  | float_value ↦ ok (some x.shown)
  | _ ↦ err (wrong_type c)
]
replacement c (array _) = err unhandled_value
replacement c (object _) = err unhandled_value

-- The text of a claim that every user has, as the switch of injectWellKnownClaim chooses it.
well_known : ClaimType → User → Option Bytes
well_known issuer u = some (quoted u.provider_id)
well_known subject u = some (quoted u.user_id)
well_known name u = some (quoted u.name)
well_known given_name u = some (quoted u.first_name)
well_known family_name u = some (quoted u.last_name)
well_known middle_name u = some (quoted u.middle_name)
well_known nick_name u = some (quoted u.nick_name)
well_known preferred_username u = some (quoted u.preferred_username)
well_known profile u = some (quoted u.profile)
well_known picture u = some (quoted u.picture)
well_known website u = some (quoted u.website)
well_known email u = some (quoted u.email)
well_known email_verified u = some (bool_text u.email_verified)
well_known gender u = some (quoted u.gender)
well_known birth_date u = some (quoted u.birth_date)
well_known zone_info u = some (quoted u.zone_info)
well_known locale u = some (quoted u.locale)
well_known location u = some (quoted u.location)
well_known custom u = none
well_known unhandled u = none

-- `set data value key` is `jsonparser.Set(data, value, key)`; none is its error, beside which it
-- returns nil.
module _ (set : Bytes → Bytes → Bytes → Option Bytes) where
  write : ClaimConfig → Bytes → Option Bytes → Outcome Bytes
  write claim variables none = ok variables
  write claim variables (some value) = elim (set variables value claim.variable_name) [
    | none ↦ err (set_failed claim.claim_type)
    | some out ↦ ok out
  ]

  -- injectWellKnownClaim
  unfoldable pub inject_well_known_claim : ClaimConfig → User → Bytes → Outcome Bytes
  unfolding well_known write
  inject_well_known_claim claim user variables = elim (well_known claim.claim_type user) [
    | none ↦ err (unhandled_claim claim.claim_type)
    | some value ↦ write claim variables (some value)
  ]

  unfoldable pub put_replacement : ClaimConfig → Bytes → Outcome (Option Bytes) → Outcome Bytes
  unfolding write
  put_replacement claim variables (ok value) = write claim variables value
  put_replacement claim variables (err e) = err e
  put_replacement claim variables panic = panic

  -- injectCustomClaim
  unfoldable pub inject_custom_claim : ClaimConfig → User → Bytes → Outcome Bytes
  unfolding lookup_json_path replacement put_replacement
  inject_custom_claim claim user variables =
      elim (lookup_json_path (object user.custom_claims) claim.custom.json_path_components) [
        | none ↦ panic
        | some value ↦ put_replacement claim variables (replacement claim.custom value)
      ]

  -- the body of the loop of injectClaims
  unfoldable pub inject_claim : ClaimConfig → User → Bytes → Outcome Bytes
  unfolding inject_well_known_claim inject_custom_claim
  inject_claim claim user variables = elim claim.claim_type [
    | custom ↦ inject_custom_claim claim user variables
    | _ ↦ inject_well_known_claim claim user variables
  ]

  -- The loop: `variables` and `err` are assigned on every round, nil beside an error.
  unfoldable pub inject_each : List ClaimConfig → User → Bytes → Outcome Bytes → Outcome Bytes
  inject_each [] user variables last = last
  inject_each (claim ∷ claims) user variables last = elim (inject_claim claim user variables) [
    | ok out ↦ inject_each claims user out (ok out)
    | err e ↦ inject_each claims user [] (err e)
    | panic ↦ panic
  ]

  -- injectClaims
  unfoldable pub inject_claims : List ClaimConfig → Option User → Bytes → Outcome Bytes
  unfolding inject_each
  inject_claims [] user variables = ok variables
  inject_claims (claim ∷ claims) none variables = ok variables
  inject_claims (claim ∷ claims) (some user) variables =
      inject_each (claim ∷ claims) user variables (ok variables)
