-- ===== src/Validate.antt =====
-- pkg/validate: the tests of values of the configuration (validator.go), and those of an Api's secrets
-- (apiconfig.go, with HasCookieAuthEnabled of pkg/apihandler/api.go).
pub mod Accepts
pub mod Tests
use wundergraph.Prelude.{
  ℕ, ◌<◌, Bool, true, false, not, Option, none, some, List, [], ◌∷◌, ◌++◌, Bytes, str,
  if◌then◌else◌, is_empty, eqb, ltb, length,
}
use wundergraph.Prelude.Int.{pos, show_int}
use wundergraph.Load.{ConfigurationVariable, string}

-- A value of type any. A pointer to a string may be nil, and so may the value itself.
pub data Value : Type 0 where
  nil nil_pointer other : Value
  text pointer : Bytes → Value

pub record Validator : Type 0 where
  pub config_path : Bytes
  pub data' : Value

-- Whether a value is valid, and messages why it is not. none is a panic, of a nil pointer.
abbrev pub Verdict : Type 0
Verdict = Option (Bool × List Bytes)

abbrev pub ValidationFunc : Type 0
ValidationFunc = Validator → Verdict

abbrev pub valid : Verdict
valid = some (true, [])

abbrev pub invalid : Bytes → Verdict
invalid message = some (false, message ∷ [])

-- the switch on the type of the value that the four tests share
unfoldable pub on_string : (Bytes → Bool) → Bytes → Bytes → Value → Verdict
on_string fails message no_string (pointer s) = if fails s then invalid message else valid
on_string fails message no_string nil_pointer = none
on_string fails message no_string (text s) = if fails s then invalid message else valid
on_string fails message no_string _ = invalid no_string

unfoldable pub no_string_message : Validator → Bytes
no_string_message v = v.config_path ++ str " must be a string"

-- MinLength
unfoldable pub min_length : ℕ → ValidationFunc
unfolding on_string no_string_message
min_length n v =
    on_string (λ s. ltb (length s) n)
      (v.config_path ++ str " must be at least " ++ show_int (pos n) ++ str " characters long")
      (no_string_message v) v.data'

-- Length
unfoldable pub exact_length : ℕ → ValidationFunc
unfolding on_string no_string_message
exact_length n v =
    on_string (λ s. not (eqb (length s) n))
      (v.config_path ++ str " must be exactly " ++ show_int (pos n) ++ str " characters long")
      (no_string_message v) v.data'

-- MaxLength
unfoldable pub max_length : ℕ → ValidationFunc
unfolding on_string no_string_message
max_length n v =
    on_string (λ s. ltb n (length s))
      (v.config_path ++ str " must be at most " ++ show_int (pos n) ++ str " characters long")
      (no_string_message v) v.data'

abbrev is_nil : Value → Bool
is_nil nil = true
is_nil _ = false

-- Required
unfoldable pub required : ValidationFunc
unfolding on_string no_string_message
required v =
    let message = v.config_path ++ str " is required" in
    if is_nil v.data'
    then invalid message
    else on_string is_empty message (no_string_message v) v.data'

-- Validate: the first test that fails ends the loop
unfoldable pub validate : List ValidationFunc → Validator → Verdict
validate [] v = valid
validate (f ∷ fs) v = elim (f v) [
  | none ↦ none
  | some (ok, messages) ↦ let rest = validate fs v in if ok then rest else some (false, messages)
]

-- wgpb.ApiCookieBasedAuthentication, with the number of its providers
pub record CookieBased : Type 0 where
  pub providers : ℕ
  pub csrf_secret : Option ConfigurationVariable
  pub block_key : Option ConfigurationVariable
  pub hash_key : Option ConfigurationVariable

-- Api, as far as it is tested: AuthenticationConfig and its CookieBased may be nil
pub record Api : Type 0 where
  pub authentication_config : Option (Option CookieBased)

-- the cookies of an Api, where HasCookieAuthEnabled says that there are any
unfoldable pub cookie_auth : Api → Option CookieBased
cookie_auth api = elim api.authentication_config [
  | none ↦ none
  | some none ↦ none
  | some (some c) ↦ if ltb 0 c.providers then some c else none
]

unfoldable pub validate_text : Bytes → Bytes → List ValidationFunc → Verdict
unfolding validate
validate_text path value fs = validate fs record { config_path = path; data' = text value }

-- `if valid, msg := …; !valid { return valid, msg }`, before the rest
unfoldable pub unless_failed : Verdict → Verdict → Verdict
unless_failed (some (true, _)) rest = rest
unless_failed failed rest = failed

-- the places of the secrets in the configuration
abbrev pub csrf_secret_path : Bytes
csrf_secret_path = str "authentication.cookieBased.csrfTokenSecret"

abbrev pub block_key_path : Bytes
block_key_path = str "authentication.cookieBased.secureCookieBlockKey"

abbrev pub hash_key_path : Bytes
hash_key_path = str "authentication.cookieBased.secureCookieHashKey"

-- ApiConfig
unfoldable pub api_config : (Bytes → Bytes) → Api → Verdict
unfolding cookie_auth validate_text required exact_length unless_failed
api_config getenv api = elim (cookie_auth api) [
  | none ↦ valid
  | some c ↦
      let csrf =
        validate_text csrf_secret_path (string getenv c.csrf_secret)
          (required ∷ exact_length 11 ∷ []) in
      let block =
        validate_text block_key_path (string getenv c.block_key)
          (required ∷ exact_length 32 ∷ []) in
      let hash =
        validate_text hash_key_path (string getenv c.hash_key) (required ∷ exact_length 32 ∷ []) in
      unless_failed csrf (unless_failed block hash)
]
