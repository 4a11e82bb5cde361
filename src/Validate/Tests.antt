-- ===== src/Validate/Tests.antt =====
-- Tests of values of the configuration.
use wundergraph.Prelude.{◌≡◌, refl, Option, none, some, [], Bytes, str}
use wundergraph.Prelude.Int.{show_int, show_digits}
use wundergraph.Load.{ConfigurationVariable, static, string}
use wundergraph.Validate.{pointer, Validator, invalid, validate, CookieBased, Api, api_config}

abbrev name : Validator
name = record { config_path = str "name"; data' = pointer (str "wunder") }

abbrev secret : Bytes → Option ConfigurationVariable
secret s = some record {
  kind = static;
  static_variable_content = s;
  environment_variable_name = [];
  environment_variable_default_value = [];
}

abbrev cookies : CookieBased
cookies = record {
  providers = 1;
  csrf_secret = secret (str "aaaaaaaaaaa");
  block_key = secret (str "short");
  hash_key = none;
}

abbrev api : Api
api = record { authentication_config = some (some cookies) }

short_key :
    api_config (λ v. []) api
    ≡ invalid
        (str "authentication.cookieBased.secureCookieBlockKey must be exactly 32 characters long")
unfolding api_config validate string show_int show_digits
short_key = refl
