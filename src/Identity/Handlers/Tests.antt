-- ===== src/Identity/Handlers/Tests.antt =====
-- Tests of the handlers of users and of the providers of OpenID Connect, and witnesses.
use wundergraph.Prelude.{
  ◌≡◌, refl, true, false, Option, none, some, [], ◌∷◌, Bytes, str, ◌==◌, if◌then◌else◌, has_suffix,
}
use wundergraph.Prelude.Int.{pos}
use wundergraph.Auth.User.{User, no_user}
use wundergraph.Load.{static, ConfigurationVariable, string}
use wundergraph.Handlers.Samples.{hooks_server, new_world}
use wundergraph.Identity.Approval.{AuthHooks, UserCodec}
use wundergraph.Identity.Saved.{SaveCodec, session_cookie}
use wundergraph.Identity.Providers.{
  Configuration, auth0, Provider, answered, new_open_id_connect_provider, missing_field, add, by_id,
  disconnect, requires_client_cooperation,
}
use wundergraph.Identity.Handlers.{
  new_load_user_configs, UserHandler, user_serve_http, logout_serve_http, logout_from_provider,
}
use wundergraph.Identity.Handlers.Cleared.{
  Jar, take_cookies, HasNoLogin, logout_serve_http-HasNoLogin, HidesTokens,
  user_serve_http-HidesTokens,
}

abbrev jar : Jar
jar =
    session_cookie (str "user") (str "u") (str "api.example.com:443") false
    ∷ session_cookie (str "theme") (str "t") (str "api.example.com") false
    ∷ []

abbrev ann : User
ann = record no_user {
  user_id = str "ann";
  from_cookie = true;
  access_token = some (str "secret");
  raw_access_token = str "secret";
  provider_name = str "oidc";
  provider_id = str "corp";
}

abbrev codec : UserCodec
codec = record {
  marshal_user = λ u. some u.user_id;
  unmarshal_approval = λ d. some record { user = ann; message = []; status = str "ok" };
}

abbrev auth_hooks : AuthHooks
auth_hooks = record {
  calls_post_authentication = false;
  calls_mutating_post_authentication = false;
  calls_post_logout = true;
}

logout_serve_http-HasNoLogin_example : HasNoLogin (str "app.example.com") (
    take_cookies
      (logout_serve_http hooks_server codec auth_hooks
        (λ a b. true)
        []
        (str "app.example.com")
        false
        false
        (some ann)
        new_world).0.reset
      jar)
logout_serve_http-HasNoLogin_example =
    logout_serve_http-HasNoLogin hooks_server codec auth_hooks (λ a b. true) []
      (str "app.example.com") false false (some ann) new_world jar

abbrev sealing : SaveCodec
sealing = record {
  hash = λ u. some 7;
  encode_user = λ u. some u.user_id;
  encode_id = λ id. some id;
}

abbrev handler : UserHandler
handler = record { has_revalidate_hook = true; host = str "example.com"; insecure_cookies = false }

user_serve_http-HidesTokens_example :
    HidesTokens
      (user_serve_http hooks_server codec sealing handler [] true (some ann) new_world).0.answer
user_serve_http-HidesTokens_example =
    user_serve_http-HidesTokens hooks_server codec sealing handler [] true (some ann) new_world

abbrev found : Configuration
found = record {
  issuer = str "https://idp/";
  authorization_endpoint = str "a";
  token_endpoint = str "t";
  userinfo_endpoint = str "u";
  jwks_uri = [];
  end_session_endpoint = [];
}

abbrev corp : Provider
corp = record { client_id = str "c"; client_secret = str "s"; flavor = auth0; config = found }

-- a provider is fetched without the slash at the end of its issuer, once its fields are there
fetched :
    new_open_id_connect_provider
      (λ u. true)
      (λ u.
        answered
          (if u == str "https://idp/.well-known/openid-configuration" then 200 else 404)
          (some found))
      (str "https://idp/")
      (str "c")
      (str "s")
      (some auth0)
    ≡ some corp
unfolding new_open_id_connect_provider missing_field ◌==◌ has_suffix
fetched = refl

missing : missing_field (record found { token_endpoint = [] }) ≡ some (str "token_endpoint")
unfolding missing_field
missing = refl

added_once :
    (add (str "corp") corp [] ≡ some ((str "corp", corp) ∷ []))
    × (add (str "corp") corp ((str "corp", corp) ∷ []) ≡ none)
unfolding add ◌==◌
added_once = (refl, refl)

logged_out :
    logout_from_provider (λ u t. true) ((str "corp", corp) ∷ []) ann
    ≡ some (str "https://idp/v2/logout?client_id=c")
unfolding logout_from_provider by_id disconnect ◌==◌ requires_client_cooperation
logged_out = refl

abbrev named : Bytes → Option ConfigurationVariable
named content = some record {
  kind = static;
  static_variable_content = content;
  environment_variable_name = [];
  environment_variable_default_value = [];
}

-- of a provider whose keys cannot be loaded nothing is left
left_out :
    new_load_user_configs
      (λ v. [])
      (λ u. some u)
      (λ u. none)
      (λ j. some (j ∷ []))
      (record {
        user_info_endpoint = named (str "u");
        jwks_url = named (str "k");
        jwks_json = none;
        user_info_cache_ttl_seconds = pos 0;
      }
        ∷ [])
    ≡ []
unfolding new_load_user_configs string
left_out = refl
