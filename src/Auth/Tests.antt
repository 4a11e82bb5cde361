-- ===== src/Auth/Tests.antt =====
-- Roles, redirect targets and domains at concrete inputs.
use wundergraph.Prelude.{
  ◌≡◌, ◌≢◌, ◌↔◌, ◌⊎◌, refl, true, false, none, some, [], ◌∷◌, str, ◌==◌, Any, contains_byte,
  before_byte, has_suffix, split, join,
}
use wundergraph.Auth.User.{User, no_user}
use wundergraph.Auth.Rbac.{
  RoleConfig, new_enforcer, contains_one, contains_every, contains_some, enforce,
}
use wundergraph.Auth.Rbac.Policy.{HasNoRules, PermitsUser, enforce_iff}
use wundergraph.Auth.Domain.{sanitize_domain, remove_subdomain}
use wundergraph.Auth.Redirect.{Regexp, Request, new_validator, get_validated_redirect_uri}
use wundergraph.Auth.Redirect.Targets.{requested, Covers, Accepts, get_validated_redirect_uri_iff}

abbrev editors : RoleConfig
editors = record {
  require_match_all = str "editor" ∷ [];
  require_match_any = str "eu" ∷ str "us" ∷ [];
  deny_match_all = [];
  deny_match_any = str "banned" ∷ [];
}

abbrev ann : User
ann = record no_user { roles = str "us" ∷ str "editor" ∷ [] }

abbrev bob : User
bob = record no_user { roles = str "banned" ∷ str "us" ∷ str "editor" ∷ [] }

roles_decide :
    (enforce (new_enforcer editors) (some ann) ≡ true)
    × (enforce (new_enforcer editors) (some bob) ≡ false)
    × (enforce (new_enforcer editors) none ≡ false)
unfolding enforce new_enforcer contains_one contains_every contains_some ◌==◌
roles_decide = (refl, refl, refl)

enforce_iff_example :
    (enforce (new_enforcer editors) (some ann) ≡ true)
    ↔ (HasNoRules editors ⊎ PermitsUser editors (some ann))
enforce_iff_example = enforce_iff editors (some ann)

domains :
    (sanitize_domain (str "localhost:9991") ≡ str "localhost")
    × (remove_subdomain (str "api.example.com") ≡ str "example.com")
    × (remove_subdomain (str "example.com") ≡ str "example.com")
unfolding sanitize_domain remove_subdomain contains_byte before_byte split join
domains = (refl, refl, refl)

-- the host of an address loses its first number
address_domain : remove_subdomain (str "127.0.0.1") ≡ str "0.0.1"
unfolding remove_subdomain split join
address_domain = refl

-- a package regexp whose only pattern that compiles accepts every text
abbrev any_text : Regexp
any_text = record {
  Matcher = Unit {0};
  compile = λ p. elim p [ [] ↦ some tt | _ ↦ none ];
  match_string = λ m uri. true;
}

abbrev to_app : Request
to_app = record { redirect_uri = str "https://app/"; cookie = none }

get_validated_redirect_uri_iff_example :
    (((get_validated_redirect_uri any_text
          (new_validator any_text (str "https://app" ∷ []) [])
          to_app).1
        ≡ true)
      ↔ ((requested to_app ≢ [])
          × (Any (λ a. Covers a (requested to_app)) (str "https://app" ∷ [])
              ⊎ Any (λ p. Accepts any_text p (requested to_app)) [])))
    × ((get_validated_redirect_uri any_text
          (new_validator any_text (str "https://app" ∷ []) [])
          to_app).0
        ≡ requested to_app)
get_validated_redirect_uri_iff_example =
    get_validated_redirect_uri_iff any_text (str "https://app" ∷ []) [] to_app

redirects :
    get_validated_redirect_uri any_text (new_validator any_text (str "https://app" ∷ []) []) to_app
    ≡ (str "https://app/", true)
unfolding get_validated_redirect_uri new_validator has_suffix ◌==◌
redirects = refl
