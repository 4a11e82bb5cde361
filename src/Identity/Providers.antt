-- ===== src/Identity/Providers.antt =====
-- pkg/authentication/oidc.go: the providers of OpenID Connect, their set, and the end of a session.
use wundergraph.Prelude.{
  ℕ, Bool, false, not, Option, none, some, List, [], ◌∷◌, ◌++◌, Bytes, str, ◌==◌, eqb,
  if◌then◌else◌, is_empty, trim_suffix,
}
use wundergraph.Auth.User.{User}

-- openIDConnectConfiguration
pub record Configuration : Type 0 where
  pub issuer : Bytes
  pub authorization_endpoint : Bytes
  pub token_endpoint : Bytes
  pub userinfo_endpoint : Bytes
  pub jwks_uri : Bytes
  pub end_session_endpoint : Bytes

-- Validate: the field that is missing
unfoldable pub missing_field : Configuration → Option Bytes
missing_field c =
    if is_empty c.issuer
    then some (str "issuer")
    else if is_empty c.authorization_endpoint
    then some (str "authorization_endpoint")
    else if is_empty c.token_endpoint
    then some (str "token_endpoint")
    else if is_empty c.userinfo_endpoint
    then some (str "userinfo_endpoint")
    else none

-- OpenIDConnectFlavor
pub data Flavor : Type 0 where
  default auth0 : Flavor

pub record Provider : Type 0 where
  pub client_id : Bytes
  pub client_secret : Bytes
  pub flavor : Flavor
  pub config : Configuration

-- The answer of an issuer to the request of its configuration: an error, or a status and, if its body
-- is decoded, a configuration.
pub data Introspection : Type 0 where
  unreachable : Introspection
  answered : ℕ → Option Configuration → Introspection

new_provider : Bytes → Bytes → Flavor → Introspection → Option Provider
new_provider client_id client_secret flavor unreachable = none
new_provider client_id client_secret flavor (answered status config) =
    if not (eqb status 200) then none else elim config [
      | none ↦ none
      | some c ↦ elim (missing_field c) [
        | some field ↦ none
        | none ↦ some (record {
          client_id = client_id;
          client_secret = client_secret;
          flavor = flavor;
          config = c;
        })
      ]
    ]

-- NewOpenIDConnectProvider; `is_uri` is that url.ParseRequestURI returns no error, and `fetch` is a GET
-- of a URL. Options of nil have the default flavor.
unfoldable pub new_open_id_connect_provider :
    (Bytes → Bool)
    → (Bytes → Introspection)
    → Bytes
    → Bytes
    → Bytes
    → Option Flavor
    → Option Provider
unfolding new_provider trim_suffix
new_open_id_connect_provider is_uri fetch issuer client_id client_secret opts =
    if is_empty issuer
    then none
    else if is_empty client_id
    then none
    else if is_empty client_secret
    then none
    else if not (is_uri issuer)
    then none
    else new_provider client_id client_secret (elim opts [ none ↦ default | some f ↦ f ])
        (fetch (trim_suffix issuer (str "/") ++ str "/.well-known/openid-configuration"))

-- What Disconnect returns: an error, or no result, or the URL that the client must visit
pub data Disconnected : Type 0 where
  failed : Disconnected
  no_result : Disconnected
  redirect : Bytes → Disconnected

-- Disconnect; `end_session url id_token` says whether the request to the issuer got an answer
unfoldable pub disconnect : (Bytes → Bytes → Bool) → Provider → User → Disconnected
disconnect end_session p user = elim p.flavor [
  | default ↦
      if is_empty p.config.end_session_endpoint
      then failed
      else if end_session p.config.end_session_endpoint user.raw_id_token
      then no_result
      else failed
  | auth0 ↦ redirect (p.config.issuer ++ str "v2/logout?client_id=" ++ p.client_id)
]

-- RequiresClientCooperation
unfoldable pub requires_client_cooperation : Disconnected → Bool
requires_client_cooperation (redirect url) = not (is_empty url)
requires_client_cooperation _ = false

-- OpenIDConnectProviderSet; with each id that has a provider, the provider
abbrev pub ProviderSet : Type 0
ProviderSet = List (Bytes × Provider)

-- ByID; none is an error
unfoldable pub by_id : Bytes → ProviderSet → Option Provider
by_id id [] = none
by_id id ((j, p) ∷ s) = let rest = by_id id s in if j == id then some p else rest

-- Add; none is an error, beside which the set is as it was
unfoldable pub add : Bytes → Provider → ProviderSet → Option ProviderSet
unfolding by_id
add id p s = elim (by_id id s) [ none ↦ some ((id, p) ∷ s) | some q ↦ none ]
