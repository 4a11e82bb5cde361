-- ===== src/Transport/Upstream.antt =====
-- pkg/apihandler/apitransport.go: how the transport signs requests to origins, and what
-- NewApiTransport takes from the configuration.
use wundergraph.Prelude.{
  Option, none, some, List, [], ◌∷◌, ◌++◌, Bytes, str, ◌==◌, if◌then◌else◌, is_empty,
}
use wundergraph.Prelude.Int64.{Int64, add64}
use wundergraph.Auth.User.{User}
use wundergraph.Load.{ConfigurationVariable, string}
use wundergraph.Hooks.Header.{set}
use wundergraph.Hooks.Client.Monad.{Result, ok, err}
use wundergraph.Transport.{OriginRequest, TransportError, not_signed, not_implemented}

-- wgpb.UpstreamAuthentication by its kind, with the secret of its JwtConfig, which a JWT has; its only
-- signing method is HS256
pub data UpstreamAuthentication : Type 0 where
  jwt : Option ConfigurationVariable → UpstreamAuthentication
  jwt_with_access_token_exchange other_authentication : UpstreamAuthentication

-- the Fetch of a data source
pub record Fetch : Type 0 where
  pub url : Option ConfigurationVariable
  pub upstream_authentication : Option UpstreamAuthentication

-- wgpb.DataSourceConfiguration by its kind; none where CustomGraphql, CustomRest or its Fetch is nil
pub data DataSource : Type 0 where
  graphql_source rest_source : Option Fetch → DataSource
  other_source : DataSource

-- a map from hosts
abbrev pub Configurations : Type 0
Configurations = List (Bytes × UpstreamAuthentication)

unfoldable pub put : Bytes → UpstreamAuthentication → Configurations → Configurations
put host a [] = (host, a) ∷ []
put host a ((k, b) ∷ m) =
    let rest = put host a m in if k == host then (host, a) ∷ m else (k, b) ∷ rest

unfoldable pub at : Bytes → Configurations → Option UpstreamAuthentication
at host [] = none
at host ((k, a) ∷ m) = let rest = at host m in if k == host then some a else rest

-- `host_of` is the Host of url.Parse, none its error.
module _ (getenv : Bytes → Bytes) (host_of : Bytes → Option Bytes) where
  unfoldable pub put_fetch : Option Fetch → Configurations → Configurations
  unfolding put
  put_fetch none m = m
  put_fetch (some f) m = elim f.upstream_authentication [
    | none ↦ m
    | some a ↦ elim (host_of (string getenv f.url)) [ none ↦ m | some host ↦ put host a m ]
  ]

  -- the loop on the data sources in NewApiTransport
  unfoldable pub configured : List DataSource → Configurations → Configurations
  unfolding put_fetch
  configured [] m = m
  configured (graphql_source f ∷ sources) m = configured sources (put_fetch f m)
  configured (rest_source f ∷ sources) m = configured sources (put_fetch f m)
  configured (other_source ∷ sources) m = configured sources m

-- Claims, with its StandardClaims
pub record UpstreamClaims : Type 0 where
  pub name : Bytes
  pub expires_at : Int64
  pub issuer : Bytes
  pub subject : Bytes
  pub audience : Bytes

-- `sign` is SignedString of golang-jwt with HS256, for a key and claims; none is an error. `now` is the
-- time in seconds.
module _ (getenv : Bytes → Bytes) (sign : Bytes → UpstreamClaims → Option Bytes)
    (primary_host : Bytes) (now : Int64) where
  unfoldable pub upstream_claims : User → OriginRequest → UpstreamClaims
  upstream_claims user r = record {
    name = if is_empty user.name then user.nick_name else user.name;
    expires_at = add64 now 900;
    issuer = primary_host;
    subject = user.email;
    audience = r.host;
  }

  unfoldable pub authenticate :
      UpstreamAuthentication → User → OriginRequest → Result TransportError OriginRequest
  unfolding upstream_claims
  authenticate (jwt secret) user r = elim (sign (string getenv secret) (upstream_claims user r)) [
    | none ↦ err not_signed
    | some ss ↦ ok (record r { header = set (str "Authorization") (str "Bearer " ++ ss) r.header })
  ]
  authenticate jwt_with_access_token_exchange user r = err not_implemented
  authenticate other_authentication user r = ok r

  -- handleUpstreamAuthentication, for the user of the context
  unfoldable pub handle_upstream_authentication :
      UpstreamAuthentication → Option User → OriginRequest → Result TransportError OriginRequest
  unfolding authenticate
  handle_upstream_authentication a none r = ok r
  handle_upstream_authentication a (some user) r = authenticate a user r
