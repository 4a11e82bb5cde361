-- ===== src/Transport/Tests.antt =====
-- Tests of the transport to origins, and witnesses of its theorems.
use wundergraph.Prelude.{◌≡◌, refl, true, false, none, some, [], ◌∷◌, ◌++◌, str, ◌==◌}
use wundergraph.Hooks.Header.{get, set, lookup, put, is_token}
use wundergraph.Hooks.Client.Monad.{err, ◌>>=◌}
use wundergraph.Hooks.Client.{do_global_request}
use wundergraph.Handlers.Samples.{hooks_server, hook_answer, ann, new_world}
use wundergraph.Load.{ConfigurationVariable, static, string}
use wundergraph.Transport.{reads, OriginRequest, mutation, not_implemented, Tools, Trip}
use wundergraph.Transport.Upstream.{
  Configurations, jwt, jwt_with_access_token_exchange, put as put_host, put_fetch, authenticate, at,
  handle_upstream_authentication, graphql_source, rest_source, configured,
}
use wundergraph.Transport.Hooked.{
  ApiTransport, contains, authenticated, on_request_payload, identified, round_trip,
}
use wundergraph.Transport.Origin.{Unmarked, round_trip-Unmarked, Undecided}

abbrev order : OriginRequest
order = record {
  method = str "POST";
  uri = str "https://origin/orders";
  host = str "origin";
  header = [];
  body = reads (str "{}");
}

-- an origin that answers every request with its body, where the hooks server decides nothing
abbrev tools : Tools
tools = record {
  hooks = hooks_server;
  marshal_user = λ u. some u.user_id;
  marshal_on_request = λ p. some p.operation_name;
  marshal_on_response = λ p. some p.operation_name;
  unmarshal_on_request = λ d. some (record { skip = false; cancel = false; request = none });
  unmarshal_on_response = λ d. some (record { skip = true; cancel = false; response = none });
  new_request = λ m u b. some (record order { method = m; uri = u; body = reads b });
  origin = λ l r. some (record {
    status_code = 200;
    status = str "200 OK";
    header = [];
    body = some (str "accepted");
    request_method = r.method;
    request_uri = r.uri;
  });
}

abbrev transport : ApiTransport
transport = record {
  getenv = λ n. [];
  sign = λ key claims. some (claims.subject ++ key);
  now = 100;
  primary_host = str "api";
  upstream_auth_configurations = [];
  on_request_hook = str "Order" ∷ [];
  on_response_hook = [];
  enable_streaming_mode = false;
  user = some ann;
  meta_data = some (record { operation_name = str "Order"; operation_type = mutation });
  request_id = str "1";
  is_upgrade_request = false;
}

abbrev begin : Trip
begin = record { world = new_world; tripped = [] }

abbrev internal : OriginRequest
internal = record order { header = (str "X-Wg-Internal-Graphql-Api", str "true" ∷ []) ∷ [] }

unfoldable undecided : Undecided tools transport order begin (str "{}")
unfolding get set lookup put is_token ◌==◌ authenticated at contains do_global_request ◌>>=◌
    on_request_payload
undecided = record {
  not_internal = refl;
  request = identified tools transport order;
  is_authenticated = refl;
  has_body = refl;
  operation = record { operation_name = str "Order"; operation_type = mutation };
  is_hooked = refl;
  data' = str "Order";
  is_marshalled = refl;
  out = hook_answer;
  answers = refl;
  decision = record { skip = false; cancel = false; request = none };
  is_decoded = refl;
  not_skipped = refl;
  not_cancelled = refl;
  no_request = refl;
}

abbrev secret : ConfigurationVariable
secret = record {
  kind = static;
  static_variable_content = str "key";
  environment_variable_name = [];
  environment_variable_default_value = [];
}

-- requests to the origin are signed
abbrev signing : Configurations
signing = (str "origin", jwt (some secret)) ∷ []

round_trip-Unmarked_example :
    Unmarked
      (identified tools transport internal).header
      begin
      (round_trip tools transport internal begin)
    × (round_trip tools (record transport { upstream_auth_configurations = signing }) internal begin
        ≡ round_trip tools transport internal begin)
unfolding get set lookup put is_token ◌==◌
round_trip-Unmarked_example = round_trip-Unmarked tools transport internal begin signing refl

-- of two data sources with one host, the later one's authentication counts
later_counts :
    at (str "key") (
      configured
        (λ n. [])
        some
        (graphql_source (
            some (record {
              url = some secret;
              upstream_authentication = some jwt_with_access_token_exchange;
            }))
          ∷ rest_source (
              some
                (record { url = some secret; upstream_authentication = some (jwt (some secret)) }))
          ∷ [])
        [])
    ≡ some (jwt (some secret))
unfolding configured put_fetch put_host at string ◌==◌
later_counts = refl

not_exchanged :
    handle_upstream_authentication
      (λ n. [])
      (λ k c. none)
      []
      0
      jwt_with_access_token_exchange
      (some ann)
      order
    ≡ err not_implemented
unfolding handle_upstream_authentication authenticate
not_exchanged = refl
