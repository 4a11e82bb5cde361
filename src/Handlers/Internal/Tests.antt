-- ===== src/Handlers/Internal/Tests.antt =====
-- Tests of InternalApiHandler, and witnesses.
use wundergraph.Prelude.{◌≡◌, refl, true, none, some, [], ◌∷◌, str, ◌==◌, if◌then◌else◌}
use wundergraph.Hooks.Header.{set_all, set, put, canonical, is_token}
use wundergraph.Handlers.{other_error}
use wundergraph.Handlers.Samples.{libs, hooks_server, users, no_hooks, new_world, echoes, ann}
use wundergraph.Handlers.Prepare.{Operation, Conn}
use wundergraph.Handlers.Internal.{
  InternalRequest, InternalTools, unwrapped, unwrap, from_client_request, with_headers,
  new_request_from_wundergraph_client_request,
}

-- bodies that say no more than whether there is a client request
abbrev tools : InternalTools
tools = record {
  libs = libs;
  hooks = hooks_server;
  marshal_user = λ u. some u.user_id;
  cause = λ e. other_error (str "failed");
  resolve = echoes;
  transformer = none;
  get = λ data' path. if data' == str "named" then some (str "{}") else none;
  get_string = λ data' path. some (str "GET");
  object_each = λ data' path. some ((str "accept", str "text/html") ∷ []);
  new_request = λ method uri. some record { method = method; request_uri = uri; header = [] };
}

-- an operation with one hook
abbrev watched : Operation
watched = record users { hooks_pipeline = record no_hooks { post = true } }

abbrev unnamed : InternalRequest
unnamed = record { header = []; body = some (str "{}"); user = some ann; can_flush = true }

abbrev quiet : Conn (Unit {0})
quiet = record { world = new_world; cache = tt; out = [] }

header_is_set :
    new_request_from_wundergraph_client_request tools (str "named")
    ≡ unwrapped (record {
      method = str "GET";
      request_uri = str "GET";
      header = (str "Accept", str "text/html" ∷ []) ∷ [];
    })
unfolding new_request_from_wundergraph_client_request unwrap from_client_request with_headers
    set_all set put canonical is_token ◌==◌
header_is_set = refl
