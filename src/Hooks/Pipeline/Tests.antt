-- ===== src/Hooks/Pipeline/Tests.antt =====
-- Runs of a pipeline with every hook enabled, against a hooks server that answers all of them.
use wundergraph.Prelude.{◌≡◌, refl, Bool, true, false, none, some, [], ◌∷◌, ◌++◌, Bytes, str, ◌==◌}
use wundergraph.Hooks.Client.Monad.{ok, ◌>>=◌}
use wundergraph.Hooks.Client.{
  client_request, World, MiddlewareHookResponse, answer, Env, do_operation_request,
}
use wundergraph.Hooks.Pipeline.{Pipeline, no_writer, run_pre_resolve, run_post_resolve, stage}
use wundergraph.Hooks.Pipeline.Operation.{Resolution, run, run_subscription}
use wundergraph.Hooks.Pipeline.Effects.{Sends}
use wundergraph.Hooks.Pipeline.Order.{pre_plan, post_plan}
use wundergraph.Hooks.Pipeline.Run.{run-Sends, run_subscription-Sends}
use wundergraph.Hooks.Pipeline.Resolved.{resolutions, resolved-run}

abbrev pub answered : MiddlewareHookResponse
answered = record {
  error = [];
  op = [];
  hook = [];
  response = str "null";
  input = str "{\"id\":7}";
  set_client_request_headers = [];
  client_response_status_code = 0;
}

-- a server whose every answer is the same
abbrev pub echo : Env
echo = record {
  set = λ d v p. some (d ++ v);
  exists = λ d p. false;
  marshal_request = λ r. some r.request_uri;
  unmarshal_response = λ d. some answered;
  decode_response = λ d. some answered;
  serve = λ l c. answer 200 [];
}

abbrev all_hooks : Pipeline
all_hooks = record {
  operation_name = str "Users";
  pre = true;
  mutating_pre = true;
  custom = true;
  mock = false;
  post = true;
  mutating_post = true;
  user = none;
  request = client_request;
  writer = no_writer;
}

abbrev mocked_hooks : Pipeline
mocked_hooks = record all_hooks { mock = true }

abbrev plain_hooks : Pipeline
plain_hooks = record all_hooks { mutating_pre = false }

abbrev start : World
start = record {
  variables = str "{\"id\":1}";
  request_header = [];
  client = some (record { method = str "GET"; request_uri = str "/users"; header = [] });
  buf = [];
  sent = [];
  resolved = [];
  written = [];
}

abbrev resolve_all : Bytes → Resolution
resolve_all v = record { output = v; variables = []; fails = false }

abbrev never : Bytes → Bool
never b = false

-- the mutated input reaches the resolver, and mutatingPostResolve has the last word
all_hooks_called :
    ((run echo all_hooks resolve_all none start).0
      ≡ ok (record { done = false; resolved = false; data' = str "null" }))
    × ((run echo all_hooks resolve_all none start).1.resolved ≡ str "{\"id\":7}" ∷ [])
unfolding run run_pre_resolve run_post_resolve stage do_operation_request ◌>>=◌ ◌==◌
all_hooks_called = (refl, refl)

plain_pre :
    (run_pre_resolve echo plain_hooks start).0
    ≡ ok (record { done = false; resolved = false; data' = str "{\"id\":1}" })
unfolding run_pre_resolve stage do_operation_request ◌>>=◌ ◌==◌
plain_pre = refl

run-Sends_example :
    Sends
      (pre_plan all_hooks ++ post_plan all_hooks)
      start
      (run echo all_hooks resolve_all none start).0
      (run echo all_hooks resolve_all none start).1
run-Sends_example = run-Sends echo all_hooks resolve_all none start

run_subscription-Sends_example :
    Sends
      (pre_plan all_hooks)
      start
      (run_subscription echo all_hooks resolve_all never start).0
      (run_subscription echo all_hooks resolve_all never start).1
run_subscription-Sends_example = run_subscription-Sends echo all_hooks resolve_all never start

resolved-run_example :
    (run echo all_hooks resolve_all none start).1.resolved
    ≡ start.resolved ++ resolutions (run_pre_resolve echo all_hooks start).0
resolved-run_example = resolved-run echo all_hooks resolve_all none start
