-- ===== src/Handlers/Samples.antt =====
-- Sample operations and requests for the tests of the handlers.
use wundergraph.Prelude.{true, false, none, some, [], ◌∷◌, ◌++◌, Bytes, str}
use wundergraph.Auth.User.{User, no_user}
use wundergraph.Auth.Rbac.{new_enforcer}
use wundergraph.Hooks.Client.{client_request, World, Env, MiddlewareHookResponse, answer}
use wundergraph.Hooks.Pipeline.{Pipeline, no_writer}
use wundergraph.Hooks.Pipeline.Operation.{Resolution}
use wundergraph.Handlers.{key_errors, Validator}
use wundergraph.Handlers.Variables.{Libs}
use wundergraph.Handlers.Prepare.{Operation, Request}

abbrev pub libs : Libs
libs = record {
  is_json = λ d. false;
  set_raw = λ d k v. d ++ k ++ v;
  set_text = λ d k v. d ++ k ++ v;
  for_each = λ d. [];
  set = λ d v k. some (d ++ v);
  compact = λ d. some d;
  encode = λ e. some e.message;
  claim_text = λ e. [];
  claim_json = λ e. none;
  generate_uuid = λ n. [];
  now = λ f. [];
  getenv = λ n. [];
}

abbrev pub accepts_all : Validator
accepts_all = record { schema = λ d. key_errors []; disable_verbose_errors = false }

abbrev pub refuses_all : Validator
refuses_all = record {
  schema = λ d. key_errors (str "required" ∷ []);
  disable_verbose_errors = true;
}

-- a pipeline with no hook
abbrev pub no_hooks : Pipeline
no_hooks = record {
  operation_name = str "Users";
  pre = false;
  mutating_pre = false;
  custom = false;
  mock = false;
  post = false;
  mutating_post = false;
  user = none;
  request = client_request;
  writer = no_writer;
}

abbrev pub hook_answer : MiddlewareHookResponse
hook_answer = record {
  error = [];
  op = [];
  hook = [];
  response = str "filtered";
  input = [];
  set_client_request_headers = [];
  client_response_status_code = 0;
}

-- a hooks server that answers every call with `hook_answer`
abbrev pub hooks_server : Env
hooks_server = record {
  set = λ d v p. some (d ++ v);
  exists = λ d p. false;
  marshal_request = λ r. some r.request_uri;
  unmarshal_response = λ d. some hook_answer;
  decode_response = λ d. some hook_answer;
  serve = λ l c. answer 200 [];
}

abbrev pub users : Operation
users = record {
  enforcer = new_enforcer (record {
    require_match_all = [];
    require_match_any = [];
    deny_match_all = [];
    deny_match_any = [];
  });
  validator = accepts_all;
  string_interpolator = λ d. d;
  json_string_interpolator = λ d. d;
  extracted_variables = [];
  claims = [];
  injections = none;
  hooks_pipeline = no_hooks;
}

-- admins only
abbrev pub admin_users : Operation
admin_users = record users {
  enforcer = new_enforcer (record {
    require_match_all = str "admin" ∷ [];
    require_match_any = [];
    deny_match_all = [];
    deny_match_any = [];
  });
}

abbrev pub ann : User
ann = record no_user { user_id = str "ann" }

abbrev pub bob : User
bob = record no_user { user_id = str "bob" }

abbrev pub by : User → Request
by u = record {
  user = some u;
  query = [];
  method = str "GET";
  request_uri = str "/me";
  header = [];
  can_flush = true;
  write_error = λ d. none;
  now = 100;
  later = 101;
}

abbrev pub new_world : World
new_world = record {
  variables = [];
  request_header = [];
  client = none;
  buf = [];
  sent = [];
  resolved = [];
  written = [];
}

-- a resolver that answers with the variables
abbrev pub echoes : Bytes → Resolution
echoes v = record { output = v; variables = v; fails = false }
