-- ===== src/Handlers/Functions.antt =====
-- pkg/apihandler/apihandler.go: FunctionsHandler, whose operations are functions of the hooks server.
pub mod Polling
pub mod Tests
use wundergraph.Prelude.{
  ℕ, suc, Bool, true, false, not, ◌&&◌, Option, none, some, List, [], ◌∷◌, ◌++◌, Bytes, str, ◌==◌,
  if◌then◌else◌, is_empty, map, has_prefix,
}
use mathlib.Core.Option
use wundergraph.Auth.User.{User}
use wundergraph.Auth.Rbac.{enforce}
use wundergraph.Hooks.Header.{get}
use wundergraph.Hooks.Client.Monad.{Result, ok, err}
use wundergraph.Hooks.Client.{
  client_request, World, Env, MiddlewareHookResponse, HookError, do_function_request,
}
use wundergraph.Hooks.Client.Encode.{header_of, encode_data}
use wundergraph.Hooks.Client.Stream.{
  StreamParams, StreamError, Relayed, do_function_subscription_request,
}
use wundergraph.Handlers.{
  Sent, set_header, status, body, flush, http_error, hooks_wrote, validate_input_variables,
}
use wundergraph.Handlers.Variables.{
  Libs, WgRequestParams, parse_query_variables, parse_form_variables, new_wg_request_params,
  query_has,
}
use wundergraph.Handlers.Prepare.{
  Operation, Request, Conn, Served, returned, panics, tell, start, told_by,
}
use wundergraph.Handlers.Mutation.{Posted}
use wundergraph.Handlers.Query.{subscription_headers}
use wundergraph.Handlers.FlushWriter.{FlushWriter, get_flush_writer, write, flush_writer, close}

-- The fields of FunctionsHandler, and of its operation; of the first, the enforcer, the validator and
-- the string interpolator are read.
pub record FunctionsHandler : Type 0 where
  pub operation : Operation
  pub path : Bytes
  pub is_subscription : Bool
  pub live_enabled : Bool
  pub query_params_allow_list : List Bytes

-- The packages; `get_input` is jsonparser.Get(data, "input"), nil if there is none; `over` is
-- ctx.Err() != nil.
pub record Tools : Type 0 where
  pub libs : Libs
  pub hooks : Env
  pub marshal_user : User → Option Bytes
  pub get_input : Bytes → Bytes
  pub create_patch : Bytes → Bytes → Option Bytes
  pub write_fails : Bytes → Bool
  pub over : Bool

-- How a call of the handler goes on: the client was answered, or there is the input of the function.
pub data Input : Type 0 where
  refused : List Sent → Input
  input : Bytes → Input

module _ (t : Tools) where
  -- the variables of the request, before their interpolation; none if its body cannot be read
  unfoldable pub function_variables : FunctionsHandler → Request → Posted → Bytes → Option Bytes
  function_variables h r posted url_path =
      if r.method == str "GET"
      then some (parse_query_variables t.libs h.query_params_allow_list r.query)
      else if get (str "Content-Type") r.header == str "application/x-www-form-urlencoded"
      then some (parse_form_variables t.libs posted.form)
      else elim posted.body [
        | none ↦ none
        | some data' ↦
            some (if has_prefix url_path (str "/internal/") then t.get_input data' else data')
      ]

  interpolated : FunctionsHandler → Bytes → Bytes
  interpolated h variables =
      if is_empty variables then str "{}" else h.operation.string_interpolator variables

  function_input : Request → Bytes → World → Bytes
  function_input r variables w =
      encode_data t.hooks (Option.map t.marshal_user r.user)
        (header_of client_request (start r variables w).client) variables []

  after_compact : FunctionsHandler → Request → World → Option Bytes → Input
  unfolding function_input
  after_compact h r w none = refused (status 400 ∷ [])
  after_compact h r w (some variables) =
      elim (validate_input_variables t.libs.encode h.operation.validator variables) [
        | some sent ↦ refused sent
        | none ↦ input (function_input r variables w)
      ]

  -- from the variables to `hooks.EncodeData`
  unfoldable pub prepare_function : FunctionsHandler → Request → World → Option Bytes → Input
  unfolding after_compact interpolated
  prepare_function h r w none = refused (status 400 ∷ [])
  prepare_function h r w (some variables) =
      after_compact h r w (t.libs.compact (interpolated h variables))

  abbrev written : Bytes → List Sent
  written [] = []
  written data' = body data' ∷ []

  -- what handleRequest tells the client; the pointer is nil only beside an error
  unfoldable pub answer_request :
      Result HookError (Option MiddlewareHookResponse) → Served × List Sent
  answer_request (err e) = (returned, if t.over then [] else status 500 ∷ [])
  answer_request (ok none) = (panics, [])
  answer_request (ok (some out)) = (
    returned,
    set_header (str "Content-Type") (str "application/json")
        ∷ status out.client_response_status_code
        ∷ written out.response,
  )

  -- handleRequest
  unfoldable pub handle_request :
      FunctionsHandler → Bytes → Conn (Unit {0}) → Served × Conn (Unit {0})
  unfolding answer_request
  handle_request h data' s =
      let (result, w) = do_function_request t.hooks h.path data' s.world in
      let (served, sent) = answer_request result in
      (served, record s { world = w; out = s.out ++ sent })

  -- handleSubscriptionRequest
  unfoldable pub handle_subscription_request :
      FunctionsHandler → Request → Bytes → Conn (Unit {0}) → Conn (Unit {0})
  handle_subscription_request h r data' s =
      let params = new_wg_request_params r.query in
      let (relayed, w) =
        do_function_subscription_request t.create_patch t.write_fails t.over
          (record {
            use_sse = params.use_sse;
            use_json_patch = params.use_json_patch;
            flushable = r.can_flush;
          })
          t.hooks h.path data' s.world in
      let told = s.out ++ subscription_headers ++ map hooks_wrote relayed.written in
      record s {
        world = w;
        out = elim relayed.error [
          | none ↦ told
          | some e ↦ if t.over then told else told ++ status 500 ∷ []
        ];
      }

-- The state of handleLiveQuery's loop: what the hooks see, the writer, lastResponse, and how often it
-- has slept.
pub record Poll : Type 0 where
  pub world : World
  pub writer : FlushWriter
  pub last_response : Bytes
  pub slept : ℕ

-- whether the loop goes on
pub data Round : Type 0 where
  goes_on stops : Round

module _ (t : Tools) (path data' : Bytes) where
  unfoldable pub poll_result :
      Result HookError (Option MiddlewareHookResponse) → Poll → Round × Poll
  poll_result (err e) s = (stops, s)
  poll_result (ok none) s = (stops, s)
  poll_result (ok (some out)) s = if out.response == s.last_response then (goes_on, s) else (
    goes_on,
    record s {
      writer =
          flush_writer t.create_patch none none
            (write t.create_patch none none out.response s.writer).1;
      last_response = out.response;
      slept = suc s.slept;
    },
  )

  -- one round of the loop
  unfoldable pub poll : Poll → Round × Poll
  unfolding poll_result
  poll s =
      let (result, w) = do_function_request t.hooks path data' s.world in
      poll_result result (record s { world = w })

  closed : Poll → Poll
  closed s = record s { writer = close t.create_patch none none s.writer }

  -- The loop of handleLiveQuery, until the context is over after a number of rounds.
  unfoldable pub poll_rounds : ℕ → Poll → Poll
  unfolding poll closed
  poll_rounds ℕ.zero s = closed s
  poll_rounds (suc n) s =
      let (round, s') = poll s in
      let rest = poll_rounds n s' in elim round [ goes_on ↦ rest | stops ↦ closed s' ]

module _ (t : Tools) where
  -- handleLiveQuery, for the number of rounds until the context is over
  unfoldable pub function_live_query :
      FunctionsHandler → Request → Bytes → ℕ → Conn (Unit {0}) → Conn (Unit {0})
  unfolding poll_rounds
  function_live_query h r data' rounds s =
      elim (get_flush_writer (new_wg_request_params r.query) r.can_flush) [
        | none ↦ tell (status 400 ∷ []) s
        | some f ↦
            let e =
              poll_rounds t h.path data' rounds
                (record { world = s.world; writer = f; last_response = []; slept = 0 }) in
            record s { world = e.world; out = s.out ++ e.writer.out }
      ]

  unfoldable pub dispatch :
      FunctionsHandler → Request → ℕ → Input → Conn (Unit {0}) → Served × Conn (Unit {0})
  unfolding function_live_query handle_subscription_request handle_request
  dispatch h r rounds (refused sent) s = (returned, tell sent s)
  dispatch h r rounds (input data') s =
      if h.live_enabled && query_has (str "wg_live") r.query
      then (returned, function_live_query h r data' rounds s)
      else if h.is_subscription
      then (returned, handle_subscription_request t h r data' s)
      else handle_request t h data' s

  -- ServeHTTP
  unfoldable pub functions_serve_http :
      FunctionsHandler → Request → Posted → Bytes → ℕ → Conn (Unit {0}) → Served × Conn (Unit {0})
  unfolding dispatch function_variables prepare_function
  functions_serve_http h r posted url_path rounds s =
      if not (enforce h.operation.enforcer r.user)
      then (returned, tell (http_error (str "unauthorized") 401 ∷ []) s)
      else dispatch h r rounds
          (prepare_function t h r s.world (function_variables t h r posted url_path))
          (record s { world = start r [] s.world })
