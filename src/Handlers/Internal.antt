-- ===== src/Handlers/Internal.antt =====
-- pkg/apihandler/internalapihandler.go: InternalApiHandler, which runs an operation for a hook or a
-- function of the hooks server.
pub mod Tests
use wundergraph.Prelude.{
  Bool, true, false, not, Option, none, some, List, [], ◌∷◌, ◌++◌, Bytes, str, eqb, length,
  if◌then◌else◌, is_empty,
}
use mathlib.Core.Option
use wundergraph.Auth.User.{User}
use wundergraph.Hooks.Header.{Header, set_all}
use wundergraph.Hooks.Client.Monad.{Result, ok, err}
use wundergraph.Hooks.Client.{ClientRequest, own_request, World, Env}
use wundergraph.Hooks.Pipeline.{Pipeline, writer, Response}
use wundergraph.Hooks.Pipeline.Operation.{Resolution, RunError, run}
use wundergraph.Handlers.{Sent, set_header, status, body, http_error, Cause, handle_operation_err}
use wundergraph.Handlers.Variables.{Libs, or_nil, merge_json_right_into_left, inject_variables}
use wundergraph.Handlers.Prepare.{Operation, Conn, Served, returned, panics, tell, told_by}

-- http.Request: its header, its body, or none if reading it fails, the user of its context, and whether
-- the writer that comes with it is an http.Flusher
pub record InternalRequest : Type 0 where
  pub header : Header
  pub body : Option Bytes
  pub user : Option User
  pub can_flush : Bool

-- the packages and parts that the handler works with, as for MutationHandler
pub record InternalTools : Type 0 where
  pub libs : Libs
  pub hooks : Env
  pub marshal_user : User → Option Bytes
  pub cause : RunError → Cause
  pub resolve : Bytes → Resolution
  pub transformer : Option (Bytes → Option Bytes)
  -- the value of jsonparser.Get, or none for nil, and jsonparser.GetString, whose none is an error
  pub get : Bytes → List Bytes → Option Bytes
  pub get_string : Bytes → List Bytes → Option Bytes
  -- the keys and values of jsonparser.ObjectEach, or an error
  pub object_each : Bytes → List Bytes → Option (List (Bytes × Bytes))
  -- http.NewRequest without a body, for a method and a URI
  pub new_request : Bytes → Bytes → Option ClientRequest

-- What becomes of the client's request in the body: an error, nil, or a request.
pub data Unwrapped : Type 0 where
  not_unwrapped : Unwrapped
  nil_request : Unwrapped
  unwrapped : ClientRequest → Unwrapped

abbrev pub client_path : List Bytes → List Bytes
client_path path = str "__wg" ∷ str "clientRequest" ∷ path

module _ (t : InternalTools) where
  -- the request with the headers of the body
  unfoldable pub with_headers : Bytes → ClientRequest → Unwrapped
  with_headers data' r = elim (t.object_each data' (client_path (str "headers" ∷ []))) [
    | none ↦ not_unwrapped
    | some headers ↦ unwrapped (record r { header = set_all headers r.header })
  ]

  unfoldable pub from_client_request : Bytes → Unwrapped
  unfolding with_headers
  from_client_request data' = elim (t.get_string data' (client_path (str "method" ∷ []))) [
    | none ↦ not_unwrapped
    | some method ↦ elim (t.get_string data' (client_path (str "requestURI" ∷ []))) [
      | none ↦ not_unwrapped
      | some uri ↦ elim (t.new_request method uri) [
        | none ↦ not_unwrapped
        | some r ↦ with_headers data' r
      ]
    ]
  ]

  -- for what jsonparser.Get finds
  unfoldable pub unwrap : Bytes → Option Bytes → Unwrapped
  unfolding from_client_request
  unwrap data' none = nil_request
  unwrap data' (some request) = from_client_request data'

  -- NewRequestFromWunderGraphClientRequest
  unfoldable pub new_request_from_wundergraph_client_request : Bytes → Unwrapped
  unfolding unwrap
  new_request_from_wundergraph_client_request data' = unwrap data' (t.get data' (client_path []))

  -- `variablesBuf`, or the empty object
  unfoldable pub input_of : Bytes → Bytes
  input_of data' = elim (t.get data' (str "input" ∷ [])) [
    | none ↦ str "{}"
    | some input ↦ if is_empty input then str "{}" else input
  ]

  -- `if len(h.extractedVariables) != 0 { … }`, which here puts the extracted variables over those of the
  -- request
  unfoldable pub with_extracted_over : Operation → Bytes → Bytes
  with_extracted_over o variables =
      if is_empty o.extracted_variables
      then variables
      else or_nil t.libs
          (merge_json_right_into_left t.libs (some variables) (some o.extracted_variables))

  -- the pipeline as it sees the request
  unfoldable pub internal_pipeline : Operation → InternalRequest → Pipeline
  internal_pipeline o r = record o.hooks_pipeline {
    user = Option.map t.marshal_user r.user;
    request = own_request r.header;
    writer = writer r.can_flush;
  }

  -- GetCtx of package pool, and a new buffer
  unfoldable pub internal_start : InternalRequest → Option ClientRequest → Bytes → World → World
  internal_start r client variables w = record {
    variables = variables;
    request_header = r.header;
    client = client;
    buf = [];
    sent = w.sent;
    resolved = w.resolved;
    written = [];
  }

  unfoldable pub internal_answer : Result RunError Response → List Sent
  internal_answer (err e) =
      (handle_operation_err (some (t.cause e)) (str "hooks pipeline failed")).1
  internal_answer (ok resp) =
      if resp.done
      then []
      else set_header (str "Content-Type") (str "application/json") ∷ body resp.data' ∷ []

  unfoldable pub internal_run :
      Operation
      → InternalRequest
      → Option ClientRequest
      → Bytes
      → World
      → Result RunError Response × World
  unfolding internal_start
  internal_run o r client variables w =
      run t.hooks (internal_pipeline o r) t.resolve t.transformer
        (internal_start r client variables w)

  unfoldable pub answer_internal :
      Result RunError Response × World → Conn (Unit {0}) → Served × Conn (Unit {0})
  unfolding internal_answer
  answer_internal (result, world) s =
      (returned, record s { world = world; out = s.out ++ told_by world ++ internal_answer result })

  -- The context's client request is a nil *http.Request where the body has none, and the client of the
  -- hooks server reads its fields at the first call of a hook (setInternalHookData): if the run makes a
  -- call, it panics there. This puts the panic around the run, not into the data of the hook, and leaves
  -- out what the run did before it.
  unfoldable pub run_unnamed :
      Result RunError Response × World → Conn (Unit {0}) → Served × Conn (Unit {0})
  unfolding answer_internal
  run_unnamed x s =
      if eqb (length x.1.sent) (length s.world.sent) then answer_internal x s else (panics, s)

  unfoldable pub with_variables :
      Operation
      → InternalRequest
      → Unwrapped
      → Option Bytes
      → Conn (Unit {0})
      → Served × Conn (Unit {0})
  unfolding run_unnamed answer_internal
  with_variables o r not_unwrapped variables s =
      (returned, tell (http_error (str "bad request") 400 ∷ []) s)
  with_variables o r _ none s = (returned, tell (status 400 ∷ []) s)
  with_variables o r nil_request (some compacted) s =
      let variables = inject_variables t.libs o.injections (with_extracted_over o compacted) in
      run_unnamed (internal_run o r none variables s.world) s
  with_variables o r (unwrapped client) (some compacted) s =
      let variables = inject_variables t.libs o.injections (with_extracted_over o compacted) in
      answer_internal (internal_run o r (some client) variables s.world) s

  -- ServeHTTP, on the body that was read
  unfoldable pub serve_body :
      Operation → InternalRequest → Option Bytes → Conn (Unit {0}) → Served × Conn (Unit {0})
  unfolding with_variables input_of
  serve_body o r none s = (returned, tell (http_error (str "bad request") 400 ∷ []) s)
  serve_body o r (some data') s =
      with_variables o r (new_request_from_wundergraph_client_request data')
        (t.libs.compact (input_of data')) s

  -- ServeHTTP
  unfoldable pub internal_serve_http :
      Operation → InternalRequest → Conn (Unit {0}) → Served × Conn (Unit {0})
  unfolding serve_body
  internal_serve_http o r s = serve_body o r r.body s
