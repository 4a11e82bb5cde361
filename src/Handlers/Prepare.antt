-- ===== src/Handlers/Prepare.antt =====
-- pkg/apihandler/apihandler.go: what the handlers of queries, mutations and subscriptions have in
-- common, from the raw variables to those that the resolver gets.
use wundergraph.Prelude.{
  Bool, Option, none, some, List, [], ◌∷◌, ◌++◌, Bytes, str, if◌then◌else◌, is_empty, map,
}
use mathlib.Core.Option
use wundergraph.Prelude.Int64.{Int64}
use wundergraph.Auth.User.{User}
use wundergraph.Auth.Rbac.{Enforcer}
use wundergraph.Claims.{ClaimConfig, Outcome, ok, err, panic}
use wundergraph.Hooks.Header.{Header}
use wundergraph.Hooks.Client.{client_request, World}
use wundergraph.Hooks.Pipeline.{Pipeline, writer}
use wundergraph.Handlers.{
  Sent, status, hooks_wrote, Cause, claim_cause, handle_operation_err, Validator,
  validate_input_variables,
}
use wundergraph.Handlers.Variables.{
  Values, Injection, Libs, or_nil, merge_json_right_into_left, post_process_variables,
}

-- The fields that the three handlers share. Interpolate of stringInterpolator and of
-- jsonStringInterpolator are the functions of those names.
pub record Operation : Type 0 where
  pub enforcer : Enforcer
  pub validator : Validator
  pub string_interpolator : Bytes → Bytes
  pub json_string_interpolator : Bytes → Bytes
  pub extracted_variables : Bytes
  pub claims : List ClaimConfig
  pub injections : Option (List Injection)
  pub hooks_pipeline : Pipeline

-- http.Request, with the user of its context, whether the writer that comes with it is an
-- http.Flusher, the error of a Write to it, and the clock at the two points where it is read
pub record Request : Type 0 where
  pub user : Option User
  pub query : Values
  pub method : Bytes
  pub request_uri : Bytes
  pub header : Header
  pub can_flush : Bool
  pub write_error : Bytes → Option Cause
  pub now : Int64
  pub later : Int64

-- Either the variables are ready, or the client was answered, or the handler panicked.
pub data Prepared : Type 0 where
  ready : Bytes → Prepared
  answered : List Sent → Prepared
  panicked : Prepared

module _ (libs : Libs) where
  -- what follows postProcessVariables
  unfoldable pub post_processed : Outcome Bytes → Prepared
  post_processed (ok variables) = ready variables
  post_processed (err e) =
      answered
        (handle_operation_err (some (claim_cause libs.claim_text libs.claim_json e))
          (str "postProcessVariables failed")).1
  post_processed panic = panicked

  -- `if len(h.extractedVariables) != 0 { … }`
  unfoldable pub with_extracted : Operation → Bytes → Bytes
  with_extracted o variables =
      if is_empty o.extracted_variables
      then variables
      else or_nil libs
          (merge_json_right_into_left libs (some o.extracted_variables) (some variables))

  unfoldable pub after_compact : Operation → Option User → Option Bytes → Prepared
  after_compact o user none = answered (status 400 ∷ [])
  after_compact o user (some compacted) = post_processed (
      post_process_variables libs o.claims o.injections user
        (with_extracted o (o.json_string_interpolator compacted)))

  -- from `h.stringInterpolator.Interpolate` to `postProcessVariables`
  unfoldable pub prepare : Operation → Option User → Bytes → Prepared
  unfolding after_compact
  prepare o user raw =
      let variables = o.string_interpolator raw in
      elim (validate_input_variables libs.encode o.validator variables) [
        | some sent ↦ answered sent
        | none ↦ after_compact o user (libs.compact variables)
      ]

-- The state of a request's handler: what the hooks see, the cache, and what the client was told.
pub record Conn (S : Type 0) : Type 0 where
  pub world : World
  pub cache : S
  pub out : List Sent

-- How a handler ends. `live` is handleLiveQuery, with the variables of the operation.
pub data Served : Type 0 where
  returned : Served
  panics : Served
  live : Bytes → Served

module _ {S : Type 0} where
  abbrev pub tell : List Sent → Conn S → Conn S
  tell sent s = record s { out = s.out ++ sent }

-- GetCtx of package pool, and a new buffer
unfoldable pub start : Request → Bytes → World → World
start r variables w = record {
  variables = variables;
  request_header = r.header;
  client = some record { method = r.method; request_uri = r.request_uri; header = r.header };
  buf = [];
  sent = w.sent;
  resolved = w.resolved;
  written = [];
}

-- the pipeline as it sees the request; `marshal` is encoding/json on a user
unfoldable pub pipeline_for : (User → Option Bytes) → Operation → Request → Pipeline
pipeline_for marshal o r = record o.hooks_pipeline {
  user = Option.map marshal r.user;
  request = client_request;
  writer = writer r.can_flush;
}

-- what the hooks wrote to the writer
abbrev pub told_by : World → List Sent
told_by w = map hooks_wrote w.written

-- r.Header, after the hooks
unfoldable pub header_after : World → Header
header_after w = elim w.client [ none ↦ [] | some c ↦ c.header ]
