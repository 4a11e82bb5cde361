-- ===== src/Transport.antt =====
-- pkg/apihandler/apitransport.go: the transport of the requests to origins, with its two hooks.
pub mod Upstream
pub mod Hooked
pub mod Origin
pub mod Tests
use wundergraph.Prelude.{
  ℕ, Bool, true, false, not, ◌||◌, Option, none, some, List, [], ◌∷◌, ◌++◌, Bytes, str, ◌==◌,
  if◌then◌else◌,
}
use wundergraph.Prelude.Int64.{Int64}
use wundergraph.Auth.User.{User}
use wundergraph.Hooks.Header.{Header, canonical, get, set}
use wundergraph.Hooks.Client.Monad.{Result, ok, err}
use wundergraph.Hooks.Client.{
  World, Env, HookError, WunderGraphRequest, http_request_to_wundergraph_request_json,
}

-- The Body of a request or a response: nil, or a reader, which gives its bytes or an error.
pub data Body : Type 0 where
  no_body : Body
  reads : Bytes → Body
  breaks : Body

-- http.Request, as far as the transport uses it: `uri` is URL.String()
pub record OriginRequest : Type 0 where
  pub method : Bytes
  pub uri : Bytes
  pub host : Bytes
  pub header : Header
  pub body : Body

-- http.Response, with the method and the URL of its Request. Its Body, which is never nil, is none where
-- reading it fails.
pub record OriginResponse : Type 0 where
  pub status_code : ℕ
  pub status : Bytes
  pub header : Header
  pub body : Option Bytes
  pub request_method : Bytes
  pub request_uri : Bytes

-- wgpb.OperationType; `other_type` is any number that the enumeration does not name
pub data OperationType : Type 0 where
  query mutation subscription other_type : OperationType

pub record OperationMetaData : Type 0 where
  pub operation_name : Bytes
  pub operation_type : OperationType

-- GetOperationTypeString
unfoldable pub get_operation_type_string : OperationMetaData → Bytes
get_operation_type_string m = elim m.operation_type [
  | mutation ↦ str "mutation"
  | query ↦ str "query"
  | subscription ↦ str "subscription"
  | other_type ↦ str "unknown"
]

-- the errors that a round trip returns
pub data TransportError : Type 0 where
  hook_failed : HookError → TransportError
  unreadable_body undecodable canceled not_built not_set not_marshalled : TransportError
  not_signed not_implemented no_response : TransportError

-- WunderGraphRequest with its Body
pub record WholeRequest : Type 0 where
  pub request : WunderGraphRequest
  pub body : Bytes

pub record WunderGraphResponse : Type 0 where
  pub status_code : ℕ
  pub status : Bytes
  pub method : Bytes
  pub request_uri : Bytes
  pub headers : List (Bytes × Bytes)
  pub body : Bytes

pub record OnRequestHookPayload : Type 0 where
  pub request : WholeRequest
  pub operation_name : Bytes
  pub operation_type : Bytes

pub record OnRequestHookResponse : Type 0 where
  pub skip : Bool
  pub cancel : Bool
  pub request : Option WholeRequest

pub record OnResponseHookPayload : Type 0 where
  pub response : WunderGraphResponse
  pub operation_name : Bytes
  pub operation_type : Bytes

pub record OnResponseHookResponse : Type 0 where
  pub skip : Bool
  pub cancel : Bool
  pub response : Option WunderGraphResponse

-- What the transport relies on besides the client of the hooks server: encoding/json on the types that
-- it writes and reads, http.NewRequestWithContext, and the round tripper, whose answer may depend on
-- all that was sent before.
pub record Tools : Type 0 where
  pub hooks : Env
  pub marshal_user : User → Option Bytes
  pub marshal_on_request : OnRequestHookPayload → Option Bytes
  pub marshal_on_response : OnResponseHookPayload → Option Bytes
  pub unmarshal_on_request : Bytes → Option OnRequestHookResponse
  pub unmarshal_on_response : Bytes → Option OnResponseHookResponse
  pub new_request : Bytes → Bytes → Bytes → Option OriginRequest
  pub origin : List OriginRequest → OriginRequest → Option OriginResponse

-- What the hooks see, and the requests that went to origins, the latest last.
pub record Trip : Type 0 where
  pub world : World
  pub tripped : List OriginRequest

-- How a round trip ends: it returns a response or an error, or it panics.
pub data Outcome : Type 0 where
  panics : Outcome
  returns : Result TransportError OriginResponse → Outcome

abbrev pub returned : Result TransportError OriginResponse × Trip → Outcome × Trip
returned (x, s) = (returns x, s)

-- io.ReadAll of a body that is not nil
abbrev pub read_all : Body → Option Bytes
read_all no_body = some []
read_all (reads data') = some data'
read_all breaks = none

-- a request whose body was read to its end
abbrev pub drained : Body → Body
drained no_body = no_body
drained (reads data') = reads []
drained breaks = breaks

-- Header.Del
abbrev pub del : Bytes → Header → Header
del name [] = []
del name ((k, vs) ∷ h) =
    let rest = del name h in if k == canonical name then rest else (k, vs) ∷ rest

-- WgInternalApiCallHeader
abbrev pub internal_call : Bytes
internal_call = str "X-WG-Internal-GraphQL-API"

module _ (t : Tools) where
  -- http.RoundTripper.RoundTrip
  unfoldable pub origin_trip : OriginRequest → Trip → Result TransportError OriginResponse × Trip
  origin_trip r s = (
    elim (t.origin s.tripped r) [ none ↦ err no_response | some res ↦ ok res ],
    record s { tripped = s.tripped ++ r ∷ [] },
  )

  -- the user in the body, none an error
  unfoldable pub with_user : Option User → Bytes → Result TransportError Bytes
  with_user none data' = ok data'
  with_user (some user) data' = elim (t.marshal_user user) [
    | none ↦ err not_marshalled
    | some json ↦ elim (t.hooks.set data' json (str "__wg" ∷ str "user" ∷ [])) [
      | none ↦ err not_set
      | some whole ↦ ok whole
    ]
  ]

  -- the client's request of the context in the body
  unfoldable pub with_client : World → Bytes → Result TransportError Bytes
  with_client w data' = elim w.client [
    | none ↦ ok data'
    | some r ↦ elim (http_request_to_wundergraph_request_json t.hooks r) [
      | none ↦ err not_marshalled
      | some json ↦ elim (t.hooks.set data' json (str "__wg" ∷ str "clientRequest" ∷ [])) [
        | none ↦ err not_set
        | some whole ↦ ok whole
      ]
    ]
  ]

  -- the body that a graphql-js server on the hooks server gets, for the one that was read
  unfoldable pub internal_body : Option User → World → Bytes → Result TransportError Bytes
  unfolding with_user with_client
  internal_body user w data' = elim (t.hooks.set data' (str "{}") (str "__wg" ∷ [])) [
    | none ↦ err not_set
    | some object ↦ elim (with_user user object) [ err e ↦ err e | ok whole ↦ with_client w whole ]
  ]

  -- the request that http.NewRequestWithContext makes, with the header of the first one
  unfoldable pub internal_send :
      OriginRequest → Trip → Option OriginRequest → Result TransportError OriginResponse × Trip
  unfolding origin_trip
  internal_send r s none = (err not_built, s)
  internal_send r s (some req) = origin_trip (record req { header = del internal_call r.header }) s

  unfoldable pub internal_with :
      OriginRequest
      → Trip
      → Result TransportError Bytes
      → Result TransportError OriginResponse × Trip
  unfolding internal_send
  internal_with r s (err e) = (err e, s)
  internal_with r s (ok whole) = internal_send r s (t.new_request r.method r.uri whole)

  -- from `buf.ReadFrom(request.Body)` on, which panics on a body that is nil
  unfoldable pub internal_read : Option User → OriginRequest → Trip → Body → Outcome × Trip
  unfolding internal_body internal_with
  internal_read user r s no_body = (panics, s)
  internal_read user r s breaks = (returns (err unreadable_body), s)
  internal_read user r s (reads data') =
      returned (internal_with r s (internal_body user s.world data'))

  -- internalGraphQLRoundTrip, for the user of the context
  unfoldable pub internal_graphql_round_trip : Option User → OriginRequest → Trip → Outcome × Trip
  unfolding internal_read
  internal_graphql_round_trip user r s = internal_read user r s r.body
