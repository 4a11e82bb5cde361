-- ===== src/Transport/Hooked.antt =====
-- pkg/apihandler/apitransport.go: RoundTrip of the transport, with the hooks before and after it.
use wundergraph.Prelude.{
  Bool, true, false, ◌||◌, Option, none, some, List, [], ◌∷◌, Bytes, str, ◌==◌, if◌then◌else◌,
}
use wundergraph.Prelude.Int64.{Int64}
use wundergraph.Auth.User.{User}
use wundergraph.Hooks.Header.{get, set, header_slice_to_csv, header_csv_to_slice}
use wundergraph.Hooks.Client.Monad.{Result, ok, err}
use wundergraph.Hooks.Client.{
  World, HookError, MiddlewareHookResponse, on_origin_request, on_origin_response, or_nil,
  do_global_request,
}
use wundergraph.Transport.{
  reads, OriginRequest, OriginResponse, OperationMetaData, get_operation_type_string,
  TransportError, hook_failed, unreadable_body, undecodable, canceled, not_built, not_marshalled,
  WholeRequest, OnRequestHookPayload, OnRequestHookResponse, OnResponseHookPayload,
  OnResponseHookResponse, Tools, Trip, read_all, drained, origin_trip, internal_call,
  internal_graphql_round_trip, Outcome, returned,
}
use wundergraph.Transport.Upstream.{
  Configurations, at, UpstreamClaims, handle_upstream_authentication,
}

-- What the transport has for one request: the settings of NewApiTransport, the user, the operation and
-- the request's ID in the context, and whether the request asks for an upgrade to a websocket. `sign`
-- and `now` are those of Upstream. Its debug output is left out.
pub record ApiTransport : Type 0 where
  pub getenv : Bytes → Bytes
  pub sign : Bytes → UpstreamClaims → Option Bytes
  pub now : Int64
  pub primary_host : Bytes
  pub upstream_auth_configurations : Configurations
  pub on_request_hook : List Bytes
  pub on_response_hook : List Bytes
  pub enable_streaming_mode : Bool
  pub user : Option User
  pub meta_data : Option OperationMetaData
  pub request_id : Bytes
  pub is_upgrade_request : Bool

unfoldable pub contains : Bytes → List Bytes → Bool
contains name [] = false
contains name (n ∷ ns) = let rest = contains name ns in if n == name then true else rest

-- the operation, if it is one of those with the hook
abbrev pub hooked_by : List Bytes → Option OperationMetaData → Option OperationMetaData
hooked_by names none = none
hooked_by names (some m) = if contains m.operation_name names then some m else none

module _ (t : Tools) (a : ApiTransport) where
  -- the user in a hook's data: an error of Set leaves nothing of them
  unfoldable pub add_user : Option User → Bytes → Bytes
  add_user none data' = data'
  add_user (some user) data' = elim (t.marshal_user user) [
    | none ↦ data'
    | some json ↦ or_nil (t.hooks.set data' json (str "__wg" ∷ str "user" ∷ []))
  ]

  -- `if response.Request != nil { … }` and what follows, once the body was read
  unfoldable pub requested :
      OriginRequest → Option WholeRequest → Result TransportError OriginRequest
  requested r none = ok (record r { body = drained r.body })
  requested r (some w) = elim (t.new_request w.request.method w.request.request_uri w.body) [
    | none ↦ err not_built
    | some req ↦ ok (record req { header = header_csv_to_slice w.request.headers })
  ]

  -- what the hook before the origin decides, for the body that was read; none if its answer is not JSON
  unfoldable pub decide_on_request :
      OriginRequest → Bytes → Option OnRequestHookResponse → Result TransportError OriginRequest
  unfolding requested
  decide_on_request r body none = err undecodable
  decide_on_request r body (some response) =
      if response.skip
      then ok (record r { body = reads body })
      else if response.cancel
      then err canceled
      else requested r response.request

  -- from the error of DoGlobalRequest on; the client gives no nil without an error
  unfoldable pub read_on_request :
      OriginRequest
      → Bytes
      → Result HookError (Option MiddlewareHookResponse)
      → Result TransportError OriginRequest
  unfolding decide_on_request
  read_on_request r body (err e) = err (hook_failed e)
  read_on_request r body (ok none) = ok r
  read_on_request r body (ok (some out)) =
      decide_on_request r body (t.unmarshal_on_request out.response)

  unfoldable pub on_request_payload :
      OriginRequest → Bytes → OperationMetaData → OnRequestHookPayload
  unfolding get_operation_type_string
  on_request_payload r body m = record {
    request = record {
      request = record {
        method = r.method;
        request_uri = r.uri;
        headers = header_slice_to_csv r.header;
      };
      body = body;
    };
    operation_name = m.operation_name;
    operation_type = get_operation_type_string m;
  }

  -- from the user in the hook's data on
  unfoldable pub ask_on_request :
      OriginRequest → Bytes → World → Option Bytes → Result TransportError OriginRequest × World
  unfolding add_user read_on_request
  ask_on_request r body w none = (err not_marshalled, w)
  ask_on_request r body w (some data') =
      let (out, w') = do_global_request t.hooks on_origin_request (add_user a.user data') w in
      (read_on_request r body out, w')

  unfoldable pub with_request_body :
      OriginRequest
      → OperationMetaData
      → World
      → Option Bytes
      → Result TransportError OriginRequest × World
  unfolding ask_on_request on_request_payload
  with_request_body r m w none = (err unreadable_body, w)
  with_request_body r m w (some body) =
      ask_on_request r body w (t.marshal_on_request (on_request_payload r body m))

  -- handleOnRequestHook
  unfoldable pub handle_on_request_hook :
      OriginRequest → OperationMetaData → World → Result TransportError OriginRequest × World
  unfolding with_request_body
  handle_on_request_hook r m w = with_request_body r m w (read_all r.body)

  -- what the hook after the origin decides
  unfoldable pub apply_on_response :
      OriginResponse → Bytes → OnResponseHookResponse → Result TransportError OriginResponse
  apply_on_response r body response =
      if response.skip
      then ok (record r { body = some body })
      else if response.cancel
      then err canceled
      else elim response.response [
        | none ↦ ok (record r { body = some [] })
        | some w ↦ ok (record r {
          status_code = w.status_code;
          body = some w.body;
          header = header_csv_to_slice w.headers;
        })
      ]

  -- from `var response hooks.OnResponseHookResponse` on
  unfoldable pub read_on_response :
      OriginResponse
      → Bytes
      → Result HookError (Option MiddlewareHookResponse)
      → Result TransportError OriginResponse
  unfolding apply_on_response
  read_on_response r body (err e) = err (hook_failed e)
  read_on_response r body (ok none) = ok r
  read_on_response r body (ok (some out)) = elim (t.unmarshal_on_response out.response) [
    | none ↦ err undecodable
    | some response ↦ apply_on_response r body response
  ]

  unfoldable pub on_response_payload :
      OriginResponse → Bytes → OperationMetaData → OnResponseHookPayload
  unfolding get_operation_type_string
  on_response_payload r body m = record {
    response = record {
      status_code = r.status_code;
      status = r.status;
      method = r.request_method;
      request_uri = r.request_uri;
      headers = header_slice_to_csv r.header;
      body = body;
    };
    operation_name = m.operation_name;
    operation_type = get_operation_type_string m;
  }

  -- handleOnResponseHook
  unfoldable pub handle_on_response_hook :
      OriginResponse → OperationMetaData → World → Result TransportError OriginResponse × World
  unfolding add_user read_on_response
  handle_on_response_hook r m w = elim r.body [
    | none ↦ (err unreadable_body, w)
    | some body ↦ elim (t.marshal_on_response (on_response_payload r body m)) [
      | none ↦ (err not_marshalled, w)
      | some data' ↦
          let (out, w') = do_global_request t.hooks on_origin_response (add_user a.user data') w in
          (read_on_response r body out, w')
    ]
  ]

  unfoldable pub response_with :
      OriginResponse → Trip → Option OperationMetaData → Result TransportError OriginResponse × Trip
  unfolding handle_on_response_hook
  response_with res s none = (ok res, s)
  response_with res s (some m) =
      let (out, w) = handle_on_response_hook res m s.world in (out, record s { world = w })

  -- what follows the origin's answer
  unfoldable pub after_origin :
      Result TransportError OriginResponse × Trip → Result TransportError OriginResponse × Trip
  unfolding response_with
  after_origin (err e, s) = (err e, s)
  after_origin (ok res, s) =
      if a.is_upgrade_request || a.enable_streaming_mode
      then (ok res, s)
      else response_with res s (hooked_by a.on_response_hook a.meta_data)

  -- the request that the hook before the origin leaves
  unfoldable pub send_on :
      Result TransportError OriginRequest → Trip → Result TransportError OriginResponse × Trip
  unfolding after_origin
  send_on (err e) s = (err e, s)
  send_on (ok r) s = after_origin (origin_trip t r s)

  unfoldable pub request_with :
      OriginRequest → Trip → Option OperationMetaData → Result TransportError OriginResponse × Trip
  unfolding send_on handle_on_request_hook
  request_with r s none = send_on (ok r) s
  request_with r s (some m) =
      let (out, w) = handle_on_request_hook r m s.world in send_on out (record s { world = w })

  -- roundTrip
  unfoldable pub hooked_round_trip :
      OriginRequest → Trip → Result TransportError OriginResponse × Trip
  unfolding request_with
  hooked_round_trip r s = request_with r s (hooked_by a.on_request_hook a.meta_data)

  unfoldable pub authenticated : OriginRequest → Result TransportError OriginRequest
  authenticated r = elim (at r.host a.upstream_auth_configurations) [
    | none ↦ ok r
    | some auth ↦ handle_upstream_authentication a.getenv a.sign a.primary_host a.now auth a.user r
  ]

  unfoldable pub trip_with :
      Result TransportError OriginRequest → Trip → Result TransportError OriginResponse × Trip
  unfolding hooked_round_trip
  trip_with (err e) s = (err e, s)
  trip_with (ok r) s = hooked_round_trip r s

  abbrev pub identified : OriginRequest → OriginRequest
  identified r = record r { header = set (str "X-Request-Id") a.request_id r.header }

  -- RoundTrip
  unfoldable pub round_trip : OriginRequest → Trip → Outcome × Trip
  unfolding trip_with authenticated
  round_trip r s =
      if get internal_call (identified r).header == str "true"
      then internal_graphql_round_trip t a.user (identified r) s
      else returned (trip_with (authenticated (identified r)) s)
