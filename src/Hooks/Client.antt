-- ===== src/Hooks/Client.antt =====
-- pkg/hooks/hooks.go: the requests that the client sends to the hooks server.
pub mod Monad
pub mod Encode
pub mod Replies
pub mod Stream
pub mod Upload
use wundergraph.Prelude.{
  ℕ, zero, suc, ◌+◌, Bool, true, false, not, ◌||◌, Option, none, some, List, [], ◌∷◌, ◌++◌, Bytes,
  str, ◌==◌, eqb, ltb, if◌then◌else◌, is_empty, length,
}
use wundergraph.Prelude.Int.{ℤ, show_int, incr_int64, parse_int}
use wundergraph.Hooks.Header.{Header, get, header_slice_to_csv}
use wundergraph.Hooks.Client.Monad.{Result, ok, err, Exec, ◌>>=◌, ◌>>◌, pure, raise, gets}

-- MiddlewareHook, and UploadHook
pub data Hook : Type 0 where
  mock_resolve pre_resolve post_resolve custom_resolve mutating_pre_resolve : Hook
  mutating_post_resolve post_authentication post_logout mutating_post_authentication : Hook
  revalidate_authentication on_origin_request on_origin_response on_connection_init : Hook
  pre_upload post_upload : Hook

-- the string of a hook
unfoldable pub hook_name : Hook → Bytes
hook_name mock_resolve = str "mockResolve"
hook_name pre_resolve = str "preResolve"
hook_name post_resolve = str "postResolve"
hook_name custom_resolve = str "customResolve"
hook_name mutating_pre_resolve = str "mutatingPreResolve"
hook_name mutating_post_resolve = str "mutatingPostResolve"
hook_name post_authentication = str "postAuthentication"
hook_name post_logout = str "postLogout"
hook_name mutating_post_authentication = str "mutatingPostAuthentication"
hook_name revalidate_authentication = str "revalidateAuthentication"
hook_name on_origin_request = str "onOriginRequest"
hook_name on_origin_response = str "onOriginResponse"
hook_name on_connection_init = str "onConnectionInit"
hook_name pre_upload = str "preUpload"
hook_name post_upload = str "postUpload"

-- The client's request in the context (pool.ClientRequestKey), and the request of a handler, which is
-- mostly the same object, so that a change of the header of one is seen through the other.
pub record ClientRequest : Type 0 where
  pub method : Bytes
  pub request_uri : Bytes
  pub header : Header

pub data HandlerRequest : Type 0 where
  no_request : HandlerRequest
  client_request : HandlerRequest
  own_request : Header → HandlerRequest

-- A POST to serverUrl/path with a JSON body. `hook` is the hook that it calls, for none a function.
pub record Call : Type 0 where
  pub path : Bytes
  pub hook : Option Hook
  pub body : Bytes

-- What a response writer was told: http.Error(w, "Internal Server Error", 500), Flush and Write.
pub data Written : Type 0 where
  internal_server_error : Written
  flush : Written
  bytes : Bytes → Written

-- The state that a request's hooks share: resolve.Context's variables and header, the client's
-- request, the buffer of the response, and what was sent and written, the latest last.
pub record World : Type 0 where
  pub variables : Bytes
  pub request_header : Header
  pub client : Option ClientRequest
  pub buf : Bytes
  pub sent : List Call
  pub resolved : List Bytes
  pub written : List Written

-- MiddlewareHookResponse, which has `error` too: the client never hands one with an error on
pub record MiddlewareHookResponse : Type 0 where
  pub error : Bytes
  pub op : Bytes
  pub hook : Bytes
  pub response : Bytes
  pub input : Bytes
  pub set_client_request_headers : List (Bytes × Bytes)
  pub client_response_status_code : ℕ

-- The WunderGraphRequest of a client's request without its body
pub record WunderGraphRequest : Type 0 where
  pub method : Bytes
  pub request_uri : Bytes
  pub headers : List (Bytes × Bytes)

-- The end of a request by go-retryablehttp: its last answer, with its status and its body, or an
-- error. `cut_off` is an answer whose body breaks off after the given bytes.
pub data Reply : Type 0 where
  not_built : Reply
  no_answer : Reply
  cut_off : ℕ → Bytes → Reply
  answer : ℕ → Bytes → Reply

pub data HookError : Type 0 where
  not_sent : HookError
  failed : Option Hook → HookError
  unreadable : Option Hook → HookError
  bad_status : Option Hook → ℕ → Bytes → HookError
  undecodable : Option Hook → HookError
  responded : Option Hook → Bytes → HookError

-- The packages that the client relies on.
pub record Env : Type 0 where
  -- jsonparser.Set(data, value, path...); none is an error, and nil data beside it
  pub set : Bytes → Bytes → List Bytes → Option Bytes
  -- whether jsonparser.Get(data, path...) finds a value
  pub exists : Bytes → List Bytes → Bool
  -- encoding/json on the two types that the client writes and reads
  pub marshal_request : WunderGraphRequest → Option Bytes
  pub unmarshal_response : Bytes → Option MiddlewareHookResponse
  -- json.Decoder, which reads one value and leaves what follows it
  pub decode_response : Bytes → Option MiddlewareHookResponse
  -- the answer of the hooks server, which may depend on all that was sent before
  pub serve : List Call → Call → Reply

abbrev pub or_nil : Option Bytes → Bytes
or_nil none = []
or_nil (some data') = data'

abbrev pub client_request_path : List Bytes
client_request_path = str "__wg" ∷ str "clientRequest" ∷ []

-- HttpRequestToWunderGraphRequestJSON(r, false)
unfoldable pub http_request_to_wundergraph_request_json : Env → ClientRequest → Option Bytes
http_request_to_wundergraph_request_json env r = env.marshal_request (record {
  method = r.method;
  request_uri = r.request_uri;
  headers = header_slice_to_csv r.header;
})

add_client_request : Env → Bytes → Option Bytes → Bytes
add_client_request env json_data none = json_data
add_client_request env json_data (some request) =
    if not (env.exists json_data client_request_path)
    then or_nil (env.set json_data request client_request_path)
    else json_data

-- setInternalHookData
unfoldable pub set_internal_hook_data : Env → Option ClientRequest → Bytes → Bytes
unfolding add_client_request http_request_to_wundergraph_request_json
set_internal_hook_data env client json_data =
    let object = if is_empty json_data then str "{}" else json_data in
    elim client [
      | none ↦ object
      | some r ↦ add_client_request env object (http_request_to_wundergraph_request_json env r)
    ]

-- The request is logged, and answered.
unfoldable pub send : Env → Call → Exec World HookError Reply
send env call s = (ok (env.serve s.sent call), record s { sent = s.sent ++ call ∷ [] })

-- what doRequest makes of the answer
unfoldable pub read_reply : Env → Option Hook → Reply → Result HookError MiddlewareHookResponse
read_reply env hook not_built = err not_sent
read_reply env hook no_answer = err (failed hook)
read_reply env hook (cut_off status data') = err (unreadable hook)
read_reply env hook (answer status data') =
    if not (eqb status 200)
    then err (bad_status hook status data')
    else elim (env.unmarshal_response data') [
      | none ↦ err (undecodable hook)
      | some response ↦
          if not (is_empty response.error) then err (responded hook response.error) else ok response
    ]

-- doMiddlewareRequest, with its doRequest. The pointer that it returns is nil only beside an error.
unfoldable pub do_middleware_request :
    Env → Bytes → Hook → Bytes → Exec World HookError (Option MiddlewareHookResponse)
unfolding set_internal_hook_data send read_reply
do_middleware_request env action hook json_data = do
  client ← gets (λ s. s.client)
  reply ← send env (record {
    path = action ++ b'/' ∷ hook_name hook;
    hook = some hook;
    body = set_internal_hook_data env client json_data;
  })
  response ← (λ s. (read_reply env (some hook) reply, s))
  pure (some response)

-- DoOperationRequest
unfoldable pub do_operation_request :
    Env → Bytes → Hook → Bytes → Exec World HookError (Option MiddlewareHookResponse)
unfolding do_middleware_request
do_operation_request env operation_name =
    do_middleware_request env (str "operation/" ++ operation_name)

-- DoGlobalRequest
unfoldable pub do_global_request :
    Env → Hook → Bytes → Exec World HookError (Option MiddlewareHookResponse)
unfolding do_middleware_request
do_global_request env = do_middleware_request env (str "global/httpTransport")

-- DoWsTransportRequest
unfoldable pub do_ws_transport_request :
    Env → Hook → Bytes → Exec World HookError (Option MiddlewareHookResponse)
unfolding do_middleware_request
do_ws_transport_request env = do_middleware_request env (str "global/wsTransport")

-- DoAuthenticationRequest
unfoldable pub do_authentication_request :
    Env → Hook → Bytes → Exec World HookError (Option MiddlewareHookResponse)
unfolding do_middleware_request
do_authentication_request env = do_middleware_request env (str "authentication")

-- 500 and 401 are answers of a function too, with a status for the client.
unfoldable pub read_function_body : Env → ℕ → Bytes → Result HookError MiddlewareHookResponse
read_function_body env status data' =
    if not (eqb status 200 || eqb status 500 || eqb status 401)
    then err (bad_status none status [])
    else elim (env.decode_response data') [
      | none ↦ err (undecodable none)
      | some response ↦
          if not (is_empty response.error)
          then err (responded none response.error)
          else ok (record response {
            client_response_status_code =
                if eqb status 500 then 502 else if eqb status 401 then 401 else 200;
          })
    ]

-- what DoFunctionRequest makes of the answer
unfoldable pub read_function_reply : Env → Reply → Result HookError MiddlewareHookResponse
unfolding read_function_body
read_function_reply env not_built = err not_sent
read_function_reply env no_answer = err (failed none)
read_function_reply env (cut_off status data') = read_function_body env status data'
read_function_reply env (answer status data') = read_function_body env status data'

-- DoFunctionRequest
unfoldable pub do_function_request :
    Env → Bytes → Bytes → Exec World HookError (Option MiddlewareHookResponse)
unfolding set_internal_hook_data send read_function_reply
do_function_request env operation_name json_data = do
  client ← gets (λ s. s.client)
  reply ← send env (record {
    path = str "functions/" ++ operation_name;
    hook = none;
    body = set_internal_hook_data env client json_data;
  })
  response ← (λ s. (read_function_reply env reply, s))
  pure (some response)
