-- ===== src/Hooks/Pipeline.antt =====
-- pkg/hooks/pipeline.go: the hooks before and after an operation, and the two kinds of pipelines.
pub mod Operation
pub mod Effects
pub mod Order
pub mod Run
pub mod Resolved
pub mod Done
pub mod Tests
use wundergraph.Prelude.{
  Bool, true, false, not, Option, none, some, List, [], ◌∷◌, ◌++◌, Bytes, str, ◌==◌, if◌then◌else◌,
  is_empty,
}
use mathlib.Core.Option
use wundergraph.Hooks.Header.{Header, set_all}
use wundergraph.Hooks.Client.Monad.{Result, ok, err, Exec, ◌>>=◌, ◌>>◌, pure, gets, modify}
use wundergraph.Hooks.Client.{
  Hook, mock_resolve, pre_resolve, post_resolve, custom_resolve, mutating_pre_resolve,
  mutating_post_resolve, ClientRequest, HandlerRequest, Written, internal_server_error, flush,
  bytes, World, MiddlewareHookResponse, HookError, Env, do_operation_request,
}
use wundergraph.Hooks.Client.Encode.{header_of, encode_data}

-- http.ResponseWriter: nil, or one that may be an http.Flusher
pub data Writer : Type 0 where
  no_writer : Writer
  writer : Bool → Writer

-- ResolveConfiguration, PostResolveConfiguration and the name of the operation, with what the hooks
-- read of the user and of the handler's request
pub record Pipeline : Type 0 where
  pub operation_name : Bytes
  pub pre : Bool
  pub mutating_pre : Bool
  pub custom : Bool
  pub mock : Bool
  pub post : Bool
  pub mutating_post : Bool
  pub user : Option (Option Bytes)
  pub request : HandlerRequest
  pub writer : Writer

pub record Response : Type 0 where
  pub done : Bool
  pub resolved : Bool
  pub data' : Bytes

abbrev pub literal_null : Bytes
literal_null = str "null"

abbrev with_header : Header → ClientRequest → ClientRequest
with_header h r = record r { header = h }

-- updateContextHeaders: the header of the context and that of the client's request become one new
-- header, which holds nothing but what the hook returned
unfoldable pub update_context_headers : List (Bytes × Bytes) → World → World
unfolding set_all
update_context_headers headers s = if is_empty headers then s else record s {
  request_header = set_all headers [];
  client = Option.map (with_header (set_all headers [])) s.client;
}

-- http.Error and Flush, where there is a writer and it can
fail_hook : Writer → World → World
fail_hook no_writer s = s
fail_hook (writer false) s = record s { written = s.written ++ internal_server_error ∷ [] }
fail_hook (writer true) s = record s { written = s.written ++ internal_server_error ∷ flush ∷ [] }

-- handleHookResponse
unfoldable pub handle_hook_response :
    Pipeline → Option MiddlewareHookResponse → Exec World HookError Bool
unfolding fail_hook update_context_headers
handle_hook_response p none = modify (fail_hook p.writer) true
handle_hook_response p (some resp) =
    modify (update_context_headers resp.set_client_request_headers) false

abbrev pub done_response : Response
done_response = record { done = true; resolved = false; data' = [] }

-- the rest of a stage: it returns if the hook's response is nil
continue_with :
    Option MiddlewareHookResponse
    → (MiddlewareHookResponse → Exec World HookError Response)
    → Bool
    → Exec World HookError Response
continue_with none rest done = pure done_response
continue_with (some resp) rest done = if done then pure done_response else rest resp

-- One stage: encode the data, call the hook, and handle what it returns.
unfoldable pub stage :
    Env
    → Pipeline
    → Hook
    → Bytes
    → Bytes
    → (MiddlewareHookResponse → Exec World HookError Response)
    → Exec World HookError Response
unfolding handle_hook_response continue_with
stage env p hook variables response rest = do
  header ← gets (λ s. header_of p.request s.client)
  resp ←
      do_operation_request env p.operation_name hook
        (encode_data env p.user header variables response)
  done ← handle_hook_response p resp
  continue_with resp rest done

-- `if p.ResolveConfig.Custom { … }; return &Response{Data: data}`
custom_stage : Env → Pipeline → Bytes → Exec World HookError Response
custom_stage env p data' =
    if p.custom
    then stage env p custom_resolve data' [] (λ resp.
      if not (resp.response == literal_null)
      then pure (record { done = false; resolved = true; data' = resp.response })
      else pure (record { done = false; resolved = false; data' = data' }))
    else pure (record { done = false; resolved = false; data' = data' })

mock_stage : Env → Pipeline → Bytes → Exec World HookError Response
unfolding custom_stage
mock_stage env p data' =
    if p.mock
    then stage env p mock_resolve data' []
        (λ resp. pure (record { done = false; resolved = true; data' = resp.response }))
    else custom_stage env p data'

mutating_pre_stage : Env → Pipeline → Bytes → Exec World HookError Response
unfolding mock_stage
mutating_pre_stage env p data' =
    if p.mutating_pre
    then stage env p mutating_pre_resolve data' [] (λ resp. mock_stage env p resp.input)
    else mock_stage env p data'

-- PreResolve
unfoldable pub run_pre_resolve : Env → Pipeline → Exec World HookError Response
unfolding mutating_pre_stage
run_pre_resolve env p = do
  data' ← gets (λ s. s.variables)
  if p.pre
      then stage env p pre_resolve data' [] (λ resp. mutating_pre_stage env p data')
      else mutating_pre_stage env p data'

mutating_post_stage : Env → Pipeline → Bytes → Exec World HookError Response
mutating_post_stage env p response_data = do
  variables ← gets (λ s. s.variables)
  if p.mutating_post
      then stage env p mutating_post_resolve variables response_data
          (λ resp. pure (record { done = false; resolved = false; data' = resp.response }))
      else pure (record { done = false; resolved = false; data' = response_data })

-- PostResolve
unfoldable pub run_post_resolve : Env → Pipeline → Bytes → Exec World HookError Response
unfolding mutating_post_stage
run_post_resolve env p response_data = do
  variables ← gets (λ s. s.variables)
  if p.post
      then stage env p post_resolve variables response_data
          (λ resp. mutating_post_stage env p response_data)
      else mutating_post_stage env p response_data
