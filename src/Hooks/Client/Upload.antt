-- ===== src/Hooks/Client/Upload.antt =====
-- pkg/hooks/hooks.go: DoUploadRequest, which calls the hooks of an upload, and DoHealthCheckRequest.
use wundergraph.Prelude.{
  Bool, false, not, ◌&&◌, ◌||◌, Option, none, some, List, [], ◌∷◌, ◌++◌, Bytes, str, ◌==◌, eqb,
  if◌then◌else◌, is_empty, split, join,
}
use wundergraph.Hooks.Client.Monad.{Result, ok, err, Exec, ◌>>=◌, gets}
use wundergraph.Hooks.Client.{
  Hook, hook_name, HookError, not_sent, failed, unreadable, bad_status, undecodable, responded,
  Reply, not_built, no_answer, cut_off, answer, World, Env, send, set_internal_hook_data,
}

pub record UploadHookResponse : Type 0 where
  pub error : Bytes
  pub file_key : Bytes

-- the elements of a path, the last first, after one more
push : Bytes → List Bytes → List Bytes
push e [] = if is_empty e || e == str "." then [] else e ∷ []
push e (p ∷ ps) =
    if is_empty e || e == str "."
    then p ∷ ps
    else if e == str ".." && not (p == str "..")
    then ps
    else e ∷ p ∷ ps

push_all : List Bytes → List Bytes → List Bytes
unfolding push
push_all [] stack = stack
push_all (e ∷ es) stack = push_all es (push e stack)

reversed : List Bytes → List Bytes → List Bytes
reversed [] out = out
reversed (e ∷ es) out = reversed es (e ∷ out)

-- path.Join of package path, for a first element that is no absolute path: the elements joined by
-- slashes, with no empty element and no dot, and with two dots worked off against what precedes them
unfoldable pub path_join : List Bytes → Bytes
unfolding push_all reversed
path_join elements =
    let path = join b'/' (reversed (push_all (split b'/' (join b'/' elements)) []) []) in
    if is_empty path then str "." else path

-- what doRequest makes of an answer to DoUploadRequest; `unmarshal` is encoding/json on the response
unfoldable pub read_upload_reply :
    (Bytes → Option UploadHookResponse) → Hook → Reply → Result HookError UploadHookResponse
read_upload_reply unmarshal hook not_built = err not_sent
read_upload_reply unmarshal hook no_answer = err (failed (some hook))
read_upload_reply unmarshal hook (cut_off status data') = err (unreadable (some hook))
read_upload_reply unmarshal hook (answer status data') =
    if not (eqb status 200)
    then err (bad_status (some hook) status data')
    else elim (unmarshal data') [
      | none ↦ err (undecodable (some hook))
      | some response ↦
          if not (is_empty response.error)
          then err (responded (some hook) response.error)
          else ok response
    ]

-- DoUploadRequest
unfoldable pub do_upload_request :
    Env
    → (Bytes → Option UploadHookResponse)
    → Bytes
    → Bytes
    → Hook
    → Bytes
    → Exec World HookError UploadHookResponse
unfolding set_internal_hook_data send read_upload_reply path_join
do_upload_request env unmarshal provider_name profile_name hook json_data = do
  client ← gets (λ s. s.client)
  reply ← send env (record {
    path = path_join (str "upload" ∷ provider_name ∷ profile_name ∷ []) ++ b'/' ∷ hook_name hook;
    hook = some hook;
    body = set_internal_hook_data env client json_data;
  })
  (λ s. (read_upload_reply unmarshal hook reply, s))

-- DoHealthCheckRequest, on the answer to its request
unfoldable pub do_health_check_request : Reply → Bool
do_health_check_request not_built = false
do_health_check_request no_answer = false
do_health_check_request (cut_off status data') = eqb status 200
do_health_check_request (answer status data') = eqb status 200
