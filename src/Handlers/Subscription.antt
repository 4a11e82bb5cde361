-- ===== src/Handlers/Subscription.antt =====
-- pkg/apihandler/apihandler.go: SubscriptionHandler.ServeHTTP, with pkg/hooks/pipeline.go's
-- RunSubscription on its writer.
pub mod Messages
use wundergraph.Prelude.{
  Bool, true, false, not, Option, none, some, List, [], ◌∷◌, ◌++◌, Bytes, str, if◌then◌else◌,
}
use wundergraph.Auth.User.{User}
use wundergraph.Auth.Rbac.{enforce}
use wundergraph.Hooks.Client.Monad.{Result, ok, err}
use wundergraph.Hooks.Client.{World, Env, HookError}
use wundergraph.Hooks.Pipeline.{Response, run_pre_resolve}
use wundergraph.Handlers.{Sent, http_error}
use wundergraph.Handlers.Variables.{Libs, parse_query_variables, new_wg_request_params}
use wundergraph.Handlers.Prepare.{
  Operation, Request, Prepared, ready, answered, panicked, prepare, Conn, Served, returned, panics,
  tell, start, pipeline_for, told_by,
}
use wundergraph.Handlers.FlushWriter.{FlushWriter, get_flush_writer, write, send_messages}

-- What the handler works with: as for QueryHandler; `messages` are those that
-- ResolveGraphQLSubscription writes and flushes for the variables, and `post_resolve` is PostResolve
-- of the hooks on a message, none an error.
pub record Tools : Type 0 where
  pub libs : Libs
  pub hooks : Env
  pub marshal_user : User → Option Bytes
  pub create_patch : Bytes → Bytes → Option Bytes
  pub messages : Bytes → List Bytes
  pub post_resolve : Bytes → Option Bytes

module _ (t : Tools) where
  -- the writer's part of RunSubscription, once the hooks before the operation have returned; errors
  -- are only logged
  unfoldable pub subscribe : Result HookError Response → FlushWriter → FlushWriter
  subscribe (err e) f = f
  subscribe (ok pre) f =
      if pre.done
      then f
      else if pre.resolved
      then (write t.create_patch none (some t.post_resolve) pre.data' f).1
      else send_messages t.create_patch none (some t.post_resolve) (t.messages pre.data') f

  unfoldable pub serve_with :
      Operation → Request → Bytes → Option FlushWriter → Conn (Unit {0}) → Conn (Unit {0})
  unfolding subscribe
  serve_with o r variables none s = tell (http_error (str "Connection not flushable") 400 ∷ []) s
  serve_with o r variables (some f) s =
      let (result, world) =
        run_pre_resolve t.hooks (pipeline_for t.marshal_user o r) (start r variables s.world) in
      record s { world = world; out = s.out ++ told_by world ++ (subscribe result f).out }

  unfoldable pub serve_prepared :
      Operation → Request → Prepared → Conn (Unit {0}) → Served × Conn (Unit {0})
  unfolding serve_with
  serve_prepared o r (ready variables) s = (
    returned,
    serve_with o r variables (get_flush_writer (new_wg_request_params r.query) r.can_flush) s,
  )
  serve_prepared o r (answered sent) s = (returned, tell sent s)
  serve_prepared o r panicked s = (panics, s)

  -- ServeHTTP, for the query's allow list of parameters
  unfoldable pub subscription_serve_http :
      Operation → List Bytes → Request → Conn (Unit {0}) → Served × Conn (Unit {0})
  unfolding serve_prepared
  subscription_serve_http o allow_list r s =
      if not (enforce o.enforcer r.user)
      then (returned, tell (http_error (str "unauthorized") 401 ∷ []) s)
      else serve_prepared o r
          (prepare t.libs o r.user (parse_query_variables t.libs allow_list r.query)) s
