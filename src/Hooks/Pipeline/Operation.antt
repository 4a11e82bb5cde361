-- ===== src/Hooks/Pipeline/Operation.antt =====
-- The two pipelines of pkg/hooks/pipeline.go: Run and RunSubscription.
use wundergraph.Prelude.{Bool, true, false, Option, none, some, [], ◌∷◌, ◌++◌, Bytes, if◌then◌else◌}
use wundergraph.Hooks.Client.Monad.{Result, ok, err, Exec, ◌>>=◌, pure}
use wundergraph.Hooks.Client.{bytes, World, HookError, Env}
use wundergraph.Hooks.Pipeline.{
  Pipeline, Response, done_response, run_pre_resolve, run_post_resolve,
}

-- The resolver of package graphql-go-tools: from the variables of the context it makes bytes for its
-- writer, leaves other variables in the context, and may fail.
pub record Resolution : Type 0 where
  pub output : Bytes
  pub variables : Bytes
  pub fails : Bool

pub data RunError : Type 0 where
  pre_resolve_failed : HookError → RunError
  resolve_failed : RunError
  transformer_failed : RunError
  post_resolve_failed : HookError → RunError

-- `if err != nil { return nil, fmt.Errorf("…: %w", err) }`
unfoldable pub wrap :
    (HookError → RunError) → Exec World HookError Response → Exec World RunError Response
wrap f m s = let (r, s') = m s in (elim r [ ok resp ↦ ok resp | err e ↦ err (f e) ], s')

-- ResolveGraphQLResponse, on the variables that the context holds
unfoldable pub resolve_into_buf : (Bytes → Resolution) → World → World
resolve_into_buf resolve s =
    let r = resolve s.variables in
    record s {
      buf = s.buf ++ r.output;
      variables = r.variables;
      resolved = s.resolved ++ s.variables ∷ [];
    }

-- from `variables := ctx.Variables` to the check of the resolver's error; true if it failed
unfoldable pub resolve_step : (Bytes → Resolution) → Response → World → Bool × World
unfolding resolve_into_buf
resolve_step resolve pre s =
    if pre.resolved then (false, record s { buf = s.buf ++ pre.data' }) else (
      (resolve pre.data').fails,
      record (resolve_into_buf resolve (record s { variables = pre.data' })) {
        variables = s.variables;
      },
    )

-- postResolveTransformer.Transform, or the buffer itself without a transformer
unfoldable pub transformed : Option (Bytes → Option Bytes) → Bytes → Option Bytes
transformed none buf = some buf
transformed (some transform) buf = transform buf

unfoldable pub after_transform : Env → Pipeline → Option Bytes → Exec World RunError Response
after_transform env p none s = (err transformer_failed, s)
after_transform env p (some response) s =
    (do
      resp ← wrap post_resolve_failed (run_post_resolve env p response)
      if resp.done
          then pure resp
          else pure (record { done = false; resolved = false; data' = resp.data' }))
      s

unfoldable pub after_resolve :
    Env → Pipeline → Option (Bytes → Option Bytes) → Bool × World → Result RunError Response × World
unfolding after_transform transformed
after_resolve env p transformer (true, s) = (err resolve_failed, s)
after_resolve env p transformer (false, s) = after_transform env p (transformed transformer s.buf) s

-- the rest of Run, once the hooks before the operation have returned
unfoldable pub after_pre_resolve :
    Env
    → Pipeline
    → (Bytes → Resolution)
    → Option (Bytes → Option Bytes)
    → Response
    → Exec World RunError Response
after_pre_resolve env p resolve transformer pre =
    if pre.done then pure pre else λ s. after_resolve env p transformer (resolve_step resolve pre s)

-- SynchronousOperationPipeline.Run
unfoldable pub run :
    Env
    → Pipeline
    → (Bytes → Resolution)
    → Option (Bytes → Option Bytes)
    → Exec World RunError Response
unfolding wrap resolve_step after_resolve after_pre_resolve
run env p resolve transformer = do
  pre ← wrap pre_resolve_failed (run_pre_resolve env p)
  after_pre_resolve env p resolve transformer pre

-- ResolveGraphQLSubscription: what it makes of the context's variables is written to the subscription's
-- writer. As in `resolve_into_buf` it may change the variables.
unfoldable pub resolve_into_writer : (Bytes → Resolution) → World → World
resolve_into_writer resolve s =
    let r = resolve s.variables in
    record s {
      written = s.written ++ bytes r.output ∷ [];
      variables = r.variables;
      resolved = s.resolved ++ s.variables ∷ [];
    }

-- from `if preResolveResp.Resolved` to the check of the error; true if it failed. `write_fails` says of
-- which bytes the writer's Write returns an error.
unfoldable pub subscribe_step :
    (Bytes → Resolution) → (Bytes → Bool) → Response → World → Bool × World
unfolding resolve_into_writer
subscribe_step resolve write_fails pre s =
    if pre.resolved
    then (write_fails pre.data', record s { written = s.written ++ bytes pre.data' ∷ [] })
    else (
      (resolve pre.data').fails,
      record (resolve_into_writer resolve (record s { variables = pre.data' })) {
        variables = s.variables;
      },
    )

unfoldable pub after_subscribe : Bool × World → Result RunError Response × World
after_subscribe (true, s) = (err resolve_failed, s)
after_subscribe (false, s) = (ok done_response, s)

unfoldable pub subscribe_after_pre :
    (Bytes → Resolution) → (Bytes → Bool) → Response → Exec World RunError Response
subscribe_after_pre resolve write_fails pre =
    if pre.done then pure pre else λ s. after_subscribe (subscribe_step resolve write_fails pre s)

-- SubscriptionOperationPipeline.RunSubscription
unfoldable pub run_subscription :
    Env → Pipeline → (Bytes → Resolution) → (Bytes → Bool) → Exec World RunError Response
unfolding wrap subscribe_step after_subscribe subscribe_after_pre
run_subscription env p resolve write_fails = do
  pre ← wrap pre_resolve_failed (run_pre_resolve env p)
  subscribe_after_pre resolve write_fails pre
