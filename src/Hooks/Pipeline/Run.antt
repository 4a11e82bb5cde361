-- ===== src/Hooks/Pipeline/Run.antt =====
-- A whole run of an operation: its hooks, its variables, and what reaches the resolver.
use wundergraph.Prelude.{
  ◌≡◌, arith, refl, sym, ◌⊎◌, inl, inr, ◌∙◌, ap, Bool, true, false, Option, none, some, List, [],
  ◌++◌, append-nil, Bytes, if◌then◌else◌,
}
use wundergraph.Hooks.Client.Monad.{Result, ok, err, Exec, ◌>>=◌, pure}
use wundergraph.Hooks.Client.{Hook, World, HookError, Env}
use wundergraph.Hooks.Pipeline.{Pipeline, Response, run_pre_resolve, run_post_resolve}
use wundergraph.Hooks.Pipeline.Operation.{
  Resolution, RunError, wrap, resolve_step, after_pre_resolve, subscribe_after_pre,
  transformer_failed, resolve_failed, after_transform, after_resolve, run, post_resolve_failed,
  pre_resolve_failed, subscribe_step, after_subscribe, run_subscription,
}
use wundergraph.Hooks.Pipeline.Effects.{
  Sends, Sends-nothing, Sends-shift, Sends-append_nil, Sends-continue, Runs, Runs-bind, Runs-branch,
  Runs-pure, ok_injective,
}
use wundergraph.Hooks.Pipeline.Order.{
  pre_plan, post_plan, IsNotDone, run_pre_resolve-Runs, run_post_resolve-Runs,
}

-- A stage before or after the operation never says that the request is done: the client of the hooks
-- server returns no nil response without an error, whatever the server answers.
pub stages_not_done :
    (env : Env) (p : Pipeline) (s : World) (response_data : Bytes) (resp : Response)
    → ((run_pre_resolve env p s).0 ≡ ok resp)
      ⊎ ((run_post_resolve env p response_data s).0 ≡ ok resp)
    → resp.done ≡ false
stages_not_done env p s response_data resp (inl e) = (run_pre_resolve-Runs env p).returns s resp e
stages_not_done env p s response_data resp (inr e) =
    (run_post_resolve-Runs env p response_data).returns s resp e

Sends-wrapped :
    (f : HookError → RunError) {plan : List (Option Hook)} {s : World}
    (r : Result HookError Response) (s' : World)
    → Sends plan s r s'
    → Sends {E = RunError} {A = Response} plan s
        (elim r [ ok resp ↦ ok resp | err e ↦ err (f e) ])
        s'
Sends-wrapped f (ok a) s' m = record {
  calls = m.calls;
  rest = m.rest;
  sent = m.sent;
  order = m.order;
  complete = λ b e. m.complete a refl;
  variables = m.variables;
}
Sends-wrapped f (err x) s' m = record {
  calls = m.calls;
  rest = m.rest;
  sent = m.sent;
  order = m.order;
  complete = λ b e. absurd (cc);
  variables = m.variables;
}

pub wrapped_returns :
    (f : HookError → RunError) (r : Result HookError Response) (pre : Response)
    → ◌≡◌ {A = Result RunError Response} (elim r [ ok resp ↦ ok resp | err e ↦ err (f e) ]) (ok pre)
    → r ≡ ok pre
wrapped_returns f (ok a) pre e = ap ok (ok_injective e)
wrapped_returns f (err x) pre e = absurd (cc)

Runs-wrap :
    (f : HookError → RunError) {plan : List (Option Hook)} {Q : Response → Type 0}
    {m : Exec World HookError Response}
    → Runs plan Q m
    → Runs plan Q (wrap f m)
unfolding wrap
Runs-wrap f {m = m} k = record {
  follows = λ s. record {
    sends = Sends-wrapped f (m s).0 (m s).1 (k.follows s).sends;
    resolved = (k.follows s).resolved;
  };
  returns = λ s resp e. k.returns s resp (wrapped_returns f (m s).0 resp e);
}

-- an error before any call
Sends-err :
    {E A : Type 0} (plan : List (Option Hook)) (e : E) (s s' : World)
    → s'.sent ≡ s.sent
    → s'.variables ≡ s.variables
    → Sends {A = A} plan s (err e) s'
Sends-err plan e s s' same v = record {
  calls = [];
  rest = plan;
  sent = same ∙ sym (append-nil _);
  order = refl;
  complete = λ a h. absurd (cc);
  variables = v;
}

subscribe_step_quiet :
    (resolve : Bytes → Resolution) (write_fails : Bytes → Bool) (pre : Response) (s : World)
    → ((subscribe_step resolve write_fails pre s).1.sent ≡ s.sent)
      × ((subscribe_step resolve write_fails pre s).1.variables ≡ s.variables)
unfolding subscribe_step
subscribe_step_quiet resolve write_fails pre s = ground arith

after_subscribe-Sends :
    (failed : Bool) (s : World)
    → Sends [] s (after_subscribe (failed, s)).0 (after_subscribe (failed, s)).1
unfolding after_subscribe
after_subscribe-Sends true s = Sends-nothing refl refl
after_subscribe-Sends false s = Sends-nothing refl refl

module _ (env : Env) (p : Pipeline) where
  pub post-Runs :
      (response : Bytes)
      → Runs
          (post_plan p ++ [])
          (λ _. Unit {0})
          (wrap post_resolve_failed (run_post_resolve env p response) >>= λ resp.
            if resp.done
            then pure resp
            else pure (record { done = false; resolved = false; data' = resp.data' }))
  post-Runs response =
      Runs-bind (Runs-wrap post_resolve_failed (run_post_resolve-Runs env p response))
        λ resp _. Runs-branch resp.done _ _ (Runs-pure _ tt) (Runs-pure _ tt)

  after_transform-Sends :
      (o : Option Bytes) (s : World)
      → Sends (post_plan p) s (after_transform env p o s).0 (after_transform env p o s).1
  unfolding after_transform
  after_transform-Sends none s = Sends-err (post_plan p) transformer_failed s s refl refl
  after_transform-Sends (some response) s = Sends-append_nil ((post-Runs response).follows s).sends

  after_resolve-Sends :
      (transformer : Option (Bytes → Option Bytes)) (b : Bool) (s : World)
      → Sends
          (post_plan p)
          s
          (after_resolve env p transformer (b, s)).0
          (after_resolve env p transformer (b, s)).1
  unfolding after_resolve
  after_resolve-Sends transformer true s = Sends-err (post_plan p) resolve_failed s s refl refl
  after_resolve-Sends transformer false s = after_transform-Sends _ s

  resolve_step_quiet :
      (resolve : Bytes → Resolution) (pre : Response) (s : World)
      → ((resolve_step resolve pre s).1.sent ≡ s.sent)
        × ((resolve_step resolve pre s).1.variables ≡ s.variables)
  unfolding resolve_step
  resolve_step_quiet resolve pre s = ground arith

  after_pre_resolve-Sends :
      (resolve : Bytes → Resolution) (transformer : Option (Bytes → Option Bytes)) (pre : Response)
      (s : World)
      → IsNotDone pre
      → Sends
          (post_plan p)
          s
          (after_pre_resolve env p resolve transformer pre s).0
          (after_pre_resolve env p resolve transformer pre s).1
  unfolding after_pre_resolve
  after_pre_resolve-Sends resolve transformer pre s e =
      let (failed, s') = resolve_step resolve pre s in
      let (sent, variables) = resolve_step_quiet resolve pre s in
      simp e (Sends-shift sent variables (after_resolve-Sends transformer failed s'))

  -- A run of a synchronous operation calls the enabled hooks in the order of the plan and calls
  -- nothing else: preResolve, mutatingPreResolve, then mockResolve or without a mock customResolve,
  -- then postResolve and mutatingPostResolve. An error stops it after a part of the plan; a run that
  -- returns a response has called the whole plan. Whatever happens, and whatever variables the hooks
  -- and the resolver set meanwhile, the context has its variables back.
  pub run-Sends :
      (resolve : Bytes → Resolution) (transformer : Option (Bytes → Option Bytes)) (s : World)
      → Sends
          (pre_plan p ++ post_plan p)
          s
          (run env p resolve transformer s).0
          (run env p resolve transformer s).1
  unfolding run ◌>>=◌
  run-Sends resolve transformer s =
      let pre = run_pre_resolve-Runs env p in
      Sends-continue (after_pre_resolve env p resolve transformer)
        (wrap pre_resolve_failed (run_pre_resolve env p) s).0 s
        (wrap pre_resolve_failed (run_pre_resolve env p) s).1
        (Sends-wrapped pre_resolve_failed (run_pre_resolve env p s).0 (run_pre_resolve env p s).1
          (pre.follows s).sends)
        λ resp e. after_pre_resolve-Sends resolve transformer resp (run_pre_resolve env p s).1 (
          pre.returns s resp
            (wrapped_returns pre_resolve_failed (run_pre_resolve env p s).0 resp e))

  subscribe_after_pre-Sends :
      (resolve : Bytes → Resolution) (write_fails : Bytes → Bool) (pre : Response) (s : World)
      → IsNotDone pre
      → Sends [] s
          (subscribe_after_pre resolve write_fails pre s).0
          (subscribe_after_pre resolve write_fails pre s).1
  unfolding subscribe_after_pre
  subscribe_after_pre-Sends resolve write_fails pre s e = simp e (
      let (failed, s') = subscribe_step resolve write_fails pre s in
      let (sent, variables) = subscribe_step_quiet resolve write_fails pre s in
      Sends-shift sent variables (after_subscribe-Sends failed s'))

  -- RunSubscription calls the hooks before the operation in the order of the plan, and by itself no
  -- others: those after the operation are left to the writer, which calls them on each message it gets
  -- and is not looked into here. An error stops it after a part of them, and a run that returns has
  -- called all. Whatever happens, and whatever variables the hooks and the resolver set meanwhile, the
  -- context has its variables back.
  pub run_subscription-Sends :
      (resolve : Bytes → Resolution) (write_fails : Bytes → Bool) (s : World)
      → Sends
          (pre_plan p)
          s
          (run_subscription env p resolve write_fails s).0
          (run_subscription env p resolve write_fails s).1
  unfolding run_subscription ◌>>=◌
  run_subscription-Sends resolve write_fails s =
      let pre = run_pre_resolve-Runs env p in
      Sends-append_nil (
        Sends-continue (subscribe_after_pre resolve write_fails)
          (wrap pre_resolve_failed (run_pre_resolve env p) s).0 s
          (wrap pre_resolve_failed (run_pre_resolve env p) s).1
          (Sends-wrapped pre_resolve_failed (run_pre_resolve env p s).0 (run_pre_resolve env p s).1
            (pre.follows s).sends)
          λ resp e. subscribe_after_pre-Sends resolve write_fails resp (run_pre_resolve env p s).1 (
            pre.returns s resp
              (wrapped_returns pre_resolve_failed (run_pre_resolve env p s).0 resp e)))
