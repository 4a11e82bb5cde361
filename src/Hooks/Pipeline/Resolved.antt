-- ===== src/Hooks/Pipeline/Resolved.antt =====
-- What reaches the resolver of an operation.
use wundergraph.Prelude.{
  arith, ◌≡◌, refl, sym, ◌∙◌, ap, Bool, true, false, Option, none, some, List, [], ◌∷◌, ◌++◌,
  append-nil, Bytes, if◌then◌else◌,
}
use wundergraph.Hooks.Client.Monad.{Result, ok, err, ◌>>=◌, continue}
use wundergraph.Hooks.Client.{
  World, HookError, Env, mock_resolve, pre_resolve, mutating_pre_resolve, custom_resolve,
}
use wundergraph.Hooks.Pipeline.{
  Pipeline, Response, custom_stage, mock_stage, mutating_pre_stage, run_pre_resolve,
}
use wundergraph.Hooks.Pipeline.Operation.{
  Resolution, RunError, wrap, resolve_step, after_transform, after_resolve, after_pre_resolve, run,
  pre_resolve_failed,
}
use wundergraph.Hooks.Pipeline.Effects.{Runs, Runs-bind, Runs-branch, Runs-if, Runs-pure}
use wundergraph.Hooks.Pipeline.Order.{
  custom_plan, mock_plan, mutating_pre_plan, pre_plan, IsNotDone, run_pre_resolve-Runs, stage-Runs,
  Runs-gets,
}
use wundergraph.Hooks.Pipeline.Run.{post-Runs}

-- What a run resolves after the hooks before it: their data, unless they have resolved it.
abbrev pub resolutions : Result HookError Response → List Bytes
resolutions (ok pre) = if pre.resolved then [] else pre.data' ∷ []
resolutions (err e) = []

module _ (env : Env) (p : Pipeline) where
  after_transform_resolved :
      (o : Option Bytes) (s : World) → (after_transform env p o s).1.resolved ≡ s.resolved
  unfolding after_transform
  after_transform_resolved none s = refl
  after_transform_resolved (some response) s = ((post-Runs env p response).follows s).resolved

  after_resolve_resolved :
      (transformer : Option (Bytes → Option Bytes)) (b : Bool) (s : World)
      → (after_resolve env p transformer (b, s)).1.resolved ≡ s.resolved
  unfolding after_resolve
  after_resolve_resolved transformer true s = refl
  after_resolve_resolved transformer false s = after_transform_resolved _ s

  resolve_step_resolved :
      (resolve : Bytes → Resolution) (pre : Response) (s : World)
      → (resolve_step resolve pre s).1.resolved ≡ s.resolved ++ resolutions (ok pre)
  unfolding resolve_step
  resolve_step_resolved resolve pre s = ground (arith, append-nil s.resolved)

  continue_resolved :
      (resolve : Bytes → Resolution) (transformer : Option (Bytes → Option Bytes))
      (r : Result HookError Response) (s : World)
      → ((pre : Response) → r ≡ ok pre → IsNotDone pre)
      → (continue {E = RunError}
          (elim r [ ok resp ↦ ok resp | err e ↦ err (pre_resolve_failed e) ])
          (after_pre_resolve env p resolve transformer)
          s).1.resolved
        ≡ s.resolved ++ resolutions r
  unfolding after_pre_resolve
  continue_resolved resolve transformer (ok pre) s h = simp (h pre refl) (
      let (failed, s') = resolve_step resolve pre s in
      after_resolve_resolved transformer failed s' ∙ resolve_step_resolved resolve pre s)
  continue_resolved resolve transformer (err e) s h = sym (append-nil s.resolved)

  -- A run resolves the operation at most once: on the data of the hooks before it if these return
  -- without a resolved response, and otherwise not at all.
  pub resolved-run :
      (resolve : Bytes → Resolution) (transformer : Option (Bytes → Option Bytes)) (s : World)
      → (run env p resolve transformer s).1.resolved
        ≡ s.resolved ++ resolutions (run_pre_resolve env p s).0
  unfolding run ◌>>=◌ wrap
  resolved-run resolve transformer s =
      let pre = run_pre_resolve-Runs env p in
      continue_resolved resolve transformer (run_pre_resolve env p s).0 (run_pre_resolve env p s).1
        (pre.returns s)
      ∙ ap (λ l. l ++ resolutions (run_pre_resolve env p s).0) (pre.follows s).resolved

-- the responses of the hooks before an operation with a mock hook
module _ (env : Env) (p : Pipeline) (mocked : p.mock ≡ true) where
  abbrev IsResolved : Response → Type 0
  IsResolved r = r.resolved ≡ true

  mock_stage_resolves : (data' : Bytes) → Runs (mock_plan p) IsResolved (mock_stage env p data')
  unfolding mock_stage
  mock_stage_resolves data' =
      Runs-if p.mock _ _ (λ _. stage-Runs env p mock_resolve data' [] _ λ r. Runs-pure _ refl)
        (λ e. absurd (cc))

  mutating_pre_stage_resolves :
      (data' : Bytes) → Runs (mutating_pre_plan p) IsResolved (mutating_pre_stage env p data')
  unfolding mutating_pre_stage
  mutating_pre_stage_resolves data' =
      Runs-if p.mutating_pre _ _
        (λ _. stage-Runs env p mutating_pre_resolve data' [] _ λ r. mock_stage_resolves r.input)
        (λ _. mock_stage_resolves data')

  run_pre_resolve_resolves : Runs (pre_plan p) IsResolved (run_pre_resolve env p)
  unfolding run_pre_resolve
  run_pre_resolve_resolves = Runs-bind (Runs-gets _) λ data' _.
      Runs-if p.pre _ _
        (λ _. stage-Runs env p pre_resolve data' [] _ λ r. mutating_pre_stage_resolves data')
        (λ _. mutating_pre_stage_resolves data')

  resolutions-eq-nil :
      (r : Result HookError Response)
      → ((a : Response) → r ≡ ok a → IsResolved a)
      → resolutions r ≡ []
  resolutions-eq-nil (ok a) h = rw (h a refl)
  resolutions-eq-nil (err e) h = refl

  -- With a mock hook the resolver is never called, on error paths too, whatever the hooks answer.
  resolved-run_mock :
      (resolve : Bytes → Resolution) (transformer : Option (Bytes → Option Bytes)) (s : World)
      → (run env p resolve transformer s).1.resolved ≡ s.resolved
  resolved-run_mock resolve transformer s =
      resolved-run env p resolve transformer s
      ∙ ap (λ l. s.resolved ++ l)
          (resolutions-eq-nil (run_pre_resolve env p s).0 (run_pre_resolve_resolves.returns s))
      ∙ append-nil s.resolved

-- the responses of the hooks before an operation with no mutating hook
module _ (env : Env) (p : Pipeline) (plain : p.mutating_pre ≡ false) where
  abbrev Passes : Bytes → Response → Type 0
  Passes data' r = r.resolved ≡ false → r.data' ≡ data'

  custom_stage-Passes :
      (data' : Bytes) → Runs (custom_plan p) (Passes data') (custom_stage env p data')
  unfolding custom_stage
  custom_stage-Passes data' =
      Runs-if p.custom _ _
        (λ _.
          stage-Runs env p custom_resolve data' [] _
            λ r. Runs-branch _ _ _ (Runs-pure _ (λ e. absurd (cc))) (Runs-pure _ (λ _. refl)))
        (λ _. Runs-pure _ (λ _. refl))

  mock_stage-Passes : (data' : Bytes) → Runs (mock_plan p) (Passes data') (mock_stage env p data')
  unfolding mock_stage
  mock_stage-Passes data' =
      Runs-if p.mock _ _
        (λ _. stage-Runs env p mock_resolve data' [] _ λ r. Runs-pure _ (λ e. absurd (cc)))
        (λ _. custom_stage-Passes data')

  mutating_pre_stage-Passes :
      (data' : Bytes) → Runs (mutating_pre_plan p) (Passes data') (mutating_pre_stage env p data')
  unfolding mutating_pre_stage
  mutating_pre_stage-Passes data' =
      Runs-if p.mutating_pre _ _ (λ e. absurd (cc)) (λ _. mock_stage-Passes data')

  -- Without a mutatingPreResolve hook, what the resolver gets is what the client sent: no other hook
  -- changes the variables.
  run_pre_resolve-Passes :
      (s : World) (resp : Response)
      → (run_pre_resolve env p s).0 ≡ ok resp
      → resp.resolved ≡ false
      → resp.data' ≡ s.variables
  unfolding run_pre_resolve ◌>>=◌
  run_pre_resolve-Passes s resp e =
      (Runs-if p.pre _ _
          (λ _.
            stage-Runs env p pre_resolve s.variables [] _
              λ r. mutating_pre_stage-Passes s.variables)
          (λ _. mutating_pre_stage-Passes s.variables)).returns
        s resp e
