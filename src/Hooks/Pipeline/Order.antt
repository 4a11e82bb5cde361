-- ===== src/Hooks/Pipeline/Order.antt =====
-- In which order the hooks of an operation are called, and what a pipeline does with their answers.
use wundergraph.Prelude.{◌≡◌, refl, false, Option, some, List, [], ◌∷◌, Bytes, if◌then◌else◌}
use wundergraph.Hooks.Client.Monad.{Result, Exec, ◌>>=◌, gets}
use wundergraph.Hooks.Client.{
  Hook, mock_resolve, pre_resolve, post_resolve, custom_resolve, mutating_pre_resolve,
  mutating_post_resolve, Call, World, MiddlewareHookResponse, HookError, Env, send, read_reply,
  do_operation_request,
}
use wundergraph.Hooks.Pipeline.{
  Pipeline, Response, update_context_headers, handle_hook_response, continue_with, stage,
  custom_stage, mock_stage, mutating_pre_stage, run_pre_resolve, mutating_post_stage,
  run_post_resolve,
}
use wundergraph.Hooks.Pipeline.Effects.{
  Sends-nothing, Runs, Runs-pure, Runs-modify, Runs-bind, Runs-if, Runs-branch,
}

-- The hooks that are enabled before an operation, in order: a mock takes the place of the custom hook.
abbrev pub custom_plan : Pipeline → List (Option Hook)
custom_plan p = if p.custom then some custom_resolve ∷ [] else []

abbrev pub mock_plan : Pipeline → List (Option Hook)
mock_plan p = if p.mock then some mock_resolve ∷ [] else custom_plan p

abbrev pub mutating_pre_plan : Pipeline → List (Option Hook)
mutating_pre_plan p =
    if p.mutating_pre then some mutating_pre_resolve ∷ mock_plan p else mock_plan p

abbrev pub pre_plan : Pipeline → List (Option Hook)
pre_plan p = if p.pre then some pre_resolve ∷ mutating_pre_plan p else mutating_pre_plan p

abbrev mutating_post_plan : Pipeline → List (Option Hook)
mutating_post_plan p = if p.mutating_post then some mutating_post_resolve ∷ [] else []

abbrev pub post_plan : Pipeline → List (Option Hook)
post_plan p = if p.post then some post_resolve ∷ mutating_post_plan p else mutating_post_plan p

abbrev IsResponse : Option MiddlewareHookResponse → Type 0
IsResponse o = (r : MiddlewareHookResponse) × (o ≡ some r)

abbrev pub IsNotDone : Response → Type 0
IsNotDone r = r.done ≡ false

-- what does not touch the state
pub Runs-gets : {E A : Type 0} (f : World → A) → Runs {E = E} [] (λ _. Unit {0}) (gets f)
unfolding gets
Runs-gets f = record {
  follows = λ s. record { sends = Sends-nothing refl refl; resolved = refl };
  returns = λ s a e. tt;
}

Runs-lift : {E A : Type 0} (r : Result E A) → Runs [] (λ _. Unit {0}) (λ s. (r, s))
Runs-lift r = record {
  follows = λ s. record { sends = Sends-nothing refl refl; resolved = refl };
  returns = λ s a e. tt;
}

Runs-send : (env : Env) (call : Call) → Runs (call.hook ∷ []) (λ _. Unit {0}) (send env call)
unfolding send
Runs-send env call = record {
  follows = λ s. record {
    sends = record {
      calls = call ∷ [];
      rest = [];
      sent = refl;
      order = refl;
      complete = λ _ _. refl;
      variables = refl;
    };
    resolved = refl;
  };
  returns = λ s a e. tt;
}

do_operation_request-Runs :
    (env : Env) (name : Bytes) (hook : Hook) (body : Bytes)
    → Runs (some hook ∷ []) IsResponse (do_operation_request env name hook body)
unfolding do_operation_request
do_operation_request-Runs env name hook body = Runs-bind (Runs-gets _) λ client _.
    Runs-bind (Runs-send env _) λ reply _.
      Runs-bind (Runs-lift (read_reply env (some hook) reply)) λ r _. Runs-pure (some r) (r, refl)

update_context_headers_quiet :
    (h : List (Bytes × Bytes)) (s : World)
    → ((update_context_headers h s).sent ≡ s.sent)
      × ((update_context_headers h s).variables ≡ s.variables)
      × ((update_context_headers h s).resolved ≡ s.resolved)
unfolding update_context_headers
update_context_headers_quiet [] s = (refl, refl, refl)
update_context_headers_quiet (x ∷ h) s = (refl, refl, refl)

handle_hook_response-Runs :
    (p : Pipeline) (r : MiddlewareHookResponse)
    → Runs [] (λ done. done ≡ false) (handle_hook_response p (some r))
unfolding handle_hook_response
handle_hook_response-Runs p r = Runs-modify _ false (update_context_headers_quiet _) refl

module _ (env : Env) (p : Pipeline) {plan : List (Option Hook)} {Q : Response → Type 0} where
  after_hook-Runs :
      (r : MiddlewareHookResponse) (rest : MiddlewareHookResponse → Exec World HookError Response)
      → Runs plan Q (rest r)
      → Runs plan Q (handle_hook_response p (some r) >>= λ done. continue_with (some r) rest done)
  unfolding continue_with
  after_hook-Runs r rest k = Runs-bind (handle_hook_response-Runs p r) λ done e. rw e k

  pub stage-Runs :
      (hook : Hook) (variables response : Bytes)
      (rest : MiddlewareHookResponse → Exec World HookError Response)
      → ((r : MiddlewareHookResponse) → Runs plan Q (rest r))
      → Runs (some hook ∷ plan) Q (stage env p hook variables response rest)
  unfolding stage
  stage-Runs hook variables response rest k = Runs-bind (Runs-gets _) λ header _.
      Runs-bind (do_operation_request-Runs env p.operation_name hook _)
        λ o found. rw found.1 (after_hook-Runs found.0 rest (k found.0))

module _ (env : Env) (p : Pipeline) where
  custom_stage-Runs : (data' : Bytes) → Runs (custom_plan p) IsNotDone (custom_stage env p data')
  unfolding custom_stage
  custom_stage-Runs data' =
      Runs-if p.custom _ _
        (λ _.
          stage-Runs env p custom_resolve data' [] _
            λ r. Runs-branch _ _ _ (Runs-pure _ refl) (Runs-pure _ refl))
        (λ _. Runs-pure _ refl)

  mock_stage-Runs : (data' : Bytes) → Runs (mock_plan p) IsNotDone (mock_stage env p data')
  unfolding mock_stage
  mock_stage-Runs data' =
      Runs-if p.mock _ _ (λ _. stage-Runs env p mock_resolve data' [] _ λ r. Runs-pure _ refl)
        (λ _. custom_stage-Runs data')

  mutating_pre_stage-Runs :
      (data' : Bytes) → Runs (mutating_pre_plan p) IsNotDone (mutating_pre_stage env p data')
  unfolding mutating_pre_stage
  mutating_pre_stage-Runs data' =
      Runs-if p.mutating_pre _ _
        (λ _. stage-Runs env p mutating_pre_resolve data' [] _ λ r. mock_stage-Runs r.input)
        (λ _. mock_stage-Runs data')

  pub run_pre_resolve-Runs : Runs (pre_plan p) IsNotDone (run_pre_resolve env p)
  unfolding run_pre_resolve
  run_pre_resolve-Runs = Runs-bind (Runs-gets _) λ data' _.
      Runs-if p.pre _ _
        (λ _. stage-Runs env p pre_resolve data' [] _ λ r. mutating_pre_stage-Runs data')
        (λ _. mutating_pre_stage-Runs data')

  mutating_post_stage-Runs :
      (data' : Bytes) → Runs (mutating_post_plan p) IsNotDone (mutating_post_stage env p data')
  unfolding mutating_post_stage
  mutating_post_stage-Runs data' = Runs-bind (Runs-gets _) λ variables _.
      Runs-if p.mutating_post _ _
        (λ _. stage-Runs env p mutating_post_resolve variables data' _ λ r. Runs-pure _ refl)
        (λ _. Runs-pure _ refl)

  pub run_post_resolve-Runs :
      (data' : Bytes) → Runs (post_plan p) IsNotDone (run_post_resolve env p data')
  unfolding run_post_resolve
  run_post_resolve-Runs data' = Runs-bind (Runs-gets _) λ variables _.
      Runs-if p.post _ _
        (λ _. stage-Runs env p post_resolve variables data' _ λ r. mutating_post_stage-Runs data')
        (λ _. mutating_post_stage-Runs data')
