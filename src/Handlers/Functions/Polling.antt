-- ===== src/Handlers/Functions/Polling.antt =====
-- FunctionsHandler.handleLiveQuery of pkg/apihandler/apihandler.go: how it polls the hooks server.
use wundergraph.Prelude.{
  ℕ, zero, suc, ◌+◌, ◌≡◌, refl, ap, ◌∙◌, none, some, List, [], ◌∷◌, ◌++◌, Bytes, str, eq_refl,
  length, length-append, arith,
}
use wundergraph.Hooks.Client.Monad.{Result, ok, ◌>>=◌, pure, continue}
use wundergraph.Hooks.Client.{
  Call, World, MiddlewareHookResponse, HookError, Env, do_function_request, read_function_reply,
  set_internal_hook_data,
}
use wundergraph.Handlers.Functions.{
  Tools, Poll, Round, goes_on, stops, poll_result, poll, closed, poll_rounds,
}

-- The hooks server answers every call of a function alike.
abbrev pub AnswersAlike : Env → MiddlewareHookResponse → Type 0
AnswersAlike env out =
    (calls : List Call) (c : Call) → read_function_reply env (env.serve calls c) ≡ ok out

module _ (t : Tools) (path data' : Bytes) (out : MiddlewareHookResponse) where
  -- the call that a round makes
  sent_world : World → World
  sent_world w = (do_function_request t.hooks path data' w).1

  call_of : World → Call
  call_of w = record {
    path = str "functions/" ++ path;
    hook = none;
    body = set_internal_hook_data t.hooks w.client data';
  }

  answered :
      (w : World)
      → AnswersAlike t.hooks out
      → ((do_function_request t.hooks path data' w).0 ≡ ok (some out))
        × (length (sent_world w).sent ≡ length w.sent + 1)
  unfolding do_function_request sent_world ◌>>=◌ call_of
  answered w alike = (
    ap
        (λ (r : Result HookError MiddlewareHookResponse).
          (continue {S = World} r (λ x. pure (some x))
            (record w { sent = w.sent ++ call_of w ∷ [] })).0)
        (alike w.sent (call_of w)),
    ap
          (λ (r : Result HookError MiddlewareHookResponse).
            length
              (continue {S = World} r (λ x. pure (some x))
                (record w { sent = w.sent ++ call_of w ∷ [] })).1.sent)
          (alike w.sent (call_of w))
        ∙ length-append w.sent (call_of w ∷ []),
  )

  poll-same :
      (s : Poll)
      → AnswersAlike t.hooks out
      → s.last_response ≡ out.response
      → poll t path data' s ≡ (goes_on, record s { world = sent_world s.world })
  unfolding poll poll_result sent_world
  poll-same s alike same =
      ap (λ r. poll_result t path data' r (record s { world = sent_world s.world }))
        (answered s.world alike).0
      ∙ rw (same, eq_refl out.response) refl

  after_round : ℕ → Round × Poll → Poll
  after_round n x = elim x.0 [
    | goes_on ↦ poll_rounds t path data' n x.1
    | stops ↦ closed t path data' x.1
  ]

  -- Once the client has a response, a live query of a function whose hooks server answers every call with
  -- this response again calls it in every round, as many times as there are rounds before the end of
  -- the context, and never sleeps between two calls, whatever the interval of its polling.
  pub poll_rounds_busy :
      (n : ℕ) (s : Poll)
      → AnswersAlike t.hooks out
      → s.last_response ≡ out.response
      → (length (poll_rounds t path data' n s).world.sent ≡ n + length s.world.sent)
        × ((poll_rounds t path data' n s).slept ≡ s.slept)
  unfolding poll_rounds after_round closed
  poll_rounds_busy zero s alike same = (omega arith, refl)
  poll_rounds_busy (suc n) s alike same =
      let e = poll-same s alike same in
      let s' = record s { world = sent_world s.world } in
      let (calls, sleeps) = poll_rounds_busy n s' alike same in
      (
        ap (λ (x : Round × Poll). length (after_round n x).world.sent) e
            ∙ calls
            ∙ omega (arith, (answered s.world alike).1),
        ap (λ (x : Round × Poll). (after_round n x).slept) e ∙ sleeps,
      )
