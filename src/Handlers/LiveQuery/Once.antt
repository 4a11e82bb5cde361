-- ===== src/Handlers/LiveQuery/Once.antt =====
-- handleLiveQuery of pkg/apihandler/apihandler.go, for a request with wg_subscribe_once.
use wundergraph.Prelude.{
  ◌≡◌, inl, inr, refl, ap, ◌∙◌, Bool, true, false, not, Option, List, [], ◌∷◌, ◌++◌, append-nil,
  Bytes, ◌==◌, Bool-cases, if_true, if_false,
}
use wundergraph.Hooks.Client.{World}
use wundergraph.Handlers.{flush}
use wundergraph.Handlers.Variables.{WgRequestParams}
use wundergraph.Handlers.Stream.{wire, wire-append}
use wundergraph.Handlers.LiveQuery.{
  Event, cancelled, failed, response, Live, Next, returns, waits, again, go_on, live_prefix,
  send_response, live_round, live_close, live_step, handle_live_query,
}

go_on-wire :
    (next : Next) (timer : Bool) (s rest closed : Live)
    → wire rest.out ≡ wire s.out
    → wire closed.out ≡ wire s.out
    → wire (go_on next timer rest closed).out ≡ wire s.out
unfolding go_on
go_on-wire returns timer s rest closed a b = b
go_on-wire waits true s rest closed a b = a
go_on-wire waits false s rest closed a b = b
go_on-wire again timer s rest closed a b = a

module _ (create : Bytes → Bytes → Option Bytes) (write_fails : Bytes → Bool)
    (params : WgRequestParams) (once : params.subscribe_once ≡ true)
    (plain : params.use_sse ≡ false) where
  no_prefix : live_prefix create write_fails params ≡ []
  no_prefix = if_false _ _ plain

  send_response-wire :
      (e : Bool) (m : Bytes) (s : Live)
      → wire (send_response create write_fails params e m s).1.out ≡ wire s.out
  unfolding send_response
  send_response-wire e m s = elim (Bool-cases (m == s.last_data)) [
    | inl same ↦ ap (λ (x : Next × Live). wire x.1.out) (if_false _ _ (ap not same))
    | inr new ↦
        ap (λ (x : Next × Live). wire x.1.out) (if_true _ _ (ap not new) ∙ if_true _ _ once)
        ∙ ap (λ p. wire (s.out ++ p ++ flush ∷ [])) (no_prefix)
        ∙ simp (wire-append, append-nil) refl
  ]

  live_round-wire :
      (e : Event) (s : Live) → wire (live_round create write_fails params e s).1.out ≡ wire s.out
  unfolding live_round
  live_round-wire cancelled s = refl
  live_round-wire (failed json) s = send_response-wire true json s
  live_round-wire (response m) s = send_response-wire false m s

  live_close-wire : (s : Live) → wire (live_close create write_fails params s).out ≡ wire s.out
  unfolding live_close
  live_close-wire s = ap (λ (x : Live). wire x.out) (if_false _ _ plain)

  module _ (event : World → Event × World) where
    live_step-wire :
        (s : Live) → wire (live_step create write_fails params event s).1.out ≡ wire s.out
    unfolding live_step
    live_step-wire s = live_round-wire (event s.world).0 (record s { world = (event s.world).1 })

    -- A request to a live query with wg_subscribe_once and without wg_sse gets no byte of a response:
    -- whatever the responses of the rounds are and however many rounds there are, the handler adds
    -- nothing to the body.
    handle_live_query_once :
        (timers : List Bool) (s : Live)
        → wire (handle_live_query create write_fails params event timers s).out ≡ wire s.out
    unfolding handle_live_query
    handle_live_query_once [] s = refl
    handle_live_query_once (timer ∷ timers) s =
        let (next, s') = live_step create write_fails params event s in
        let rest = handle_live_query_once timers s' ∙ live_step-wire s in
        let closed = live_close-wire s' ∙ live_step-wire s in
        go_on-wire next timer s (handle_live_query create write_fails params event timers s')
          (live_close create write_fails params s') rest closed
