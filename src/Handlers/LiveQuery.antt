-- ===== src/Handlers/LiveQuery.antt =====
-- pkg/apihandler/apihandler.go: handleLiveQuery, which sends the response of a query again and again,
-- where it has changed.
pub mod Changes
pub mod Once
use wundergraph.Prelude.{
  Bool, true, false, not, ◌&&◌, Option, none, some, List, [], ◌∷◌, ◌++◌, Bytes, str, ◌==◌,
  if◌then◌else◌, is_empty,
}
use wundergraph.Hooks.Client.Monad.{Result, ok, err}
use wundergraph.Hooks.Client.{World}
use wundergraph.Hooks.Pipeline.{Response}
use wundergraph.Hooks.Pipeline.Operation.{RunError}
use wundergraph.Handlers.{Sent, body, flush, Cause, canceled}
use wundergraph.Handlers.Variables.{WgRequestParams}
use wundergraph.Handlers.FlushWriter.{smaller}

-- What a round of hooks and resolver comes to: the request was cancelled, it failed with an error whose
-- JSON is given (nothing if it cannot be made), or there is a response.
pub data Event : Type 0 where
  cancelled : Event
  failed : Bytes → Event
  response : Bytes → Event

failure : Cause → Bytes → Event
failure canceled json = cancelled
failure _ json = failed json

-- handleLiveQueryEvent, with what handleLiveQuery makes of its error; `graphql_error` is Marshal of
-- package graphql on the error, or nil
unfoldable pub handle_live_query_event :
    (RunError → Cause) → (RunError → Bytes) → Result RunError Response → Event
unfolding failure
handle_live_query_event cause graphql_error (err e) = failure (cause e) (graphql_error e)
handle_live_query_event cause graphql_error (ok resp) =
    if resp.done then cancelled else response resp.data'

-- The state of the loop: what the hooks see, lastData, and what the client was told.
pub record Live : Type 0 where
  pub world : World
  pub last_data : Bytes
  pub out : List Sent

-- How a round ends: the handler returns, it waits for the next one, or it begins it at once.
pub data Next : Type 0 where
  returns waits again : Next

abbrev after_send : Bool → Next
after_send true = returns
after_send false = waits

-- what a round leads to: the rest of the rounds, or the end
unfoldable pub go_on : Next → Bool → Live → Live → Live
go_on returns timer rest closed = closed
go_on waits timer rest closed = if timer then rest else closed
go_on again timer rest closed = rest

-- `create` is CreatePatch of package jsonpatch with json.Marshal on its patch, none an error of
-- either; `write_fails` says of which bytes Write returns an error.
module _ (create : Bytes → Bytes → Option Bytes) (write_fails : Bytes → Bool)
    (params : WgRequestParams) where
  -- what follows "data: "; none where there is no patch
  unfoldable pub live_payload : Bytes → Bytes → Option Bytes
  unfolding smaller
  live_payload last current =
      if params.use_json_patch && not (is_empty last)
      then elim (create last current) [ none ↦ none | some patch ↦ some (smaller patch current) ]
      else some current

  abbrev pub live_prefix : List Sent
  live_prefix = if params.use_sse then body (str "data: ") ∷ [] else []

  unfoldable pub send_payload : Bool → Bytes → Option Bytes → Live → Next × Live
  send_payload hook_error current none s = (again, record s { out = s.out ++ live_prefix })
  send_payload hook_error current (some p) s =
      let written = s.out ++ live_prefix ++ body p ∷ [] in
      if write_fails p
      then (returns, record s { out = written })
      else if write_fails (str "\n")
      then (returns, record s { out = written ++ body (str "\n") ∷ body (str "\n") ∷ [] })
      else (
        after_send hook_error,
        record s {
          last_data = current;
          out = written ++ body (str "\n") ∷ body (str "\n") ∷ flush ∷ [];
        },
      )

  -- `if !bytes.Equal(response, lastData.Bytes()) { … }` and what follows
  unfoldable pub send_response : Bool → Bytes → Live → Next × Live
  unfolding send_payload
  send_response hook_error current s =
      if not (current == s.last_data)
      then if params.subscribe_once
        then (returns, record s { out = s.out ++ live_prefix ++ flush ∷ [] })
        else send_payload hook_error current (live_payload s.last_data current) s
      else (after_send hook_error, s)

  unfoldable pub live_round : Event → Live → Next × Live
  unfolding send_response
  live_round cancelled s = (returns, s)
  live_round (failed json) s = send_response true json s
  live_round (response data') s = send_response false data' s

  -- the deferred call
  unfoldable pub live_close : Live → Live
  live_close s =
      if params.use_sse
      then record s { out = s.out ++ body (str "event: close\n\n") ∷ flush ∷ [] }
      else s

  -- `event` is a run of the hooks and the resolver with handleLiveQueryEvent.
  module _ (event : World → Event × World) where
    unfoldable pub live_step : Live → Next × Live
    unfolding live_round
    live_step s = let (e, w) = event s.world in live_round e (record s { world = w })

    -- The loop, for a number of rounds: each element is one, true where the timer comes before the end
    -- of the context, and with none left the loop goes on unseen.
    unfoldable pub handle_live_query : List Bool → Live → Live
    unfolding live_step live_close go_on
    handle_live_query [] s = s
    handle_live_query (timer ∷ timers) s =
        let (next, s') = live_step s in
        let rest = handle_live_query timers s' in go_on next timer rest (live_close s')
