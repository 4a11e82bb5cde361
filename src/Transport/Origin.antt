-- ===== src/Transport/Origin.antt =====
-- RoundTrip of pkg/apihandler/apitransport.go: what reaches the origin.
use wundergraph.Prelude.{
  Bool, ◌≡◌, refl, ap, sym, ◌∙◌, true, false, ◌||◌, Option, none, some, List, [], ◌∷◌, ◌++◌, Bytes,
  str, ◌==◌, inl, inr, subst, Bool-cases, if_true, if_false, if_cases,
}
use wundergraph.Hooks.Header.{Header, get, canonical, lookup}
use wundergraph.Hooks.Client.Monad.{Result, ok, err}
use wundergraph.Hooks.Client.{MiddlewareHookResponse, on_origin_request, do_global_request}
use wundergraph.Auth.User.{User}
use wundergraph.Transport.Upstream.{Configurations}
use wundergraph.Transport.{
  Body, no_body, breaks, Outcome, panics, returns, returned, internal_read, reads, read_all,
  drained, OriginRequest, OriginResponse, OperationMetaData, TransportError, Tools, Trip,
  OnRequestHookResponse, origin_trip, internal_call, internal_send, internal_with,
  internal_graphql_round_trip, del,
}
use wundergraph.Transport.Hooked.{
  ApiTransport, hooked_by, handle_on_request_hook, response_with, after_origin, send_on,
  request_with, hooked_round_trip, authenticated, trip_with, identified, read_on_request,
  decide_on_request, requested, with_request_body, ask_on_request, round_trip, add_user,
  on_request_payload,
}

-- how a round trip ends, and what went to origins meanwhile
pub data OneRequest (internal : Bool) (given : Body) (before : List OriginRequest)
    : Outcome × Trip → Type 0 where
  not_sent :
      (e : TransportError) (s : Trip)
      → s.tripped ≡ before
      → OneRequest internal given before (returns (err e), s)
  panicked :
      (s : Trip)
      → internal ≡ true
      → given ≡ no_body
      → s.tripped ≡ before
      → OneRequest internal given before (panics, s)
  sent :
      (req : OriginRequest) (x : Result TransportError OriginResponse × Trip)
      → x.1.tripped ≡ before ++ req ∷ []
      → OneRequest internal given before (returned x)

-- a call that returns
abbrev Returns : List OriginRequest → Result TransportError OriginResponse × Trip → Type 0
Returns before x = (internal : Bool) (given : Body) → OneRequest internal given before (returned x)

module _ (t : Tools) where
  module _ (a : ApiTransport) where
    response_with-tripped :
        (res : OriginResponse) (s : Trip) (m : Option OperationMetaData)
        → (response_with t a res s m).1.tripped ≡ s.tripped
    unfolding response_with
    response_with-tripped res s none = refl
    response_with-tripped res s (some m) = refl

    after_origin-tripped :
        (x : Result TransportError OriginResponse × Trip)
        → (after_origin t a x).1.tripped ≡ x.1.tripped
    unfolding after_origin
    after_origin-tripped (err e, s) = refl
    after_origin-tripped (ok res, s) =
        if_cases (λ (x : Result TransportError OriginResponse × Trip). x.1.tripped ≡ s.tripped)
          (a.is_upgrade_request || a.enable_streaming_mode) _ _ refl (response_with-tripped res s _)

    send_on-tripped :
        (r : OriginRequest) (s : Trip) → (send_on t a (ok r) s).1.tripped ≡ s.tripped ++ r ∷ []
    unfolding send_on origin_trip
    send_on-tripped r s = after_origin-tripped (origin_trip t r s)

-- An internal call that is over, of a request with the given header: no hook was called for it, and the
-- request that a graphql-js server got, if any, has that header without the mark of internal calls.
pub data Unmarked (given : Header) (s : Trip) : Outcome × Trip → Type 0 where
  failed_before : (e : TransportError) → Unmarked given s (returns (err e), s)
  panicked : Unmarked given s (panics, s)
  called :
      (req : OriginRequest) (res : Result TransportError OriginResponse)
      → req.header ≡ del internal_call given
      → get internal_call req.header ≡ []
      → Unmarked given s (returns res, record s { tripped = s.tripped ++ req ∷ [] })

lookup-del : (name : Bytes) (h : Header) → lookup (canonical name) (del name h) ≡ none
unfolding lookup
lookup-del name [] = refl
lookup-del name ((k, vs) ∷ h) = elim (Bool-cases (k == canonical name)) [
  | inl e ↦ rw e (lookup-del name h)
  | inr e ↦ rw e (rw e (lookup-del name h))
]

get-del : (name : Bytes) (h : Header) → get name (del name h) ≡ []
unfolding get
get-del name h = rw (lookup-del name h) refl

module _ (t : Tools) where
  internal_send-Unmarked :
      (r : OriginRequest) (s : Trip) (req : Option OriginRequest)
      → Unmarked r.header s (returned (internal_send t r s req))
  unfolding internal_send origin_trip
  internal_send-Unmarked r s none = failed_before _
  internal_send-Unmarked r s (some req) = called _ _ refl (get-del internal_call r.header)

  internal_with-Unmarked :
      (r : OriginRequest) (s : Trip) (body : Result TransportError Bytes)
      → Unmarked r.header s (returned (internal_with t r s body))
  unfolding internal_with
  internal_with-Unmarked r s (err e) = failed_before e
  internal_with-Unmarked r s (ok whole) = internal_send-Unmarked r s _

  internal_read-Unmarked :
      (user : Option User) (r : OriginRequest) (s : Trip) (b : Body)
      → Unmarked r.header s (internal_read t user r s b)
  unfolding internal_read
  internal_read-Unmarked user r s no_body = panicked
  internal_read-Unmarked user r s breaks = failed_before _
  internal_read-Unmarked user r s (reads data') = internal_with-Unmarked r s _

  module _ (a : ApiTransport) where
    -- A request that is marked as an internal call goes past the hooks and the authentication for its
    -- origin: no hook is called; the one request that is sent, if any, has the header of the given one
    -- with the request's ID and without the mark; and all ends in the same way whatever authentication
    -- is configured.
    pub round_trip-Unmarked :
        (r : OriginRequest) (s : Trip) (other : Configurations)
        → (get internal_call (identified t a r).header == str "true") ≡ true
        → Unmarked (identified t a r).header s (round_trip t a r s)
          × (round_trip t (record a { upstream_auth_configurations = other }) r s
              ≡ round_trip t a r s)
    unfolding round_trip internal_graphql_round_trip
    round_trip-Unmarked r s other h = (
      subst (Unmarked (identified t a r).header s) (sym (if_true _ _ h))
          (internal_read-Unmarked a.user (identified t a r) s r.body),
      if_true _ _ h ∙ sym (if_true _ _ h),
    )

    -- The hook before the origin is called for a request and answers, with neither a decision nor a
    -- request of its own.
    pub record Undecided (r : OriginRequest) (s : Trip) (body : Bytes) : Type 0 where
      pub not_internal : (get internal_call (identified t a r).header == str "true") ≡ false
      pub request : OriginRequest
      pub is_authenticated : authenticated t a (identified t a r) ≡ ok request
      pub has_body : request.body ≡ reads body
      pub operation : OperationMetaData
      pub is_hooked : hooked_by a.on_request_hook a.meta_data ≡ some operation
      pub data' : Bytes
      pub is_marshalled :
          t.marshal_on_request (on_request_payload t a request body operation) ≡ some data'
      pub out : MiddlewareHookResponse
      pub answers :
          (do_global_request t.hooks on_origin_request (add_user t a a.user data') s.world).0
          ≡ ok (some out)
      pub decision : OnRequestHookResponse
      pub is_decoded : t.unmarshal_on_request out.response ≡ some decision
      pub not_skipped : decision.skip ≡ false
      pub not_cancelled : decision.cancel ≡ false
      pub no_request : decision.request ≡ none

    decide_on_request-drained :
        (r : OriginRequest) (s : Trip) (body : Bytes) (u : Undecided r s body)
        → decide_on_request t a u.request body (some u.decision)
          ≡ ok (record u.request { body = reads [] })
    unfolding decide_on_request requested
    decide_on_request-drained r s body u =
        if_false _ _ u.not_skipped
        ∙ if_false _ _ u.not_cancelled
        ∙ ap (requested t a u.request) u.no_request
        ∙ ap (λ b. ok (record u.request { body = drained b })) u.has_body

    handle_on_request_hook-drained :
        (r : OriginRequest) (s : Trip) (body : Bytes) (u : Undecided r s body)
        → (handle_on_request_hook t a u.request u.operation s.world).0
          ≡ ok (record u.request { body = reads [] })
    unfolding handle_on_request_hook with_request_body ask_on_request
    handle_on_request_hook-drained r s body u =
        ap (λ b. (with_request_body t a u.request u.operation s.world (read_all b)).0) u.has_body
        ∙ ap (λ d. (ask_on_request t a u.request body s.world d).0) u.is_marshalled
        ∙ ap (read_on_request t a u.request body) u.answers
        ∙ ap (decide_on_request t a u.request body) u.is_decoded
        ∙ decide_on_request-drained r s body u

    -- If the hook before the origin answers with neither skip nor cancel nor a request, the origin gets
    -- the request with an empty body, whatever its body was.
    round_trip-drained :
        (r : OriginRequest) (s : Trip) (body : Bytes) (u : Undecided r s body)
        → (round_trip t a r s).1.tripped ≡ s.tripped ++ record u.request { body = reads [] } ∷ []
    unfolding round_trip trip_with hooked_round_trip request_with
    round_trip-drained r s body u =
        ap (λ (x : Outcome × Trip). x.1.tripped) (if_false _ _ u.not_internal)
        ∙ ap (λ x. (trip_with t a x s).1.tripped) u.is_authenticated
        ∙ ap (λ x. (request_with t a u.request s x).1.tripped) u.is_hooked
        ∙ ap
            (λ x.
              (send_on t a x (record s {
                world = (handle_on_request_hook t a u.request u.operation s.world).1;
              })).1.tripped)
            (handle_on_request_hook-drained r s body u)
        ∙ send_on-tripped t a _ _
