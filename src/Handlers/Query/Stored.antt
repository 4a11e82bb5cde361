-- ===== src/Handlers/Query/Stored.antt =====
-- QueryHandler.ServeHTTP of pkg/apihandler/apihandler.go: what it may leave in the cache, and what a
-- request does that is refused.
use wundergraph.Prelude.{
  ◌≡◌, ◌⊎◌, inl, inr, refl, true, false, not, Option, none, some, ◌++◌, Bytes, arith, Bool-cases,
  if_true, if_false, append_assoc, List, subst, sym, ap, ◌∙◌,
}
use wundergraph.Prelude.Int64.{greater64}
use wundergraph.Auth.Rbac.{enforce}
use wundergraph.Apicache.{CacheItem, age}
use wundergraph.Hooks.Client.Monad.{Result, ok, err}
use wundergraph.Hooks.Client.{World}
use wundergraph.Hooks.Pipeline.{Response}
use wundergraph.Hooks.Pipeline.Operation.{RunError}
use wundergraph.Handlers.{Sent}
use wundergraph.Handlers.Prepare.{
  Request, Prepared, ready, answered, panicked, Conn, Served, tell, told_by,
}
use wundergraph.Handlers.Query.{
  QueryHandler, Tools, ttl_of, key_of, is_live, refresh, serve_hit, respond, store, after_run,
  run_of, serve_miss, serve_cached, serve_query, serve_ready, serve_prepared, prepared, serve_http,
}

module _ {S : Type 0} (t : Tools S) (h : QueryHandler) (r : Request) (s : Conn S) where
  -- What may become of the cache: nothing, or the response of a run under the key of the request, or
  -- the output of the resolver alone in place of a stale response.
  pub data Change : S → Type 0 where
    untouched : Change s.cache
    stored :
        (variables : Bytes) (resp : Response) (w : World)
        → enforce h.operation.enforcer r.user ≡ true
        → prepared t h r ≡ ready variables
        → h.cache_config.enable ≡ true
        → t.cache.get (key_of h r) s.cache ≡ none
        → run_of t h r variables s.world ≡ (ok resp, w)
        → resp.done ≡ false
        → Change
            (t.cache.set_with_ttl r.now (key_of h r) resp.data' (ttl_of h.cache_config) s.cache)
    refreshed :
        (variables : Bytes) (item : CacheItem)
        → enforce h.operation.enforcer r.user ≡ true
        → prepared t h r ≡ ready variables
        → t.cache.get (key_of h r) s.cache ≡ some item
        → greater64 (age r.now item) h.cache_config.max_age ≡ true
        → (t.resolve variables).fails ≡ false
        → Change (
            t.cache.set_with_ttl r.later
              (key_of h r)
              (t.resolve variables).output
              (ttl_of h.cache_config)
              s.cache)

module _ {S : Type 0} (t : Tools S) (h : QueryHandler) (r : Request) where
  respond-cache :
      (data' : Bytes) (s : Conn S) → (respond t h r data' s).cache ≡ (store t h r data' s).cache
  unfolding respond store
  respond-cache data' s = ground arith

  store-disabled :
      (data' : Bytes) (s : Conn S)
      → h.cache_config.enable ≡ false
      → (store t h r data' s).cache ≡ s.cache
  unfolding store
  store-disabled data' s e = ground arith

  store-enabled :
      (data' : Bytes) (s : Conn S)
      → h.cache_config.enable ≡ true
      → (store t h r data' s).cache
        ≡ t.cache.set_with_ttl r.now (key_of h r) data' (ttl_of h.cache_config) s.cache
  unfolding store
  store-enabled data' s e = ground arith

  module _ (s : Conn S) where
    Change-eq : {c d : S} → d ≡ c → Change t h r s c → Change t h r s d
    Change-eq e m = subst (Change t h r s) (sym e) m

    pub after_run-stored :
        (resp : Response) (s' : Conn S)
        → s'.cache ≡ s.cache
        → resp.done ≡ false
        → h.cache_config.enable ≡ true
        → (after_run t h r (ok resp) s').cache
          ≡ t.cache.set_with_ttl r.now (key_of h r) resp.data' (ttl_of h.cache_config) s.cache
    unfolding after_run
    after_run-stored resp s' same d e =
        rw d (respond-cache resp.data' s' ∙ rw (store-enabled resp.data' s' e, same))

    after_run-cache :
        (result : Result RunError Response) (s' : Conn S)
        → s'.cache ≡ s.cache
        → ((after_run t h r result s').cache ≡ s.cache)
          ⊎ ((resp : Response) × (result ≡ ok resp)
              × (resp.done ≡ false)
              × (h.cache_config.enable ≡ true)
              × ((after_run t h r result s').cache
                  ≡ t.cache.set_with_ttl r.now
                      (key_of h r)
                      resp.data'
                      (ttl_of h.cache_config)
                      s.cache))
    unfolding after_run
    after_run-cache (err e) s' same = inl same
    after_run-cache (ok resp) s' same = elim (Bool-cases resp.done) [
      | inl d ↦ inl (rw d same)
      | inr d ↦ elim (Bool-cases h.cache_config.enable) [
        | inl e ↦ inr (resp, refl, d, e, after_run-stored resp s' same d e)
        | inr e ↦
            inl (rw d (respond-cache resp.data' s' ∙ rw (store-disabled resp.data' s' e) same))
      ]
    ]

    module _ (allowed : enforce h.operation.enforcer r.user ≡ true) (v : Bytes)
        (is_ready : prepared t h r ≡ ready v) where
      serve_miss-Change :
          (sent : List Sent)
          → (h.cache_config.enable ≡ true → t.cache.get (key_of h r) s.cache ≡ none)
          → Change t h r s (serve_miss t h r v (tell sent s)).cache
      unfolding serve_miss
      serve_miss-Change sent miss =
          let (result, w) = run_of t h r v s.world in
          elim (after_run-cache result (record s { world = w; out = s.out ++ sent ++ told_by w })
            refl) [
              | inl e ↦ Change-eq e untouched
              | inr (resp, run, d, on, e) ↦
                  Change-eq e
                    (stored v resp w allowed is_ready on (miss on) (ap (λ x. (x, w)) run) d)
            ]

      told_twice :
          (sent more : List Sent)
          → (serve_miss t h r v (tell more (tell sent s))).cache
            ≡ (serve_miss t h r v (tell (sent ++ more) s)).cache
      told_twice sent more =
          ap (λ out. (serve_miss t h r v (record s { out = out })).cache)
            (append_assoc s.out sent more)

      serve_hit-Change :
          (sent : List Sent) (item : CacheItem)
          → t.cache.get (key_of h r) s.cache ≡ some item
          → Change t h r s (serve_hit t h r v item (tell sent s)).cache
      unfolding serve_hit refresh
      serve_hit-Change sent item found =
          elim (Bool-cases (greater64 (age r.now item) h.cache_config.max_age)) [
            | inl old ↦ elim (Bool-cases (t.resolve v).fails) [
              | inl f ↦ Change-eq (ground arith) untouched
              | inr f ↦ Change-eq (ground arith) (refreshed v item allowed is_ready found old f)
            ]
            | inr fresh ↦ Change-eq (ground arith) untouched
          ]

      serve_cached-Change :
          (sent : List Sent) (o : Option CacheItem)
          → t.cache.get (key_of h r) s.cache ≡ o
          → Change t h r s (serve_cached t h r v o (tell sent s)).cache
      unfolding serve_cached
      serve_cached-Change sent none miss =
          Change-eq (told_twice sent _) (serve_miss-Change _ (λ _. miss))
      serve_cached-Change sent (some item) found = serve_hit-Change sent item found

      serve_query-Change : Change t h r s (serve_query t h r v s).cache
      unfolding serve_query
      serve_query-Change = elim (Bool-cases h.cache_config.enable) [
        | inl e ↦
            Change-eq (ap (λ (c : Conn S). c.cache) (if_true _ _ e))
              (serve_cached-Change _ (t.cache.get (key_of h r) s.cache) refl)
        | inr e ↦
            Change-eq (ap (λ (c : Conn S). c.cache) (if_false _ _ e))
              (serve_miss-Change _ (λ on. absurd (ground arith)))
      ]

      serve_ready-Change : Change t h r s (serve_ready t h r v s).1.cache
      unfolding serve_ready
      serve_ready-Change = elim (Bool-cases (is_live h r)) [
        | inr e ↦
            Change-eq (ap (λ (c : Served × Conn S). c.1.cache) (if_false _ _ e)) serve_query-Change
        | inl e ↦
            Change-eq
              (ap (λ (c : Served × Conn S). c.1.cache) (if_true _ _ e)
                ∙ ground (arith, Bool-cases r.can_flush))
              untouched
      ]

    serve_prepared-Change :
        enforce h.operation.enforcer r.user ≡ true
        → (p : Prepared) → prepared t h r ≡ p
        → Change t h r s (serve_prepared t h r p s).1.cache
    unfolding serve_prepared
    serve_prepared-Change allowed (ready v) e = serve_ready-Change allowed v e
    serve_prepared-Change allowed (answered sent) e = untouched
    serve_prepared-Change allowed panicked e = untouched

  -- Whatever a request to a query does to the cache is one of three things. It leaves it as it was; or,
  -- where the request is allowed, its variables were prepared, the cache is enabled and has nothing
  -- under the key of the request, and the run returned a response that is not done, it stores the data
  -- of that response under that key; or, where the cache has an older response than the maximal age
  -- and the resolver does not fail, it stores the output of the resolver under the key.
  pub serve_http-Change : (s : Conn S) → Change t h r s (serve_http t h r s).1.cache
  unfolding serve_http
  serve_http-Change s = elim (Bool-cases (enforce h.operation.enforcer r.user)) [
    | inl e ↦
        Change-eq s (ap (λ (c : Served × Conn S). c.1.cache) (if_false _ _ (ap not e)))
          (serve_prepared-Change s e (prepared t h r) refl)
    | inr e ↦
        Change-eq s (ap (λ (c : Served × Conn S). c.1.cache) (if_true _ _ (ap not e))) untouched
  ]

  -- A request to a query that the role rules refuse, or whose variables are refused, changes neither
  -- the cache nor anything that the hooks see, and calls no hook and no resolver.
  serve_http-refused :
      (s : Conn S)
      → (enforce h.operation.enforcer r.user ≡ false)
        ⊎ ((sent : List Sent) × (prepared t h r ≡ answered sent))
      → ((serve_http t h r s).1.cache ≡ s.cache) × ((serve_http t h r s).1.world ≡ s.world)
  unfolding serve_http serve_prepared
  serve_http-refused s (inl e) = rw e (refl, refl)
  serve_http-refused s (inr (sent, e)) = elim (Bool-cases (enforce h.operation.enforcer r.user)) [
    | inl a ↦ rw (a, e) (refl, refl)
    | inr a ↦ rw a (refl, refl)
  ]
