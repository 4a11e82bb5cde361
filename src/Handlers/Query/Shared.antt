-- ===== src/Handlers/Query/Shared.antt =====
-- QueryHandler.ServeHTTP of pkg/apihandler/apihandler.go: the answers that come from the cache, and
-- for whom they were made.
use wundergraph.Prelude.{
  ◌≡◌, refl, ap, ◌∙◌, true, false, not, none, some, [], ◌∷◌, ◌++◌, Bytes, str, arith, Bool-cases,
  if_true, if_false, append_assoc, append-nil, if◌then◌else◌, List, inl, inr, sym,
}
use wundergraph.Prelude.Int64.{greater64}
use wundergraph.Auth.Rbac.{enforce}
use wundergraph.Apicache.{CacheItem, item_at, age}
use wundergraph.Hooks.Client.Monad.{Result, ok}
use wundergraph.Hooks.Client.{World}
use wundergraph.Hooks.Pipeline.{Response}
use wundergraph.Hooks.Pipeline.Operation.{RunError, resolve_into_buf}
use wundergraph.Handlers.{Sent, set_header}
use wundergraph.Handlers.Prepare.{Request, ready, Conn, Served, returned, tell, told_by}
use wundergraph.Handlers.Query.{
  QueryHandler, Tools, ttl_of, key_of, is_live, refresh, answer_hit, serve_hit, after_run, run_of,
  serve_miss, serve_cached, serve_query, serve_ready, serve_prepared, prepared, serve_http,
}
use wundergraph.Handlers.Query.Stored.{after_run-stored}

abbrev pub json_type : Sent
json_type = set_header (str "Content-Type") (str "application/json")

abbrev miss_header : Sent
miss_header = set_header (str "X-Wg-Cache") (str "MISS")

-- The role rules allow the request, its variables are prepared, and it is not live.
pub record Reaches {S : Type 0} (t : Tools S) (h : QueryHandler) (r : Request) (v : Bytes)
    : Type 0 where
  pub allowed : enforce h.operation.enforcer r.user ≡ true
  pub is_ready : prepared t h r ≡ ready v
  pub not_live : is_live h r ≡ false

module _ {S : Type 0} (t : Tools S) (h : QueryHandler) (r : Request) (v : Bytes) where
  serve_http-query :
      Reaches t h r v → (s : Conn S) → serve_http t h r s ≡ (returned, serve_query t h r v s)
  unfolding serve_http serve_prepared serve_ready
  serve_http-query k s =
      if_false _ _ (ap not k.allowed)
      ∙ ap (λ p. serve_prepared t h r p s) k.is_ready
      ∙ if_false _ _ k.not_live

  serve_hit-sent :
      (item : CacheItem) (s : Conn S) → (serve_hit t h r v item s).world.sent ≡ s.world.sent
  unfolding serve_hit refresh
  serve_hit-sent item s =
      ground (arith, Bool-cases (greater64 (age r.now item) h.cache_config.max_age))

  -- the variables that the resolver is called with for a hit
  abbrev pub asked_for : CacheItem → List Bytes
  asked_for item = if greater64 (age r.now item) h.cache_config.max_age then v ∷ [] else []

  serve_hit-resolved :
      (item : CacheItem) (s : Conn S)
      → (serve_hit t h r v item s).world.resolved ≡ s.world.resolved ++ asked_for item
  unfolding serve_hit refresh resolve_into_buf
  serve_hit-resolved item s =
      elim (Bool-cases (greater64 (age r.now item) h.cache_config.max_age)) [
        | inl old ↦ rw old refl
        | inr fresh ↦ rw fresh (sym (append-nil _))
      ]

  serve_hit-out :
      (item : CacheItem) (s : Conn S)
      → (serve_hit t h r v item s).out ≡ s.out ++ answer_hit t h r item
  unfolding serve_hit refresh
  serve_hit-out item s =
      ground (arith, Bool-cases (greater64 (age r.now item) h.cache_config.max_age))

  serve_http-serve_hit :
      Reaches t h r v
      → (item : CacheItem) (s : Conn S) → h.cache_config.enable ≡ true
      → t.cache.get (key_of h r) s.cache ≡ some item
      → serve_http t h r s ≡ (returned, serve_hit t h r v item (tell (json_type ∷ []) s))
  unfolding serve_query serve_cached
  serve_http-serve_hit k item s e found =
      serve_http-query k s
      ∙ ap (λ (c : Conn S). (returned, c))
          (if_true _ _ e ∙ ap (λ o. serve_cached t h r v o (tell (json_type ∷ []) s)) found)

  -- A query that reaches a cache with an item for it is answered by that item alone, whoever asks and
  -- whatever the variables: the client is told the content type, the headers of a hit, and status 304
  -- or status 200 with the data of the item. No hook is called, before or after, and the resolver only
  -- where the item is older than the maximal age.
  serve_http-hit :
      Reaches t h r v
      → (item : CacheItem) (s : Conn S) → h.cache_config.enable ≡ true
      → t.cache.get (key_of h r) s.cache ≡ some item
      → ((serve_http t h r s).0 ≡ returned)
        × ((serve_http t h r s).1.out ≡ s.out ++ json_type ∷ answer_hit t h r item)
        × ((serve_http t h r s).1.world.sent ≡ s.world.sent)
        × ((serve_http t h r s).1.world.resolved ≡ s.world.resolved ++ asked_for item)
  serve_http-hit k item s e found =
      let q = serve_http-serve_hit k item s e found in
      (
        ap (λ (c : Served × Conn S). c.0) q,
        ap (λ (c : Served × Conn S). c.1.out) q
            ∙ serve_hit-out item _
            ∙ append_assoc s.out (json_type ∷ []) (answer_hit t h r item),
        ap (λ (c : Served × Conn S). c.1.world.sent) q ∙ serve_hit-sent item _,
        ap (λ (c : Served × Conn S). c.1.world.resolved) q ∙ serve_hit-resolved item _,
      )

  serve_http-stored :
      Reaches t h r v
      → (s : Conn S) → h.cache_config.enable ≡ true
      → t.cache.get (key_of h r) s.cache ≡ none
      → (resp : Response) (w : World) → run_of t h r v s.world ≡ (ok resp, w)
      → resp.done ≡ false
      → (serve_http t h r s).1.cache
        ≡ t.cache.set_with_ttl r.now (key_of h r) resp.data' (ttl_of h.cache_config) s.cache
  unfolding serve_query serve_cached serve_miss after_run
  serve_http-stored k s e miss resp w run d =
      let typed = tell (json_type ∷ []) s in
      ap (λ (c : Served × Conn S). c.1.cache)
        (serve_http-query k s
          ∙ ap (λ (c : Conn S). (returned, c))
              (if_true _ _ e ∙ ap (λ o. serve_cached t h r v o typed) miss))
      ∙ ap
          (λ (x : Result RunError Response × World).
            (after_run t h r x.0 (record s {
              world = x.1;
              out = (typed.out ++ miss_header ∷ []) ++ told_by x.1;
            })).cache)
          run
      ∙ after_run-stored t h r s resp _ refl d e

module _ {S : Type 0} (t : Tools S) (h : QueryHandler) where
  -- Two requests to a query with an enabled cache and the same URI, of any two users: if the first finds
  -- nothing in the cache and gets a response from its hooks and the resolver that is not done, and the
  -- cache then finds what was just stored, the second is answered as a hit on the data of the first's
  -- response: with these data, or with status 304 if it names their ETag. No hook is called for it. The
  -- resolver is called for it, with its variables, if that response is older than the maximal age by
  -- then, and not at all otherwise.
  pub serve_http-shared :
      (r₁ r₂ : Request) (v₁ v₂ : Bytes) (s : Conn S) (resp : Response) (w : World)
      → Reaches t h r₁ v₁
      → Reaches t h r₂ v₂
      → r₂.request_uri ≡ r₁.request_uri
      → h.cache_config.enable ≡ true
      → t.cache.get (key_of h r₁) s.cache ≡ none
      → run_of t h r₁ v₁ s.world ≡ (ok resp, w)
      → resp.done ≡ false
      → t.cache.get
          (key_of h r₁)
          (t.cache.set_with_ttl r₁.now (key_of h r₁) resp.data' (ttl_of h.cache_config) s.cache)
        ≡ some (item_at r₁.now resp.data')
      → ((serve_http t h r₂ (serve_http t h r₁ s).1).1.out
          ≡ (serve_http t h r₁ s).1.out
            ++ json_type ∷ answer_hit t h r₂ (item_at r₁.now resp.data'))
        × ((serve_http t h r₂ (serve_http t h r₁ s).1).1.world.sent
            ≡ (serve_http t h r₁ s).1.world.sent)
        × ((serve_http t h r₂ (serve_http t h r₁ s).1).1.world.resolved
            ≡ (serve_http t h r₁ s).1.world.resolved
              ++ asked_for t h r₂ v₂ (item_at r₁.now resp.data'))
  unfolding key_of
  serve_http-shared r₁ r₂ v₁ v₂ s resp w k₁ k₂ uri e miss run d finds =
      let (_, out, sent, resolved) =
        serve_http-hit t h r₂ v₂ k₂ (item_at r₁.now resp.data') (serve_http t h r₁ s).1 e (
          ap (λ u. t.cache.get (h.config_hash ++ u) (serve_http t h r₁ s).1.cache) uri
          ∙ ap (t.cache.get (key_of h r₁)) (serve_http-stored t h r₁ v₁ k₁ s e miss resp w run d)
          ∙ finds) in
      (out, sent, resolved)
