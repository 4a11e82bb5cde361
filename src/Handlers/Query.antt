-- ===== src/Handlers/Query.antt =====
-- pkg/apihandler/apihandler.go: QueryHandler.ServeHTTP, with its cache, its ETag and the refresh of a
-- stale response.
pub mod Stored
pub mod Shared
pub mod Tests
use wundergraph.Prelude.{
  ℕ, Bool, true, false, not, ◌&&◌, Option, none, some, List, [], ◌∷◌, ◌++◌, Bytes, str, ◌==◌,
  if◌then◌else◌,
}
use wundergraph.Prelude.Int.{pos, show_int}
use wundergraph.Prelude.Int64.{Int64, add64, mul64, greater64, signed}
use wundergraph.Auth.User.{User}
use wundergraph.Auth.Rbac.{enforce}
use wundergraph.Apicache.{CacheItem, Cache, age}
use wundergraph.Hooks.Header.{Header, get}
use wundergraph.Hooks.Client.Monad.{Result, ok, err}
use wundergraph.Hooks.Client.{World, Env}
use wundergraph.Hooks.Pipeline.{Response}
use wundergraph.Hooks.Pipeline.Operation.{Resolution, RunError, resolve_into_buf, run}
use wundergraph.Handlers.{
  Sent, set_header, status, body, flush, http_error, Cause, handle_operation_err,
}
use wundergraph.Handlers.Variables.{Libs, query_has, parse_query_variables}
use wundergraph.Handlers.Prepare.{
  Operation, Request, Prepared, ready, answered, panicked, prepare, Conn, Served, returned, panics,
  live, tell, start, pipeline_for, told_by, header_after,
}

-- cacheConfig
pub record CacheConfig : Type 0 where
  pub enable : Bool
  pub max_age : Int64
  pub public : Bool
  pub stale_while_revalidate : Int64

-- The fields of QueryHandler that ServeHTTP reads.
pub record QueryHandler : Type 0 where
  pub operation : Operation
  pub cache_config : CacheConfig
  pub config_hash : Bytes
  pub live_enabled : Bool
  pub query_params_allow_list : List Bytes

-- What the handler works with: the packages, the client of the hooks server, encoding/json on a user,
-- errors.Is and errors.As on the errors of a run, xxhash, the resolver with its plan, the transformer
-- of responses, and the cache.
pub record Tools (S : Type 0) : Type 0 where
  pub libs : Libs
  pub hooks : Env
  pub marshal_user : User → Option Bytes
  pub cause : RunError → Cause
  pub sum64 : Bytes → ℕ
  pub resolve : Bytes → Resolution
  pub transformer : Option (Bytes → Option Bytes)
  pub cache : Cache S

-- setSubscriptionHeaders
abbrev pub subscription_headers : List Sent
subscription_headers =
    set_header (str "Content-Type") (str "text/event-stream")
    ∷ set_header (str "Cache-Control") (str "no-cache")
    ∷ set_header (str "Connection") (str "keep-alive")
    ∷ set_header (str "X-Accel-Buffering") (str "no")
    ∷ []

unfoldable pub cache_control : CacheConfig → Bytes
unfolding signed
cache_control c =
    (if c.public then str "public" else str "private")
    ++ str ", max-age="
    ++ show_int (signed c.max_age)
    ++ str ", stale-while-revalidate="
    ++ show_int (signed c.stale_while_revalidate)

-- time.Second*time.Duration(maxAge+staleWhileRevalidate)
unfoldable pub ttl_of : CacheConfig → Int64
ttl_of c = mul64 1000000000 (add64 c.max_age c.stale_while_revalidate)

unfoldable pub key_of : QueryHandler → Request → Bytes
key_of h r = h.config_hash ++ r.request_uri

-- isLive
unfoldable pub is_live : QueryHandler → Request → Bool
unfolding query_has
is_live h r = h.live_enabled && query_has (str "wg_live") r.query

module _ {S : Type 0} (t : Tools S) where
  unfoldable pub etag : QueryHandler → Bytes → Bytes
  etag h data' = str "W/\"" ++ show_int (pos (t.sum64 (h.config_hash ++ data'))) ++ str "\""

  -- the deferred call, where the response was stale
  unfoldable pub refresh : QueryHandler → Request → Bytes → Conn S → Conn S
  unfolding ttl_of key_of resolve_into_buf
  refresh h r variables s =
      let world = resolve_into_buf t.resolve (record s.world { buf = []; variables = variables }) in
      let cache =
        if (t.resolve variables).fails
        then s.cache
        else t.cache.set_with_ttl r.later (key_of h r) (t.resolve variables).output
            (ttl_of h.cache_config) s.cache in
      record s { world = world; cache = cache }

  unfoldable pub hit_headers : QueryHandler → Request → CacheItem → List Sent
  unfolding etag cache_control age signed
  hit_headers h r item =
      set_header (str "X-Wg-Cache") (str "HIT")
      ∷ set_header (str "ETag") (etag h item.data')
      ∷ set_header (str "Cache-Control") (cache_control h.cache_config)
      ∷ set_header (str "Age") (show_int (signed (age r.now item)))
      ∷ []

  -- the answer where the cache has the response
  unfoldable pub answer_hit : QueryHandler → Request → CacheItem → List Sent
  unfolding hit_headers etag
  answer_hit h r item =
      hit_headers h r item
      ++ (if get (str "If-None-Match") r.header == etag h item.data'
          then status 304 ∷ []
          else status 200 ∷ body item.data' ∷ [])

  unfoldable pub serve_hit : QueryHandler → Request → Bytes → CacheItem → Conn S → Conn S
  serve_hit h r variables item s =
      let answered = tell (answer_hit h r item) s in
      if greater64 (age r.now item) h.cache_config.max_age
      then refresh h r variables answered
      else answered

  -- The response is stored, with its headers, where there is a cache.
  unfoldable pub store : QueryHandler → Request → Bytes → Conn S → Conn S
  unfolding cache_control ttl_of key_of
  store h r data' s =
      if h.cache_config.enable
      then record s {
        out =
            s.out
            ++ set_header (str "Cache-Control") (cache_control h.cache_config)
              ∷ set_header (str "Age") (str "0")
              ∷ [];
        cache = t.cache.set_with_ttl r.now (key_of h r) data' (ttl_of h.cache_config) s.cache;
      }
      else s

  -- from `transformed := resp.Data` on
  unfoldable pub respond : QueryHandler → Request → Bytes → Conn S → Conn S
  unfolding store
  respond h r data' s =
      let stored = store h r data' (tell (set_header (str "ETag") (etag h data') ∷ []) s) in
      if get (str "If-None-Match") (header_after s.world) == etag h data'
      then tell (status 304 ∷ []) stored
      else tell
          (body data'
            ∷ (handle_operation_err (r.write_error data') (str "writing response failed")).1)
          stored

  unfoldable pub after_run : QueryHandler → Request → Result RunError Response → Conn S → Conn S
  unfolding respond
  after_run h r (err e) s =
      tell (handle_operation_err (some (t.cause e)) (str "hooks pipeline failed")).1 s
  after_run h r (ok resp) s = if resp.done then s else respond h r resp.data' s

  -- the hooks and the resolver, for a request that the cache does not answer
  unfoldable pub run_of : QueryHandler → Request → Bytes → World → Result RunError Response × World
  run_of h r variables w =
      run t.hooks (pipeline_for t.marshal_user h.operation r) t.resolve t.transformer
        (start r variables w)

  unfoldable pub serve_miss : QueryHandler → Request → Bytes → Conn S → Conn S
  unfolding after_run
  serve_miss h r variables s =
      let (result, world) = run_of h r variables s.world in
      after_run h r result (record s { world = world; out = s.out ++ told_by world })

  unfoldable pub serve_cached : QueryHandler → Request → Bytes → Option CacheItem → Conn S → Conn S
  unfolding serve_hit serve_miss
  serve_cached h r variables (some item) s = serve_hit h r variables item s
  serve_cached h r variables none s =
      serve_miss h r variables (tell (set_header (str "X-Wg-Cache") (str "MISS") ∷ []) s)

  -- from `w.Header().Set("Content-Type", "application/json")` on
  unfoldable pub serve_query : QueryHandler → Request → Bytes → Conn S → Conn S
  unfolding serve_cached
  serve_query h r variables s =
      let typed = tell (set_header (str "Content-Type") (str "application/json") ∷ []) s in
      if h.cache_config.enable
      then serve_cached h r variables (t.cache.get (key_of h r) s.cache) typed
      else serve_miss h r variables typed

  unfoldable pub serve_ready : QueryHandler → Request → Bytes → Conn S → Served × Conn S
  unfolding serve_query
  serve_ready h r variables s =
      if is_live h r
      then if not r.can_flush
        then (returned, tell (http_error (str "requires flushing") 400 ∷ []) s)
        else (live variables, tell (subscription_headers ++ flush ∷ []) s)
      else (returned, serve_query h r variables s)

  unfoldable pub serve_prepared : QueryHandler → Request → Prepared → Conn S → Served × Conn S
  unfolding serve_ready
  serve_prepared h r (ready variables) s = serve_ready h r variables s
  serve_prepared h r (answered sent) s = (returned, tell sent s)
  serve_prepared h r panicked s = (panics, s)

  unfoldable pub prepared : QueryHandler → Request → Prepared
  unfolding prepare parse_query_variables
  prepared h r =
      prepare t.libs h.operation r.user
        (parse_query_variables t.libs h.query_params_allow_list r.query)

  -- ServeHTTP
  unfoldable pub serve_http : QueryHandler → Request → Conn S → Served × Conn S
  unfolding serve_prepared
  serve_http h r s =
      if not (enforce h.operation.enforcer r.user)
      then (returned, tell (http_error (str "unauthorized") 401 ∷ []) s)
      else serve_prepared h r (prepared h r) s
