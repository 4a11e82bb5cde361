-- ===== src/Handlers/Query/Tests.antt =====
-- Tests of QueryHandler, and witnesses of its theorems.
use wundergraph.Prelude.{
  ◌≡◌, refl, true, false, Option, none, some, [], ◌∷◌, ◌++◌, Bytes, str, ◌==◌, if◌then◌else◌,
}
use wundergraph.Prelude.Int.{show_int, show_digits}
use wundergraph.Auth.Rbac.{new_enforcer, enforce}
use wundergraph.Claims.{inject_claims}
use wundergraph.Apicache.{CacheItem, Cache, item_at}
use wundergraph.Hooks.Header.{get}
use wundergraph.Hooks.Client.Monad.{◌>>=◌}
use wundergraph.Hooks.Client.{do_operation_request}
use wundergraph.Hooks.Pipeline.{stage, run_pre_resolve, run_post_resolve}
use wundergraph.Hooks.Pipeline.Operation.{run}
use wundergraph.Handlers.{status, body, set_header, other_error, validate_input_variables}
use wundergraph.Handlers.Samples.{libs, hooks_server, users, ann, bob, by, new_world, echoes}
use wundergraph.Handlers.Variables.{parse_query_variables, post_process_variables}
use wundergraph.Handlers.Prepare.{
  Operation, prepare, after_compact, post_processed, with_extracted, Conn, start, pipeline_for,
}
use wundergraph.Handlers.Query.{
  QueryHandler, Tools, serve_http, prepared, run_of, key_of, is_live, answer_hit,
}
use wundergraph.Handlers.Query.Stored.{Change, serve_http-Change}
use wundergraph.Handlers.Query.Shared.{json_type, Reaches, asked_for, serve_http-shared}

-- a cache with one entry
abbrev Entry : Type 0
Entry = Option (Bytes × CacheItem)

found_in : Bytes → Entry → Option CacheItem
found_in k none = none
found_in k (some (j, i)) = if j == k then some i else none

abbrev one_entry : Cache Entry
one_entry = record {
  set_with_ttl = λ now k d ttl s. some (k, item_at now d);
  set = λ now k d s. some (k, item_at now d);
  get = found_in;
  delete = λ k s. none;
}

abbrev tools : Tools Entry
tools = record {
  libs = libs;
  hooks = hooks_server;
  marshal_user = λ u. some u.user_id;
  cause = λ e. other_error [];
  sum64 = λ d. 42;
  resolve = echoes;
  transformer = none;
  cache = one_entry;
}

abbrev handler : Operation → QueryHandler
handler o = record {
  operation = o;
  cache_config = record {
    enable = true;
    max_age = 60;
    public = false;
    stale_while_revalidate = 30;
  };
  config_hash = str "h";
  live_enabled = false;
  query_params_allow_list = str "id" ∷ [];
}

-- a query whose hook customResolve makes the response
abbrev custom_users : Operation
custom_users = record users { hooks_pipeline = record users.hooks_pipeline { custom = true } }

abbrev empty : Conn Entry
empty = record { world = new_world; cache = none; out = [] }

abbrev full : Conn Entry
full = record empty { cache = some (str "h/me", item_at 70 (str "ann's")) }

abbrev old : Conn Entry
old = record empty { cache = some (str "h/me", item_at 10 (str "filtered")) }

users-Reaches : Reaches tools (handler users) (by bob) (str "{}")
unfolding prepared parse_query_variables prepare after_compact post_processed with_extracted
    validate_input_variables post_process_variables inject_claims enforce new_enforcer is_live
users-Reaches = record { allowed = refl; is_ready = refl; not_live = refl }

custom_users-Reaches : Reaches tools (handler custom_users) (by ann) (str "{}")
unfolding prepared parse_query_variables prepare after_compact post_processed with_extracted
    validate_input_variables post_process_variables inject_claims enforce new_enforcer is_live
custom_users-Reaches = record { allowed = refl; is_ready = refl; not_live = refl }

custom_users-Reaches-bob : Reaches tools (handler custom_users) (by bob) (str "{}")
unfolding prepared parse_query_variables prepare after_compact post_processed with_extracted
    validate_input_variables post_process_variables inject_claims enforce new_enforcer is_live
custom_users-Reaches-bob = record { allowed = refl; is_ready = refl; not_live = refl }

serve_http-Change_example :
    Change tools
      (handler users)
      (by bob)
      old
      (serve_http tools (handler users) (by bob) old).1.cache
serve_http-Change_example = serve_http-Change tools (handler users) (by bob) old

serve_http-shared_example :
    ((serve_http tools
        (handler custom_users)
        (by bob)
        (serve_http tools (handler custom_users) (by ann) empty).1).1.out
      ≡ (serve_http tools (handler custom_users) (by ann) empty).1.out
        ++ json_type
          ∷ answer_hit tools (handler custom_users) (by bob) (item_at 100 (str "filtered")))
    × ((serve_http tools
          (handler custom_users)
          (by bob)
          (serve_http tools (handler custom_users) (by ann) empty).1).1.world.sent
        ≡ (serve_http tools (handler custom_users) (by ann) empty).1.world.sent)
    × ((serve_http tools
          (handler custom_users)
          (by bob)
          (serve_http tools (handler custom_users) (by ann) empty).1).1.world.resolved
        ≡ (serve_http tools (handler custom_users) (by ann) empty).1.world.resolved
          ++ asked_for tools
              (handler custom_users)
              (by bob)
              (str "{}")
              (item_at 100 (str "filtered")))
serve_http-shared_example =
    serve_http-shared tools (handler custom_users) (by ann) (by bob) (str "{}") (str "{}") empty
      (record { done = false; resolved = false; data' = str "filtered" })
      (run_of tools (handler custom_users) (by ann) (str "{}") new_world).1 custom_users-Reaches
      custom_users-Reaches-bob refl refl (unfold found_in in refl)
      (unfold run_of run run_pre_resolve ◌>>=◌ pipeline_for stage do_operation_request ◌==◌
          run_post_resolve start in
        refl)
      refl (unfold found_in key_of ◌==◌ in refl)

-- what bob gets of ann's response
hit_told :
    answer_hit tools (handler users) (by bob) (item_at 70 (str "ann's"))
    ≡ set_header (str "X-Wg-Cache") (str "HIT")
      ∷ set_header (str "ETag") (str "W/\"42\"")
      ∷ set_header (str "Cache-Control") (str "private, max-age=60, stale-while-revalidate=30")
      ∷ set_header (str "Age") (str "30")
      ∷ status 200
      ∷ body (str "ann's")
      ∷ []
unfolding answer_hit show_int ◌==◌ show_digits get
hit_told = refl
