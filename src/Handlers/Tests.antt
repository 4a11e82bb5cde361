-- ===== src/Handlers/Tests.antt =====
-- Tests of the handlers of mutations and subscriptions and of their streams, and witnesses.
use wundergraph.Prelude.{
  ◌≡◌, refl, inl, inr, true, false, Option, none, some, List, [], ◌∷◌, ◌++◌, Bytes, str, ◌==◌,
  eq_iff, eqb, if◌then◌else◌, arith, Bool-cases, split, contains_byte, All, is_some, map,
}
use wundergraph.Auth.Rbac.{new_enforcer, enforce}
use wundergraph.Claims.{inject_claims}
use wundergraph.Hooks.Header.{get}
use wundergraph.Hooks.Client.Monad.{◌>>=◌}
use wundergraph.Hooks.Client.{World, do_operation_request}
use wundergraph.Hooks.Pipeline.{stage, run_pre_resolve}
use wundergraph.Handlers.{other_error, validate_input_variables}
use wundergraph.Handlers.Samples.{libs, hooks_server, users, bob, by, new_world, echoes}
use wundergraph.Handlers.Variables.{
  WgRequestParams, parse_query_variables, post_process_variables, new_wg_request_params,
}
use wundergraph.Handlers.Prepare.{
  Operation, prepare, after_compact, post_processed, with_extracted, Conn, start, pipeline_for,
}
use wundergraph.Handlers.Stream.{wire, Documents, Message, MakesPatches, read_lines, is_patch}
use wundergraph.Handlers.FlushWriter.{get_flush_writer, hooked, payload, send_messages, write}
use wundergraph.Handlers.FlushWriter.Frames.{opened, read_lines-send_messages}
use wundergraph.Handlers.LiveQuery.{Event, response, handle_live_query}
use wundergraph.Handlers.LiveQuery.Changes.{changes, timers, read_lines-handle_live_query}
use wundergraph.Handlers.Subscription.{subscription_serve_http}
use wundergraph.Handlers.Subscription
use wundergraph.Handlers.Subscription.Messages.{
  subscription_serve_http-resolved, subscription_serve_http-reads,
}
use wundergraph.Handlers.Mutation.{Posted, raw_variables, mutation_serve_http}
use wundergraph.Handlers.Mutation
use wundergraph.Handlers.Mutation.Answers.{Answers, response_data, mutation_serve_http-HasAnswer}

abbrev mutation_tools : Mutation.Tools
mutation_tools = record {
  libs = libs;
  hooks = hooks_server;
  marshal_user = λ u. some u.user_id;
  cause = λ e. other_error [];
  resolve = echoes;
  transformer = none;
}

abbrev no_form : Posted
no_form = record { form = none; body = some (str "{}") }

abbrev nothing : Conn (Unit {0})
nothing = record { world = new_world; cache = tt; out = [] }

mutation_serve_http-HasAnswer_example :
    Answers
      (response_data mutation_tools users (by bob) no_form new_world)
      []
      (mutation_serve_http mutation_tools users (by bob) no_form nothing).1.out
unfolding get
mutation_serve_http-HasAnswer_example =
    mutation_serve_http-HasAnswer mutation_tools users (by bob) no_form nothing (
      unfold mutation_serve_http raw_variables enforce new_enforcer prepare after_compact
        post_processed with_extracted validate_input_variables post_process_variables inject_claims
        ◌==◌ in
      refl)

-- a text without its spaces
without_spaces : Bytes → Bytes
without_spaces [] = []
without_spaces (c ∷ m) = let rest = without_spaces m in if eqb c 32 then rest else c ∷ rest

-- JSON objects on one line, where spaces do not count
parse_object : Bytes → Option Bytes
unfolding contains_byte
parse_object [] = none
parse_object (c ∷ m) =
    if eqb c b'{'
    then if contains_byte 10 (without_spaces m) then none else some (c ∷ without_spaces m)
    else none

abbrev objects : Documents
objects = record { Doc = Bytes; parse = parse_object }

-- a patch from any document to another: an array that begins with a plus before the new document, and
-- of nothing where there is no change
patch_to : Option Bytes → Option Bytes → Option Bytes
patch_to (some old) (some new) = if old == new then some (str "[]") else some (str "[+" ++ new)
patch_to _ _ = none

create : Bytes → Bytes → Option Bytes
create last m = patch_to (parse_object last) (parse_object m)

apply : Bytes → Bytes → Option Bytes
apply old (a ∷ b ∷ new) = if eqb b b'+' then some new else some old
apply old _ = none

patch_to-is_patch :
    (last m : Option Bytes) (p : Bytes) → patch_to last m ≡ some p → is_patch p ≡ true
unfolding patch_to
patch_to-is_patch none m p e = absurd (cc)
patch_to-is_patch (some old) none p e = absurd (cc)
patch_to-is_patch (some old) (some new) p e = ground (arith, Bool-cases (old == new))

patch_to-one_line :
    (last m : Option Bytes) (p : Bytes)
    → ((new : Bytes) → m ≡ some new → contains_byte 10 new ≡ false)
    → patch_to last m ≡ some p
    → contains_byte 10 p ≡ false
unfolding patch_to contains_byte
patch_to-one_line none m p k e = absurd (cc)
patch_to-one_line (some old) none p k e = absurd (cc)
patch_to-one_line (some old) (some new) p k e =
    let line = k new refl in ground (arith, Bool-cases (old == new))

apply-patch_to :
    (last m : Option Bytes) (p old : Bytes)
    → patch_to last m ≡ some p
    → last ≡ some old
    → apply old p ≡ m
unfolding patch_to apply
apply-patch_to none m p old e k = absurd (cc)
apply-patch_to (some d) none p old e k = absurd (cc)
apply-patch_to (some d) (some new) p old e k = ground (arith, eq_iff d new, Bool-cases (d == new))

patch_to-makes :
    (last m : Option Bytes)
    → is_some last ≡ true
    → is_some m ≡ true
    → (p : Bytes) × (patch_to last m ≡ some p)
unfolding patch_to
patch_to-makes none m h k = absurd (cc)
patch_to-makes (some old) none h k = absurd (cc)
patch_to-makes (some old) (some new) h k = elim (Bool-cases (old == new)) [
  | inl e ↦ (str "[]", rw e refl)
  | inr e ↦ (str "[+" ++ new, rw e refl)
]

parse_object-one_line : (m new : Bytes) → parse_object m ≡ some new → contains_byte 10 new ≡ false
unfolding parse_object contains_byte
parse_object-one_line [] new e = absurd (cc)
parse_object-one_line (c ∷ m) new e =
    ground (arith, Bool-cases (eqb c b'{'), Bool-cases (contains_byte 10 (without_spaces m)))

create-MakesPatches : MakesPatches objects create apply
unfolding create
create-MakesPatches = record {
  makes = λ last m h k. patch_to-makes (parse_object last) (parse_object m) h k;
  applies = λ last m p d e k h. apply-patch_to (parse_object last) (parse_object m) p d e k;
  is_array = λ last m p e. patch_to-is_patch (parse_object last) (parse_object m) p e;
  one_line = λ last m p e.
      patch_to-one_line (parse_object last) (parse_object m) p (parse_object-one_line m) e;
}

hello-IsMessage : Message objects (str "{hello}")
unfolding contains_byte parse_object without_spaces
hello-IsMessage = record { non_empty = refl; no_array = refl; one_line = refl; is_object = refl }

spaced-IsMessage : Message objects (str "{ hello }")
unfolding contains_byte parse_object without_spaces
spaced-IsMessage = record { non_empty = refl; no_array = refl; one_line = refl; is_object = refl }

bye-IsMessage : Message objects (str "{bye}")
unfolding contains_byte parse_object without_spaces
bye-IsMessage = record { non_empty = refl; no_array = refl; one_line = refl; is_object = refl }

abbrev sse_patches : WgRequestParams
sse_patches = record { use_json_patch = true; use_sse = true; subscribe_once = false }

abbrev greetings : List Bytes
greetings = str "{hello}" ∷ str "{ hello }" ∷ str "{bye}" ∷ []

greetings-IsMessage : All (Message objects) greetings
greetings-IsMessage = (hello-IsMessage, (spaced-IsMessage, (bye-IsMessage, tt)))

read_lines-send_messages_example :
    read_lines objects apply true none
      (split 10 (wire (send_messages create none none greetings (opened sse_patches)).out))
    ≡ map parse_object greetings
unfolding hooked
read_lines-send_messages_example =
    read_lines-send_messages create none objects apply sse_patches (opened sse_patches) greetings
      (λ e. create-MakesPatches) refl (unfold get_flush_writer opened in refl) greetings-IsMessage

-- what goes over the wire
wire_of_greetings :
    wire (send_messages create none none greetings (opened sse_patches)).out
    ≡ str "data: {hello}\n\ndata: []\n\ndata: {bye}\n\n"
unfolding patch_to parse_object without_spaces contains_byte send_messages write payload opened
    hooked create ◌==◌
wire_of_greetings = refl

-- a live query that has the three responses in turn
live_event : World → Event × World
live_event w = elim w.sent [
  | [] ↦ elim w.resolved [
    | [] ↦ (response (str "{hello}"), record w { resolved = str "a" ∷ [] })
    | _ ∷ [] ↦ (response (str "{ hello }"), record w { resolved = str "a" ∷ str "b" ∷ [] })
    | _ ↦ (response (str "{bye}"), w)
  ]
  | _ ↦ (response (str "{bye}"), w)
]

read_lines-handle_live_query_example :
    read_lines objects apply true none (
      split 10 (
        wire
          (handle_live_query create
            (λ b. false)
            sse_patches
            live_event
            (timers greetings)
            (record { world = new_world; last_data = []; out = [] })).out))
    ≡ map parse_object (str "{hello}" ∷ str "{ hello }" ∷ str "{bye}" ∷ [])
unfolding changes ◌==◌
read_lines-handle_live_query_example =
    read_lines-handle_live_query objects create apply sse_patches live_event new_world greetings
      (λ e. create-MakesPatches) refl (unfold live_event in (refl, (refl, (refl, tt))))
      greetings-IsMessage

abbrev subscription_tools : Subscription.Tools
subscription_tools = record {
  libs = libs;
  hooks = hooks_server;
  marshal_user = λ u. some u.user_id;
  create_patch = create;
  messages = λ v. greetings;
  post_resolve = λ m. none;
}

abbrev mocked_users : Operation
mocked_users = record users { hooks_pipeline = record users.hooks_pipeline { mock = true } }

subscription_serve_http-reads_example :
    read_lines objects apply false none
      (split 10 (wire (subscription_serve_http subscription_tools users [] (by bob) nothing).1.out))
    ≡ map parse_object greetings
unfolding new_wg_request_params hooked
subscription_serve_http-reads_example =
    subscription_serve_http-reads subscription_tools users [] (by bob) (str "{}") nothing objects
      apply (record { done = false; resolved = false; data' = str "{}" }) (λ e. create-MakesPatches)
      (unfold enforce new_enforcer in refl)
      (unfold parse_query_variables prepare after_compact post_processed with_extracted
          validate_input_variables post_process_variables inject_claims in
        refl)
      refl refl (unfold run_pre_resolve ◌>>=◌ pipeline_for start in refl) refl refl refl
      greetings-IsMessage

subscription_serve_http-resolved_example :
    wire (subscription_serve_http subscription_tools mocked_users [] (by bob) nothing).1.out ≡ []
subscription_serve_http-resolved_example =
    subscription_serve_http-resolved subscription_tools mocked_users [] (by bob) (str "{}") nothing
      (record { done = false; resolved = true; data' = str "filtered" })
      (unfold enforce new_enforcer in refl)
      (unfold parse_query_variables prepare after_compact post_processed with_extracted
          validate_input_variables post_process_variables inject_claims in
        refl)
      refl (unfold run_pre_resolve ◌>>=◌ pipeline_for stage do_operation_request start ◌==◌ in refl)
      refl
