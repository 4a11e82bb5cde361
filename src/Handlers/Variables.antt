-- ===== src/Handlers/Variables.antt =====
-- pkg/apihandler/apihandler.go: the variables of an operation, from the request to the resolver.
use wundergraph.Prelude.{
  ℕ, suc, Bool, true, false, not, ◌&&◌, Option, none, some, List, [], ◌∷◌, Bytes, str, ◌==◌,
  if◌then◌else◌, is_empty, has_prefix, has_suffix,
}
use wundergraph.Auth.User.{User}
use wundergraph.Claims.{ClaimConfig, ClaimError, Outcome, ok, err, panic, quoted, inject_claims}
use wundergraph.Handlers.{ValidationError}

-- url.Values, in the order in which the map is iterated over
abbrev pub Values : Type 0
Values = List (Bytes × List Bytes)

-- wgpb.InjectVariableKind, with the configuration that each kind reads, and any other number
pub data Kind : Type 0 where
  uuid : Kind
  date_time : Bytes → Kind
  environment_variable : Bytes → Kind
  other_kind : Kind

-- wgpb.VariableInjectionConfiguration
pub record Injection : Type 0 where
  pub variable_name : Bytes
  pub kind : Kind

-- The packages, and what the host gives.
pub record Libs : Type 0 where
  -- gjson.Valid
  pub is_json : Bytes → Bool
  -- the first results of sjson.SetRaw(json, path, value) and sjson.Set, beside an error too
  pub set_raw : Bytes → Bytes → Bytes → Bytes
  pub set_text : Bytes → Bytes → Bytes → Bytes
  -- the keys and raw values over which gjson's ForEach goes
  pub for_each : Bytes → List (Bytes × Bytes)
  -- jsonparser.Set(data, value, key); none is an error, and nil beside it
  pub set : Bytes → Bytes → Bytes → Option Bytes
  -- json.Compact
  pub compact : Bytes → Option Bytes
  -- the encoder, on a ValidationError, and the texts of the errors of injectClaims
  pub encode : ValidationError → Option Bytes
  pub claim_text : ClaimError → Bytes
  pub claim_json : ClaimError → Option Bytes
  -- uuid.GenerateUUID for the n-th injected variable, time.Now().Format, os.Getenv
  pub generate_uuid : ℕ → Bytes
  pub now : Bytes → Bytes
  pub getenv : Bytes → Bytes

abbrev pub wg_prefix : Bytes
wg_prefix = str "wg_"

abbrev pub wg_variables : Bytes
wg_variables = str "wg_variables"

-- q[name]
unfoldable pub values_of : Bytes → Values → List Bytes
values_of name [] = []
values_of name ((k, vs) ∷ q) = let rest = values_of name q in if k == name then vs else rest

-- Values.Get
unfoldable pub query_get : Bytes → Values → Bytes
unfolding values_of
query_get name q = elim (values_of name q) [ [] ↦ [] | v ∷ _ ↦ v ]

-- Values.Has
unfoldable pub query_has : Bytes → Values → Bool
query_has name [] = false
query_has name ((k, _) ∷ q) = let rest = query_has name q in if k == name then true else rest

-- stringSliceContainsValue
unfoldable pub string_slice_contains_value : List Bytes → Bytes → Bool
string_slice_contains_value [] value = false
string_slice_contains_value (x ∷ list) value =
    let rest = string_slice_contains_value list value in if x == value then true else rest

-- WgRequestParams
pub record WgRequestParams : Type 0 where
  pub use_json_patch : Bool
  pub use_sse : Bool
  pub subscribe_once : Bool

-- NewWgRequestParams
unfoldable pub new_wg_request_params : Values → WgRequestParams
unfolding query_has
new_wg_request_params q = record {
  use_json_patch = query_has (str "wg_json_patch") q;
  use_sse = query_has (str "wg_sse") q;
  subscribe_once = query_has (str "wg_subscribe_once") q;
}

module _ (libs : Libs) where
  -- one parameter becomes one field, as JSON if it is JSON
  unfoldable pub set_variable : Bytes → Bytes → Bytes → Bytes
  set_variable name value variables =
      if libs.is_json value
      then libs.set_raw variables name value
      else libs.set_text variables name value

  -- the body of the loop of parseQueryVariables
  unfoldable pub query_variable : List Bytes → Bytes × List Bytes → Bytes → Bytes
  unfolding set_variable string_slice_contains_value has_prefix
  query_variable allow_list (name, []) variables = variables
  query_variable allow_list (name, value ∷ _) variables =
      if not (has_prefix name wg_prefix) && string_slice_contains_value allow_list name
      then set_variable name value variables
      else variables

  unfoldable pub query_variables : List Bytes → Values → Bytes → Bytes
  unfolding query_variable
  query_variables allow_list [] variables = variables
  query_variables allow_list (parameter ∷ q) variables =
      query_variables allow_list q (query_variable allow_list parameter variables)

  -- parseQueryVariables
  unfoldable pub parse_query_variables : List Bytes → Values → Bytes
  unfolding query_get query_variables
  parse_query_variables allow_list q =
      let raw = query_get wg_variables q in
      if is_empty raw then query_variables allow_list q (str "{}") else raw

  unfoldable pub form_variables : Values → Bytes → Bytes
  unfolding set_variable has_suffix
  form_variables [] variables = variables
  form_variables ((name, []) ∷ form) variables = form_variables form variables
  form_variables ((name, value ∷ _) ∷ form) variables =
      form_variables form
        (if has_suffix value wg_prefix then variables else set_variable name value variables)

  -- MutationHandler.parseFormVariables; none is an error of ParseForm
  unfoldable pub parse_form_variables : Option Values → Bytes
  unfolding form_variables
  parse_form_variables none = str "{}"
  parse_form_variables (some form) = form_variables form (str "{}")

  unfoldable pub merge_fields : List (Bytes × Bytes) → Bytes → Bytes
  merge_fields [] left = left
  merge_fields ((key, value) ∷ fields) left = merge_fields fields (libs.set_raw left key value)

  -- MergeJsonRightIntoLeft; none is nil
  unfoldable pub merge_json_right_into_left : Option Bytes → Option Bytes → Option Bytes
  unfolding merge_fields
  merge_json_right_into_left none right = right
  merge_json_right_into_left (some left) none = some left
  merge_json_right_into_left (some left) (some right) =
      some (merge_fields (libs.for_each right) left)

  abbrev pub or_nil : Option Bytes → Bytes
  or_nil none = []
  or_nil (some data') = data'

  -- the n-th round of the loop of injectVariables
  unfoldable pub inject_variable : ℕ → Injection → Bytes → Bytes
  inject_variable n v variables = elim v.kind [
    | uuid ↦ or_nil (libs.set variables (quoted (libs.generate_uuid n)) v.variable_name)
    | date_time format ↦ or_nil (libs.set variables (quoted (libs.now format)) v.variable_name)
    | environment_variable name ↦
        if is_empty (libs.getenv name)
        then variables
        else or_nil (libs.set variables (quoted (libs.getenv name)) v.variable_name)
    | other_kind ↦ variables
  ]

  unfoldable pub inject_from : ℕ → List Injection → Bytes → Bytes
  unfolding inject_variable
  inject_from n [] variables = variables
  inject_from n (v ∷ vs) variables = inject_from (suc n) vs (inject_variable n v variables)

  -- injectVariables; none is a nil configuration
  unfoldable pub inject_variables : Option (List Injection) → Bytes → Bytes
  unfolding inject_from
  inject_variables none variables = variables
  inject_variables (some vs) variables = inject_from 0 vs variables

  -- postProcessVariables
  unfoldable pub post_process_variables :
      List ClaimConfig → Option (List Injection) → Option User → Bytes → Outcome Bytes
  unfolding inject_variables
  post_process_variables claims injections user variables =
      elim (inject_claims libs.set claims user variables) [
        | ok out ↦ ok (inject_variables injections out)
        | err e ↦ err e
        | panic ↦ panic
      ]
