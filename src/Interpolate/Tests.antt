-- ===== src/Interpolate/Tests.antt =====
-- Schemas and their interpolators, and witnesses of the theorems on them.
use wundergraph.Prelude.{
  some_injective, ℕ, zero, suc, ◌≤◌, ap, sym, ◌∙◌, ◌≡◌, ◌↔◌, refl, ◌==◌, trim_prefix, true, false,
  none, some, List, [], ◌∷◌, ◌++◌, Bytes, str, length, arith,
}
use wundergraph.Interpolate.{
  one, several, neither, Schema, schema, Properties, no_properties, property, no_items, items,
  resolve_ref, Marks, no_marks, kind_of, configure, all_refs, refs_of, built_from,
  StringInterpolator, new_string_interpolator, new_string_interpolator_json_only, has_name,
}
use wundergraph.Interpolate.Ends.{configure-returns}
use wundergraph.Interpolate.Sites.{Reaches}
use wundergraph.Interpolate.Skips.Reached.{
  new_string_interpolator-Reaches, new_string_interpolator_json_only-Reaches,
}
use wundergraph.Interpolate.Traverse.{
  Parser, number_value, traverse_ref, traverse_with, after, interpolate,
}
use wundergraph.Interpolate.Returned.{interpolate-json_only}

abbrev number : Schema
number = schema (one (str "integer")) no_properties no_items [] []

abbrev to_node : Schema
to_node = schema neither no_properties no_items [] (str "#/$defs/node")

-- a node has an untyped value and nodes below it
abbrev node : Schema
node =
    schema (one (str "object"))
      (property (str "below") (schema (one (str "array")) no_properties (items to_node) [] [])
        (property (str "value") (schema neither no_properties no_items [] []) no_properties))
      no_items [] []

abbrev nodes : Properties
nodes = property (str "node") node no_properties

-- numbers, as a document of one value is read
abbrev parser : Parser
parser = record {
  get = λ d path. some (d, number_value);
  set = λ d value path. value;
  array_length = λ d path. 0;
  quote = λ d. some d;
}

quotes_numbers :
    traverse_with parser
      (λ ref path d. none)
      false
      false
      (schema (several (some (str "null") ∷ some (str "string") ∷ [])) no_properties no_items [] [])
      []
      (str "5")
    ≡ some (str "\"5\"")
unfolding traverse_with ◌==◌
quotes_numbers = refl

-- a definition that requires itself
abbrev endless : Properties
endless =
    property (str "node")
      (schema (one (str "object")) (property (str "next") to_node no_properties) no_items
        (str "next" ∷ []) [])
      no_properties

abbrev to_circle : Marks
to_circle = record { has_interpolations = true; configured_defs = str "#/$defs/node" ∷ [] }

-- `configure` ends on definitions in a circle
configures_circle : configure nodes false 2 to_node no_marks ≡ some to_circle
unfolding configure resolve_ref kind_of has_name ◌==◌ trim_prefix
configures_circle = refl

few_refs : length (all_refs nodes to_node) ≤ 5
unfolding all_refs refs_of
few_refs = omega arith

configure-returns_example : (m : Marks) × (configure nodes false 5 to_node no_marks ≡ some m)
configure-returns_example = configure-returns nodes false to_node 5 few_refs

new_string_interpolator-Reaches_example :
    (i : StringInterpolator) × (new_string_interpolator to_node nodes ≡ some i)
    × ((i.has_interpolations ≡ true) ↔ Reaches nodes false to_node)
new_string_interpolator-Reaches_example = new_string_interpolator-Reaches to_node nodes

new_string_interpolator_json_only-Reaches_example :
    (i : StringInterpolator) × (new_string_interpolator_json_only to_node nodes ≡ some i)
    × ((i.has_interpolations ≡ true) ↔ Reaches no_properties true to_node)
    × ((ref : Bytes) → resolve_ref i.defs ref ≡ none)
new_string_interpolator_json_only-Reaches_example =
    new_string_interpolator_json_only-Reaches to_node nodes

abbrev json_interpolator : StringInterpolator
json_interpolator = record {
  root = node;
  has_interpolations = true;
  json_only_mode = true;
  defs = no_properties;
}

json_built : new_string_interpolator_json_only node nodes ≡ some json_interpolator
unfolding new_string_interpolator_json_only built_from configure kind_of has_name ◌==◌ all_refs
json_built = refl

interpolate-json_only_example :
    (out : Bytes) × (interpolate parser 0 json_interpolator (str "{}") ≡ some out)
interpolate-json_only_example =
    interpolate-json_only parser node nodes json_interpolator 0 (str "{}") json_built

abbrev number_interpolator : StringInterpolator
number_interpolator = record {
  root = number;
  has_interpolations = false;
  json_only_mode = false;
  defs = nodes;
}

number_built : new_string_interpolator number nodes ≡ some number_interpolator
unfolding new_string_interpolator built_from configure kind_of has_name ◌==◌ all_refs
number_built = refl

nothing_reached : Reaches nodes false number → ⊥
nothing_reached r =
    let (i, e, found) = new_string_interpolator-Reaches number nodes in
    let clear : true ≡ false =
      sym (found.1 r)
      ∙ ap (λ (z : StringInterpolator). z.has_interpolations)
          (some_injective (sym e ∙ number_built)) in
    cc

-- `traverse` does not end on a definition that requires itself: no bound on the references is enough
requires_itself :
    (n : ℕ) (path : List Bytes) (d : Bytes)
    → traverse_ref parser endless false n (str "#/$defs/node") path d ≡ none
unfolding traverse_ref traverse_with resolve_ref kind_of has_name ◌==◌ trim_prefix
requires_itself zero path d = refl
requires_itself (suc n) path d =
    ap (λ o. after o some) (requires_itself n (path ++ str "next" ∷ []) d)
