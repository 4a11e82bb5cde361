-- ===== src/Interpolate/Traverse.antt =====
-- pkg/interpolate/strings.go: `traverse`, which rewrites the variables, and Interpolate.
use wundergraph.Prelude.{
  ℕ, zero, suc, ◌+◌, Bool, true, false, not, ◌&&◌, ◌||◌, Option, none, some, List, [], ◌∷◌, ◌++◌,
  Bytes, is_empty, is_some, if◌then◌else◌,
}
use wundergraph.Prelude.Int.{pos, show_int}
use wundergraph.Interpolate.{
  SchemaKind, is_string, is_object, is_array, is_untyped, is_other, Schema, schema, Properties,
  no_properties, property, Items, no_items, items, resolve_ref, has_name, kind_of,
  StringInterpolator,
}

-- jsonparser.ValueType
pub data ValueType : Type 0 where
  text_value number_value boolean_value other_value : ValueType

-- Package jsonparser at a path: Get, without the quotes of a text; what the code has for its data after
-- Set, in case of an error too; how many elements ArrayEach finds. `quote` is json.Marshal of a text.
pub record Parser : Type 0 where
  pub get : Bytes → List Bytes → Option (Bytes × ValueType)
  pub set : Bytes → Bytes → List Bytes → Bytes
  pub array_length : Bytes → List Bytes → ℕ
  pub quote : Bytes → Option Bytes

-- where a reference leads, at a path
abbrev pub Visit : Type 0
Visit = Bytes → List Bytes → Bytes → Option Bytes

unfoldable pub after : Option Bytes → (Bytes → Option Bytes) → Option Bytes
after none f = none
after (some data') f = f data'

-- the callback of ArrayEach, for so many elements from an index on
unfoldable pub each_element : ℕ → ℕ → (ℕ → Bytes → Option Bytes) → Bytes → Option Bytes
unfolding after
each_element zero i f data' = some data'
each_element (suc n) i f data' = after (f i data') (each_element n (i + 1) f)

unfoldable pub element_path : ℕ → Bytes
element_path i = b'[' ∷ show_int (pos i) ++ b']' ∷ []

unfoldable pub visit_definition :
    Option Schema → (Schema → Bytes → Option Bytes) → Bytes → Option Bytes
visit_definition none f data' = some data'
visit_definition (some s) f data' = f s data'

module _ (parser : Parser) where
  -- `case "string"`
  quote_scalar : Option (Bytes × ValueType) → List Bytes → Bytes → Bytes
  quote_scalar none path data' = data'
  quote_scalar (some (value, text_value)) path data' = data'
  quote_scalar (some (value, number_value)) path data' =
      parser.set data' (b'"' ∷ value ++ b'"' ∷ []) path
  quote_scalar (some (value, boolean_value)) path data' =
      parser.set data' (b'"' ∷ value ++ b'"' ∷ []) path
  quote_scalar (some (value, other_value)) path data' = data'

  set_quoted : Option Bytes → List Bytes → Bytes → Bytes
  set_quoted none path data' = data'
  set_quoted (some value) path data' = parser.set data' value path

  -- `case ""`, in JSON-only mode
  quote_json : Option (Bytes × ValueType) → List Bytes → Bytes → Bytes
  unfolding set_quoted
  quote_json none path data' = data'
  quote_json (some (value, text_value)) path data' =
      parser.set data' (b'"' ∷ value ++ b'"' ∷ []) path
  quote_json (some (value, number_value)) path data' = set_quoted (parser.quote value) path data'
  quote_json (some (value, boolean_value)) path data' = set_quoted (parser.quote value) path data'
  quote_json (some (value, other_value)) path data' = set_quoted (parser.quote value) path data'

  -- the switch of `traverse`, with what it does with the properties and with the items
  unfoldable pub traverse_kind :
      Bool → SchemaKind → Option Bytes → Option Bytes → List Bytes → Bytes → Option Bytes
  unfolding quote_scalar quote_json
  traverse_kind json_only is_string of_properties of_items path data' =
      some (if json_only then data' else quote_scalar (parser.get data' path) path data')
  traverse_kind json_only is_object of_properties of_items path data' = of_properties
  traverse_kind json_only is_array of_properties of_items path data' = of_items
  traverse_kind json_only is_untyped of_properties of_items path data' =
      some (if not json_only then data' else quote_json (parser.get data' path) path data')
  traverse_kind json_only is_other of_properties of_items path data' = some data'

  -- `traverse` on a schema; on the definition of a reference, whose own reference does not count, with
  -- `resolved`
  unfoldable mutual
    unfolding kind_of traverse_kind after each_element has_name

    pub traverse_with : Visit → Bool → Bool → Schema → List Bytes → Bytes → Option Bytes
    traverse_with visit json_only resolved (schema t ps its required ref) path data' =
        let of_properties = traverse_properties visit json_only required ps path data' in
        let of_items = traverse_items visit json_only its path data' in
        if resolved || is_empty ref
        then traverse_kind json_only (kind_of t) of_properties of_items path data'
        else visit ref path data'

    pub traverse_properties :
        Visit → Bool → List Bytes → Properties → List Bytes → Bytes → Option Bytes
    traverse_properties visit json_only required no_properties path data' = some data'
    traverse_properties visit json_only required (property k s ps) path data' =
        let visited = traverse_with visit json_only false s (path ++ k ∷ []) data' in
        after
          (if not (is_some (parser.get data' (path ++ k ∷ []))) && not (has_name required k)
            then some data'
            else visited)
          (traverse_properties visit json_only required ps path)

    pub traverse_items : Visit → Bool → Items → List Bytes → Bytes → Option Bytes
    traverse_items visit json_only no_items path data' = some data'
    traverse_items visit json_only (items s) path data' =
        each_element (parser.array_length data' path) 0
          (λ i. traverse_with visit json_only false s (path ++ element_path i ∷ [])) data'

  -- `traverse` on a reference; the number bounds the references that are followed one from within
  -- another
  unfoldable pub traverse_ref : Properties → Bool → ℕ → Visit
  unfolding resolve_ref visit_definition traverse_with
  traverse_ref defs json_only zero ref path data' =
      visit_definition (resolve_ref defs ref) (λ s d. none) data'
  traverse_ref defs json_only (suc n) ref path data' =
      visit_definition (resolve_ref defs ref)
        (λ s. traverse_with (traverse_ref defs json_only n) json_only true s path) data'

  -- Interpolate
  unfoldable pub interpolate : ℕ → StringInterpolator → Bytes → Option Bytes
  unfolding traverse_with traverse_ref
  interpolate n i data' =
      if not i.has_interpolations
      then some data'
      else traverse_with (traverse_ref i.defs i.json_only_mode n) i.json_only_mode false i.root []
          data'
