-- ===== src/Interpolate.antt =====
-- pkg/interpolate/strings.go: along which parts of a JSON schema the variables are rewritten.
pub mod Ends
pub mod Sites
pub mod Clean
pub mod Skips
pub mod Traverse
pub mod Returned
pub mod Tests
use wundergraph.Prelude.{
  ℕ, zero, suc, ◌+◌, ◌≡◌, Bool, true, false, not, ◌||◌, Option, none, some, List, [], ◌∷◌, ◌++◌,
  Bytes, str, ◌==◌, length, if◌then◌else◌, is_empty, trim_prefix,
}

-- the field Type of a Schema, by its type: a text, a list whose elements are texts or not, or neither
pub data SchemaType : Type 0 where
  one : Bytes → SchemaType
  several : List (Option Bytes) → SchemaType
  neither : SchemaType

-- Schema, with Type, Properties, Items, Required and Ref; Defs counts only in the schema of an
-- interpolator, which has it beside. No property, definition or schema of items is null.
mutual
  pub data Schema : Type 0 where
    schema : SchemaType → Properties → Items → List Bytes → Bytes → Schema

  pub data Properties : Type 0 where
    no_properties : Properties
    property : Bytes → Schema → Properties → Properties

  pub data Items : Type 0 where
    no_items : Items
    items : Schema → Items

first_type : List (Option Bytes) → Bytes
first_type [] = []
first_type (none ∷ ts) = first_type ts
first_type (some t ∷ ts) = let rest = first_type ts in if not (t == str "null") then t else rest

-- typeString
unfoldable pub type_string : SchemaType → Bytes
unfolding first_type
type_string (one t) = t
type_string (several ts) = first_type ts
type_string neither = []

-- the cases of `switch schema.typeString()`
pub data SchemaKind : Type 0 where
  is_string is_object is_array is_untyped is_other : SchemaKind

unfoldable pub kind_of : SchemaType → SchemaKind
unfolding type_string
kind_of t =
    if type_string t == str "string"
    then is_string
    else if type_string t == str "object"
    then is_object
    else if type_string t == str "array"
    then is_array
    else if is_empty (type_string t)
    then is_untyped
    else is_other

unfoldable pub definition : Properties → Bytes → Option Schema
definition no_properties name = none
definition (property k s ps) name =
    let rest = definition ps name in if k == name then some s else rest

-- s.defs[strings.TrimPrefix(ref, "#/$defs/")]
unfoldable pub resolve_ref : Properties → Bytes → Option Schema
unfolding definition
resolve_ref defs ref = definition defs (trim_prefix ref (str "#/$defs/"))

-- the fields of an interpolator that `configure` sets
pub record Marks : Type 0 where
  pub has_interpolations : Bool
  pub configured_defs : List Bytes

-- what follows a reference
abbrev pub Follow : Type 0
Follow = Bytes → Marks → Option Marks

unfoldable pub and_then : Option Marks → (Marks → Option Marks) → Option Marks
and_then none f = none
and_then (some m) f = f m

unfoldable pub has_name : List Bytes → Bytes → Bool
has_name [] ref = false
has_name (r ∷ refs) ref = r == ref || has_name refs ref

-- The kinds that `configure` counts as interpolated, in JSON-only mode or not. Of these `traverse` leaves
-- a part without a type alone unless in JSON-only mode.
unfoldable pub is_site : Bool → SchemaKind → Bool
is_site json_only is_string = not json_only
is_site json_only is_untyped = true
is_site json_only is_object = false
is_site json_only is_array = false
is_site json_only is_other = false

-- the switch of `configure`, with what it does with the properties and with the items
unfoldable pub configure_kind :
    Bool → SchemaKind → Option Marks → Option Marks → Marks → Option Marks
configure_kind json_only is_object of_properties of_items m = of_properties
configure_kind json_only is_array of_properties of_items m = of_items
configure_kind json_only is_string of_properties of_items m =
    some (if json_only then m else record m { has_interpolations = true })
configure_kind json_only is_untyped of_properties of_items m =
    some (record m { has_interpolations = true })
configure_kind json_only is_other of_properties of_items m = some m

-- `configure`, less what it does with the definition of a reference, which is `follow`
unfoldable mutual
  unfolding kind_of and_then has_name configure_kind

  pub configure_with : Follow → Bool → Schema → Marks → Option Marks
  configure_with follow json_only (schema t ps its required ref) m =
      let of_properties = configure_properties follow json_only ps m in
      let of_items = configure_items follow json_only its m in
      if m.has_interpolations
      then some m
      else if is_empty ref
      then configure_kind json_only (kind_of t) of_properties of_items m
      else if has_name m.configured_defs ref
      then some m
      else follow ref (record m { configured_defs = ref ∷ m.configured_defs })

  pub configure_properties : Follow → Bool → Properties → Marks → Option Marks
  configure_properties follow json_only no_properties m = some m
  configure_properties follow json_only (property k s ps) m =
      and_then (configure_with follow json_only s m) (configure_properties follow json_only ps)

  pub configure_items : Follow → Bool → Items → Marks → Option Marks
  configure_items follow json_only no_items m = some m
  configure_items follow json_only (items s) m = configure_with follow json_only s m

unfoldable pub at_definition :
    Option Schema → (Schema → Marks → Option Marks) → Marks → Option Marks
at_definition none f m = some m
at_definition (some s) f m = f s m

-- `configure` on the definition of a reference, which is marked already; the number bounds the
-- references that are followed one from within another
unfoldable pub follow : Properties → Bool → ℕ → Follow
unfolding resolve_ref configure_with at_definition
follow defs json_only zero ref m = none
follow defs json_only (suc n) ref m =
    at_definition (resolve_ref defs ref) (configure_with (follow defs json_only n) json_only) m

-- configure
unfoldable pub configure : Properties → Bool → ℕ → Schema → Marks → Option Marks
unfolding configure_with follow
configure defs json_only n s m = configure_with (follow defs json_only n) json_only s m

-- the field Ref of every schema that a schema consists of
unfoldable mutual
  pub refs_of : Schema → List Bytes
  refs_of (schema t ps its required ref) = ref ∷ (refs_of_properties ps ++ refs_of_items its)

  pub refs_of_properties : Properties → List Bytes
  refs_of_properties no_properties = []
  refs_of_properties (property k s ps) = refs_of s ++ refs_of_properties ps

  pub refs_of_items : Items → List Bytes
  refs_of_items no_items = []
  refs_of_items (items s) = refs_of s

-- every field Ref there is, in the schema and the definitions
unfoldable pub all_refs : Properties → Schema → List Bytes
unfolding refs_of
all_refs defs s = refs_of s ++ refs_of_properties defs

-- StringInterpolator, but for the marks of `configure` that count no more
pub record StringInterpolator : Type 0 where
  pub root : Schema
  pub has_interpolations : Bool
  pub json_only_mode : Bool
  pub defs : Properties

unfoldable pub built_from : Schema → Bool → Properties → Option Marks → Option StringInterpolator
built_from s json_only defs none = none
built_from s json_only defs (some m) = some (record {
  root = s;
  has_interpolations = m.has_interpolations;
  json_only_mode = json_only;
  defs = defs;
})

abbrev pub no_marks : Marks
no_marks = record { has_interpolations = false; configured_defs = [] }

-- NewStringInterpolator, on a schema that was decoded and its definitions; as many references
-- may be followed, one from within another, as there are schemas
unfoldable pub new_string_interpolator : Schema → Properties → Option StringInterpolator
unfolding built_from configure all_refs
new_string_interpolator s defs =
    built_from s false defs (configure defs false (length (all_refs defs s)) s no_marks)

-- NewStringInterpolatorJSONOnly, which leaves the definitions of the interpolator nil
unfoldable pub new_string_interpolator_json_only : Schema → Properties → Option StringInterpolator
unfolding built_from configure all_refs
new_string_interpolator_json_only s defs =
    built_from s true no_properties
      (configure no_properties true (length (all_refs no_properties s)) s no_marks)
