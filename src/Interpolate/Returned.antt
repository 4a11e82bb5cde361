-- ===== src/Interpolate/Returned.antt =====
-- pkg/interpolate/strings.go: what Interpolate returns.
use wundergraph.Prelude.{
  some_injective, ℕ, zero, suc, ◌+◌, ◌≡◌, refl, sym, ◌∙◌, ap, subst, inl, inr, Bool, false, not,
  Option, none, some, List, [], ◌∷◌, ◌++◌, Bytes, Bool-cases, if_cases, if_true,
}
use wundergraph.Interpolate.{
  SchemaKind, is_string, is_object, is_array, is_untyped, is_other, Schema, schema, Properties,
  no_properties, property, Items, no_items, items, resolve_ref, kind_of, StringInterpolator,
  new_string_interpolator, new_string_interpolator_json_only,
}
use wundergraph.Interpolate.Traverse.{
  Parser, Visit, after, each_element, element_path, visit_definition, traverse_kind, traverse_with,
  traverse_properties, traverse_items, traverse_ref, interpolate,
}
use wundergraph.Interpolate.Sites.{Reaches}
use wundergraph.Interpolate.Skips.Reached.{
  new_string_interpolator-Reaches, new_string_interpolator_json_only-Reaches,
}

module _ (parser : Parser) where
  Returns : Option Bytes → Type 0
  Returns o = (data' : Bytes) × (o ≡ some data')

  Returns-some : (data' : Bytes) → Returns (some data')
  unfolding Returns
  Returns-some data' = (data', refl)

  after-Returns :
      (o : Option Bytes) (f : Bytes → Option Bytes)
      → Returns o
      → ((data' : Bytes) → Returns (f data'))
      → Returns (after o f)
  unfolding after Returns
  after-Returns none f (d, e) h = cc
  after-Returns (some d) f e h = h d

  each_element-Returns :
      (n i : ℕ) (f : ℕ → Bytes → Option Bytes) (data' : Bytes)
      → ((j : ℕ) (d : Bytes) → Returns (f j d))
      → Returns (each_element n i f data')
  unfolding each_element
  each_element-Returns zero i f data' h = Returns-some data'
  each_element-Returns (suc n) i f data' h =
      after-Returns _ _ (h i data') (λ d. each_element-Returns n (i + 1) f d h)

  traverse_kind-Returns :
      (json_only : Bool) (kind : SchemaKind) (a b : Option Bytes) (path : List Bytes)
      (data' : Bytes)
      → Returns a
      → Returns b
      → Returns (traverse_kind parser json_only kind a b path data')
  unfolding traverse_kind
  traverse_kind-Returns json_only is_string a b path data' h k = Returns-some _
  traverse_kind-Returns json_only is_object a b path data' h k = h
  traverse_kind-Returns json_only is_array a b path data' h k = k
  traverse_kind-Returns json_only is_untyped a b path data' h k = Returns-some _
  traverse_kind-Returns json_only is_other a b path data' h k = Returns-some _

  module _ (visit : Visit) (json_only : Bool)
      (returns : (ref : Bytes) (path : List Bytes) (data' : Bytes)
        → Returns (visit ref path data')) where
    mutual
      unfolding traverse_with

      with-Returns :
          (resolved : Bool) (s : Schema) (path : List Bytes) (data' : Bytes)
          → Returns (traverse_with parser visit json_only resolved s path data')
      with-Returns resolved (schema t ps its required ref) path data' =
          if_cases Returns _ _ _
            (traverse_kind-Returns json_only (kind_of t) _ _ path data'
              (properties-Returns required ps path data') (items-Returns its path data'))
            (returns ref path data')

      properties-Returns :
          (required : List Bytes) (ps : Properties) (path : List Bytes) (data' : Bytes)
          → Returns (traverse_properties parser visit json_only required ps path data')
      properties-Returns required no_properties path data' = Returns-some data'
      properties-Returns required (property k s ps) path data' =
          after-Returns _ _
            (if_cases Returns _ _ _ (Returns-some data')
              (with-Returns false s (path ++ k ∷ []) data'))
            (properties-Returns required ps path)

      items-Returns :
          (its : Items) (path : List Bytes) (data' : Bytes)
          → Returns (traverse_items parser visit json_only its path data')
      items-Returns no_items path data' = Returns-some data'
      items-Returns (items s) path data' =
          each_element-Returns _ 0 _ data' (λ i. with-Returns false s (path ++ element_path i ∷ []))

  visit_definition-Returns :
      (o : Option Schema) (f : Schema → Bytes → Option Bytes) (data' : Bytes)
      → o ≡ none
      → Returns (visit_definition o f data')
  unfolding visit_definition
  visit_definition-Returns none f data' e = Returns-some data'
  visit_definition-Returns (some s) f data' e = absurd cc

  unresolved-Returns :
      (defs : Properties) (json_only : Bool) (n : ℕ) (ref : Bytes) (path : List Bytes)
      (data' : Bytes)
      → resolve_ref defs ref ≡ none
      → Returns (traverse_ref parser defs json_only n ref path data')
  unfolding traverse_ref
  unresolved-Returns defs json_only zero ref path data' e = visit_definition-Returns _ _ data' e
  unresolved-Returns defs json_only (suc n) ref path data' e = visit_definition-Returns _ _ data' e

  -- Interpolate of an interpolator for JSON returns, whatever the schema and the data, and
  -- however many references it may follow.
  pub interpolate-json_only :
      (s : Schema) (defs : Properties) (i : StringInterpolator) (n : ℕ) (data' : Bytes)
      → new_string_interpolator_json_only s defs ≡ some i
      → (out : Bytes) × (interpolate parser n i data' ≡ some out)
  unfolding interpolate Returns
  interpolate-json_only s defs i n data' e =
      let (i', e', found, unresolved) = new_string_interpolator_json_only-Reaches s defs in
      if_cases Returns _ _ _ (Returns-some data') (
        with-Returns (traverse_ref parser i.defs i.json_only_mode n) i.json_only_mode
          (λ ref path d. unresolved-Returns i.defs i.json_only_mode n ref path d (
            subst (λ (z : StringInterpolator). resolve_ref z.defs ref ≡ none)
              (some_injective (sym e' ∙ e)) (unresolved ref)))
          false i.root [] data')

  -- If from the schema of an interpolator for texts no part is reached that is a string or has no type,
  -- Interpolate returns the data as they are.
  interpolate-unreached :
      (s : Schema) (defs : Properties) (i : StringInterpolator) (n : ℕ) (data' : Bytes)
      → new_string_interpolator s defs ≡ some i
      → (Reaches defs false s → ⊥)
      → interpolate parser n i data' ≡ some data'
  unfolding interpolate
  interpolate-unreached s defs i n data' e unreached =
      let (i', e', found) = new_string_interpolator-Reaches s defs in
      let same : i' ≡ i = some_injective (sym e' ∙ e) in
      elim (Bool-cases i.has_interpolations) [
        | inl h ↦
            absurd
              (unreached (found.0 (ap (λ (z : StringInterpolator). z.has_interpolations) same ∙ h)))
        | inr h ↦ if_true _ _ (ap not h)
      ]
