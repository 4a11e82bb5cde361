-- ===== src/Interpolate/Skips/Reached.antt =====
-- pkg/interpolate/strings.go: hasInterpolations, and what can be reached from a schema.
use wundergraph.Prelude.{
  ℕ, ◌≡◌, ◌↔◌, inl, inr, refl, sym, ◌∙◌, ap, subst, Bool, true, false, not, none, some, List, Bytes,
  arith, Bool-cases, length, is_empty,
}
use wundergraph.Interpolate.{
  SchemaType, SchemaKind, is_string, is_object, is_array, is_untyped, is_other, Schema, schema,
  Properties, no_properties, property, Items, items, definition, resolve_ref, Marks, has_name,
  is_site, follow, configure, all_refs, StringInterpolator, built_from, no_marks, kind_of,
  new_string_interpolator, new_string_interpolator_json_only,
}
use wundergraph.Interpolate.Ends.{configure-returns}
use wundergraph.Interpolate.Clean.{Clean, CleanKind, CleanProperties, CleanItems, CleanRef}
use wundergraph.Interpolate.Skips.{SkipsTo, with-SkipsTo, follow-SkipsTo}
use wundergraph.Interpolate.Sites.{
  Child, Reaches, at_site, in_property, in_items, by_ref, configure-Reaches,
}

module _ (defs : Properties) (json_only : Bool) where
  Child-Clean :
      (vs : List Bytes) (ps : Properties) (s : Schema)
      → Child s ps
      → CleanProperties defs json_only vs ps
      → Clean defs json_only vs s
  unfolding Clean
  Child-Clean vs no_properties s c h = absurd c
  Child-Clean vs (property k x ps) s (inl e) h = subst (Clean defs json_only vs) e h.0
  Child-Clean vs (property k x ps) s (inr c) h = Child-Clean vs ps s c h.1

  site-ne-CleanKind :
      (kind : SchemaKind) (P Q : Type 0)
      → is_site json_only kind ≡ true
      → CleanKind defs json_only kind P Q
      → ⊥
  unfolding is_site
  site-ne-CleanKind is_object P Q site h = cc
  site-ne-CleanKind is_array P Q site h = cc
  site-ne-CleanKind is_string P Q site h = let q : false ≡ true = sym (ap not h) ∙ site in cc
  site-ne-CleanKind is_untyped P Q site h = h
  site-ne-CleanKind is_other P Q site h = cc

  module _ (vs : List Bytes) where
    module _ (t : SchemaType) (ps : Properties) (its : Items) (required : List Bytes) (ref : Bytes)
        (h : Clean defs json_only vs (schema t ps its required ref)) where
      unreferenced :
          is_empty ref ≡ true
          → CleanKind defs json_only
              (kind_of t)
              (CleanProperties defs json_only vs ps)
              (CleanItems defs json_only vs its)
      unfolding Clean
      unreferenced e = elim h [
        | inl (n, marked) ↦ absurd (let q : true ≡ false = sym e ∙ n in cc)
        | inr (e', c) ↦ c
      ]

      referenced : is_empty ref ≡ false → has_name vs ref ≡ true
      unfolding Clean
      referenced n = elim h [
        | inl (n', marked) ↦ marked
        | inr (e, c) ↦ absurd (let q : true ≡ false = sym e ∙ n in cc)
      ]

    -- where every marked reference has a clean definition, nothing is reached from a clean schema
    unreached :
        ((r : Bytes) → has_name vs r ≡ true → CleanRef defs json_only vs r)
        → (s : Schema) → Reaches defs json_only s
        → Clean defs json_only vs s
        → ⊥
    unfolding Clean
    unreached closed _ (at_site t ps its required ref e site) h =
        site-ne-CleanKind (kind_of t) _ _ site (unreferenced t ps its required ref h e)
    unreached closed _ (in_property t ps its required ref s e k c r) h = unreached closed s r (
        Child-Clean vs ps s c (
          subst
            (λ z.
              CleanKind defs json_only z (CleanProperties defs json_only vs ps)
                (CleanItems defs json_only vs its))
            k (unreferenced t ps its required ref h e)))
    unreached closed _ (in_items t ps s required ref e k r) h = unreached closed s r (
        subst
          (λ z.
            CleanKind defs json_only z (CleanProperties defs json_only vs ps)
              (Clean defs json_only vs s))
          k (unreferenced t ps (items s) required ref h e))
    unreached closed _ (by_ref t ps its required ref s n q r) h =
        unreached closed s r (closed ref (referenced t ps its required ref h n) s q)

  -- if `configure` has found nothing, there is nothing to find
  configure-unreached :
      (n : ℕ) (s : Schema) (m : Marks)
      → configure defs json_only n s no_marks ≡ some m
      → m.has_interpolations ≡ false
      → Reaches defs json_only s
      → ⊥
  unfolding configure SkipsTo has_name
  configure-unreached n s m e clear r =
      let k =
        with-SkipsTo defs json_only (follow defs json_only n) (follow-SkipsTo defs json_only n) s
          no_marks m e clear in
      unreached m.configured_defs
        (λ q v. elim (k.closed q v) [ inl w ↦ absurd (let x : false ≡ true = w in cc) | inr c ↦ c ])
        s r k.clean

decided :
    {P : Type 0} (m : Marks)
    → (m.has_interpolations ≡ false → P → ⊥)
    → P
    → m.has_interpolations ≡ true
decided m h p = elim (Bool-cases m.has_interpolations) [ inl t ↦ t | inr c ↦ absurd (h c p) ]

-- An interpolator for texts can be built from every schema, and it has interpolations exactly if from
-- the schema, through properties of objects, items of arrays and references that are defined, a part is
-- reached that is a string or has no type.
pub new_string_interpolator-Reaches :
    (s : Schema) (defs : Properties)
    → (i : StringInterpolator) × (new_string_interpolator s defs ≡ some i)
      × ((i.has_interpolations ≡ true) ↔ Reaches defs false s)
unfolding new_string_interpolator built_from
new_string_interpolator-Reaches s defs =
    let (m, e) = configure-returns defs false s (length (all_refs defs s)) (omega arith) in
    (
      record {
        root = s;
        has_interpolations = m.has_interpolations;
        json_only_mode = false;
        defs = defs;
      },
      ap (built_from s false defs) e,
      (configure-Reaches defs false _ s m e, decided m (configure-unreached defs false _ s m e)),
    )

-- An interpolator for JSON can be built from every schema, and it has interpolations exactly if from the
-- schema, through properties of objects and items of arrays, a part without a type is reached. The
-- definitions of the schema do not count, and nothing is reached through a reference.
pub new_string_interpolator_json_only-Reaches :
    (s : Schema) (defs : Properties)
    → (i : StringInterpolator) × (new_string_interpolator_json_only s defs ≡ some i)
      × ((i.has_interpolations ≡ true) ↔ Reaches no_properties true s)
      × ((ref : Bytes) → resolve_ref i.defs ref ≡ none)
unfolding new_string_interpolator_json_only built_from resolve_ref definition
new_string_interpolator_json_only-Reaches s defs =
    let (m, e) =
      configure-returns no_properties true s (length (all_refs no_properties s)) (omega arith) in
    (
      record {
        root = s;
        has_interpolations = m.has_interpolations;
        json_only_mode = true;
        defs = no_properties;
      },
      ap (built_from s true no_properties) e,
      (
        configure-Reaches no_properties true _ s m e,
        decided m (configure-unreached no_properties true _ s m e),
      ),
      λ ref. refl,
    )
