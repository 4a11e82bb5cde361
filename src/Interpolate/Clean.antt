-- ===== src/Interpolate/Clean.antt =====
-- pkg/interpolate/strings.go: schemas in which `configure` finds nothing but references.
use wundergraph.Prelude.{◌≡◌, ◌⊎◌, inl, inr, Bool, true, false, some, List, Bytes, is_empty}
use wundergraph.Interpolate.{
  SchemaKind, is_string, is_object, is_array, is_untyped, is_other, Schema, schema, Properties,
  no_properties, property, Items, no_items, items, resolve_ref, has_name, kind_of,
}

-- Every reference that is marked in one list is marked in the other.
abbrev pub Keeps : List Bytes → List Bytes → Type 0
Keeps vs ws = (r : Bytes) → has_name vs r ≡ true → has_name ws r ≡ true

module _ (defs : Properties) (json_only : Bool) where
  abbrev pub CleanKind : SchemaKind → Type 0 → Type 0 → Type 0
  CleanKind is_object of_properties of_items = of_properties
  CleanKind is_array of_properties of_items = of_items
  CleanKind is_string of_properties of_items = json_only ≡ true
  CleanKind is_untyped of_properties of_items = ⊥
  CleanKind is_other of_properties of_items = Unit

  -- nothing is interpolated in a schema, up to its references, which are all marked
  unfoldable mutual
    pub Clean : List Bytes → Schema → Type 0
    Clean vs (schema t ps its required ref) =
        ((is_empty ref ≡ false) × (has_name vs ref ≡ true))
        ⊎ ((is_empty ref ≡ true)
            × CleanKind (kind_of t) (CleanProperties vs ps) (CleanItems vs its))

    pub CleanProperties : List Bytes → Properties → Type 0
    CleanProperties vs no_properties = Unit
    CleanProperties vs (property k s ps) = Clean vs s × CleanProperties vs ps

    pub CleanItems : List Bytes → Items → Type 0
    CleanItems vs no_items = Unit
    CleanItems vs (items s) = Clean vs s

  CleanKind-map :
      (kind : SchemaKind) (P Q R S : Type 0)
      → (P → R)
      → (Q → S)
      → CleanKind kind P Q
      → CleanKind kind R S
  CleanKind-map is_object P Q R S f g h = f h
  CleanKind-map is_array P Q R S f g h = g h
  CleanKind-map is_string P Q R S f g h = h
  CleanKind-map is_untyped P Q R S f g h = h
  CleanKind-map is_other P Q R S f g h = h

  module _ (vs ws : List Bytes) (keeps : Keeps vs ws) where
    mutual
      unfolding Clean

      pub Clean-mono : (s : Schema) → Clean vs s → Clean ws s
      Clean-mono (schema t ps its required ref) (inl (e, h)) = inl (e, keeps ref h)
      Clean-mono (schema t ps its required ref) (inr (e, h)) =
          inr
            (e, CleanKind-map (kind_of t) _ _ _ _ (CleanProperties-mono ps) (CleanItems-mono its) h)

      CleanProperties-mono : (ps : Properties) → CleanProperties vs ps → CleanProperties ws ps
      CleanProperties-mono no_properties h = h
      CleanProperties-mono (property k s ps) (h, k') = (Clean-mono s h, CleanProperties-mono ps k')

      CleanItems-mono : (its : Items) → CleanItems vs its → CleanItems ws its
      CleanItems-mono no_items h = h
      CleanItems-mono (items s) h = Clean-mono s h

  -- the definition of a reference is clean
  abbrev pub CleanRef : List Bytes → Bytes → Type 0
  CleanRef vs r = (s : Schema) → resolve_ref defs r ≡ some s → Clean vs s
