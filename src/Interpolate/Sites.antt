-- ===== src/Interpolate/Sites.antt =====
-- pkg/interpolate/strings.go: when `configure` sets hasInterpolations.
use wundergraph.Prelude.{
  some_injective, ℕ, zero, suc, ◌≡◌, ◌⊎◌, inl, inr, refl, sym, ◌∙◌, ap, subst, Bool, true, false,
  not, Option, none, some, List, ◌∷◌, Bytes, Bool-cases, is_empty, if_true, if_false, if_cases,
}
use wundergraph.Interpolate.{
  SchemaType, SchemaKind, is_string, is_object, is_array, is_untyped, is_other, Schema, schema,
  Properties, no_properties, property, Items, no_items, items, resolve_ref, at_definition, Marks,
  Follow, and_then, is_site, configure_kind, configure_with, configure_properties, configure_items,
  follow, configure, no_marks, kind_of,
}

abbrev pub Child : Schema → Properties → Type 0
Child s no_properties = ⊥
Child s (property k x ps) = (x ≡ s) ⊎ Child s ps

-- A part that is interpolated can be reached from a schema, through properties, items and references.
pub data Reaches (defs : Properties) (json_only : Bool) : Schema → Type 0 where
  at_site :
      (t : SchemaType) (ps : Properties) (its : Items) (required : List Bytes) (ref : Bytes)
      → is_empty ref ≡ true
      → is_site json_only (kind_of t) ≡ true
      → Reaches defs json_only (schema t ps its required ref)
  in_property :
      (t : SchemaType) (ps : Properties) (its : Items) (required : List Bytes) (ref : Bytes)
      (s : Schema)
      → is_empty ref ≡ true
      → kind_of t ≡ is_object
      → Child s ps
      → Reaches defs json_only s
      → Reaches defs json_only (schema t ps its required ref)
  in_items :
      (t : SchemaType) (ps : Properties) (s : Schema) (required : List Bytes) (ref : Bytes)
      → is_empty ref ≡ true
      → kind_of t ≡ is_array
      → Reaches defs json_only s
      → Reaches defs json_only (schema t ps (items s) required ref)
  by_ref :
      (t : SchemaType) (ps : Properties) (its : Items) (required : List Bytes) (ref : Bytes)
      (s : Schema)
      → is_empty ref ≡ false
      → resolve_ref defs ref ≡ some s
      → Reaches defs json_only s
      → Reaches defs json_only (schema t ps its required ref)

-- If the marks say that there is something to interpolate, they did so before, or there is.
Finds : Type 0 → Marks → Option Marks → Type 0
Finds P m o =
    (m' : Marks) → o ≡ some m' → m'.has_interpolations ≡ true → (m.has_interpolations ≡ true) ⊎ P

Finds-same : (P : Type 0) (m : Marks) → Finds P m (some m)
unfolding Finds
Finds-same P m m' e h = inl (ap (λ (z : Marks). z.has_interpolations) (some_injective e) ∙ h)

none-Finds : (P : Type 0) (m : Marks) → Finds P m none
unfolding Finds
none-Finds P m m' e h = cc

Finds-map : (P Q : Type 0) (m : Marks) (o : Option Marks) → (P → Q) → Finds P m o → Finds Q m o
unfolding Finds
Finds-map P Q m o f h m' e t = elim (h m' e t) [ inl x ↦ inl x | inr p ↦ inr (f p) ]

marked-Finds :
    (P : Type 0) (m : Marks) (r : Bytes) (o : Option Marks)
    → Finds P (record m { configured_defs = r ∷ m.configured_defs }) o
    → Finds P m o
unfolding Finds
marked-Finds P m r o h = h

and_then-Finds :
    (P : Type 0) (m : Marks) (o : Option Marks) (f : Marks → Option Marks)
    → Finds P m o
    → ((m' : Marks) → Finds P m' (f m'))
    → Finds P m (and_then o f)
unfolding Finds and_then
and_then-Finds P m none f h k m' e t = cc
and_then-Finds P m (some m1) f h k m' e t = elim (k m1 m' e t) [
  | inl x ↦ h m1 refl x
  | inr p ↦ inr p
]

module _ (defs : Properties) (json_only : Bool) where
  module _ (t : SchemaType) (ps : Properties) (its : Items) (required : List Bytes) (ref : Bytes)
      (no_ref : is_empty ref ≡ true) where
    kind-Finds :
        (kind : SchemaKind) (of_properties of_items : Option Marks) (m : Marks)
        → kind_of t ≡ kind
        → (kind ≡ is_object
            → Finds (Reaches defs json_only (schema t ps its required ref)) m of_properties)
        → (kind ≡ is_array
            → Finds (Reaches defs json_only (schema t ps its required ref)) m of_items)
        → Finds
            (Reaches defs json_only (schema t ps its required ref))
            m
            (configure_kind json_only kind of_properties of_items m)
    unfolding configure_kind Finds is_site
    kind-Finds is_object a b m e h k = h refl
    kind-Finds is_array a b m e h k = k refl
    kind-Finds is_string a b m e h k = λ m' q x. elim (Bool-cases json_only) [
      | inl j ↦
          inl
            (ap (λ (z : Marks). z.has_interpolations) (sym (if_true _ _ j) ∙ some_injective q) ∙ x)
      | inr j ↦ inr (at_site t ps its required ref no_ref (ap (is_site json_only) e ∙ ap not j))
    ]
    kind-Finds is_untyped a b m e h k =
        λ m' q x. inr (at_site t ps its required ref no_ref (ap (is_site json_only) e))
    kind-Finds is_other a b m e h k = Finds-same _ m

  module _ (f : Follow)
      (finds : (r : Bytes) (m : Marks)
        → Finds
            ((s : Schema) × (resolve_ref defs r ≡ some s) × Reaches defs json_only s)
            m
            (f r m)) where
    mutual
      unfolding configure_with

      with-Finds :
          (s : Schema) (m : Marks)
          → Finds (Reaches defs json_only s) m (configure_with f json_only s m)
      with-Finds (schema t ps its required ref) m = elim (Bool-cases (is_empty ref)) [
        | inl e ↦
            if_cases (Finds (Reaches defs json_only (schema t ps its required ref)) m) _ _ _
              (Finds-same _ m)
              (subst (Finds (Reaches defs json_only (schema t ps its required ref)) m)
                (sym (if_true _ _ e))
                (kind-Finds t ps its required ref e (kind_of t) _ _ m refl
                  (λ k.
                    Finds-map _ _ m _ (λ (s, c, r). in_property t ps its required ref s e k c r)
                      (properties-Finds ps m))
                  (λ k. items-Finds its m t ps required ref e k)))
        | inr e ↦
            if_cases (Finds (Reaches defs json_only (schema t ps its required ref)) m) _ _ _
              (Finds-same _ m)
              (subst (Finds (Reaches defs json_only (schema t ps its required ref)) m)
                (sym (if_false _ _ e))
                (if_cases (Finds (Reaches defs json_only (schema t ps its required ref)) m) _ _ _
                  (Finds-same _ m)
                  (marked-Finds _ m ref _ (
                    Finds-map _ _ _ _ (λ (s, q, r). by_ref t ps its required ref s e q r)
                      (finds ref _)))))
      ]

      properties-Finds :
          (ps : Properties) (m : Marks)
          → Finds
              ((s : Schema) × Child s ps × Reaches defs json_only s)
              m
              (configure_properties f json_only ps m)
      properties-Finds no_properties m = Finds-same _ m
      properties-Finds (property k s ps) m =
          and_then-Finds _ m _ _ (Finds-map _ _ m _ (λ r. (s, inl refl, r)) (with-Finds s m))
            (λ m'. Finds-map _ _ m' _ (λ (x, c, r). (x, inr c, r)) (properties-Finds ps m'))

      items-Finds :
          (its : Items) (m : Marks) (t : SchemaType) (ps : Properties) (required : List Bytes)
          (ref : Bytes)
          → is_empty ref ≡ true
          → kind_of t ≡ is_array
          → Finds
              (Reaches defs json_only (schema t ps its required ref))
              m
              (configure_items f json_only its m)
      items-Finds no_items m t ps required ref e k = Finds-same _ m
      items-Finds (items s) m t ps required ref e k =
          Finds-map _ _ m _ (in_items t ps s required ref e k) (with-Finds s m)

  at_definition-Finds :
      (o : Option Schema) (f : Schema → Marks → Option Marks) (m : Marks)
      → ((s : Schema) → Finds (Reaches defs json_only s) m (f s m))
      → Finds ((s : Schema) × (o ≡ some s) × Reaches defs json_only s) m (at_definition o f m)
  unfolding at_definition
  at_definition-Finds none f m h = Finds-same _ m
  at_definition-Finds (some s) f m h = Finds-map _ _ m _ (λ r. (s, refl, r)) (h s)

  follow-Finds :
      (n : ℕ) (r : Bytes) (m : Marks)
      → Finds
          ((s : Schema) × (resolve_ref defs r ≡ some s) × Reaches defs json_only s)
          m
          (follow defs json_only n r m)
  unfolding follow
  follow-Finds zero r m = none-Finds _ m
  follow-Finds (suc n) r m =
      at_definition-Finds (resolve_ref defs r) _ m
        (λ s. with-Finds (follow defs json_only n) (follow-Finds n) s m)

  pub configure-Reaches :
      (n : ℕ) (s : Schema) (m : Marks)
      → configure defs json_only n s no_marks ≡ some m
      → m.has_interpolations ≡ true
      → Reaches defs json_only s
  unfolding configure Finds
  configure-Reaches n s m e found =
      elim (with-Finds (follow defs json_only n) (follow-Finds n) s no_marks m e found) [
        | inl w ↦ absurd (let x : false ≡ true = w in cc)
        | inr r ↦ r
      ]
