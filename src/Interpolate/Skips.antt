-- ===== src/Interpolate/Skips.antt =====
-- pkg/interpolate/strings.go: what `configure` has seen when it leaves hasInterpolations false.
pub mod Reached
use wundergraph.Prelude.{
  some_injective, ℕ, zero, suc, ◌+◌, ◌≤◌, ◌<◌, ◌≡◌, ◌≢◌, ◌↔◌, ◌⊎◌, inl, inr, refl, sym, ◌∙◌, ap,
  subst, Bool, true, false, not, Option, none, some, List, [], ◌∷◌, ◌++◌, Bytes, ◌==◌, ◌||◌, eq_iff,
  arith, Bool-cases, Option-cases, length, is_empty, if◌then◌else◌, if_true, if_false, if_cases,
}
use wundergraph.Interpolate.{
  SchemaType, SchemaKind, is_string, is_object, is_array, is_untyped, is_other, Schema, schema,
  Properties, no_properties, property, Items, no_items, items, definition, resolve_ref,
  at_definition, Marks, Follow, and_then, has_name, is_site, configure_kind, configure_with,
  configure_properties, configure_items, follow, configure, refs_of, all_refs, StringInterpolator,
  built_from, no_marks, kind_of, new_string_interpolator, new_string_interpolator_json_only,
}
use wundergraph.Interpolate.Ends.{configure-returns}
use wundergraph.Interpolate.Sites.{Child, Reaches, at_site, in_property, in_items, by_ref}
use wundergraph.Interpolate.Clean.{
  Keeps, CleanKind, Clean, CleanProperties, CleanItems, Clean-mono, CleanRef,
}

none-ne-some : {A : Type 0} {a : A} → none ≢ some a
none-ne-some e = cc

module _ (defs : Properties) (json_only : Bool) where
  -- what holds when `configure` has found nothing
  record Skips (P : List Bytes → Type 0) (m m' : Marks) : Type 0 where
    was_clear : m.has_interpolations ≡ false
    keeps : Keeps m.configured_defs m'.configured_defs
    clean : P m'.configured_defs
    closed :
        (r : Bytes)
        → has_name m'.configured_defs r ≡ true
        → (has_name m.configured_defs r ≡ true) ⊎ CleanRef defs json_only m'.configured_defs r

  SkipsTo : (List Bytes → Type 0) → Marks → Option Marks → Type 0
  SkipsTo P m o = (m' : Marks) → o ≡ some m' → m'.has_interpolations ≡ false → Skips P m m'

  SkipsTo-none : (P : List Bytes → Type 0) (m : Marks) → SkipsTo P m none
  unfolding SkipsTo
  SkipsTo-none P m m' e h = cc

  SkipsTo-same :
      (P : List Bytes → Type 0) (m : Marks)
      → (m.has_interpolations ≡ false → P m.configured_defs)
      → SkipsTo P m (some m)
  unfolding SkipsTo
  SkipsTo-same P m p m' e h = subst (Skips P m) (some_injective e) (
      let clear : m.has_interpolations ≡ false =
        ap (λ (z : Marks). z.has_interpolations) (some_injective e) ∙ h in
      record { was_clear = clear; keeps = λ r k. k; clean = p clear; closed = λ r k. inl k })

  SkipsTo-map :
      (P Q : List Bytes → Type 0) (m : Marks) (o : Option Marks)
      → ((vs : List Bytes) → P vs → Q vs)
      → SkipsTo P m o
      → SkipsTo Q m o
  unfolding SkipsTo
  SkipsTo-map P Q m o f h m' e x =
      let s = h m' e x in
      record { was_clear = s.was_clear; keeps = s.keeps; clean = f _ s.clean; closed = s.closed }

  SkipsTo-set :
      (P : List Bytes → Type 0) (m : Marks)
      → SkipsTo P m (some (record m { has_interpolations = true }))
  unfolding SkipsTo
  SkipsTo-set P m m' e h =
      let q : true ≡ false = ap (λ (z : Marks). z.has_interpolations) (some_injective e) ∙ h in cc

  and_then-SkipsTo :
      (P Q : List Bytes → Type 0) (m : Marks) (o : Option Marks) (f : Marks → Option Marks)
      → ((vs ws : List Bytes) → Keeps vs ws → P vs → P ws)
      → SkipsTo P m o
      → ((m1 : Marks) → SkipsTo Q m1 (f m1))
      → SkipsTo (λ vs. P vs × Q vs) m (and_then o f)
  unfolding SkipsTo and_then
  and_then-SkipsTo P Q m none f mono h k m' e x = cc
  and_then-SkipsTo P Q m (some m1) f mono h k m' e x =
      let second = k m1 m' e x in
      let first = h m1 refl second.was_clear in
      record {
        was_clear = first.was_clear;
        keeps = λ r v. second.keeps r (first.keeps r v);
        clean = (mono _ _ second.keeps first.clean, second.clean);
        closed = λ r v. elim (second.closed r v) [
          | inr c ↦ inr c
          | inl w ↦ elim (first.closed r w) [
            | inl u ↦ inl u
            | inr c ↦ inr (λ s q. Clean-mono defs json_only _ _ second.keeps s (c s q))
          ]
        ];
      }

  -- a reference that was marked on the way to its definition
  marked-SkipsTo :
      (m : Marks) (r : Bytes) (o : Option Marks)
      → SkipsTo
          (λ vs. CleanRef defs json_only vs r)
          (record m { configured_defs = r ∷ m.configured_defs })
          o
      → SkipsTo (λ vs. has_name vs r ≡ true) m o
  unfolding SkipsTo has_name
  marked-SkipsTo m r o h m' e x =
      let s = h m' e x in
      record {
        was_clear = s.was_clear;
        keeps = λ q v. s.keeps q (ground (arith, v));
        clean = s.keeps r (ground (arith, eq_iff r r));
        closed = λ q v. elim (s.closed q v) [
          | inr c ↦ inr c
          | inl w ↦ elim (Bool-cases (r == q)) [
            | inl b ↦
                inr (subst (CleanRef defs json_only m'.configured_defs) ((eq_iff r q).0 b) s.clean)
            | inr b ↦ inl (ground (arith, w, b))
          ]
        ];
      }

  kind-SkipsTo :
      (kind : SchemaKind) (P Q : List Bytes → Type 0) (of_properties of_items : Option Marks)
      (m : Marks)
      → SkipsTo P m of_properties
      → SkipsTo Q m of_items
      → SkipsTo
          (λ vs. CleanKind defs json_only kind (P vs) (Q vs))
          m
          (configure_kind json_only kind of_properties of_items m)
  unfolding configure_kind
  kind-SkipsTo is_object P Q a b m h k = h
  kind-SkipsTo is_array P Q a b m h k = k
  kind-SkipsTo is_string P Q a b m h k = elim (Bool-cases json_only) [
    | inl j ↦
        subst (λ z. SkipsTo (λ vs. json_only ≡ true) m (some z)) (sym (if_true _ _ j))
          (SkipsTo-same _ m (λ c. j))
    | inr j ↦
        subst (λ z. SkipsTo (λ vs. json_only ≡ true) m (some z)) (sym (if_false _ _ j))
          (SkipsTo-set _ m)
  ]
  kind-SkipsTo is_untyped P Q a b m h k = SkipsTo-set _ m
  kind-SkipsTo is_other P Q a b m h k = SkipsTo-same _ m (λ c. tt)

  module _ (f : Follow)
      (skips : (r : Bytes) (m : Marks)
        → SkipsTo (λ vs. CleanRef defs json_only vs r) m (f r m)) where
    at_ref-SkipsTo :
        (ref : Bytes) (m : Marks)
        → SkipsTo
            (λ vs. has_name vs ref ≡ true)
            m
            (if has_name m.configured_defs ref
              then some m
              else f ref (record m { configured_defs = ref ∷ m.configured_defs }))
    at_ref-SkipsTo ref m = elim (Bool-cases (has_name m.configured_defs ref)) [
      | inl e ↦
          subst (SkipsTo (λ vs. has_name vs ref ≡ true) m) (sym (if_true _ _ e))
            (SkipsTo-same _ m (λ c. e))
      | inr e ↦
          subst (SkipsTo (λ vs. has_name vs ref ≡ true) m) (sym (if_false _ _ e))
            (marked-SkipsTo m ref _ (skips ref _))
    ]

    done-SkipsTo :
        (P : List Bytes → Type 0) (m : Marks) (o : Option Marks)
        → SkipsTo P m o
        → SkipsTo P m (if m.has_interpolations then some m else o)
    done-SkipsTo P m o h = elim (Bool-cases m.has_interpolations) [
      | inl e ↦
          subst (SkipsTo P m) (sym (if_true _ _ e))
            (SkipsTo-same P m (λ c. absurd (let q : true ≡ false = sym e ∙ c in cc)))
      | inr e ↦ subst (SkipsTo P m) (sym (if_false _ _ e)) h
    ]

    mutual
      unfolding configure_with Clean

      with-SkipsTo :
          (s : Schema) (m : Marks)
          → SkipsTo (λ vs. Clean defs json_only vs s) m (configure_with f json_only s m)
      with-SkipsTo (schema t ps its required ref) m =
          done-SkipsTo _ m _ (elim (Bool-cases (is_empty ref)) [
            | inl e ↦
                subst (SkipsTo (λ vs. Clean defs json_only vs (schema t ps its required ref)) m)
                  (sym (if_true _ _ e))
                  (SkipsTo-map _ _ m _ (λ vs c. inr (e, c))
                    (kind-SkipsTo (kind_of t) _ _ _ _ m (properties-SkipsTo ps m)
                      (items-SkipsTo its m)))
            | inr e ↦
                subst (SkipsTo (λ vs. Clean defs json_only vs (schema t ps its required ref)) m)
                  (sym (if_false _ _ e))
                  (SkipsTo-map _ _ m _ (λ vs c. inl (e, c)) (at_ref-SkipsTo ref m))
          ])

      properties-SkipsTo :
          (ps : Properties) (m : Marks)
          → SkipsTo
              (λ vs. CleanProperties defs json_only vs ps)
              m
              (configure_properties f json_only ps m)
      properties-SkipsTo no_properties m = SkipsTo-same _ m (λ c. tt)
      properties-SkipsTo (property k s ps) m =
          and_then-SkipsTo (λ vs. Clean defs json_only vs s)
            (λ vs. CleanProperties defs json_only vs ps) m _ _
            (λ vs ws keeps. Clean-mono defs json_only vs ws keeps s) (with-SkipsTo s m)
            (properties-SkipsTo ps)

      items-SkipsTo :
          (its : Items) (m : Marks)
          → SkipsTo (λ vs. CleanItems defs json_only vs its) m (configure_items f json_only its m)
      items-SkipsTo no_items m = SkipsTo-same _ m (λ c. tt)
      items-SkipsTo (items s) m = with-SkipsTo s m

  at_definition-SkipsTo :
      (o : Option Schema) (f : Schema → Marks → Option Marks) (m : Marks)
      → ((s : Schema) → SkipsTo (λ vs. Clean defs json_only vs s) m (f s m))
      → SkipsTo
          (λ vs. (s : Schema) → o ≡ some s → Clean defs json_only vs s)
          m
          (at_definition o f m)
  unfolding at_definition
  at_definition-SkipsTo none f m h = SkipsTo-same _ m (λ c s q. absurd (none-ne-some q))
  at_definition-SkipsTo (some s) f m h =
      SkipsTo-map _ _ m _ (λ vs c s' q. subst (Clean defs json_only vs) (some_injective q) c) (h s)

  follow-SkipsTo :
      (n : ℕ) (r : Bytes) (m : Marks)
      → SkipsTo (λ vs. CleanRef defs json_only vs r) m (follow defs json_only n r m)
  unfolding follow
  follow-SkipsTo zero r m = SkipsTo-none _ m
  follow-SkipsTo (suc n) r m =
      at_definition-SkipsTo (resolve_ref defs r) _ m
        (λ s. with-SkipsTo (follow defs json_only n) (follow-SkipsTo n) s m)
