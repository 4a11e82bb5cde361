-- ===== src/Interpolate/Ends.antt =====
-- pkg/interpolate/strings.go: the recursion of `configure` along references.
use wundergraph.Prelude.{
  some_injective, ℕ, zero, suc, ◌≤◌, ◌<◌, ◌≡◌, inl, inr, refl, sym, ◌∙◌, ap, subst, Bool, true,
  false, Option, none, some, List, [], ◌∷◌, ◌++◌, Bytes, ◌==◌, eq_iff, arith, Bool-cases, Has,
  Has-append_left, Has-append_right, length, if◌then◌else◌, if_true, if_false, if_cases,
}
use wundergraph.Interpolate.{
  SchemaKind, is_string, is_object, is_array, is_untyped, is_other, Schema, schema, Properties,
  no_properties, property, Items, no_items, items, definition, resolve_ref, at_definition, Marks,
  Follow, and_then, has_name, configure_kind, configure_with, configure_properties, configure_items,
  refs_of_properties, refs_of_items, follow, configure, refs_of, all_refs, no_marks, kind_of,
}

-- how many of some references are not marked
missing : List Bytes → List Bytes → ℕ
missing [] marked = 0
missing (u ∷ us) marked =
    let rest = missing us marked in if has_name marked u then rest else suc rest

missing-le-length : (us marked : List Bytes) → missing us marked ≤ length us
unfolding missing
missing-le-length [] marked = omega arith
missing-le-length (u ∷ us) marked = ground (arith, missing-le-length us marked)

missing_mono :
    (us : List Bytes) (r : Bytes) (marked : List Bytes)
    → missing us (r ∷ marked) ≤ missing us marked
unfolding missing has_name
missing_mono [] r marked = omega arith
missing_mono (u ∷ us) r marked = ground (arith, missing_mono us r marked)

missing_marked :
    (us : List Bytes) (r : Bytes) (marked : List Bytes)
    → Has r us
    → has_name marked r ≡ false
    → missing us (r ∷ marked) < missing us marked
unfolding missing has_name
missing_marked [] r marked h new = absurd h
missing_marked (u ∷ us) r marked (inl e) new =
    ground (arith, missing_mono us r marked, eq_iff r u, sym e, ap (has_name marked) e)
missing_marked (u ∷ us) r marked (inr h) new = ground (arith, missing_marked us r marked h new)

-- All references of one list are in another.
abbrev Within : List Bytes → List Bytes → Type 0
Within us refs = (r : Bytes) → Has r refs → Has r us

module _ (us : List Bytes) where
  -- `configure` comes to an end, and unmarks no reference
  Ends : ℕ → Option Marks → Type 0
  Ends k o = (m : Marks) × (o ≡ some m) × (missing us m.configured_defs ≤ k)

  abbrev unmarked : Marks → ℕ
  unmarked m = missing us m.configured_defs

  Ends-weaken : (j k : ℕ) (o : Option Marks) → j ≤ k → Ends j o → Ends k o
  unfolding Ends
  Ends-weaken j k o le (m, e, few) = (m, e, omega arith)

  Ends-some : (k : ℕ) (m : Marks) → unmarked m ≤ k → Ends k (some m)
  unfolding Ends
  Ends-some k m few = (m, refl, few)

  some-Ends : (k : ℕ) (m : Marks) → Ends k (some m) → unmarked m ≤ k
  unfolding Ends
  some-Ends k m (m', e, few) = subst (λ z. unmarked z ≤ k) (sym (some_injective e)) few

  and_then-Ends :
      (k : ℕ) (o : Option Marks) (f : Marks → Option Marks)
      → Ends k o
      → ((m : Marks) → unmarked m ≤ k → Ends (unmarked m) (f m))
      → Ends k (and_then o f)
  unfolding and_then Ends
  and_then-Ends k none f (m, e, le) h = cc
  and_then-Ends k (some m) f e h =
      Ends-weaken (unmarked m) k (f m) (some-Ends k m e) (h m (some-Ends k m e))

  configure_kind-Ends :
      (json_only : Bool) (kind : SchemaKind) (of_properties of_items : Option Marks) (m : Marks)
      → Ends (unmarked m) of_properties
      → Ends (unmarked m) of_items
      → Ends (unmarked m) (configure_kind json_only kind of_properties of_items m)
  unfolding configure_kind
  configure_kind-Ends json_only is_object of_properties of_items m h k = h
  configure_kind-Ends json_only is_array of_properties of_items m h k = k
  configure_kind-Ends true is_string of_properties of_items m h k = Ends-some _ m (omega arith)
  configure_kind-Ends false is_string of_properties of_items m h k = Ends-some _ _ (omega arith)
  configure_kind-Ends json_only is_untyped of_properties of_items m h k =
      Ends-some _ _ (omega arith)
  configure_kind-Ends json_only is_other of_properties of_items m h k = Ends-some _ m (omega arith)

  module _ (f : Follow) (json_only : Bool) (n : ℕ)
      (ends : (r : Bytes) (m : Marks) → unmarked m < n → Ends (unmarked m) (f r m)) where
    at_ref-Ends :
        (ref : Bytes) (m : Marks)
        → Has ref us
        → unmarked m ≤ n
        → Ends (unmarked m) (
            if has_name m.configured_defs ref
            then some m
            else f ref (record m { configured_defs = ref ∷ m.configured_defs }))
    at_ref-Ends ref m h le = elim (Bool-cases (has_name m.configured_defs ref)) [
      | inl e ↦ subst (Ends (unmarked m)) (sym (if_true _ _ e)) (Ends-some _ m (omega arith))
      | inr e ↦ subst (Ends (unmarked m)) (sym (if_false _ _ e)) (
          let fewer = missing_marked us ref m.configured_defs h e in
          Ends-weaken (missing us (ref ∷ m.configured_defs)) _ _ (omega arith)
            (ends ref (record m { configured_defs = ref ∷ m.configured_defs }) (omega arith)))
    ]

    mutual
      unfolding configure_with refs_of

      with-Ends :
          (s : Schema) (m : Marks)
          → Within us (refs_of s)
          → unmarked m ≤ n
          → Ends (unmarked m) (configure_with f json_only s m)
      with-Ends (schema t ps its required ref) m w le =
          if_cases (Ends (unmarked m)) _ _ _ (Ends-some _ m (omega arith)) (
            if_cases (Ends (unmarked m)) _ _ _
              (configure_kind-Ends json_only (kind_of t) _ _ m
                (properties-Ends ps m (λ r h. w r (inr (Has-append_left r _ _ h))) le)
                (items-Ends its m
                  (λ r h. w r (inr (Has-append_right r (refs_of_properties ps) _ h))) le))
              (at_ref-Ends ref m (w ref (inl refl)) le))

      properties-Ends :
          (ps : Properties) (m : Marks)
          → Within us (refs_of_properties ps)
          → unmarked m ≤ n
          → Ends (unmarked m) (configure_properties f json_only ps m)
      properties-Ends no_properties m w le = Ends-some _ m (omega arith)
      properties-Ends (property k s ps) m w le =
          and_then-Ends _ _ _ (with-Ends s m (λ r h. w r (Has-append_left r _ _ h)) le) (λ m' few.
            properties-Ends ps m' (λ r h. w r (Has-append_right r (refs_of s) _ h)) (omega arith))

      items-Ends :
          (its : Items) (m : Marks)
          → Within us (refs_of_items its)
          → unmarked m ≤ n
          → Ends (unmarked m) (configure_items f json_only its m)
      items-Ends no_items m w le = Ends-some _ m (omega arith)
      items-Ends (items s) m w le = with-Ends s m w le

  module _ (defs : Properties) (json_only : Bool) (w : Within us (refs_of_properties defs)) where
    definition-Within :
        (ps : Properties) (name : Bytes) (s : Schema)
        → definition ps name ≡ some s
        → Within us (refs_of_properties ps)
        → Within us (refs_of s)
    unfolding definition refs_of
    definition-Within no_properties name s e v = cc
    definition-Within (property k x ps) name s e v = elim (Bool-cases (k == name)) [
      | inl b ↦
          subst (λ z. Within us (refs_of z)) (some_injective (sym (if_true _ _ b) ∙ e))
            (λ r h. v r (Has-append_left r _ _ h))
      | inr b ↦
          definition-Within ps name s (sym (if_false _ _ b) ∙ e)
            (λ r h. v r (Has-append_right r (refs_of x) _ h))
    ]

    at_definition-Ends :
        (o : Option Schema) (f : Schema → Marks → Option Marks) (m : Marks)
        → ((s : Schema) → o ≡ some s → Ends (unmarked m) (f s m))
        → Ends (unmarked m) (at_definition o f m)
    unfolding at_definition
    at_definition-Ends none f m h = Ends-some _ m (omega arith)
    at_definition-Ends (some s) f m h = h s refl

    follow-Ends :
        (n : ℕ) (ref : Bytes) (m : Marks)
        → unmarked m < n
        → Ends (unmarked m) (follow defs json_only n ref m)
    unfolding follow resolve_ref
    follow-Ends zero ref m lt = absurd (omega arith)
    follow-Ends (suc n) ref m lt = at_definition-Ends (resolve_ref defs ref) _ m (λ s e.
        with-Ends (follow defs json_only n) json_only n (follow-Ends n) s m
          (definition-Within defs _ s e w) (omega arith))

-- `configure` ends, although the definitions may refer to one another in circles: it returns as soon as
-- it may follow, one from within another, as many references as there are schemas in it and in
-- the definitions.
pub configure-returns :
    (defs : Properties) (json_only : Bool) (s : Schema) (n : ℕ)
    → length (all_refs defs s) ≤ n
    → (m : Marks) × (configure defs json_only n s no_marks ≡ some m)
unfolding configure all_refs Ends
configure-returns defs json_only s n le =
    let us = refs_of s ++ refs_of_properties defs in
    let (m, e, few) =
      with-Ends us (follow defs json_only n) json_only n
        (follow-Ends us defs json_only (λ r h. Has-append_right r (refs_of s) _ h) n) s no_marks
        (λ r h. Has-append_left r _ _ h) (omega (arith, missing-le-length us [], le)) in
    (m, e)
