-- ===== src/Transform/Safe.antt =====
-- When a transformation does not panic.
use wundergraph.Prelude.{
  ◌+◌, ◌≤◌, ◌≡◌, ◌≢◌, ◌⊎◌, inl, inr, refl, true, none, some, List, [], ◌∷◌, arith, Bytes, str,
  Bool-cases, Option-cases, All, length,
}
use wundergraph.Transform.{
  Keys, JsonParser, Found, Outcome, done, fails, panics, Get, Transformation, get_transformation,
  other, value_of, apply_each, apply_get, transform, resolved,
}

-- What jsonparser promises of a string: it stands in the input with its quotes, up to the offset.
abbrev pub IsWithin : JsonParser → Type 0
IsWithin json =
    (input : Bytes) (path : Keys) (found : Found)
    → json.get input path ≡ some found
    → found.is_string ≡ true
    → (length found.value + 2 ≤ found.offset) × (found.offset ≤ length input)

abbrev pub HasGet : Transformation → Type 0
HasGet (get_transformation none) = ⊥
HasGet (get_transformation (some get)) = Unit
HasGet other = Unit

module _ (json : JsonParser) (within : IsWithin json) where
  value_of-ne-none :
      (input : Bytes) (path : Keys) (found : Found)
      → json.get input path ≡ some found
      → value_of input found ≢ none
  unfolding value_of
  value_of-ne-none input path found e =
      ground (arith, Bool-cases found.is_string, within input path found e)

  apply_each-ne-panics :
      (froms tos : List Keys) (input : Bytes)
      → length froms ≡ length tos
      → apply_each json froms tos input ≢ panics
  unfolding apply_each
  apply_each-ne-panics [] tos input h = cc
  apply_each-ne-panics (from ∷ froms) [] input h = absurd (omega arith)
  apply_each-ne-panics (from ∷ froms) (to ∷ tos) input h =
      elim (Option-cases (json.get input from)) [
        | inl missing ↦ elim (Option-cases (json.set input (str "null") to)) [
          | inl e ↦ ground arith
          | inr (output, e) ↦ ground (arith, apply_each-ne-panics froms tos output)
        ]
        | inr (found, e) ↦ elim (Option-cases (value_of input found)) [
          | inl e' ↦ absurd (value_of-ne-none input from found e e')
          | inr (value, e') ↦ elim (Option-cases (json.set input value to)) [
            | inl e'' ↦ ground arith
            | inr (output, e'') ↦ ground (arith, apply_each-ne-panics froms tos output)
          ]
        ]
      ]

  apply_get-ne-panics : (input : Bytes) (get : Get) → apply_get json input get ≢ panics
  unfolding apply_get
  apply_get-ne-panics input get = ground (
    arith,
    apply_each-ne-panics (resolved json input get.from) (resolved json input get.to) input,
  )

  Outcome-cases :
      (r : Outcome) → (r ≡ panics) ⊎ (r ≡ fails) ⊎ ((output : Bytes) × (r ≡ done output))
  Outcome-cases panics = inl refl
  Outcome-cases fails = inr (inl refl)
  Outcome-cases (done output) = inr (inr (output, refl))

  -- No list of transformations panics, whatever the response, if the strings that the parser finds
  -- stand in its input with their quotes, and each transformation of the kind that gets a value says
  -- which.
  pub transform-ne-panics :
      (ts : List Transformation) (input : Bytes) → All HasGet ts → transform json ts input ≢ panics
  unfolding transform
  transform-ne-panics [] input h = cc
  transform-ne-panics (other ∷ ts) input (_, h) = transform-ne-panics ts input h
  transform-ne-panics (get_transformation none ∷ ts) input (no_get, h) = absurd no_get
  transform-ne-panics (get_transformation (some get) ∷ ts) input (_, h) =
      elim (Outcome-cases (apply_get json input get)) [
        | inl e ↦ absurd (apply_get-ne-panics input get e)
        | inr (inl e) ↦ ground arith
        | inr (inr (output, e)) ↦ ground (arith, transform-ne-panics ts output h)
      ]
