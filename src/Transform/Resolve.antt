-- ===== src/Transform/Resolve.antt =====
-- resolvePaths ends, and its paths are those that the array paths stand for.
use wundergraph.Prelude.{
  ℕ, zero, suc, ◌≤◌, ◌≡◌, ◌↔◌, ◌⊎◌, inl, inr, refl, ◌∙◌, true, false, some, List, [], ◌∷◌, ◌++◌,
  arith, Bytes, Bool-cases, Option-cases, Any, All, All-append, Has,
}
use wundergraph.Transform.{
  Keys, JsonParser, path_contains_array, paths_contain_array, item_paths, resolve_path,
  resolve_each, resolve_paths, arrays, resolved,
}
use wundergraph.Transform.Paths.{
  arrays-item, arrays-eq_zero, arrays_pos, item_paths_iff, Fills, Fills-none_iff, Fills-items,
}

Any-append_iff : (P : Keys → Type 0) (xs ys : List Keys) → Any P (xs ++ ys) ↔ (Any P xs ⊎ Any P ys)
Any-append_iff P [] ys = ((λ h. inr h), (λ h. elim h [ inl e ↦ absurd e | inr y ↦ y ]))
Any-append_iff P (x ∷ xs) ys = let rest = Any-append_iff P xs ys in ground arith

abbrev HasAtMost : ℕ → Keys → Type 0
HasAtMost n path = arrays path ≤ n

item_paths-HasAtMost :
    (path pre post : Keys) (n index left : ℕ)
    → path_contains_array path ≡ some (pre, post)
    → HasAtMost (suc n) path
    → All (HasAtMost n) (item_paths pre post index left)
unfolding item_paths
item_paths-HasAtMost path pre post n index zero found h = tt
item_paths-HasAtMost path pre post n index (suc left) found h =
    let one = arrays-item path pre post index found in
    (omega arith, item_paths-HasAtMost path pre post n (suc index) left found h)

paths_contain_array-eq_false :
    (paths : List Keys) → All (HasAtMost 0) paths → paths_contain_array paths ≡ false
unfolding paths_contain_array
paths_contain_array-eq_false [] h = refl
paths_contain_array-eq_false (p ∷ paths) (few, h) = elim (Option-cases (path_contains_array p)) [
  | inl e ↦ rw (e, paths_contain_array) (paths_contain_array-eq_false paths h)
  | inr ((a, b), e) ↦ let some_array = arrays_pos p a b e in absurd (omega arith)
]

module _ (json : JsonParser) (input : Bytes) where
  resolve_path_iff :
      (p q : Keys)
      → Any (λ t. Fills json input [] t q) (resolve_path json input p) ↔ Fills json input [] p q
  unfolding resolve_path
  resolve_path_iff p q = elim (Option-cases (path_contains_array p)) [
    | inl e ↦
        rw (e, resolve_path)
          ((λ h. elim h [ inl f ↦ f | inr no_more ↦ absurd no_more ]), (λ f. inl f))
    | inr ((a, b), e) ↦
        let items =
          item_paths_iff (λ t. Fills json input [] t q) a b 0 (json.array_items input a) in
        let fills = Fills-items json input p [] q a b e in
        rw (e, resolve_path)
          (
            (λ h. let (i, low, high, f) = items.0 h in fills.1 (i, omega arith, f)),
            (λ f. let (i, small, g) = fills.0 f in items.1 (i, omega arith, omega arith, g)),
          )
  ]

  resolve_each_iff :
      (ps : List Keys) (q : Keys)
      → Any (λ t. Fills json input [] t q) (resolve_each json input ps)
        ↔ Any (λ t. Fills json input [] t q) ps
  unfolding resolve_each
  resolve_each_iff [] q = ((λ h. h), (λ h. h))
  resolve_each_iff (p ∷ ps) q =
      let here = resolve_path_iff p q in
      let later = resolve_each_iff ps q in
      let both =
        Any-append_iff (λ t. Fills json input [] t q) (resolve_path json input p)
          (resolve_each json input ps) in
      ground arith

  resolve_path-HasAtMost :
      (p : Keys) (n : ℕ) → HasAtMost (suc n) p → All (HasAtMost n) (resolve_path json input p)
  unfolding resolve_path
  resolve_path-HasAtMost p n h = elim (Option-cases (path_contains_array p)) [
    | inl e ↦ rw (e, resolve_path) (let free = arrays-eq_zero p e in omega arith, tt)
    | inr ((a, b), e) ↦
        rw (e, resolve_path) (item_paths-HasAtMost p a b n 0 (json.array_items input a) e h)
  ]

  resolve_each-HasAtMost :
      (ps : List Keys) (n : ℕ)
      → All (HasAtMost (suc n)) ps
      → All (HasAtMost n) (resolve_each json input ps)
  unfolding resolve_each
  resolve_each-HasAtMost [] n h = tt
  resolve_each-HasAtMost (p ∷ ps) n (few, h) =
      All-append (HasAtMost n) (resolve_path json input p) (resolve_each json input ps)
        (resolve_path-HasAtMost p n few) (resolve_each-HasAtMost ps n h)

  Any-Fills_iff :
      (ps : List Keys) (q : Keys)
      → paths_contain_array ps ≡ false
      → Any (λ t. Fills json input [] t q) ps ↔ Has q ps
  unfolding paths_contain_array
  Any-Fills_iff [] q h = ((λ f. f), (λ f. f))
  Any-Fills_iff (p ∷ ps) q h = elim (Option-cases (path_contains_array p)) [
    | inl e ↦
        let here = Fills-none_iff json input p [] q e in
        let later = Any-Fills_iff ps q (ground arith) in ground arith
    | inr (cut, e) ↦ absurd (ground arith)
  ]

  -- what resolvePaths promises for a list of paths
  abbrev Resolves : List Keys → List Keys → Type 0
  Resolves ps out = (q : Keys) → Has q out ↔ Any (λ t. Fills json input [] t q) ps

  Resolves-plain : (ps : List Keys) → paths_contain_array ps ≡ false → Resolves ps ps
  Resolves-plain ps e q = let plain = Any-Fills_iff ps q e in (plain.1, plain.0)

  Resolves-each : (ps out : List Keys) → Resolves (resolve_each json input ps) out → Resolves ps out
  Resolves-each ps out h q =
      let each = resolve_each_iff ps q in
      let from = h q in ((λ has. each.0 (from.0 has)), (λ fills. from.1 (each.1 fills)))

  round_plain :
      (fuel : ℕ) (ps : List Keys)
      → paths_contain_array ps ≡ false
      → resolve_paths json input (suc fuel) ps ≡ some ps
  unfolding resolve_paths
  round_plain fuel ps e = ground arith

  round_last :
      (fuel : ℕ) (ps : List Keys)
      → paths_contain_array ps ≡ true
      → paths_contain_array (resolve_each json input ps) ≡ false
      → resolve_paths json input (suc fuel) ps ≡ some (resolve_each json input ps)
  unfolding resolve_paths
  round_last fuel ps e e' = ground arith

  round_again :
      (fuel : ℕ) (ps : List Keys)
      → paths_contain_array ps ≡ true
      → paths_contain_array (resolve_each json input ps) ≡ true
      → resolve_paths json input (suc fuel) ps
        ≡ resolve_paths json input fuel (resolve_each json input ps)
  unfolding resolve_paths
  round_again fuel ps e e' = ground arith

  resolve_paths-Resolves :
      (fuel : ℕ) (ps : List Keys)
      → All (HasAtMost fuel) ps
      → (out : List Keys) × (resolve_paths json input (suc fuel) ps ≡ some out) × Resolves ps out
  resolve_paths-Resolves zero ps h =
      let plain = paths_contain_array-eq_false ps h in
      (ps, round_plain zero ps plain, Resolves-plain ps plain)
  resolve_paths-Resolves (suc fuel) ps h =
      let each = resolve_each json input ps in
      let (out, found, resolves) =
        resolve_paths-Resolves fuel each (resolve_each-HasAtMost ps fuel h) in
      elim (Bool-cases (paths_contain_array ps)) [
        | inr plain ↦ (ps, round_plain (suc fuel) ps plain, Resolves-plain ps plain)
        | inl arrays_left ↦ elim (Bool-cases (paths_contain_array each)) [
          | inr plain ↦ (
            each,
            round_last (suc fuel) ps arrays_left plain,
            Resolves-each ps each (Resolves-plain each plain),
          )
          | inl more ↦ (
            out,
            round_again (suc fuel) ps arrays_left more ∙ found,
            Resolves-each ps out resolves,
          )
        ]
      ]

  resolved-eq :
      (path : Keys) (out : List Keys)
      → resolve_paths json input (suc (arrays path)) (path ∷ []) ≡ some out
      → resolved json input path ≡ out
  unfolding resolved
  resolved-eq path out e = rw (e, resolved) refl

  -- The recursion of resolvePaths ends: one round for each array of the path, and one more, are enough.
  -- The paths it gives are exactly those that have, for each array, the index of an item which that
  -- array has in the input, under the indices chosen before it, and that agree with the path elsewhere.
  pub resolved_iff :
      (path : Keys)
      → (resolve_paths json input (suc (arrays path)) (path ∷ []) ≡ some (resolved json input path))
        × ((q : Keys) → Has q (resolved json input path) ↔ Fills json input [] path q)
  resolved_iff path =
      let (out, found, resolves) =
        resolve_paths-Resolves (arrays path) (path ∷ []) (omega arith, tt) in
      rw (resolved-eq path out found) (
        found,
        (λ q.
            let from = resolves q in
            (
              (λ has. elim (from.0 has) [ inl f ↦ f | inr none_left ↦ absurd none_left ]),
              (λ f. from.1 (inl f)),
            )),
      )
