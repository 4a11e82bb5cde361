-- ===== src/Transform/Paths.antt =====
-- Which paths a path with arrays stands for.
use wundergraph.Prelude.{
  ℕ, zero, suc, ◌+◌, ◌<◌, ◌≤◌, ◌≡◌, ◌↔◌, ◌⊎◌, inl, inr, refl, sym, ap, subst, ◌∙◌, Bool, true,
  false, none, some, [], ◌∷◌, ◌++◌, append_assoc, append-nil, arith, Bytes, ◌==◌, eq_false,
  Bool-cases, Option-cases, Any, length-append,
}
use wundergraph.Prelude.Int.{pos, show_int, show_int-ne-nil}
use wundergraph.Transform.{
  Keys, JsonParser, any_item, item, path_contains_array, item_paths, arrays,
}

append_last-inj : (s : Bytes) → s ++ b']' ∷ [] ≡ b']' ∷ [] → s ≡ []
append_last-inj [] e = refl
append_last-inj (c ∷ s) e = absurd (ground (arith, length-append s (b']' ∷ [])))

-- An index is no array.
pub item-ne-any_item : (i : ℕ) → (item i == any_item) ≡ false
unfolding item
item-ne-any_item i =
    eq_false (item i) any_item (λ e. show_int-ne-nil i (append_last-inj (show_int (pos i)) (cc)))

-- A path begins with an array, or its first array is that of the rest.
pub path_contains_array-cons :
    (k : Bytes) (path pre post : Keys)
    → path_contains_array (k ∷ path) ≡ some (pre, post)
    → (((k == any_item) ≡ true) × (pre ≡ []) × (post ≡ path))
      ⊎ (((k == any_item) ≡ false)
          × ((a : Keys) × (pre ≡ k ∷ a) × (path_contains_array path ≡ some (a, post))))
unfolding path_contains_array
path_contains_array-cons k path pre post h = elim (Bool-cases (k == any_item)) [
  | inl e ↦ inl (e, ground arith, ground arith)
  | inr e ↦ elim (Option-cases (path_contains_array path)) [
    | inl e' ↦ absurd (ground arith)
    | inr ((a, b), e') ↦ inr (e, (a, ground arith, ground arith))
  ]
]

pub arrays-item :
    (path pre post : Keys) (i : ℕ)
    → path_contains_array path ≡ some (pre, post)
    → suc (arrays (pre ++ item i ∷ post)) ≡ arrays path
unfolding path_contains_array arrays
arrays-item [] pre post i h = absurd (cc)
arrays-item (k ∷ path) pre post i h = elim (path_contains_array-cons k path pre post h) [
  | inl (e, none_before, rest) ↦ rw none_before (rw rest (ground (arith, item-ne-any_item i)))
  | inr (e, (a, before, found)) ↦ rw before (ground (arith, arrays-item path a post i found))
]

pub arrays-eq_zero : (path : Keys) → path_contains_array path ≡ none → arrays path ≡ 0
unfolding path_contains_array arrays
arrays-eq_zero [] h = refl
arrays-eq_zero (k ∷ path) h =
    ground (arith, arrays-eq_zero path, Option-cases (path_contains_array path))

pub arrays_pos :
    (path pre post : Keys) → path_contains_array path ≡ some (pre, post) → 0 < arrays path
arrays_pos path pre post h = let e = arrays-item path pre post 0 h in omega arith

index_or_later : (i index : ℕ) → index ≤ i → (i ≡ index) ⊎ (suc index ≤ i)
index_or_later i index h = ground arith

pub item_paths_iff :
    (P : Keys → Type 0) (pre post : Keys) (index left : ℕ)
    → Any P (item_paths pre post index left)
      ↔ ((i : ℕ) × (index ≤ i) × (i < index + left) × P (pre ++ item i ∷ post))
unfolding item_paths
item_paths_iff P pre post index zero =
    ((λ a. absurd a), (λ h. let (i, low, high, p) = h in absurd (omega arith)))
item_paths_iff P pre post index (suc left) =
    let later = item_paths_iff P pre post (suc index) left in
    (
      (λ a. elim a [
        | inl p ↦ (index, omega arith, omega arith, p)
        | inr b ↦ let (i, low, high, p) = later.0 b in (i, omega arith, omega arith, p)
      ]),
      (λ h.
          let (i, low, high, p) = h in
          elim (index_or_later i index low) [
            | inl same ↦ inl (subst (λ n. P (pre ++ item n ∷ post)) same p)
            | inr more ↦ inr (later.1 (i, more, omega arith, p))
          ]),
    )

path_contains_array-cons-none :
    (k : Bytes) (path : Keys)
    → path_contains_array (k ∷ path) ≡ none
    → ((k == any_item) ≡ false) × (path_contains_array path ≡ none)
unfolding path_contains_array
path_contains_array-cons-none k path h =
    ground (arith, Bool-cases (k == any_item), Option-cases (path_contains_array path))

step_in : (pre c : Keys) (j k : Bytes) → j ≡ k → (pre ++ j ∷ []) ++ c ≡ pre ++ k ∷ c
step_in pre c j k e = append_assoc pre (j ∷ []) c ∙ ap (λ t. pre ++ t ∷ c) e

module _ (json : JsonParser) (input : Bytes) where
  -- what may stand for one key, behind the keys that stand for those before it
  abbrev pub Fits : Bool → Keys → Bytes → Bytes → Type 0
  Fits true pre k j = (i : ℕ) × (i < json.array_items input pre) × (j ≡ item i)
  Fits false pre k j = j ≡ k

  -- The second path is the first one with an index for each array, of an item that the array at the
  -- path so far has in the input.
  abbrev pub Fills : Keys → Keys → Keys → Type 0
  Fills pre [] [] = Unit
  Fills pre [] (j ∷ q) = ⊥
  Fills pre (k ∷ p) [] = ⊥
  Fills pre (k ∷ p) (j ∷ q) = Fits (k == any_item) pre k j × Fills (pre ++ j ∷ []) p q

  pub Fills-none_iff : (p pre q : Keys) → path_contains_array p ≡ none → Fills pre p q ↔ (p ≡ q)
  unfolding path_contains_array
  Fills-none_iff [] pre [] h = ((λ _. refl), (λ _. tt))
  Fills-none_iff [] pre (j ∷ q) h = ((λ f. absurd f), (λ e. absurd (cc)))
  Fills-none_iff (k ∷ p) pre [] h = ((λ f. absurd f), (λ e. absurd (cc)))
  Fills-none_iff (k ∷ p) pre (j ∷ q) h =
      let (plain, later) = path_contains_array-cons-none k p h in
      let rest = Fills-none_iff p (pre ++ j ∷ []) q later in
      rw plain ((λ f. let same = rest.0 (f.1) in let first = f.0 in cc), (λ e. (cc, rest.1 (cc))))

  Fills-nil : (pre a b : Keys) (k : Bytes) → ¬ Fills pre (a ++ k ∷ b) []
  Fills-nil pre [] b k f = f
  Fills-nil pre (c ∷ a) b k f = f

  pub Fills-items :
      (p pre q a b : Keys)
      → path_contains_array p ≡ some (a, b)
      → Fills pre p q
        ↔ ((i : ℕ) × (i < json.array_items input (pre ++ a)) × Fills pre (a ++ item i ∷ b) q)
  Fills-items [] pre q a b h = unfold path_contains_array in absurd (cc)
  Fills-items (k ∷ p) pre [] a b h = (
    (λ f. absurd f),
    (λ f. let (i, small, fills) = f in absurd (Fills-nil pre a b (item i) fills)),
  )
  Fills-items (k ∷ p) pre (j ∷ q) a b h = elim (path_contains_array-cons k p a b h) [
    | inl (e, none_before, rest) ↦ rw none_before (
        rw rest (
          rw e (
            (λ f.
                let ((i, small, same), later) = f in
                (i, rw append-nil small, (rw (item-ne-any_item i) same, later))),
            (λ f.
                let (i, small, (fits, later)) = f in
                let same : j ≡ item i =
                  subst (λ t. Fits t pre (item i) j) (item-ne-any_item i) fits in
                (
                  (i, subst (λ t. i < json.array_items input t) (append-nil pre) small, same),
                  later,
                )),
          )))
    | inr (e, (c, before, found)) ↦
        let deeper = Fills-items p (pre ++ j ∷ []) q c b found in
        rw before (
          rw e (
            (λ f.
                let (same, rest) = f in
                let (i, small, fills) = deeper.0 rest in
                let to = step_in pre c j k same in
                (i, subst (λ t. i < json.array_items input t) to small, (same, fills))),
            (λ f.
                let (i, small, (same, fills)) = f in
                let to = sym (step_in pre c j k same) in
                (same, deeper.1 (i, subst (λ t. i < json.array_items input t) to small, fills))),
          ))
  ]
