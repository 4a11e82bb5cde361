-- ===== src/Uploads/Extensions.antt =====
-- pkg/s3uploadclient/s3uploadclient.go: the sorted extensions of a profile, and the search in them.
use wundergraph.Prelude.{
  ◌≡◌, ◌↔◌, inl, inr, refl, ap, subst, true, false, List, [], ◌∷◌, Bytes, ◌==◌, eq_iff, arith,
  Bool-cases, if_true, if_false, All, Has, get_elem?,
}
use wundergraph.Uploads.{less, is_at, insert, sort_strings, allows_extension}

less_irrefl : (s : Bytes) → less s s ≡ false
unfolding less
less_irrefl [] = refl
less_irrefl (c ∷ s) = ground (arith, less_irrefl s)

less_asymm : (s t : Bytes) → less s t ≡ true → less t s ≡ false
unfolding less
less_asymm [] [] h = refl
less_asymm [] (d ∷ t) h = refl
less_asymm (c ∷ s) [] h = cc
less_asymm (c ∷ s) (d ∷ t) h = ground (arith, less_asymm s t)

less_tri : (s t : Bytes) → less s t ≡ false → less t s ≡ false → s ≡ t
unfolding less
less_tri [] [] h k = refl
less_tri [] (d ∷ t) h k = cc
less_tri (c ∷ s) [] h k = cc
less_tri (c ∷ s) (d ∷ t) h k = ground (arith, less_tri s t)

-- a text that does not lie above another, which does not lie above a third
less_trans : (s t u : Bytes) → less s t ≡ false → less t u ≡ false → less s u ≡ false
unfolding less
less_trans s t [] h k = refl
less_trans [] [] (e ∷ u) h k = cc
less_trans [] (d ∷ t) (e ∷ u) h k = cc
less_trans (c ∷ s) [] (e ∷ u) h k = cc
less_trans (c ∷ s) (d ∷ t) (e ∷ u) h k = ground (arith, less_trans s t u)

abbrev NotBelow : Bytes → List Bytes → Type 0
NotBelow x = All (λ y. less y x ≡ false)

abbrev IsSorted : List Bytes → Type 0
IsSorted [] = Unit
IsSorted (x ∷ xs) = NotBelow x xs × IsSorted xs

NotBelow-trans : (x y : Bytes) (xs : List Bytes) → less y x ≡ false → NotBelow y xs → NotBelow x xs
NotBelow-trans x y [] h k = tt
NotBelow-trans x y (z ∷ xs) h (l, k) = (less_trans z y x l h, NotBelow-trans x y xs h k)

NotBelow-insert :
    (x y : Bytes) (xs : List Bytes) → less x y ≡ false → NotBelow y xs → NotBelow y (insert x xs)
unfolding insert
NotBelow-insert x y [] h k = (h, tt)
NotBelow-insert x y (z ∷ xs) h (l, k) = elim (Bool-cases (less z x)) [
  | inl e ↦ rw e (l, NotBelow-insert x y xs h k)
  | inr e ↦ rw e (h, (l, k))
]

insert-IsSorted : (x : Bytes) (xs : List Bytes) → IsSorted xs → IsSorted (insert x xs)
unfolding insert
insert-IsSorted x [] h = (tt, tt)
insert-IsSorted x (y ∷ xs) (l, h) = elim (Bool-cases (less y x)) [
  | inl e ↦ rw e (NotBelow-insert x y xs (less_asymm y x e) l, insert-IsSorted x xs h)
  | inr e ↦ rw e ((e, NotBelow-trans x y xs e l), (l, h))
]

sort_strings-IsSorted : (xs : List Bytes) → IsSorted (sort_strings xs)
unfolding sort_strings
sort_strings-IsSorted [] = tt
sort_strings-IsSorted (x ∷ xs) = insert-IsSorted x (sort_strings xs) (sort_strings-IsSorted xs)

Has-insert : (a x : Bytes) (xs : List Bytes) → Has a (insert x xs) ↔ Has a (x ∷ xs)
unfolding insert
Has-insert a x [] = (λ h. h, λ h. h)
Has-insert a x (y ∷ xs) = elim (Bool-cases (less y x)) [
  | inl e ↦ rw e ground (arith, Has-insert a x xs)
  | inr e ↦ rw e (λ h. h, λ h. h)
]

pub Has-sort_strings : (a : Bytes) (xs : List Bytes) → Has a (sort_strings xs) ↔ Has a xs
unfolding sort_strings
Has-sort_strings a [] = (λ h. h, λ h. h)
Has-sort_strings a (x ∷ xs) =
    ground (arith, Has-insert a x (sort_strings xs), Has-sort_strings a xs)

-- what lies below the first text of a sorted list is not in it
NotBelow-Has : (a x : Bytes) (xs : List Bytes) → NotBelow x xs → Has a xs → less a x ≡ false
NotBelow-Has a x [] h m = absurd m
NotBelow-Has a x (y ∷ xs) (l, h) (inl e) = subst (λ z. less z x ≡ false) e l
NotBelow-Has a x (y ∷ xs) (l, h) (inr m) = NotBelow-Has a x xs h m

allows_extension_below :
    (e x : Bytes) (xs : List Bytes)
    → less x e ≡ true
    → allows_extension (x ∷ xs) e ≡ allows_extension xs e
unfolding allows_extension
allows_extension_below e x xs h = ap (λ i. is_at (get_elem? (x ∷ xs) i) e) (if_true _ _ h)

allows_extension_above :
    (e x : Bytes) (xs : List Bytes) → less x e ≡ false → allows_extension (x ∷ xs) e ≡ (x == e)
unfolding allows_extension
allows_extension_above e x xs h = ap (λ i. is_at (get_elem? (x ∷ xs) i) e) (if_false _ _ h)

allows_extension-IsSorted :
    (e : Bytes) (xs : List Bytes) → IsSorted xs → (allows_extension xs e ≡ true) ↔ Has e xs
unfolding allows_extension
allows_extension-IsSorted e [] h = ground arith
allows_extension-IsSorted e (x ∷ xs) (l, h) = elim (Bool-cases (less x e)) [
  | inl below ↦
      ground (
        arith,
        allows_extension_below e x xs below,
        allows_extension-IsSorted e xs h,
        less_irrefl x,
      )
  | inr above ↦
      ground (
        arith,
        allows_extension_above e x xs above,
        eq_iff x e,
        NotBelow-Has e x xs l,
        less_tri x e,
      )
]

-- the search finds just what is in the list
pub allows_extension-sort_strings :
    (e : Bytes) (xs : List Bytes) → (allows_extension (sort_strings xs) e ≡ true) ↔ Has e xs
allows_extension-sort_strings e xs = ground (
  arith,
  allows_extension-IsSorted e (sort_strings xs) (sort_strings-IsSorted xs),
  Has-sort_strings e xs,
)
