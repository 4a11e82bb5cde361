-- ===== src/Prelude/Text/Split.antt =====
-- Laws of split, join and before_byte.
use Prim.Native.Nat.{ℕ, ◌<◌}
use mathlib.Core.Path.{◌≡◌, refl}
use mathlib.Core.Logic.{◌≢◌}
use mathlib.Core.Bool.{true, false}
use mathlib.Core.List.{List, [], ◌∷◌, ◌++◌}
use native.Mathlib.Omega.{arith}
use wundergraph.Prelude.Lists.{length}
use wundergraph.Prelude.Text.Affixes.{contains_byte, onto_first, split, join}

pub split-ne-nil : (c : ℕ) (s : List ℕ) → split c s ≢ []
unfolding split
split-ne-nil c [] = cc
split-ne-nil c (a ∷ s) = ground (arith, split-ne-nil c s)

join-onto_first :
    (c a : ℕ) (ps : List (List ℕ)) → ps ≢ [] → join c (onto_first a ps) ≡ a ∷ join c ps
unfolding join
join-onto_first c a [] h = absurd (h refl)
join-onto_first c a (p ∷ []) h = refl
join-onto_first c a (p ∷ q ∷ ps) h = refl

join-nil_cons : (c : ℕ) (ps : List (List ℕ)) → ps ≢ [] → join c ([] ∷ ps) ≡ c ∷ join c ps
unfolding join
join-nil_cons c [] h = absurd (h refl)
join-nil_cons c (p ∷ ps) h = refl

-- Joining the parts of a text by the separator that it was split at gives it back.
pub join-split : (c : ℕ) (s : List ℕ) → join c (split c s) ≡ s
unfolding split
join-split c [] = unfold join in refl
join-split c (a ∷ s) = ground (
  arith,
  join-split c s,
  split-ne-nil c s,
  join-onto_first c a (split c s),
  join-nil_cons c (split c s),
)

-- A first part with no separator in it is split off whole.
pub split-append :
    (c : ℕ) (a b : List ℕ) → contains_byte c a ≡ false → split c (a ++ c ∷ b) ≡ a ∷ split c b
unfolding split contains_byte
split-append c [] b h = ground arith
split-append c (x ∷ a) b h = ground (arith, split-append c a b)

pub split_of_none : (c : ℕ) (s : List ℕ) → contains_byte c s ≡ false → split c s ≡ s ∷ []
unfolding split contains_byte
split_of_none c [] h = refl
split_of_none c (x ∷ s) h = ground (arith, split_of_none c s)

length-onto_first : (a : ℕ) (ps : List (List ℕ)) → ps ≢ [] → length (onto_first a ps) ≡ length ps
length-onto_first a [] h = absurd (h refl)
length-onto_first a (p ∷ ps) h = refl

length_pos : {A : Type 0} (xs : List A) → xs ≢ [] → 0 < length xs
length_pos [] h = absurd (h refl)
length_pos (x ∷ xs) h = omega arith

pub length-split_pos : (c : ℕ) (s : List ℕ) → 0 < length (split c s)
length-split_pos c s = length_pos (split c s) (split-ne-nil c s)

pub one-lt-length-split : (c : ℕ) (s : List ℕ) → contains_byte c s ≡ true → 1 < length (split c s)
unfolding split contains_byte
one-lt-length-split c [] h = cc
one-lt-length-split c (x ∷ s) h = ground (
  arith,
  one-lt-length-split c s,
  length-split_pos c s,
  length-onto_first x (split c s) (split-ne-nil c s),
)
