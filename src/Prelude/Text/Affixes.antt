-- ===== src/Prelude/Text/Affixes.antt =====
-- strings.HasPrefix, TrimPrefix, HasSuffix, TrimSuffix, Contains, Index, Split and Join, where a
-- separator is one byte.
use Prim.Native.Nat.{ℕ}
use mathlib.Core.Path.{◌≡◌, refl}
use mathlib.Core.Bool.{Bool, true, false, ◌&&◌}
use mathlib.Core.List.{List, [], ◌∷◌, ◌++◌, reverse}
use native.Mathlib.Omega.{arith}
use wundergraph.Prelude.Tests.{eqb, if◌then◌else◌}

-- strings.HasPrefix(s, p)
unfoldable pub has_prefix : List ℕ → List ℕ → Bool
has_prefix s [] = true
has_prefix [] (b ∷ p) = false
has_prefix (a ∷ s) (b ∷ p) = eqb a b && has_prefix s p

-- s without its first bytes, as many as p has
abbrev drop_bytes : List ℕ → List ℕ → List ℕ
drop_bytes s [] = s
drop_bytes [] (b ∷ p) = []
drop_bytes (a ∷ s) (b ∷ p) = drop_bytes s p

-- strings.TrimPrefix(s, p)
unfoldable pub trim_prefix : List ℕ → List ℕ → List ℕ
unfolding has_prefix
trim_prefix s p = if has_prefix s p then drop_bytes s p else s

unfoldable pub has_suffix : List ℕ → List ℕ → Bool
unfolding has_prefix
has_suffix s p = has_prefix (reverse s) (reverse p)

unfoldable pub trim_suffix : List ℕ → List ℕ → List ℕ
unfolding has_prefix
trim_suffix s p = if has_suffix s p then reverse (drop_bytes (reverse s) (reverse p)) else s

pub has_prefix-append : (p s : List ℕ) → has_prefix (p ++ s) p ≡ true
unfolding has_prefix
has_prefix-append [] [] = refl
has_prefix-append [] (a ∷ s) = refl
has_prefix-append (b ∷ p) s = ground (arith, has_prefix-append p s)

drop_bytes-append : (p s : List ℕ) → drop_bytes (p ++ s) p ≡ s
drop_bytes-append [] [] = refl
drop_bytes-append [] (a ∷ s) = refl
drop_bytes-append (b ∷ p) s = drop_bytes-append p s

-- Trimming a prefix that was put in front gives the rest back.
pub trim_prefix-append : (p s : List ℕ) → trim_prefix (p ++ s) p ≡ s
unfolding trim_prefix
trim_prefix-append p s = rw has_prefix-append (drop_bytes-append p s)

append-drop_bytes : (s p : List ℕ) → has_prefix s p ≡ true → p ++ drop_bytes s p ≡ s
unfolding has_prefix
append-drop_bytes s [] h = refl
append-drop_bytes [] (b ∷ p) h = cc
append-drop_bytes (a ∷ s) (b ∷ p) h = ground (arith, append-drop_bytes s p)

-- What begins with a prefix is that prefix and the rest.
pub append-trim_prefix : (s p : List ℕ) → has_prefix s p ≡ true → p ++ trim_prefix s p ≡ s
unfolding trim_prefix
append-trim_prefix s p h = rw h (append-drop_bytes s p h)

-- strings.Contains(s, c) for one byte c
unfoldable pub contains_byte : ℕ → List ℕ → Bool
contains_byte c [] = false
contains_byte c (a ∷ s) = let rest = contains_byte c s in if eqb a c then true else rest

-- s[:i] for the index i of the first c in s
unfoldable pub before_byte : ℕ → List ℕ → List ℕ
before_byte c [] = []
before_byte c (a ∷ s) = let rest = before_byte c s in if eqb a c then [] else a ∷ rest

-- puts a byte in front of the first part
abbrev pub onto_first : ℕ → List (List ℕ) → List (List ℕ)
onto_first a [] = (a ∷ []) ∷ []
onto_first a (p ∷ ps) = (a ∷ p) ∷ ps

-- strings.Split(s, c) for one byte c: always at least one part
unfoldable pub split : ℕ → List ℕ → List (List ℕ)
split c [] = [] ∷ []
split c (a ∷ s) = let rest = split c s in if eqb a c then [] ∷ rest else onto_first a rest

-- strings.Join(parts, c) for one byte c
unfoldable pub join : ℕ → List (List ℕ) → List ℕ
join c [] = []
join c (p ∷ []) = p
join c (p ∷ q ∷ ps) = p ++ c ∷ join c (q ∷ ps)
