-- ===== src/Prelude/Int/RoundTrip.antt =====
-- Reading back an integer that was written.
use Prim.Native.Nat.{ℕ, zero, suc, ◌+◌, ◌-◌, ◌*◌, ◌/◌, ◌%◌, ◌<◌, ◌≤◌}
use mathlib.Core.Path.{◌≡◌, refl, ◌∙◌, ap}
use mathlib.Core.Logic.{◌≢◌, inl, inr}
use mathlib.Core.Option.{Option, none, some}
use mathlib.Core.List.{List, [], ◌∷◌}
use native.Mathlib.Omega.{arith}
use wundergraph.Prelude.Tests.{ltb, eqb, Bool-cases}
use wundergraph.Prelude.Int.Base.{ℤ, pos, negsuc, max_int64, InInt64}
use wundergraph.Prelude.Int.Decimal.{
  show_digits, show_int, digits_value, read_digits, clamp_pos, clamp_neg, parse_int,
}

digits_value-digit :
    (a n : ℕ) (acc : List ℕ)
    → digits_value a ((48 + n % 10) ∷ acc) ≡ digits_value (a * 10 + n % 10) acc
unfolding digits_value
digits_value-digit a n acc = let e : 48 + n % 10 - 48 ≡ n % 10 = omega arith in rw e (ground arith)

-- The fuel n + 1 is enough for the digits of n.
digits_value-show_digits :
    (fuel n : ℕ) (acc : List ℕ)
    → n < fuel
    → digits_value 0 (show_digits fuel n acc) ≡ digits_value n acc
unfolding show_digits
digits_value-show_digits zero n acc h = absurd (omega arith)
digits_value-show_digits (suc fuel) n acc h = ground (
  arith,
  digits_value-digit 0 n acc,
  digits_value-digit (n / 10) n acc,
  digits_value-show_digits fuel (n / 10) ((48 + n % 10) ∷ acc),
)

show_digits-ne-nil : (fuel n : ℕ) (acc : List ℕ) → n < fuel → show_digits fuel n acc ≢ []
unfolding show_digits
show_digits-ne-nil zero n acc h = absurd (omega arith)
show_digits-ne-nil (suc fuel) n acc h =
    ground (arith, show_digits-ne-nil fuel (n / 10) ((48 + n % 10) ∷ acc))

-- Every byte that is written in front is a digit.
first_digit :
    (fuel n : ℕ) (acc : List ℕ)
    → n < fuel
    → (d : ℕ) × (rest : List ℕ) × (show_digits fuel n acc ≡ d ∷ rest) × (48 ≤ d)
unfolding show_digits
first_digit zero n acc h = absurd (omega arith)
first_digit (suc fuel) n acc h = elim (Bool-cases (ltb n 10)) [
  | inl e ↦ (48 + n % 10, acc, rw (e, show_digits), omega arith)
  | inr e ↦
      let (d, rest, same, big) = first_digit fuel (n / 10) ((48 + n % 10) ∷ acc) (ground arith) in
      (d, rest, ground arith, big)
]

digits_value-nil : (n : ℕ) → digits_value n [] ≡ some n
unfolding digits_value
digits_value-nil n = refl

read_digits-cons :
    (l : List ℕ) (d : ℕ) (rest : List ℕ) → l ≡ d ∷ rest → read_digits l ≡ digits_value 0 l
unfolding read_digits
read_digits-cons l d rest e = rw e

read_digits-show_digits : (fuel n : ℕ) → n < fuel → read_digits (show_digits fuel n []) ≡ some n
read_digits-show_digits fuel n h =
    let (d, rest, same, big) = first_digit fuel n [] h in
    read_digits-cons (show_digits fuel n []) d rest same
    ∙ digits_value-show_digits fuel n [] h
    ∙ digits_value-nil n

parse_int-digit :
    (l : List ℕ) (d : ℕ) (rest : List ℕ)
    → l ≡ d ∷ rest
    → 48 ≤ d
    → parse_int l ≡ clamp_pos (read_digits l)
unfolding parse_int
parse_int-digit l d rest e big = rw e (ground arith)

clamp_pos-some : (n : ℕ) → n ≤ max_int64 → clamp_pos (some n) ≡ pos n
clamp_pos-some n h = ground arith

parse_int-minus : (l : List ℕ) → parse_int (45 ∷ l) ≡ clamp_neg (read_digits l)
unfolding parse_int
parse_int-minus l = refl

clamp_neg-suc : (n : ℕ) → n ≤ max_int64 → clamp_neg (some (suc n)) ≡ negsuc n
clamp_neg-suc n h = ground arith

-- Reading a written int64 gives it back.
pub parse_int-show_int : (x : ℤ) → InInt64 x → parse_int (show_int x) ≡ x
unfolding show_int
parse_int-show_int (pos n) h =
    let (d, rest, same, big) = first_digit (suc n) n [] (omega arith) in
    parse_int-digit (show_digits (suc n) n []) d rest same big
    ∙ ap clamp_pos (read_digits-show_digits (suc n) n (omega arith))
    ∙ clamp_pos-some n h
parse_int-show_int (negsuc n) h =
    parse_int-minus (show_digits (suc (suc n)) (suc n) [])
    ∙ ap clamp_neg (read_digits-show_digits (suc (suc n)) (suc n) (omega arith))
    ∙ clamp_neg-suc n h

clamp_pos-InInt64 : (o : Option ℕ) → InInt64 (clamp_pos o)
clamp_pos-InInt64 none = omega arith
clamp_pos-InInt64 (some n) = ground arith

clamp_neg-InInt64 : (o : Option ℕ) → InInt64 (clamp_neg o)
clamp_neg-InInt64 none = omega arith
clamp_neg-InInt64 (some zero) = omega arith
clamp_neg-InInt64 (some (suc n)) = ground arith

-- What is read fits in an int64, whatever the text.
pub parse_int-InInt64 : (s : List ℕ) → InInt64 (parse_int s)
unfolding parse_int
parse_int-InInt64 [] = omega arith
parse_int-InInt64 (c ∷ s) = elim (Bool-cases (eqb c 45)) [
  | inl e ↦ rw e (clamp_neg-InInt64 (read_digits s))
  | inr e ↦ rw e (elim (Bool-cases (eqb c 43)) [
    | inl f ↦ rw f (clamp_pos-InInt64 (read_digits s))
    | inr f ↦ rw f (clamp_pos-InInt64 (read_digits (c ∷ s)))
  ])
]

pub show_int-ne-nil : (n : ℕ) → show_int (pos n) ≢ []
unfolding show_int
show_int-ne-nil n = show_digits-ne-nil (suc n) n [] (omega arith)
