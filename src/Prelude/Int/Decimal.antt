-- ===== src/Prelude/Int/Decimal.antt =====
-- strconv.FormatInt, and the value that strconv.ParseInt and strconv.Atoi return.
use Prim.Native.Nat.{ℕ, zero, suc, ◌+◌, ◌-◌, ◌*◌, ◌/◌, ◌%◌}
use mathlib.Core.Bool.{◌&&◌}
use mathlib.Core.Option.{Option, none, some}
use mathlib.Core.List.{List, [], ◌∷◌}
use wundergraph.Prelude.Tests.{ltb, leb, eqb, if◌then◌else◌}
use wundergraph.Prelude.Int.Base.{ℤ, pos, negsuc, max_int64, min_int64}

-- The decimal digits of n in front of `acc`, on fuel: n + 1 rounds are enough, since n falls.
unfoldable pub show_digits : ℕ → ℕ → List ℕ → List ℕ
show_digits zero n acc = acc
show_digits (suc fuel) n acc =
    let digit = 48 + n % 10 in
    let rest = show_digits fuel (n / 10) (digit ∷ acc) in if ltb n 10 then digit ∷ acc else rest

-- strconv.FormatInt(x, 10)
unfoldable pub show_int : ℤ → List ℕ
show_int (pos n) = show_digits (suc n) n []
show_int (negsuc n) = 45 ∷ show_digits (suc (suc n)) (suc n) []

-- the value of decimal digits, or none where some byte is no digit
unfoldable pub digits_value : ℕ → List ℕ → Option ℕ
digits_value acc [] = some acc
digits_value acc (c ∷ s) =
    let rest = digits_value (acc * 10 + (c - 48)) s in if leb 48 c && leb c 57 then rest else none

unfoldable pub read_digits : List ℕ → Option ℕ
unfolding digits_value
read_digits [] = none
read_digits (c ∷ s) = digits_value 0 (c ∷ s)

abbrev pub clamp_pos : Option ℕ → ℤ
clamp_pos none = pos 0
clamp_pos (some n) = if leb n max_int64 then pos n else pos max_int64

abbrev pub clamp_neg : Option ℕ → ℤ
clamp_neg none = pos 0
clamp_neg (some zero) = pos 0
clamp_neg (some (suc n)) = if leb n max_int64 then negsuc n else min_int64

-- The value that strconv.ParseInt(s, 10, 64) and strconv.Atoi return, beside an error too: 0 for bad
-- syntax, and the nearest int64 for a number out of range.
unfoldable pub parse_int : List ℕ → ℤ
unfolding read_digits
parse_int [] = pos 0
parse_int (c ∷ s) =
    if eqb c b'-'
    then clamp_neg (read_digits s)
    else if eqb c b'+'
    then clamp_pos (read_digits s)
    else clamp_pos (read_digits (c ∷ s))
