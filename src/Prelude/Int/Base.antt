-- ===== src/Prelude/Int/Base.antt =====
-- Signed integers over the native numbers, and Go's int64 with its wrap-around.
use Prim.Native.Nat.{ℕ, suc, ◌-◌, ◌≤◌}
use mathlib.Core.Bool.{Bool, false}
use wundergraph.Prelude.Tests.{ltb, leb, eqb, if◌then◌else◌}

-- `negsuc n` is -(n + 1).
pub data ℤ : Type 0 where
  pos : ℕ → ℤ
  negsuc : ℕ → ℤ

-- math.MaxInt64, and the size of math.MinInt64
abbrev pub max_int64 : ℕ
max_int64 = 9223372036854775807

abbrev pub min_int64 : ℤ
min_int64 = negsuc 9223372036854775807

abbrev pub InInt64 : ℤ → Type 0
InInt64 (pos n) = n ≤ max_int64
InInt64 (negsuc n) = n ≤ max_int64

-- x + 1 on int64: the largest value wraps to the smallest.
unfoldable pub incr_int64 : ℤ → ℤ
incr_int64 (pos n) = if leb max_int64 n then min_int64 else pos (suc n)
incr_int64 (negsuc k) = if eqb k 0 then pos 0 else negsuc (k - 1)

abbrev pub is_zero : ℤ → Bool
is_zero (pos n) = eqb n 0
is_zero (negsuc n) = false

abbrev pub is_positive : ℤ → Bool
is_positive (pos n) = ltb 0 n
is_positive (negsuc n) = false
