-- ===== src/Prelude/Int64.antt =====
-- Go's int64 in two's complement: a number below 2 ^ 64.
use Prim.Native.Nat.{ℕ, ◌+◌, ◌-◌, ◌*◌, ◌%◌, ◌^◌}
use mathlib.Core.Bool.{Bool}
use wundergraph.Prelude.Tests.{ltb, if◌then◌else◌}
use wundergraph.Prelude.Int.{ℤ, pos, negsuc}

abbrev pub Int64 : Type 0
Int64 = ℕ

abbrev pub add64 : Int64 → Int64 → Int64
add64 a b = (a + b) % 2 ^ 64

abbrev pub sub64 : Int64 → Int64 → Int64
sub64 a b = (a + 2 ^ 64 - b % 2 ^ 64) % 2 ^ 64

abbrev pub mul64 : Int64 → Int64 → Int64
mul64 a b = (a * b) % 2 ^ 64

-- a > b, as signed numbers
unfoldable pub greater64 : Int64 → Int64 → Bool
greater64 a b = ltb ((b + 2 ^ 63) % 2 ^ 64) ((a + 2 ^ 63) % 2 ^ 64)

-- the number that it stands for
unfoldable pub signed : Int64 → ℤ
signed a = if ltb a (2 ^ 63) then pos a else negsuc (2 ^ 64 - 1 - a)
