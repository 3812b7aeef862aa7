-- ===== src/Base/Numbers.antt =====
-- The values of the type `number` that reach the program from outside.
use Prim.Native.Nat.{ℕ}
use mathlib.Core.Bool.{Bool, true, false}
use porker_monorepo.Base.Tests.{ltb}

-- `minus n` is -(n + 1); `fraction` stands for the values that are no integers: 0.5, NaN, Infinity.
pub data Number : Type 0 where
  nat : ℕ → Number
  minus : ℕ → Number
  fraction : Number

-- `Number.isInteger(x) && x > 0`.
abbrev pub positive_integer : Number → Bool
positive_integer (nat n) = ltb 0 n
positive_integer (minus n) = false
positive_integer fraction = false

-- `Number.isInteger(x) && x >= 0`.
abbrev pub natural_integer : Number → Bool
natural_integer (nat n) = true
natural_integer (minus n) = false
natural_integer fraction = false

-- The value of a number that passed one of these tests.
abbrev pub value_of : Number → ℕ
value_of (nat n) = n
value_of (minus n) = 0
value_of fraction = 0
