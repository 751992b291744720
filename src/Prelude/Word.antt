-- ===== src/Prelude/Word.antt =====
-- Java's `int`, as the bit pattern of a 32-bit word: 2 ^ 32 - 1 is -1.
use Prim.Native.Nat.{ℕ, ◌+◌, ◌%◌, ◌≤◌}
use mathlib.Core.Path.{◌≡◌}
use mathlib.Core.Bool.{Bool}
use native.Mathlib.Omega.{arith}
use fapra_osm_routing.Prelude.Tests.{ltb}

abbrev pub Word32 : Type 0
Word32 = ℕ

-- Integer.MAX_VALUE and -1
abbrev pub max_value : Word32
max_value = 2147483647

abbrev pub minus_one : Word32
minus_one = 4294967295

-- The order of the signed numbers as an order of natural numbers.
abbrev pub rank : Word32 → ℕ
rank a = (a + 2147483648) % 4294967296

-- `a < b` on signed numbers, and `a + b` with its wrap-around.
abbrev pub lt_int : Word32 → Word32 → Bool
lt_int a b = ltb (rank a) (rank b)

abbrev pub add_int : Word32 → Word32 → Word32
add_int a b = (a + b) % 4294967296

pub lt_int-ltb : (a b : ℕ) → a ≤ max_value → b ≤ max_value → lt_int a b ≡ ltb a b
lt_int-ltb a b p q = ground arith

pub rank_injective : (a b : ℕ) → a ≤ max_value → b ≤ max_value → rank a ≡ rank b → a ≡ b
rank_injective a b p q h = omega arith
