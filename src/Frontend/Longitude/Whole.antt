-- ===== src/Frontend/Longitude/Whole.antt =====
-- Whole numbers as doubles hold them: sign and magnitude, so there is a negative zero.
use fapra_osm_routing.Prelude.{
  ℕ, ◌+◌, ◌-◌, ◌^◌, ◌%◌, ◌<◌, ◌≡◌, ◌≢◌, Bool, false, ltb, leb, if◌then◌else◌,
}
use fapra_osm_routing.Frontend.Numbers.{Numbers}

pub data Whole : Type 0 where
  plus minus : ℕ → Whole

abbrev pub magnitude : Whole → ℕ
magnitude (plus a) = a
magnitude (minus a) = a

abbrev pub less : Whole → Whole → Bool
less (plus a) (plus b) = ltb a b
less (plus a) (minus b) = false
less (minus a) (plus b) = ltb 0 (a + b)
less (minus a) (minus b) = ltb b a

-- The remainder has the sign of the dividend.
abbrev pub remainder : Whole → ℕ → Whole
remainder (plus a) d = plus (a % d)
remainder (minus a) d = minus (a % d)

abbrev pub sum : Whole → Whole → Whole
sum (plus a) (plus b) = plus (a + b)
sum (plus a) (minus b) = if leb b a then plus (a - b) else minus (b - a)
sum (minus a) (plus b) = if leb a b then plus (b - a) else minus (a - b)
sum (minus a) (minus b) = minus (a + b)

-- Degrees to the east of the meridian of longitude 0, from 0 to 359.
abbrev pub meridian : Whole → ℕ
meridian (plus a) = a % 360
meridian (minus a) = (360 - a % 360) % 360

-- What Number.isSafeInteger tests.
abbrev pub IsSafe : Whole → Type 0
IsSafe x = magnitude x < 2 ^ 53

-- The numbers of the page hold the safe whole numbers, and compute with them without rounding.
pub record HoldsWhole (Num : Type 0) ⦃n : Numbers Num⦄ : Type 0 where
  pub of : Whole → Num
  pub lt_of : (x y : Whole) → IsSafe x → IsSafe y → n.lt (of x) (of y) ≡ less x y
  pub rem_of :
      (x : Whole) (d : ℕ) → IsSafe x → d ≢ 0 → n.rem (of x) (of (plus d)) ≡ of (remainder x d)
  pub add_of :
      (x y : Whole) → IsSafe x → IsSafe y → IsSafe (sum x y) → n.add (of x) (of y) ≡ of (sum x y)
  pub minus_180_of : n.minus_180 ≡ of (minus 180)
  pub plus_180_of : n.plus_180 ≡ of (plus 180)
