-- ===== src/Frontend/Numbers.antt =====
-- All that the page does with a number of JavaScript, which is a double. The type is a parameter.
use fapra_osm_routing.Prelude.{◌≡◌, ◌≢◌, Bool, []}
use fapra_osm_routing.Frontend.Text.{Text, Lacks}

pub record Numbers {ℓ} (Num : Type ℓ) : Type ℓ where
  pub lt : Num → Num → Bool
  pub rem : Num → Num → Num
  pub add : Num → Num → Num
  pub one : Num
  pub minus_180 : Num
  pub plus_180 : Num
  pub nan : Num
  -- Number.prototype.toString, parseFloat, and the conversion of a string by an operator.
  pub show : Num → Text
  pub parse_float : Text → Num
  pub to_number : Text → Num

-- The text of a number is not empty and has no space.
pub record IsLawful {ℓ} (Num : Type ℓ) ⦃n : Numbers Num⦄ : Type ℓ where
  pub show-ne-nil : (x : Num) → n.show x ≢ []
  pub show-Lacks : (x : Num) → Lacks b' ' (n.show x)

-- The text of a number reads back as the number: so it is for all but NaN and -0.
pub record ReadsBack {ℓ} {Num : Type ℓ} ⦃n : Numbers Num⦄ (x : Num) : Type ℓ where
  pub by_parse_float : n.parse_float (n.show x) ≡ x
  pub by_to_number : n.to_number (n.show x) ≡ x
