-- ===== src/Frontend/Longitude/Bounds.antt =====
-- What sanitizeLongitude makes of whole degrees.
use fapra_osm_routing.Prelude.{
  ℕ, ◌+◌, ◌-◌, ◌%◌, ◌<◌, ◌≤◌, ◌≡◌, inl, inr, refl, ap, sym, ◌∙◌, subst, Bool, true, false, ltb,
  Bool-cases, if◌then◌else◌, arith,
}
use fapra_osm_routing.Frontend.Numbers.{Numbers}
use fapra_osm_routing.Frontend.Longitude.{JsValue, number, as_number, sanitize_longitude}
use fapra_osm_routing.Frontend.Longitude.Whole.{
  Whole, plus, minus, magnitude, less, remainder, sum, meridian, IsSafe, HoldsWhole,
}

module _ {Num : Type 0} ⦃n : Numbers Num⦄ (whole : HoldsWhole Num) (v : JsValue Num) where
  -- The value is the whole number.
  abbrev Is : JsValue Num → Whole → Type 0
  Is u x = as_number u ≡ whole.of x

  too_low : (x : Whole) → Is v x → IsSafe x → n.lt (as_number v) n.minus_180 ≡ less x (minus 180)
  too_low x e h =
      ap (λ a. n.lt a n.minus_180) e
      ∙ ap (n.lt (whole.of x)) whole.minus_180_of
      ∙ whole.lt_of x (minus 180) h (omega arith)

  too_high : (x : Whole) → Is v x → IsSafe x → n.lt n.plus_180 (as_number v) ≡ less (plus 180) x
  too_high x e h =
      ap (n.lt n.plus_180) e
      ∙ ap (λ a. n.lt a (whole.of x)) whole.plus_180_of
      ∙ whole.lt_of (plus 180) x (omega arith) h

  rem_180 :
      (x : Whole) → Is v x → IsSafe x → n.rem (as_number v) n.plus_180 ≡ whole.of (remainder x 180)
  rem_180 x e h =
      ap (λ a. n.rem a n.plus_180) e
      ∙ ap (n.rem (whole.of x)) whole.plus_180_of
      ∙ whole.rem_of x 180 h (omega arith)

  by_tests :
      {b c : Bool}
      → n.lt (as_number v) n.minus_180 ≡ b
      → n.lt n.plus_180 (as_number v) ≡ c
      → sanitize_longitude v ≡ (
          if b
          then number (n.rem (as_number v) n.plus_180)
          else if c
          then number (n.add n.minus_180 (n.rem (as_number v) n.plus_180))
          else v)
  unfolding sanitize_longitude
  by_tests {b} e f =
      ap
        (λ x.
          if x
          then number (n.rem (as_number v) n.plus_180)
          else if n.lt n.plus_180 (as_number v)
          then number (n.add n.minus_180 (n.rem (as_number v) n.plus_180))
          else v)
        e
      ∙ ap
          (λ x.
            if b
            then number (n.rem (as_number v) n.plus_180)
            else if x
            then number (n.add n.minus_180 (n.rem (as_number v) n.plus_180))
            else v)
          f

  -- To the west of the range.
  sanitized_west :
      (a : ℕ)
      → Is v (minus a)
      → IsSafe (minus a)
      → 180 < a
      → Is (sanitize_longitude v) (minus (a % 180))
  sanitized_west a e h low =
      let t : less (minus a) (minus 180) ≡ true = ground arith in
      ap as_number (by_tests (too_low (minus a) e h ∙ t) refl) ∙ rem_180 (minus a) e h

  -- To the east of the range.
  sanitized_east :
      (a : ℕ)
      → Is v (plus a)
      → IsSafe (plus a)
      → 180 < a
      → Is (sanitize_longitude v) (minus (180 - a % 180))
  sanitized_east a e h up =
      let t : less (plus 180) (plus a) ≡ true = ground arith in
      let s : sum (minus 180) (plus (a % 180)) ≡ minus (180 - a % 180) = ground arith in
      let safe : IsSafe (sum (minus 180) (plus (a % 180))) = subst IsSafe (sym s) (omega arith) in
      ap as_number (by_tests (too_low (plus a) e h) (too_high (plus a) e h ∙ t))
      ∙ ap (n.add n.minus_180) (rem_180 (plus a) e h)
      ∙ ap (λ m. n.add m (whole.of (plus (a % 180)))) whole.minus_180_of
      ∙ whole.add_of (minus 180) (plus (a % 180)) (omega arith) (omega arith) safe
      ∙ ap whole.of s

  -- In the range.
  sanitized_same : (x : Whole) → Is v x → IsSafe x → magnitude x ≤ 180 → Is (sanitize_longitude v) x
  sanitized_same x e h mid =
      ap as_number (by_tests (too_low x e h ∙ (not_low x mid)) (too_high x e h ∙ (not_high x mid)))
      ∙ e
    where
      not_low : (x : Whole) → magnitude x ≤ 180 → less x (minus 180) ≡ false
      not_low (plus a) mid = refl
      not_low (minus a) mid = ground arith

      not_high : (x : Whole) → magnitude x ≤ 180 → less (plus 180) x ≡ false
      not_high (plus a) mid = ground arith
      not_high (minus a) mid = refl

  -- For a longitude, a number or a text, that converts to a whole number below 2^53 in magnitude,
  -- what sanitizeLongitude returns converts to a whole number from -180 to 180. The numbers hold
  -- the safe whole numbers and compute with them without rounding.
  pub sanitize_longitude-bounds :
      (x : Whole)
      → Is v x
      → IsSafe x
      → (y : Whole) × Is (sanitize_longitude v) y × (magnitude y ≤ 180)
  sanitize_longitude-bounds (plus a) e h = elim (Bool-cases (ltb 180 a)) [
    | inl out ↦ (minus (180 - a % 180), sanitized_east a e h (ground arith), omega arith)
    | inr within ↦ let le : a ≤ 180 = ground arith in (plus a, sanitized_same (plus a) e h le, le)
  ]
  sanitize_longitude-bounds (minus a) e h = elim (Bool-cases (ltb 180 a)) [
    | inl out ↦ (minus (a % 180), sanitized_west a e h (ground arith), omega arith)
    | inr within ↦ let le : a ≤ 180 = ground arith in (minus a, sanitized_same (minus a) e h le, le)
  ]

  -- For a longitude that converts to a whole number from -180 to 359, what sanitizeLongitude
  -- returns denotes the same meridian, with the same degrees to the east modulo 360. The numbers
  -- hold the safe whole numbers and compute with them without rounding.
  pub sanitize_longitude-meridian :
      (x : Whole)
      → Is v x
      → IsSafe x
      → less x (minus 180) ≡ false
      → less x (plus 360) ≡ true
      → (y : Whole) × Is (sanitize_longitude v) y × (meridian y ≡ meridian x)
  sanitize_longitude-meridian (plus a) e h low up = elim (Bool-cases (ltb 180 a)) [
    | inl out ↦
        let bound : a < 360 = ground arith in
        let above : 180 < a = ground arith in
        (minus (180 - a % 180), sanitized_east a e h above, omega arith)
    | inr within ↦ (plus a, sanitized_same (plus a) e h (ground arith), refl)
  ]
  sanitize_longitude-meridian (minus a) e h low up =
      (minus a, sanitized_same (minus a) e h (ground arith), refl)

  -- For a longitude that converts to a whole number between -360 and -180, both excluded, what
  -- sanitizeLongitude returns denotes the opposite meridian: the longitude's is 180 degrees
  -- further, modulo 360. The numbers hold the safe whole numbers and compute with them without
  -- rounding.
  pub sanitize_longitude-opposite :
      (a : ℕ)
      → Is v (minus a)
      → 180 < a
      → a < 360
      → (y : Whole) × Is (sanitize_longitude v) y × (meridian (minus a) ≡ (meridian y + 180) % 360)
  sanitize_longitude-opposite a e low up =
      (minus (a % 180), sanitized_west a e (omega arith) low, omega arith)
