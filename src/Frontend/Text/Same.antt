-- ===== src/Frontend/Text/Same.antt =====
-- The comparison by which Vue decides whether a watched value changed.
use fapra_osm_routing.Prelude.{
  [], ◌∷◌, ◌≡◌, ◌≢◌, refl, ap, true, false, Bool-cases, inl, inr, Option, none, some, arith,
}
use fapra_osm_routing.Frontend.Text.{Text, same_text, same_value}

pub same_text_refl : (t : Text) → same_text t t ≡ true
unfolding same_text
same_text_refl [] = refl
same_text_refl (c ∷ t) = ground (arith, same_text_refl t)

pub same_text_sound : (s t : Text) → same_text s t ≡ true → s ≡ t
unfolding same_text
same_text_sound [] [] e = refl
same_text_sound [] (d ∷ t) e = cc
same_text_sound (c ∷ s) [] e = cc
same_text_sound (c ∷ s) (d ∷ t) e = ground (arith, same_text_sound s t)

pub same_value_refl : (o : Option Text) → same_value o o ≡ true
unfolding same_value
same_value_refl none = refl
same_value_refl (some t) = same_text_refl t

pub same_value_differ : (o p : Option Text) → o ≢ p → same_value o p ≡ false
unfolding same_value
same_value_differ none none h = absurd (h refl)
same_value_differ none (some t) h = refl
same_value_differ (some s) none h = refl
same_value_differ (some s) (some t) h = elim (Bool-cases (same_text s t)) [
  | inl same ↦ absurd (h (ap some (same_text_sound s t same)))
  | inr differ ↦ differ
]
