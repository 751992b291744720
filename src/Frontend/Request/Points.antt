-- ===== src/Frontend/Request/Points.antt =====
-- The text of a point gives its coordinates back.
use fapra_osm_routing.Prelude.{◌≡◌, ◌≢◌, refl, [], ◌∷◌, ◌++◌, ◌∙◌, ap}
use fapra_osm_routing.Frontend.Text.{Text, split}
use fapra_osm_routing.Frontend.Text.Split.{split_at_sep, split-Lacks}
use fapra_osm_routing.Frontend.Numbers.{Numbers, IsLawful, ReadsBack}
use fapra_osm_routing.Frontend.Longitude.{text, number, sanitize_longitude}
use fapra_osm_routing.Frontend.Request.{point_text, coordinate, part, request_of}

pub append-ne-nil : (s t : Text) (c : _) → s ++ c ∷ t ≢ []
append-ne-nil [] t c e = cc
append-ne-nil (d ∷ s) t c e = cc

module _ {Num : Type 0} ⦃n : Numbers Num⦄ (laws : IsLawful Num) (lat lng : Num) where
  split-point_text : split b' ' (point_text lat lng) ≡ n.show lat ∷ n.show lng ∷ []
  split-point_text =
      split_at_sep b' ' (n.show lat) (n.show lng) (laws.show-Lacks lat)
      ∙ ap (◌∷◌ (n.show lat)) (split-Lacks b' ' (n.show lng) (laws.show-Lacks lng))

  pub latitude-point_text : ReadsBack lat → coordinate (point_text lat lng) 0 ≡ lat
  unfolding coordinate
  latitude-point_text r = rw split-point_text r.by_parse_float

  pub longitude-point_text : ReadsBack lng → coordinate (point_text lat lng) 1 ≡ lng
  unfolding coordinate
  longitude-point_text r = rw split-point_text r.by_parse_float

  pub part-point_text : part {Num = Num} (point_text lat lng) 1 ≡ text (n.show lng)
  unfolding part
  part-point_text = rw split-point_text

pub request_of-point_text :
    {Num : Type 0} ⦃n : Numbers Num⦄
    → IsLawful Num
    → (a b c d : Num) → ReadsBack a
    → ReadsBack c
    → ReadsBack d
    → request_of (point_text a b) (point_text c d) ≡ record {
      start_latitude = a;
      start_longitude = sanitize_longitude (text (n.show b));
      end_latitude = c;
      end_longitude = sanitize_longitude (number d);
    }
unfolding request_of
request_of-point_text laws a b c d r s t = rw (latitude-point_text laws a b r) (
    rw (part-point_text laws a b)
      (rw (latitude-point_text laws c d s) (rw (longitude-point_text laws c d t) refl)))
