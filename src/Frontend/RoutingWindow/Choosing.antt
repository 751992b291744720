-- ===== src/Frontend/RoutingWindow/Choosing.antt =====
-- Choosing a point on the map.
use fapra_osm_routing.Prelude.{
  ◌≡◌, ◌≢◌, refl, ap, ◌∙◌, Bool, true, false, [], ◌∷◌, Option, some, if◌then◌else◌,
}
use fapra_osm_routing.Frontend.Text.{Text, codes, same_value}
use fapra_osm_routing.Frontend.Text.Same.{same_value_refl, same_value_differ}
use fapra_osm_routing.Frontend.Numbers.{Numbers, ReadsBack}
use fapra_osm_routing.Frontend.Numbers
use fapra_osm_routing.Frontend.Leaflet.{Leaflet}
use fapra_osm_routing.Frontend.Request.{point_text, coordinate}
use fapra_osm_routing.Frontend.Request.Points.{
  append-ne-nil, latitude-point_text, longitude-point_text,
}
use fapra_osm_routing.Frontend.RoutingWindow.{
  Window, click_start, click_target, on_click, remove_layer, start_marked, target_marked,
  watch_start, watch_target, flush_start, flush_target,
}

module _ {Num : Type 0} ⦃n : Numbers Num⦄ (L : Leaflet Num) where
  watch_start_lem :
      (t : Text) (w : Window L)
      → t ≢ []
      → watch_start L (some t) w
        ≡ start_marked L (remove_layer L w.start_marker w.map) w (
            L.add_marker
              (coordinate t 0)
              (coordinate t 1)
              (codes "Start")
              (remove_layer L w.start_marker w.map))
  unfolding watch_start
  watch_start_lem [] w h = absurd (h refl)
  watch_start_lem (c ∷ t) w h = refl

  watch_target_lem :
      (t : Text) (w : Window L)
      → t ≢ []
      → watch_target L (some t) w
        ≡ target_marked L (remove_layer L w.target_marker w.map) w (
            L.add_marker
              (coordinate t 0)
              (coordinate t 1)
              (codes "Target")
              (remove_layer L w.target_marker w.map))
  unfolding watch_target
  watch_target_lem [] w h = absurd (h refl)
  watch_target_lem (c ∷ t) w h = refl

  -- The watcher of a point that changed to the place at `lat` and `lng`.
  pub flush_start-placed :
      (before : Option Text) (w : Window L) (lat lng : Num) {l : L.Layer} {m : L.World}
      → Numbers.IsLawful Num
      → ReadsBack lat
      → ReadsBack lng
      → w.start_point ≡ some (point_text lat lng)
      → before ≢ some (point_text lat lng)
      → L.add_marker lat lng (codes "Start") (remove_layer L w.start_marker w.map) ≡ some (l, m)
      → flush_start L before w ≡ record w { start_marker = some l; map = m }
  unfolding flush_start
  flush_start-placed before w lat lng laws r s at changed placed =
      let pt = point_text lat lng in
      let differ : same_value before w.start_point ≡ false =
        ap (same_value before) at ∙ same_value_differ before (some pt) changed in
      let mark = λ (o : Option (L.Layer × L.World)).
        start_marked L (remove_layer L w.start_marker w.map) w o in
      let add =
        λ (a b : Num). L.add_marker a b (codes "Start") (remove_layer L w.start_marker w.map) in
      ap (λ b. if b then w else watch_start L w.start_point w) differ
      ∙ ap (λ o. watch_start L o w) at
      ∙ watch_start_lem pt w (append-ne-nil (n.show lat) (n.show lng) b' ')
      ∙ ap (λ a. mark (add a (coordinate pt 1))) (latitude-point_text laws lat lng r)
      ∙ ap (λ b. mark (add lat b)) (longitude-point_text laws lat lng s)
      ∙ ap mark placed

  pub flush_target-placed :
      (before : Option Text) (w : Window L) (lat lng : Num) {l : L.Layer} {m : L.World}
      → Numbers.IsLawful Num
      → ReadsBack lat
      → ReadsBack lng
      → w.target_point ≡ some (point_text lat lng)
      → before ≢ some (point_text lat lng)
      → L.add_marker lat lng (codes "Target") (remove_layer L w.target_marker w.map) ≡ some (l, m)
      → flush_target L before w ≡ record w { target_marker = some l; map = m }
  unfolding flush_target
  flush_target-placed before w lat lng laws r s at changed placed =
      let pt = point_text lat lng in
      let differ : same_value before w.target_point ≡ false =
        ap (same_value before) at ∙ same_value_differ before (some pt) changed in
      let mark = λ (o : Option (L.Layer × L.World)).
        target_marked L (remove_layer L w.target_marker w.map) w o in
      let add =
        λ (a b : Num). L.add_marker a b (codes "Target") (remove_layer L w.target_marker w.map) in
      ap (λ b. if b then w else watch_target L w.target_point w) differ
      ∙ ap (λ o. watch_target L o w) at
      ∙ watch_target_lem pt w (append-ne-nil (n.show lat) (n.show lng) b' ')
      ∙ ap (λ a. mark (add a (coordinate pt 1))) (latitude-point_text laws lat lng r)
      ∙ ap (λ b. mark (add lat b)) (longitude-point_text laws lat lng s)
      ∙ ap mark placed

  -- A watcher is not called for a point that is the same as before.
  pub flush_start-same : (w : Window L) → flush_start L w.start_point w ≡ w
  unfolding flush_start
  flush_start-same w =
      ap (λ b. if b then w else watch_start L w.start_point w) (same_value_refl w.start_point)

  pub flush_target-same : (w : Window L) → flush_target L w.target_point w ≡ w
  unfolding flush_target
  flush_target-same w =
      ap (λ b. if b then w else watch_target L w.target_point w) (same_value_refl w.target_point)

  -- The parts of a window that one of the two points has.
  abbrev pub point_of : Bool → Window L → Option Text
  point_of true w = w.start_point
  point_of false w = w.target_point

  abbrev pub marker_of : Bool → Window L → Option L.Layer
  marker_of true w = w.start_marker
  marker_of false w = w.target_marker

  abbrev pub choice_of : Bool → Window L → Bool
  choice_of true w = w.choose_start_point_active
  choice_of false w = w.choose_target_point_active

  abbrev pub tooltip_of : Bool → Text
  tooltip_of true = codes "Start"
  tooltip_of false = codes "Target"

  pub start_clicked :
      (lat lng : Num) (w : Window L)
      → w.choose_start_point_active ≡ true
      → w.choose_target_point_active ≡ false
      → on_click L lat lng w
        ≡ record w { start_point = some (point_text lat lng); choose_start_point_active = false }
  unfolding on_click click_start click_target
  start_clicked lat lng w on off =
      let chosen : Window L = record w {
        start_point = some (point_text lat lng);
        choose_start_point_active = false;
      } in
      ap (λ b. click_target L lat lng (if b then chosen else w)) on
      ∙ ap
          (λ b.
            if b
            then record chosen {
              target_point = some (point_text lat lng);
              choose_target_point_active = false;
            }
            else chosen)
          off

  pub target_clicked :
      (lat lng : Num) (w : Window L)
      → w.choose_start_point_active ≡ false
      → w.choose_target_point_active ≡ true
      → on_click L lat lng w
        ≡ record w { target_point = some (point_text lat lng); choose_target_point_active = false }
  unfolding on_click click_start click_target
  target_clicked lat lng w off on =
      let chosen : Window L = record w {
        start_point = some (point_text lat lng);
        choose_start_point_active = false;
      } in
      ap (λ b. click_target L lat lng (if b then chosen else w)) off
      ∙ ap
          (λ b.
            if b
            then record w {
              target_point = some (point_text lat lng);
              choose_target_point_active = false;
            }
            else w)
          on
