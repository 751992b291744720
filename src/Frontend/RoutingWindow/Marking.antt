-- ===== src/Frontend/RoutingWindow/Marking.antt =====
-- The marker of a point that was chosen on the map.
use fapra_osm_routing.Prelude.{
  ◌≡◌, ◌≢◌, ◌⊎◌, inl, inr, refl, ap, sym, ◌∙◌, subst, Bool, true, false, not, [], ◌∷◌, some,
}
use fapra_osm_routing.Frontend.Numbers.{Numbers, ReadsBack}
use fapra_osm_routing.Frontend.Numbers
use fapra_osm_routing.Frontend.Leaflet.{Leaflet, marker_at}
use fapra_osm_routing.Frontend.Leaflet
use fapra_osm_routing.Frontend.Request.{point_text}
use fapra_osm_routing.Frontend.RoutingWindow.{
  press_select, click, Window, remove_layer, flush_target, flush, run,
}
use fapra_osm_routing.Frontend.RoutingWindow.Choosing.{
  flush_start-placed, flush_target-placed, flush_start-same, flush_target-same, point_of, marker_of,
  tooltip_of,
}
use fapra_osm_routing.Frontend.RoutingWindow.Layers.{
  IsConsistent, remove_layer-Shown, remove_layer-kept,
}
use fapra_osm_routing.Frontend.RoutingWindow.Placing.{chosen, select_click_handled}

module _ {Num : Type 0} ⦃n : Numbers Num⦄ (L : Leaflet Num) where
  -- The marker of the point is at the place, and the rest of the map is the same.
  pub record IsPlaced (is_start : Bool) (lat lng : Num) (w v : Window L) : Type 0 where
    pub layer : L.Layer
    pub marker : marker_of L is_start v ≡ some layer
    pub shown : L.Shown v.map layer
    pub content : L.content layer ≡ marker_at lat lng (tooltip_of L is_start)
    pub other_marker : marker_of L (not is_start) v ≡ marker_of L (not is_start) w
    pub others :
        (k : L.Layer)
        → L.Shown v.map k
        → (L.Shown w.map k × (marker_of L is_start w ≢ some k)) ⊎ (k ≡ layer)
    pub kept : (k : L.Layer) → L.Shown w.map k → marker_of L is_start w ≢ some k → L.Shown v.map k

  -- The map and the marker after the watcher ran.
  abbrev marked : Bool → L.Layer → L.World → Window L → Window L
  marked true l m w = record w { start_marker = some l; map = m }
  marked false l m w = record w { target_marker = some l; map = m }

  marked-IsPlaced :
      (b : Bool) (lat lng : Num) (w : Window L) {l : L.Layer} {m : L.World}
      → Leaflet.IsLawful L
      → L.add_marker lat lng (tooltip_of L b) (remove_layer L (marker_of L b w) w.map) ≡ some (l, m)
      → IsPlaced b lat lng w (marked b l m (chosen L b lat lng w))
  marked-IsPlaced true lat lng w {l} laws placed = record {
    layer = l;
    marker = refl;
    shown = (laws.marker_added lat lng _ _ placed).0;
    content = (laws.marker_added lat lng _ _ placed).1;
    other_marker = refl;
    others = λ k s. elim ((laws.marker_others lat lng _ _ placed k).0 s) [
      | inl old ↦ inl (remove_layer-Shown L laws w.start_marker w.map k old)
      | inr new ↦ inr new
    ];
    kept = λ k s differ.
        ((laws.marker_others lat lng _ _ placed k).1
          (remove_layer-kept L laws w.start_marker w.map k s differ)).0;
  }
  marked-IsPlaced false lat lng w {l} laws placed = record {
    layer = l;
    marker = refl;
    shown = (laws.marker_added lat lng _ _ placed).0;
    content = (laws.marker_added lat lng _ _ placed).1;
    other_marker = refl;
    others = λ k s. elim ((laws.marker_others lat lng _ _ placed k).0 s) [
      | inl old ↦ inl (remove_layer-Shown L laws w.target_marker w.map k old)
      | inr new ↦ inr new
    ];
    kept = λ k s differ.
        ((laws.marker_others lat lng _ _ placed k).1
          (remove_layer-kept L laws w.target_marker w.map k s differ)).0;
  }

  flush-marked :
      (b : Bool) (lat lng : Num) (w : Window L) {l : L.Layer} {m : L.World}
      → Numbers.IsLawful Num
      → ReadsBack lat
      → ReadsBack lng
      → point_of L b w ≢ some (point_text lat lng)
      → L.add_marker lat lng (tooltip_of L b) (remove_layer L (marker_of L b w) w.map) ≡ some (l, m)
      → flush L w (chosen L b lat lng w) ≡ marked b l m (chosen L b lat lng w)
  unfolding flush
  flush-marked true lat lng w {l} {m} laws r s changed placed =
      ap (flush_target L w.target_point) (
        flush_start-placed L w.start_point (chosen L true lat lng w) lat lng laws r s refl changed
          placed)
      ∙ flush_target-same L (marked true l m (chosen L true lat lng w))
  flush-marked false lat lng w {l} {m} laws r s changed placed =
      ap (flush_target L w.target_point) (flush_start-same L (chosen L false lat lng w))
      ∙ flush_target-placed L w.target_point (chosen L false lat lng w) lat lng laws r s refl
          changed placed

  -- In a consistent window, for the start or the target: after its button and then a click at
  -- coordinates whose texts read back, where the point's text changes and Leaflet accepts the
  -- marker, the window has a marker for this point that is on the map, at these coordinates and
  -- with the point's tooltip; the other marker is the one from before; and apart from the new
  -- marker the map shows just the layers from before, less the point's old marker. The numbers and
  -- the map library are as documented.
  pub choose_click-IsPlaced :
      (b : Bool) (lat lng : Num) (w : Window L) {l : L.Layer} {m : L.World}
      → Numbers.IsLawful Num
      → Leaflet.IsLawful L
      → ReadsBack lat
      → ReadsBack lng
      → IsConsistent L w
      → point_of L b w ≢ some (point_text lat lng)
      → L.add_marker lat lng (tooltip_of L b) (remove_layer L (marker_of L b w) w.map) ≡ some (l, m)
      → IsPlaced b lat lng w (run L (press_select b ∷ click lat lng ∷ []) w)
  choose_click-IsPlaced b lat lng w numbers laws r s h changed placed =
      subst (IsPlaced b lat lng w)
        (sym (
          select_click_handled L b lat lng w h
          ∙ flush-marked b lat lng w numbers r s changed placed))
        (marked-IsPlaced b lat lng w laws placed)
