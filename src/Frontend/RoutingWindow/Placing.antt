-- ===== src/Frontend/RoutingWindow/Placing.antt =====
-- Choosing a point: the button, and then a click on the map.
use fapra_osm_routing.Prelude.{
  ◌≡◌, inl, inr, refl, ap, sym, ◌∙◌, subst, Bool, true, false, not, ◌&&◌, [], ◌∷◌, some, Bool-cases,
  if◌then◌else◌,
}
use fapra_osm_routing.Frontend.Numbers.{Numbers}
use fapra_osm_routing.Frontend.Leaflet.{Leaflet}
use fapra_osm_routing.Frontend.Request.{point_text}
use fapra_osm_routing.Frontend.RoutingWindow.{
  press_select, click, Window, choose_point_on_map, select_on_map, flush, dispatch, handle, run,
}
use fapra_osm_routing.Frontend.RoutingWindow.Choosing.{point_of, start_clicked, target_clicked}
use fapra_osm_routing.Frontend.RoutingWindow.Layers.{IsConsistent}
use fapra_osm_routing.Frontend.RoutingWindow.Watching.{flush-SameButMarkers, flush-same}

module _ {Num : Type 0} ⦃n : Numbers Num⦄ (L : Leaflet Num) where
  -- The window `v` after a place was clicked for one of the points of the window `w`.
  pub record IsChosen (is_start : Bool) (lat lng : Num) (w v : Window L) : Type 0 where
    pub point : point_of L is_start v ≡ some (point_text lat lng)
    pub start_choice : v.choose_start_point_active ≡ false
    pub target_choice : v.choose_target_point_active ≡ false
    pub other_point : point_of L (not is_start) v ≡ point_of L (not is_start) w
    pub same_route : v.route ≡ w.route
    pub same_requests : v.requests ≡ w.requests
    pub same_alerts : v.alerts ≡ w.alerts

  -- The button was pressed.
  abbrev selected : Bool → Window L → Window L
  selected b w = record w { choose_start_point_active = b; choose_target_point_active = not b }

  selected-same :
      (b : Bool) (w : Window L)
      → w.choose_start_point_active ≡ b
      → w.choose_target_point_active ≡ not b
      → w ≡ selected b w
  selected-same b w e f =
      ap (λ x. record w { choose_start_point_active = x }) e
      ∙ ap (λ y. record w { choose_start_point_active = b; choose_target_point_active = y }) f

  select_on_map_lem :
      (b : Bool) (w : Window L)
      → (w.choose_start_point_active && w.choose_target_point_active) ≡ false
      → select_on_map L b w ≡ selected b w
  unfolding select_on_map choose_point_on_map
  select_on_map_lem true w one = elim (Bool-cases w.choose_start_point_active) [
    | inl on ↦
        ap (λ x. if x then w else selected true w) on
        ∙ selected-same true w on (ap (λ x. x && w.choose_target_point_active) (sym on) ∙ one)
    | inr off ↦ ap (λ x. if x then w else selected true w) off
  ]
  select_on_map_lem false w one = elim (Bool-cases w.choose_target_point_active) [
    | inl on ↦
        ap (λ x. if x then w else selected false w) on
        ∙ selected-same false w
            (and_true w.choose_start_point_active
              (ap (λ x. w.choose_start_point_active && x) (sym on) ∙ one))
            on
    | inr off ↦ ap (λ x. if x then w else selected false w) off
  ]
    where
      and_true : (b : Bool) → (b && true) ≡ false → b ≡ false
      and_true true e = e
      and_true false e = refl

  select_handled :
      (b : Bool) (w : Window L) → IsConsistent L w → handle L (press_select b) w ≡ selected b w
  unfolding handle dispatch
  select_handled b w h =
      ap (flush L w) (select_on_map_lem b w h.one_choice) ∙ flush-same L w (selected b w) refl refl

  -- What the click writes.
  abbrev pub chosen : Bool → Num → Num → Window L → Window L
  chosen true lat lng w = record w {
    start_point = some (point_text lat lng);
    choose_start_point_active = false;
    choose_target_point_active = false;
  }
  chosen false lat lng w = record w {
    target_point = some (point_text lat lng);
    choose_start_point_active = false;
    choose_target_point_active = false;
  }

  click_handled :
      (b : Bool) (lat lng : Num) (w : Window L)
      → handle L (click lat lng) (selected b w) ≡ flush L w (chosen b lat lng w)
  unfolding handle dispatch flush
  click_handled true lat lng w =
      ap (flush L (selected true w)) (start_clicked L lat lng (selected true w) refl refl)
  click_handled false lat lng w =
      ap (flush L (selected false w)) (target_clicked L lat lng (selected false w) refl refl)

  -- The window before the watchers run is known.
  pub select_click_handled :
      (b : Bool) (lat lng : Num) (w : Window L)
      → IsConsistent L w
      → run L (press_select b ∷ click lat lng ∷ []) w ≡ flush L w (chosen b lat lng w)
  unfolding run
  select_click_handled b lat lng w h =
      ap (handle L (click lat lng)) (select_handled b w h) ∙ click_handled b lat lng w

  -- In a consistent window, after the button of the start or of the target a click sets this point
  -- to the text of the clicked place and ends the choice of either point; the other point, the
  -- route, the requests and the alerts stay.
  pub choose_click-IsChosen :
      (b : Bool) (lat lng : Num) (w : Window L)
      → IsConsistent L w
      → IsChosen b lat lng w (run L (press_select b ∷ click lat lng ∷ []) w)
  choose_click-IsChosen b lat lng w h =
      subst (IsChosen b lat lng w) (sym (select_click_handled b lat lng w h)) (by_point b)
    where
      by_point : (b : Bool) → IsChosen b lat lng w (flush L w (chosen b lat lng w))
      by_point true =
          let same = flush-SameButMarkers L w (chosen true lat lng w) in
          record {
            point = same.start;
            start_choice = same.start_choice;
            target_choice = same.target_choice;
            other_point = same.target;
            same_route = same.route;
            same_requests = same.requests;
            same_alerts = same.alerts;
          }
      by_point false =
          let same = flush-SameButMarkers L w (chosen false lat lng w) in
          record {
            point = same.target;
            start_choice = same.start_choice;
            target_choice = same.target_choice;
            other_point = same.start;
            same_route = same.route;
            same_requests = same.requests;
            same_alerts = same.alerts;
          }
