-- ===== src/Frontend/RoutingWindow/Watching.antt =====
-- What the watchers of the two points leave as it is.
use fapra_osm_routing.Prelude.{
  ◌≡◌, refl, ap, sym, ◌∙◌, Bool, true, false, [], ◌∷◌, Option, none, some, if◌then◌else◌,
}
use fapra_osm_routing.Frontend.Text.{Text, same_value}
use fapra_osm_routing.Frontend.Numbers.{Numbers}
use fapra_osm_routing.Frontend.Leaflet.{Leaflet}
use fapra_osm_routing.Frontend.RoutingWindow.{
  Window, start_marked, target_marked, watch_start, watch_target, flush_start, flush_target, flush,
}
use fapra_osm_routing.Frontend.RoutingWindow.Choosing.{flush_start-same, flush_target-same}

module _ {Num : Type 0} ⦃n : Numbers Num⦄ (L : Leaflet Num) where
  -- All but the markers and the map is the same.
  pub record SameButMarkers (w v : Window L) : Type 0 where
    pub start_choice : v.choose_start_point_active ≡ w.choose_start_point_active
    pub target_choice : v.choose_target_point_active ≡ w.choose_target_point_active
    pub start : v.start_point ≡ w.start_point
    pub target : v.target_point ≡ w.target_point
    pub route : v.route ≡ w.route
    pub requests : v.requests ≡ w.requests
    pub alerts : v.alerts ≡ w.alerts
    pub response_data : v.response_data ≡ w.response_data

  abbrev unchanged : (w : Window L) → SameButMarkers w w
  unchanged w = record {
    start_choice = refl;
    target_choice = refl;
    start = refl;
    target = refl;
    route = refl;
    requests = refl;
    alerts = refl;
    response_data = refl;
  }

  start_marked-SameButMarkers :
      (m : L.World) (w : Window L) (o : Option (L.Layer × L.World))
      → SameButMarkers w (start_marked L m w o)
  start_marked-SameButMarkers m w none = record {
    start_choice = refl;
    target_choice = refl;
    start = refl;
    target = refl;
    route = refl;
    requests = refl;
    alerts = refl;
    response_data = refl;
  }
  start_marked-SameButMarkers m w (some (l, m')) = record {
    start_choice = refl;
    target_choice = refl;
    start = refl;
    target = refl;
    route = refl;
    requests = refl;
    alerts = refl;
    response_data = refl;
  }

  target_marked-SameButMarkers :
      (m : L.World) (w : Window L) (o : Option (L.Layer × L.World))
      → SameButMarkers w (target_marked L m w o)
  target_marked-SameButMarkers m w none = record {
    start_choice = refl;
    target_choice = refl;
    start = refl;
    target = refl;
    route = refl;
    requests = refl;
    alerts = refl;
    response_data = refl;
  }
  target_marked-SameButMarkers m w (some (l, m')) = record {
    start_choice = refl;
    target_choice = refl;
    start = refl;
    target = refl;
    route = refl;
    requests = refl;
    alerts = refl;
    response_data = refl;
  }

  flush_start-SameButMarkers :
      (before : Option Text) (w : Window L) → SameButMarkers w (flush_start L before w)
  unfolding flush_start watch_start
  flush_start-SameButMarkers before w = by_test (same_value before w.start_point) w.start_point
    where
      by_test : (b : Bool) (p : Option Text) → SameButMarkers w (if b then w else watch_start L p w)
      by_test true p = unchanged w
      by_test false none = unchanged w
      by_test false (some []) = unchanged w
      by_test false (some (c ∷ s)) = start_marked-SameButMarkers _ w _

  flush_target-SameButMarkers :
      (before : Option Text) (w : Window L) → SameButMarkers w (flush_target L before w)
  unfolding flush_target watch_target
  flush_target-SameButMarkers before w = by_test (same_value before w.target_point) w.target_point
    where
      by_test :
          (b : Bool) (p : Option Text) → SameButMarkers w (if b then w else watch_target L p w)
      by_test true p = unchanged w
      by_test false none = unchanged w
      by_test false (some []) = unchanged w
      by_test false (some (c ∷ s)) = target_marked-SameButMarkers _ w _

  -- The watchers leave all but the markers and the map as it is.
  pub flush-SameButMarkers : (before w : Window L) → SameButMarkers w (flush L before w)
  unfolding flush
  flush-SameButMarkers before w =
      let a = flush_start-SameButMarkers before.start_point w in
      let b =
        flush_target-SameButMarkers before.target_point (flush_start L before.start_point w) in
      record {
        start_choice = b.start_choice ∙ a.start_choice;
        target_choice = b.target_choice ∙ a.target_choice;
        start = b.start ∙ a.start;
        target = b.target ∙ a.target;
        route = b.route ∙ a.route;
        requests = b.requests ∙ a.requests;
        alerts = b.alerts ∙ a.alerts;
        response_data = b.response_data ∙ a.response_data;
      }

  -- No watcher runs where the points stay.
  pub flush-same :
      (w v : Window L)
      → v.start_point ≡ w.start_point
      → v.target_point ≡ w.target_point
      → flush L w v ≡ v
  unfolding flush
  flush-same w v e f =
      ap (λ o. flush_target L w.target_point (flush_start L o v)) (sym e)
      ∙ ap (flush_target L w.target_point) (flush_start-same L v)
      ∙ ap (λ o. flush_target L o v) (sym f)
      ∙ flush_target-same L v
