-- ===== src/Frontend/RoutingWindow/Answers.antt =====
-- What the page does with the server's answer.
use fapra_osm_routing.Prelude.{
  ◌≡◌, ◌≢◌, refl, ap, sym, ◌∙◌, subst, Bool, true, false, ◌&&◌, List, [], ◌∷◌, ◌++◌, Option, none,
  some, if◌then◌else◌,
}
use fapra_osm_routing.Frontend.Text.{Text, same_value}
use fapra_osm_routing.Frontend.Numbers.{Numbers}
use fapra_osm_routing.Frontend.Leaflet.{Leaflet, IsLawful, line_along}
use fapra_osm_routing.Frontend.Request.{point_text}
use fapra_osm_routing.Frontend.RoutingWindow.{
  Response, Alert, found_alert, not_found_alert, error_alert, finished, answered, Window,
  remove_layer, popup_text, routed, start_marked, target_marked, add_route, last_of, show_path,
  on_response, on_error, watch_start, watch_target, flush_start, flush_target, flush, dispatch,
  handle,
}
use fapra_osm_routing.Frontend.RoutingWindow.Layers.{remove_layer-kept}
use fapra_osm_routing.Frontend.RoutingWindow.Watching.{flush-SameButMarkers, flush-same}

-- The path has a first point.
abbrev pub has_point : {Num : Type 0} → Option (List (Num × Num)) → Bool
has_point none = false
has_point (some []) = false
has_point (some (c ∷ cs)) = true

-- What an answer without a path tells the user, the last message first.
abbrev pub complaints : {Num : Type 0} → Response Num → List (Alert Num)
complaints r =
    if r.route_found
    then error_alert ∷ found_alert r.overall_distance r.calculation_time_in_ms ∷ []
    else not_found_alert r.calculation_time_in_ms ∷ []

module _ {Num : Type 0} ⦃n : Numbers Num⦄ (L : Leaflet Num) where
  -- The window `v` shows the route of the answer `r`, which came to the window `w`.
  pub record IsShown (r : Response Num) (c : Num × Num) (cs : List (Num × Num)) (w v : Window L)
      : Type 0 where
    pub start : v.start_point ≡ some (point_text c.0 c.1)
    pub target : v.target_point ≡ some (point_text (last_of L c cs).0 (last_of L c cs).1)
    pub layer : L.Layer
    pub route : v.route ≡ some layer
    pub shown : L.Shown v.map layer
    pub content : L.content layer ≡ line_along (c ∷ cs) (popup_text L r.overall_distance)
    pub response_data : v.response_data ≡ some r
    pub alerts : v.alerts ≡ found_alert r.overall_distance r.calculation_time_in_ms ∷ w.alerts
    pub requests : v.requests ≡ w.requests

  -- The window after the handler, before the watchers.
  abbrev told : Response Num → Window L → Window L
  told r w = record w {
    response_data = some r;
    alerts = found_alert r.overall_distance r.calculation_time_in_ms ∷ w.alerts;
  }

  abbrev with_points : Num × Num → List (Num × Num) → Window L → Window L
  with_points c cs w = record w {
    start_point = some (point_text c.0 c.1);
    target_point = some (point_text (last_of L c cs).0 (last_of L c cs).1);
  }

  abbrev with_route : L.Layer → L.World → Window L → Window L
  with_route l m w = record w { route = some l; map = m }

  module _ (r : Response Num) (w : Window L) where
    on_response-path :
        (c : Num × Num) (cs : List (Num × Num)) {l : L.Layer} {m : L.World}
        → r.route_found ≡ true
        → r.path_coordinates ≡ some (c ∷ cs)
        → L.add_polyline (c ∷ cs) (popup_text L r.overall_distance) (remove_layer L w.route w.map)
          ≡ some (l, m)
        → on_response L r w ≡ finished (with_route l m (with_points c cs (told r w)))
    unfolding on_response show_path add_route
    on_response-path c cs yes_found path drawn =
        ap
          (λ b.
            if b
            then show_path L r.path_coordinates r.overall_distance (told r w)
            else finished (record w {
              response_data = some r;
              alerts = not_found_alert r.calculation_time_in_ms ∷ w.alerts;
            }))
          yes_found
        ∙ ap (λ o. show_path L o r.overall_distance (told r w)) path
        ∙ ap (routed L (remove_layer L w.route w.map) (with_points c cs (told r w))) drawn

    -- An answer without a path: the handler ends early or throws.
    on_response-no_path :
        (r.route_found && has_point r.path_coordinates) ≡ false
        → on_error L (on_response L r w)
          ≡ record w { response_data = some r; alerts = complaints r ++ w.alerts }
    unfolding on_response on_error show_path
    on_response-no_path h = by_test r.route_found r.path_coordinates h
      where
        refused : Window L
        refused = record w {
          response_data = some r;
          alerts = not_found_alert r.calculation_time_in_ms ∷ w.alerts;
        }

        said : Bool → List (Alert Num)
        said b =
            if b
            then error_alert ∷ found_alert r.overall_distance r.calculation_time_in_ms ∷ []
            else not_found_alert r.calculation_time_in_ms ∷ []

        by_test :
            (b : Bool) (o : Option (List (Num × Num)))
            → (b && has_point o) ≡ false
            → on_error L
                (if b then show_path L o r.overall_distance (told r w) else finished refused)
              ≡ record w { response_data = some r; alerts = said b ++ w.alerts }
        by_test false o h = refl
        by_test true none h = refl
        by_test true (some []) h = refl
        by_test true (some (c ∷ cs)) h = absurd (cc)

  -- A layer that is no marker stays when the watchers run.
  module _ (laws : IsLawful L) (k : L.Layer) where
    start_marked-kept :
        (lat long : Num) (t : Text) (w : Window L) (o : Option (L.Layer × L.World))
        → w.start_marker ≢ some k
        → L.Shown w.map k
        → L.add_marker lat long t (remove_layer L w.start_marker w.map) ≡ o
        → L.Shown (start_marked L (remove_layer L w.start_marker w.map) w o).map k
    start_marked-kept lat long t w none differ s e =
        remove_layer-kept L laws w.start_marker w.map k s differ
    start_marked-kept lat long t w (some (l, m)) differ s e =
        ((laws.marker_others lat long t _ e k).1
          (remove_layer-kept L laws w.start_marker w.map k s differ)).0

    target_marked-kept :
        (lat long : Num) (t : Text) (w : Window L) (o : Option (L.Layer × L.World))
        → w.target_marker ≢ some k
        → L.Shown w.map k
        → L.add_marker lat long t (remove_layer L w.target_marker w.map) ≡ o
        → L.Shown (target_marked L (remove_layer L w.target_marker w.map) w o).map k
    target_marked-kept lat long t w none differ s e =
        remove_layer-kept L laws w.target_marker w.map k s differ
    target_marked-kept lat long t w (some (l, m)) differ s e =
        ((laws.marker_others lat long t _ e k).1
          (remove_layer-kept L laws w.target_marker w.map k s differ)).0

    flush_start-kept :
        (before : Option Text) (w : Window L)
        → w.start_marker ≢ some k
        → L.Shown w.map k
        → L.Shown (flush_start L before w).map k
          × ((flush_start L before w).target_marker ≡ w.target_marker)
    unfolding flush_start watch_start
    flush_start-kept before w differ s = by_test (same_value before w.start_point) w.start_point
      where
        target_same :
            (m : L.World) (o : Option (L.Layer × L.World))
            → (start_marked L m w o).target_marker ≡ w.target_marker
        target_same m none = refl
        target_same m (some (l, m')) = refl

        by_test :
            (b : Bool) (p : Option Text)
            → L.Shown (if b then w else watch_start L p w).map k
              × ((if b then w else watch_start L p w).target_marker ≡ w.target_marker)
        by_test true p = (s, refl)
        by_test false none = (s, refl)
        by_test false (some []) = (s, refl)
        by_test false (some (c ∷ t)) = (start_marked-kept _ _ _ w _ differ s refl, target_same _ _)

    flush_target-kept :
        (before : Option Text) (w : Window L)
        → w.target_marker ≢ some k
        → L.Shown w.map k
        → L.Shown (flush_target L before w).map k
    unfolding flush_target watch_target
    flush_target-kept before w differ s = by_test (same_value before w.target_point) w.target_point
      where
        by_test : (b : Bool) (p : Option Text) → L.Shown (if b then w else watch_target L p w).map k
        by_test true p = s
        by_test false none = s
        by_test false (some []) = s
        by_test false (some (c ∷ t)) = target_marked-kept _ _ _ w _ differ s refl

    flush-kept :
        (before w : Window L)
        → w.start_marker ≢ some k
        → w.target_marker ≢ some k
        → L.Shown w.map k
        → L.Shown (flush L before w).map k
    unfolding flush
    flush-kept before w start_differs target_differs s =
        let (first, same) = flush_start-kept before.start_point w start_differs s in
        flush_target-kept before.target_point _ (λ e. target_differs (sym same ∙ e)) first

  -- An answer with a found route and a path that has a first point, where Leaflet draws the path
  -- as a new layer that is none of the two markers: afterwards the points are the texts of the
  -- path's first and last place, the window's route is a layer on the map that shows the whole
  -- path with the distance in its popup, the answer is stored, one alert reports distance and
  -- time, and no request is posted. The map library is as documented.
  pub answered-IsShown :
      (r : Response Num) (w : Window L) (c : Num × Num) (cs : List (Num × Num)) {l : L.Layer}
      {m : L.World}
      → IsLawful L
      → r.route_found ≡ true
      → r.path_coordinates ≡ some (c ∷ cs)
      → L.add_polyline (c ∷ cs) (popup_text L r.overall_distance) (remove_layer L w.route w.map)
        ≡ some (l, m)
      → w.start_marker ≢ some l
      → w.target_marker ≢ some l
      → IsShown r c cs w (handle L (answered r) w)
  unfolding handle dispatch on_error
  answered-IsShown r w c cs {l} {m} laws yes_found path drawn no_start no_target =
      let v : Window L = with_route l m (with_points c cs (told r w)) in
      let same = flush-SameButMarkers L w v in
      subst (λ a. IsShown r c cs w (flush L w (on_error L a)))
        (sym (on_response-path r w c cs yes_found path drawn))
        (record {
          start = same.start;
          target = same.target;
          layer = l;
          route = same.route;
          shown =
              flush-kept laws l w v no_start no_target (laws.polyline_added (c ∷ cs) _ _ drawn).0;
          content = (laws.polyline_added (c ∷ cs) _ _ drawn).1;
          response_data = same.response_data;
          alerts = same.alerts;
          requests = same.requests;
        })

  -- An answer that has no route, or whose path is null or empty, changes only the stored answer
  -- and the alerts: the points, the markers, the route, the map and the requests stay, no watcher
  -- runs. Without a route there is the one alert that says so; with a route but no path, the alert
  -- for a found route and then the one for errors.
  pub answered-no_path :
      (r : Response Num) (w : Window L)
      → (r.route_found && has_point r.path_coordinates) ≡ false
      → handle L (answered r) w
        ≡ record w { response_data = some r; alerts = complaints r ++ w.alerts }
  unfolding handle dispatch
  answered-no_path r w h = ap (flush L w) (on_response-no_path r w h) ∙ flush-same L w _ refl refl
