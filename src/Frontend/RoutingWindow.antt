-- ===== src/Frontend/RoutingWindow.antt =====
-- vue-frontend/src/components/RoutingWindow.vue: choosing two points on a map, and the route
-- between them. A handler takes the window and returns it; one that throws leaves the window as
-- it was at that place. Vue calls the watchers of the points that changed after each handler.
pub mod Layers
pub mod Choosing
pub mod Watching
pub mod Placing
pub mod Marking
pub mod Requests
pub mod Answers
use fapra_osm_routing.Prelude.{
  Bool, true, false, List, [], ◌∷◌, ◌++◌, Option, none, some, if◌then◌else◌,
}
use fapra_osm_routing.Frontend.Text.{Text, codes, same_value}
use fapra_osm_routing.Frontend.Numbers.{Numbers}
use fapra_osm_routing.Frontend.Leaflet.{Leaflet}
use fapra_osm_routing.Frontend.Request.{Request, point_text, coordinate, request_of}

-- The server's answer, as far as the page reads it; the path may be null.
pub record Response (Num : Type 0) : Type 0 where
  pub route_found : Bool
  pub overall_distance : Num
  pub calculation_time_in_ms : Num
  pub path_coordinates : Option (List (Num × Num))

-- The message boxes.
pub data Alert (Num : Type 0) : Type 0 where
  found_alert : Num → Num → Alert Num
  not_found_alert : Num → Alert Num
  error_alert : Alert Num

-- A handler that ended, or threw.
pub data Attempt (W : Type 0) : Type 0 where
  finished : W → Attempt W
  threw : W → Attempt W

-- What happens to the page: the user types a point, presses a button or clicks on the map, and
-- the answer to a request comes in or the request fails.
pub data Event (Num : Type 0) : Type 0 where
  type_start : Text → Event Num
  type_target : Text → Event Num
  press_select : Bool → Event Num
  press_calculate : Event Num
  click : Num → Num → Event Num
  answered : Response Num → Event Num
  failed : Event Num

module _ {Num : Type 0} ⦃n : Numbers Num⦄ (L : Leaflet Num) where
  -- data() of the component; the last three are responseData, the requests that were posted and
  -- the alerts, the newest first.
  pub record Window : Type 0 where
    pub choose_start_point_active : Bool
    pub choose_target_point_active : Bool
    pub start_point : Option Text
    pub start_marker : Option L.Layer
    pub target_point : Option Text
    pub target_marker : Option L.Layer
    pub route : Option L.Layer
    pub map : L.World
    pub response_data : Option (Response Num)
    pub requests : List (Request Num)
    pub alerts : List (Alert Num)

  -- data(), and then mounted() with setupLeafletMap.
  unfoldable pub mounted : Window
  mounted = record {
    choose_start_point_active = false;
    choose_target_point_active = false;
    start_point = none;
    start_marker = none;
    target_point = none;
    target_marker = none;
    route = none;
    map = L.set_up.1;
    response_data = none;
    requests = [];
    alerts = [];
  }

  unfoldable pub choose_point_on_map : Bool → Window → Window
  choose_point_on_map true w = record w {
    choose_start_point_active = true;
    choose_target_point_active = false;
  }
  choose_point_on_map false w = record w {
    choose_start_point_active = false;
    choose_target_point_active = true;
  }

  -- `:disabled` of the two buttons "Select on map".
  abbrev pub select_disabled : Bool → Window → Bool
  select_disabled true w = w.choose_start_point_active
  select_disabled false w = w.choose_target_point_active

  -- A click on one of them; it does not reach a disabled button.
  unfoldable pub select_on_map : Bool → Window → Window
  unfolding choose_point_on_map
  select_on_map is_start w =
      if select_disabled is_start w then w else choose_point_on_map is_start w

  click_start : Num → Num → Window → Window
  click_start lat lng w =
      if w.choose_start_point_active
      then record w { start_point = some (point_text lat lng); choose_start_point_active = false }
      else w

  click_target : Num → Num → Window → Window
  click_target lat lng w =
      if w.choose_target_point_active
      then record w { target_point = some (point_text lat lng); choose_target_point_active = false }
      else w

  -- The handler of the map's clicks: two tests, one after the other.
  unfoldable pub on_click : Num → Num → Window → Window
  unfolding click_start click_target
  on_click lat lng w = click_target lat lng (click_start lat lng w)

  -- A point that is null has no `split`: the handler throws before it posts a request.
  unfoldable pub calc_route : Option Text → Option Text → Window → Window
  calc_route (some start_point) (some target_point) w = record w {
    requests = request_of start_point target_point ∷ w.requests;
  }
  calc_route _ _ w = w

  -- `layer.remove()` where the layer is not null.
  abbrev pub remove_layer : Option L.Layer → L.World → L.World
  remove_layer none m = m
  remove_layer (some l) m = L.remove l m

  abbrev pub popup_text : Num → Text
  popup_text distance = codes "Distance: " ++ n.show distance ++ codes "m"

  -- The line on the map, or else Leaflet's error; the line before is gone in either case.
  abbrev pub routed : L.World → Window → Option (L.Layer × L.World) → Attempt Window
  routed m w none = threw (record w { map = m })
  routed m w (some (l, m')) = finished (record w { route = some l; map = m' })

  unfoldable pub add_route : List (Num × Num) → Num → Window → Attempt Window
  add_route lat_longs_array distance w =
      let m = remove_layer w.route w.map in
      routed m w (L.add_polyline lat_longs_array (popup_text distance) m)

  abbrev pub last_of : Num × Num → List (Num × Num) → Num × Num
  last_of c [] = c
  last_of c (d ∷ ds) = last_of d ds

  -- The end of the handler of an answer. The first point of a path that is null or empty cannot
  -- be read: that throws before anything is assigned.
  unfoldable pub show_path : Option (List (Num × Num)) → Num → Window → Attempt Window
  unfolding add_route
  show_path none distance w = threw w
  show_path (some []) distance w = threw w
  show_path (some (c ∷ cs)) distance w =
      let d = last_of c cs in
      add_route (c ∷ cs) distance (record w {
        start_point = some (point_text c.0 c.1);
        target_point = some (point_text d.0 d.1);
      })

  -- The handler of an answer.
  unfoldable pub on_response : Response Num → Window → Attempt Window
  unfolding show_path
  on_response r w =
      let w' = record w { response_data = some r } in
      if r.route_found
      then show_path r.path_coordinates r.overall_distance (record w' {
        alerts = found_alert r.overall_distance r.calculation_time_in_ms ∷ w.alerts;
      })
      else finished (record w' { alerts = not_found_alert r.calculation_time_in_ms ∷ w.alerts })

  -- The handler of errors, of the request or of the handler before.
  unfoldable pub on_error : Attempt Window → Window
  on_error (finished w) = w
  on_error (threw w) = record w { alerts = error_alert ∷ w.alerts }

  -- The new marker, or else Leaflet's error; the marker before is gone in either case.
  abbrev pub start_marked : L.World → Window → Option (L.Layer × L.World) → Window
  start_marked m w none = record w { map = m }
  start_marked m w (some (l, m')) = record w { start_marker = some l; map = m' }

  abbrev pub target_marked : L.World → Window → Option (L.Layer × L.World) → Window
  target_marked m w none = record w { map = m }
  target_marked m w (some (l, m')) = record w { target_marker = some l; map = m' }

  -- The watcher of the start point. An empty text is falsy.
  unfoldable pub watch_start : Option Text → Window → Window
  watch_start none w = w
  watch_start (some []) w = w
  watch_start (some (c ∷ s)) w =
      let m = remove_layer w.start_marker w.map in
      start_marked m w
        (L.add_marker (coordinate (c ∷ s) 0) (coordinate (c ∷ s) 1) (codes "Start") m)

  unfoldable pub watch_target : Option Text → Window → Window
  watch_target none w = w
  watch_target (some []) w = w
  watch_target (some (c ∷ s)) w =
      let m = remove_layer w.target_marker w.map in
      target_marked m w
        (L.add_marker (coordinate (c ∷ s) 0) (coordinate (c ∷ s) 1) (codes "Target") m)

  -- Vue calls the watchers of the values that differ, in their order. One that throws does not
  -- keep the other from its call.
  unfoldable pub flush_start : Option Text → Window → Window
  unfolding watch_start
  flush_start before w = if same_value before w.start_point then w else watch_start w.start_point w

  unfoldable pub flush_target : Option Text → Window → Window
  unfolding watch_target
  flush_target before w =
      if same_value before w.target_point then w else watch_target w.target_point w

  unfoldable pub flush : Window → Window → Window
  unfolding flush_start flush_target
  flush before w = flush_target before.target_point (flush_start before.start_point w)

  -- The handler of an event, without the watchers.
  unfoldable pub dispatch : Event Num → Window → Window
  unfolding select_on_map on_click calc_route on_response on_error
  dispatch (type_start t) w = record w { start_point = some t }
  dispatch (type_target t) w = record w { target_point = some t }
  dispatch (press_select is_start) w = select_on_map is_start w
  dispatch press_calculate w = calc_route w.start_point w.target_point w
  dispatch (click lat lng) w = on_click lat lng w
  dispatch (answered r) w = on_error (on_response r w)
  dispatch failed w = on_error (threw w)

  unfoldable pub handle : Event Num → Window → Window
  unfolding dispatch flush
  handle e w = flush w (dispatch e w)

  unfoldable pub run : List (Event Num) → Window → Window
  unfolding handle
  run [] w = w
  run (e ∷ es) w = run es (handle e w)
