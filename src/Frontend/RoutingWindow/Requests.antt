-- ===== src/Frontend/RoutingWindow/Requests.antt =====
-- The requests that the page posts.
use fapra_osm_routing.Prelude.{
  ◌≡◌, ◌≢◌, inl, inr, refl, ap, ◌∙◌, Bool, true, false, List, [], ◌∷◌, Option, none, some, All,
  Bool-cases, if◌then◌else◌,
}
use fapra_osm_routing.Frontend.Text.{Text}
use fapra_osm_routing.Frontend.Numbers.{Numbers, ReadsBack}
use fapra_osm_routing.Frontend.Numbers
use fapra_osm_routing.Frontend.Leaflet.{Leaflet}
use fapra_osm_routing.Frontend.Leaflet
use fapra_osm_routing.Frontend.Longitude.{text, number, sanitize_longitude}
use fapra_osm_routing.Frontend.Request.{Request, point_text, request_of}
use fapra_osm_routing.Frontend.Request.Points.{request_of-point_text}
use fapra_osm_routing.Frontend.RoutingWindow.{
  Response, Attempt, finished, threw, Event, type_start, type_target, press_select, press_calculate,
  click, answered, failed, Window, choose_point_on_map, select_on_map, click_start, click_target,
  on_click, calc_route, remove_layer, popup_text, last_of, routed, add_route, show_path,
  on_response, on_error, dispatch, handle, run,
}
use fapra_osm_routing.Frontend.RoutingWindow.Layers.{IsConsistent, run_from-IsConsistent}
use fapra_osm_routing.Frontend.RoutingWindow.Watching.{flush-SameButMarkers}
use fapra_osm_routing.Frontend.RoutingWindow.Placing.{choose_click-IsChosen}

module _ {Num : Type 0} ⦃n : Numbers Num⦄ (L : Leaflet Num) where
  calculate-requests :
      {s t : Text} (w : Window L)
      → w.start_point ≡ some s
      → w.target_point ≡ some t
      → (handle L press_calculate w).requests ≡ request_of s t ∷ w.requests
  unfolding handle dispatch calc_route
  calculate-requests {s} {t} w e f =
      (flush-SameButMarkers L w (calc_route L w.start_point w.target_point w)).requests
      ∙ ap (λ o. (calc_route L o w.target_point w).requests) e
      ∙ ap (λ o. (calc_route L (some s) o w).requests) f

  -- In a consistent window, choosing the start at (a, b) and then the target at (c, d) on the map
  -- and pressing "Calculate route" posts exactly one request, whose latitudes are a and c, whose
  -- end longitude is d sanitized, and whose start longitude is the text of b sanitized; the texts
  -- of a, c and d read back, and the numbers and the map library are as documented.
  pub choose_both-requests :
      (w : Window L) (a b c d : Num)
      → Numbers.IsLawful Num
      → Leaflet.IsLawful L
      → ReadsBack a
      → ReadsBack c
      → ReadsBack d
      → IsConsistent L w
      → (run L
          (press_select true ∷ click a b ∷ press_select false ∷ click c d ∷ press_calculate ∷ [])
          w).requests
        ≡ record {
          start_latitude = a;
          start_longitude = sanitize_longitude (text (n.show b));
          end_latitude = c;
          end_longitude = sanitize_longitude (number d);
        }
          ∷ w.requests
  unfolding run
  choose_both-requests w a b c d numbers laws r s t h =
      let v = run L (press_select true ∷ click a b ∷ []) w in
      let u = run L (press_select false ∷ click c d ∷ []) v in
      let first = choose_click-IsChosen L true a b w h in
      let second =
        choose_click-IsChosen L false c d v
          (run_from-IsConsistent L laws (press_select true ∷ click a b ∷ []) w h) in
      let asked : Request Num = record {
        start_latitude = a;
        start_longitude = sanitize_longitude (text (n.show b));
        end_latitude = c;
        end_longitude = sanitize_longitude (number d);
      } in
      calculate-requests u (second.other_point ∙ first.point) second.point
      ∙ ap (λ q. q ∷ u.requests) (request_of-point_text numbers a b c d r s t)
      ∙ ap (λ qs. asked ∷ qs) (second.same_requests ∙ first.same_requests)

  abbrev Keeps : Window L → Window L → Type 0
  Keeps w v = v.requests ≡ w.requests

  Keeps-if : (b : Bool) (w u v : Window L) → Keeps w u → Keeps w v → Keeps w (if b then u else v)
  Keeps-if true w u v h k = h
  Keeps-if false w u v h k = k

  abbrev KeepsBoth : Window L → Attempt (Window L) → Type 0
  KeepsBoth w (finished v) = Keeps w v
  KeepsBoth w (threw v) = Keeps w v

  routed-Keeps :
      (m : L.World) (w : Window L) (o : Option (L.Layer × L.World)) → KeepsBoth w (routed L m w o)
  routed-Keeps m w none = refl
  routed-Keeps m w (some (l, m')) = refl

  show_path-Keeps :
      (o : Option (List (Num × Num))) (d : Num) (w : Window L) → KeepsBoth w (show_path L o d w)
  unfolding show_path add_route
  show_path-Keeps none d w = refl
  show_path-Keeps (some []) d w = refl
  show_path-Keeps (some (c ∷ cs)) d w =
      let m = remove_layer L w.route w.map in
      let e = last_of L c cs in
      routed-Keeps m
        (record w {
          start_point = some (point_text c.0 c.1);
          target_point = some (point_text e.0 e.1);
        })
        (L.add_polyline (c ∷ cs) (popup_text L d) m)

  on_error-Keeps : (w : Window L) (a : Attempt (Window L)) → KeepsBoth w a → Keeps w (on_error L a)
  unfolding on_error
  on_error-Keeps w (finished v) h = h
  on_error-Keeps w (threw v) h = h

  on_response-Keeps : (r : Response Num) (w : Window L) → Keeps w (on_error L (on_response L r w))
  unfolding on_response on_error
  on_response-Keeps r w = elim (Bool-cases r.route_found) [
    | inl yes_found ↦ rw yes_found (on_error-Keeps w _ (show_path-Keeps r.path_coordinates _ _))
    | inr not_found ↦ rw not_found refl
  ]

  choose_point_on_map-Keeps : (b : Bool) (w : Window L) → Keeps w (choose_point_on_map L b w)
  unfolding choose_point_on_map
  choose_point_on_map-Keeps true w = refl
  choose_point_on_map-Keeps false w = refl

  select_on_map-Keeps : (b : Bool) (w : Window L) → Keeps w (select_on_map L b w)
  unfolding select_on_map
  select_on_map-Keeps true w =
      Keeps-if w.choose_start_point_active w _ _ refl (choose_point_on_map-Keeps true w)
  select_on_map-Keeps false w =
      Keeps-if w.choose_target_point_active w _ _ refl (choose_point_on_map-Keeps false w)

  on_click-Keeps : (lat lng : Num) (w : Window L) → Keeps w (on_click L lat lng w)
  unfolding on_click click_start click_target
  on_click-Keeps lat lng w =
      Keeps-if (click_start L lat lng w).choose_target_point_active (click_start L lat lng w) _ _
        refl refl
      ∙ Keeps-if w.choose_start_point_active w _ _ refl refl

  dispatch-Keeps : (e : Event Num) (w : Window L) → e ≢ press_calculate → Keeps w (dispatch L e w)
  unfolding dispatch on_error
  dispatch-Keeps (type_start t) w h = refl
  dispatch-Keeps (type_target t) w h = refl
  dispatch-Keeps (press_select b) w h = select_on_map-Keeps b w
  dispatch-Keeps press_calculate w h = absurd (h refl)
  dispatch-Keeps (click lat lng) w h = on_click-Keeps lat lng w
  dispatch-Keeps (answered r) w h = on_response-Keeps r w
  dispatch-Keeps failed w h = refl

  -- In every window, a sequence of events in which "Calculate route" is not pressed posts no
  -- request.
  pub run-requests :
      (es : List (Event Num)) (w : Window L)
      → All (λ e. e ≢ press_calculate) es
      → (run L es w).requests ≡ w.requests
  unfolding run handle
  run-requests [] w h = refl
  run-requests (e ∷ es) w (h, hs) =
      run-requests es (handle L e w) hs
      ∙ (flush-SameButMarkers L w (dispatch L e w)).requests
      ∙ dispatch-Keeps e w h
