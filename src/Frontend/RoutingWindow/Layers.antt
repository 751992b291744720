-- ===== src/Frontend/RoutingWindow/Layers.antt =====
-- What is on the map after every sequence of events.
use fapra_osm_routing.Prelude.{
  ◌≡◌, ◌≢◌, ◌⊎◌, inl, inr, refl, ap, sym, Bool, true, false, ◌&&◌, List, [], ◌∷◌, Option, none,
  some, Bool-cases, if◌then◌else◌,
}
use fapra_osm_routing.Frontend.Text.{Text, same_value}
use fapra_osm_routing.Frontend.Numbers.{Numbers}
use fapra_osm_routing.Frontend.Leaflet.{Leaflet, IsLawful}
use fapra_osm_routing.Frontend.RoutingWindow.{
  Response, Attempt, finished, threw, Event, type_start, type_target, press_select, press_calculate,
  click, answered, failed, Window, mounted, choose_point_on_map, select_on_map, click_start,
  click_target, on_click, calc_route, remove_layer, popup_text, routed, start_marked, target_marked,
  add_route, show_path, on_response, on_error, watch_start, watch_target, flush_start, flush_target,
  flush, dispatch, handle, run,
}

module _ {Num : Type 0} ⦃n : Numbers Num⦄ (L : Leaflet Num) where
  -- The layer is one that the page knows: the tiles, a marker or the route.
  abbrev pub Known : Window L → L.Layer → Type 0
  Known w k =
      (k ≡ L.set_up.0)
      ⊎ ((w.start_marker ≡ some k) ⊎ ((w.target_marker ≡ some k) ⊎ (w.route ≡ some k)))

  -- At most one point is being chosen, and the map shows known layers only.
  pub record IsConsistent (w : Window L) : Type 0 where
    pub one_choice : (w.choose_start_point_active && w.choose_target_point_active) ≡ false
    pub known : (k : L.Layer) → L.Shown w.map k → Known w k

  abbrev Both : Attempt (Window L) → Type 0
  Both (finished w) = IsConsistent w
  Both (threw w) = IsConsistent w

  module _ (laws : IsLawful L) where
    -- A removed layer is gone, and the others stay.
    pub remove_layer-Shown :
        (o : Option L.Layer) (m : L.World) (k : L.Layer)
        → L.Shown (remove_layer L o m) k
        → L.Shown m k × (o ≢ some k)
    remove_layer-Shown none m k h = (h, λ e. cc)
    remove_layer-Shown (some l) m k h =
        let (before, differ) = (laws.removed l m k).0 h in (before, λ e. differ (cc))

    pub remove_layer-kept :
        (o : Option L.Layer) (m : L.World) (k : L.Layer)
        → L.Shown m k
        → o ≢ some k
        → L.Shown (remove_layer L o m) k
    remove_layer-kept none m k h differ = h
    remove_layer-kept (some l) m k h differ =
        (laws.removed l m k).1 h (λ e. differ (ap some (sym e)))

    -- A layer that a window knows, and that is not the removed one.
    module _ (w : Window L) (h : IsConsistent w) (k : L.Layer) where
      not_start :
          L.Shown (remove_layer L w.start_marker w.map) k
          → (k ≡ L.set_up.0) ⊎ ((w.target_marker ≡ some k) ⊎ (w.route ≡ some k))
      not_start t =
          let (before, differ) = remove_layer-Shown w.start_marker w.map k t in
          elim (h.known k before) [
            | inl base ↦ inl base
            | inr (inl own) ↦ absurd (differ own)
            | inr (inr other) ↦ inr other
          ]

      not_target :
          L.Shown (remove_layer L w.target_marker w.map) k
          → (k ≡ L.set_up.0) ⊎ ((w.start_marker ≡ some k) ⊎ (w.route ≡ some k))
      not_target t =
          let (before, differ) = remove_layer-Shown w.target_marker w.map k t in
          elim (h.known k before) [
            | inl base ↦ inl base
            | inr (inl other) ↦ inr (inl other)
            | inr (inr (inl own)) ↦ absurd (differ own)
            | inr (inr (inr other)) ↦ inr (inr other)
          ]

      not_route :
          L.Shown (remove_layer L w.route w.map) k
          → (k ≡ L.set_up.0) ⊎ ((w.start_marker ≡ some k) ⊎ (w.target_marker ≡ some k))
      not_route t =
          let (before, differ) = remove_layer-Shown w.route w.map k t in
          elim (h.known k before) [
            | inl base ↦ inl base
            | inr (inl other) ↦ inr (inl other)
            | inr (inr (inl other)) ↦ inr (inr other)
            | inr (inr (inr own)) ↦ absurd (differ own)
          ]

    start_marked-IsConsistent :
        (lat long : Num) (t : Text) (w : Window L) (o : Option (L.Layer × L.World))
        → IsConsistent w
        → L.add_marker lat long t (remove_layer L w.start_marker w.map) ≡ o
        → IsConsistent (start_marked L (remove_layer L w.start_marker w.map) w o)
    start_marked-IsConsistent lat long t w none h e = record {
      one_choice = h.one_choice;
      known = λ k s. h.known k (remove_layer-Shown w.start_marker w.map k s).0;
    }
    start_marked-IsConsistent lat long t w (some (l, m')) h e = record {
      one_choice = h.one_choice;
      known = λ k s. elim ((laws.marker_others lat long t _ e k).0 s) [
        | inl old ↦ elim (not_start w h k old) [ inl base ↦ inl base | inr other ↦ inr (inr other) ]
        | inr new ↦ inr (inl (ap some (sym new)))
      ];
    }

    target_marked-IsConsistent :
        (lat long : Num) (t : Text) (w : Window L) (o : Option (L.Layer × L.World))
        → IsConsistent w
        → L.add_marker lat long t (remove_layer L w.target_marker w.map) ≡ o
        → IsConsistent (target_marked L (remove_layer L w.target_marker w.map) w o)
    target_marked-IsConsistent lat long t w none h e = record {
      one_choice = h.one_choice;
      known = λ k s. h.known k (remove_layer-Shown w.target_marker w.map k s).0;
    }
    target_marked-IsConsistent lat long t w (some (l, m')) h e = record {
      one_choice = h.one_choice;
      known = λ k s. elim ((laws.marker_others lat long t _ e k).0 s) [
        | inl old ↦ elim (not_target w h k old) [
          | inl base ↦ inl base
          | inr (inl other) ↦ inr (inl other)
          | inr (inr other) ↦ inr (inr (inr other))
        ]
        | inr new ↦ inr (inr (inl (ap some (sym new))))
      ];
    }

    routed-IsConsistent :
        (ps : List (Num × Num)) (t : Text) (w : Window L) (o : Option (L.Layer × L.World))
        → IsConsistent w
        → L.add_polyline ps t (remove_layer L w.route w.map) ≡ o
        → Both (routed L (remove_layer L w.route w.map) w o)
    routed-IsConsistent ps t w none h e = record {
      one_choice = h.one_choice;
      known = λ k s. h.known k (remove_layer-Shown w.route w.map k s).0;
    }
    routed-IsConsistent ps t w (some (l, m')) h e = record {
      one_choice = h.one_choice;
      known = λ k s. elim ((laws.polyline_others ps t _ e k).0 s) [
        | inl old ↦ elim (not_route w h k old) [
          | inl base ↦ inl base
          | inr (inl other) ↦ inr (inl other)
          | inr (inr other) ↦ inr (inr (inl other))
        ]
        | inr new ↦ inr (inr (inr (ap some (sym new))))
      ];
    }

    watch_start-IsConsistent :
        (p : Option Text) (w : Window L) → IsConsistent w → IsConsistent (watch_start L p w)
    unfolding watch_start
    watch_start-IsConsistent none w h = h
    watch_start-IsConsistent (some []) w h = h
    watch_start-IsConsistent (some (c ∷ s)) w h = start_marked-IsConsistent _ _ _ w _ h refl

    watch_target-IsConsistent :
        (p : Option Text) (w : Window L) → IsConsistent w → IsConsistent (watch_target L p w)
    unfolding watch_target
    watch_target-IsConsistent none w h = h
    watch_target-IsConsistent (some []) w h = h
    watch_target-IsConsistent (some (c ∷ s)) w h = target_marked-IsConsistent _ _ _ w _ h refl

    on_error-IsConsistent : (a : Attempt (Window L)) → Both a → IsConsistent (on_error L a)
    unfolding on_error
    on_error-IsConsistent (finished w) h = h
    on_error-IsConsistent (threw w) h = record { one_choice = h.one_choice; known = h.known }

    show_path-Both :
        (o : Option (List (Num × Num))) (d : Num) (w : Window L)
        → IsConsistent w
        → Both (show_path L o d w)
    unfolding show_path add_route
    show_path-Both none d w h = h
    show_path-Both (some []) d w h = h
    show_path-Both (some (c ∷ cs)) d w h =
        routed-IsConsistent (c ∷ cs) (popup_text L d) _ _
          (record { one_choice = h.one_choice; known = h.known }) refl

    on_response-Both : (r : Response Num) (w : Window L) → IsConsistent w → Both (on_response L r w)
    unfolding on_response
    on_response-Both r w h = elim (Bool-cases r.route_found) [
      | inl yes_found ↦ rw yes_found (
          show_path-Both r.path_coordinates r.overall_distance _
            (record { one_choice = h.one_choice; known = h.known }))
      | inr not_found ↦ rw not_found (record { one_choice = h.one_choice; known = h.known })
    ]

    choose_point_on_map-IsConsistent :
        (b : Bool) (w : Window L) → IsConsistent w → IsConsistent (choose_point_on_map L b w)
    unfolding choose_point_on_map
    choose_point_on_map-IsConsistent true w h = record { one_choice = refl; known = h.known }
    choose_point_on_map-IsConsistent false w h = record { one_choice = refl; known = h.known }

    IsConsistent-if :
        (b : Bool) {v w : Window L}
        → IsConsistent v
        → IsConsistent w
        → IsConsistent (if b then v else w)
    IsConsistent-if true h k = h
    IsConsistent-if false h k = k

    select_on_map-IsConsistent :
        (b : Bool) (w : Window L) → IsConsistent w → IsConsistent (select_on_map L b w)
    unfolding select_on_map
    select_on_map-IsConsistent true w h =
        IsConsistent-if w.choose_start_point_active h (choose_point_on_map-IsConsistent true w h)
    select_on_map-IsConsistent false w h =
        IsConsistent-if w.choose_target_point_active h (choose_point_on_map-IsConsistent false w h)

    click_start-IsConsistent :
        (lat lng : Num) (w : Window L) → IsConsistent w → IsConsistent (click_start L lat lng w)
    unfolding click_start
    click_start-IsConsistent lat lng w h =
        IsConsistent-if w.choose_start_point_active (record { one_choice = refl; known = h.known })
          h

    and_false : (b : Bool) → (b && false) ≡ false
    and_false true = refl
    and_false false = refl

    click_target-IsConsistent :
        (lat lng : Num) (w : Window L) → IsConsistent w → IsConsistent (click_target L lat lng w)
    unfolding click_target
    click_target-IsConsistent lat lng w h =
        IsConsistent-if w.choose_target_point_active
          (record { one_choice = and_false w.choose_start_point_active; known = h.known }) h

    calc_route-IsConsistent :
        (p q : Option Text) (w : Window L) → IsConsistent w → IsConsistent (calc_route L p q w)
    unfolding calc_route
    calc_route-IsConsistent none q w h = h
    calc_route-IsConsistent (some p) none w h = h
    calc_route-IsConsistent (some p) (some q) w h = record {
      one_choice = h.one_choice;
      known = h.known;
    }

    flush-IsConsistent : (before w : Window L) → IsConsistent w → IsConsistent (flush L before w)
    unfolding flush flush_start flush_target
    flush-IsConsistent before w h =
        let first =
          IsConsistent-if (same_value before.start_point w.start_point) h
            (watch_start-IsConsistent w.start_point w h) in
        IsConsistent-if (same_value before.target_point _) first
          (watch_target-IsConsistent _ _ first)

    dispatch-IsConsistent :
        (e : Event Num) (w : Window L) → IsConsistent w → IsConsistent (dispatch L e w)
    unfolding dispatch on_click
    dispatch-IsConsistent (type_start t) w h = record { one_choice = h.one_choice; known = h.known }
    dispatch-IsConsistent (type_target t) w h = record {
      one_choice = h.one_choice;
      known = h.known;
    }
    dispatch-IsConsistent (press_select b) w h = select_on_map-IsConsistent b w h
    dispatch-IsConsistent press_calculate w h =
        calc_route-IsConsistent w.start_point w.target_point w h
    dispatch-IsConsistent (click lat lng) w h =
        click_target-IsConsistent lat lng _ (click_start-IsConsistent lat lng w h)
    dispatch-IsConsistent (answered r) w h = on_error-IsConsistent _ (on_response-Both r w h)
    dispatch-IsConsistent failed w h = on_error-IsConsistent (threw w) h

    -- No event makes a consistent window inconsistent.
    pub run_from-IsConsistent :
        (es : List (Event Num)) (w : Window L) → IsConsistent w → IsConsistent (run L es w)
    unfolding run handle
    run_from-IsConsistent [] w h = h
    run_from-IsConsistent (e ∷ es) w h =
        run_from-IsConsistent es _ (flush-IsConsistent w _ (dispatch-IsConsistent e w h))

    -- With a map library as documented, after every sequence of events from the initial window on
    -- (typing, buttons, clicks, answers of the server and failures), at most one of the two points
    -- is being chosen, and every layer that the map shows is the tiles or what the window has as
    -- its start marker, target marker or route: no old marker or line stays on the map.
    pub run-IsConsistent : (es : List (Event Num)) → IsConsistent (run L es (mounted L))
    unfolding mounted
    run-IsConsistent es =
        run_from-IsConsistent es _
          (record { one_choice = refl; known = λ k t. inl (laws.set_up-Shown k t) })
