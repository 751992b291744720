-- ===== src/Tests/Page.antt =====
-- Runs of the page, with whole numbers and a history of layers.
use fapra_osm_routing.Prelude.{
  ◌≡◌, ◌⊎◌, refl, true, false, List, [], ◌∷◌, none, some, ◌+◌, ◌%◌, ◌≤◌, arith,
}
use fapra_osm_routing.Frontend.Text.{codes}
use fapra_osm_routing.Frontend.Numbers.{ReadsBack}
use fapra_osm_routing.Frontend.Longitude.{text, number, as_number, sanitize_longitude}
use fapra_osm_routing.Frontend.Longitude.Whole.{Whole, plus, minus, magnitude, meridian}
use fapra_osm_routing.Frontend.Longitude.Bounds.{
  sanitize_longitude-bounds, sanitize_longitude-meridian, sanitize_longitude-opposite,
}
use fapra_osm_routing.Frontend.RoutingWindow.{
  Response, Event, type_start, press_select, press_calculate, click, answered, not_found_alert,
  Window, mounted, handle, run,
}
use fapra_osm_routing.Frontend.RoutingWindow.Layers.{IsConsistent, run-IsConsistent}
use fapra_osm_routing.Frontend.RoutingWindow.Marking.{IsPlaced, choose_click-IsPlaced}
use fapra_osm_routing.Frontend.RoutingWindow.Requests.{choose_both-requests, run-requests}
use fapra_osm_routing.Frontend.RoutingWindow.Answers.{IsShown, answered-IsShown, answered-no_path}
use fapra_osm_routing.Frontend.RoutingWindow.Choosing.{choice_of}
use fapra_osm_routing.Frontend.View.Enabled.{IsEnabled, run-IsEnabled}
use fapra_osm_routing.Tests.Browser.{
  Double, doubles, doubles-IsLawful, whole_doubles, history, history-IsLawful,
}

abbrev start_window : Window history
start_window = mounted history

abbrev start_click : List (Event Double)
start_click = press_select true ∷ click (some (plus 5)) (some (minus 17)) ∷ []

abbrev path_answer : Response Double
path_answer = record {
  route_found = true;
  overall_distance = some (plus 912);
  calculation_time_in_ms = some (plus 3);
  path_coordinates =
      some ((some (plus 5), some (minus 17)) ∷ (some (plus 6), some (minus 18)) ∷ []);
}

abbrev no_answer : Response Double
no_answer = record {
  route_found = false;
  overall_distance = some (plus 0);
  calculation_time_in_ms = some (plus 3);
  path_coordinates = none;
}

start_window-IsConsistent : IsConsistent history (run history [] start_window)
start_window-IsConsistent = run-IsConsistent history history-IsLawful []

reads_5 : ReadsBack {Num = Double} (some (plus 5))
reads_5 = record { by_parse_float = refl; by_to_number = refl }

reads_17 : ReadsBack {Num = Double} (some (minus 17))
reads_17 = record { by_parse_float = refl; by_to_number = refl }

run-IsConsistent_example :
    IsConsistent history (run history (type_start (codes "5 7") ∷ start_click) (mounted history))
run-IsConsistent_example =
    run-IsConsistent history history-IsLawful (type_start (codes "5 7") ∷ start_click)

choose_click-IsPlaced_example :
    IsPlaced history true
      (some (plus 5))
      (some (minus 17))
      start_window
      (run history start_click start_window)
unfolding mounted run
choose_click-IsPlaced_example =
    choose_click-IsPlaced history true (some (plus 5)) (some (minus 17)) start_window
      doubles-IsLawful history-IsLawful reads_5 reads_17 start_window-IsConsistent (λ e. cc) refl

choose_both-requests_example :
    (run history
      (press_select true
        ∷ click (some (plus 5)) (some (minus 17))
        ∷ press_select false
        ∷ click (some (plus 5)) (some (minus 17))
        ∷ press_calculate
        ∷ [])
      start_window).requests
    ≡ record {
      start_latitude = some (plus 5);
      start_longitude = sanitize_longitude (text (doubles.show (some (minus 17))));
      end_latitude = some (plus 5);
      end_longitude = sanitize_longitude (number (some (minus 17)));
    }
      ∷ []
unfolding mounted run
choose_both-requests_example =
    choose_both-requests history start_window (some (plus 5)) (some (minus 17)) (some (plus 5))
      (some (minus 17)) doubles-IsLawful history-IsLawful reads_5 reads_5 reads_17
      start_window-IsConsistent

run-requests_example : (run history start_click start_window).requests ≡ []
unfolding mounted
run-requests_example = run-requests history start_click start_window ((λ e. cc), ((λ e. cc), tt))

answered-IsShown_example :
    IsShown history path_answer
      (some (plus 5), some (minus 17))
      ((some (plus 6), some (minus 18)) ∷ [])
      start_window
      (handle history (answered path_answer) start_window)
unfolding mounted
answered-IsShown_example =
    answered-IsShown history path_answer start_window (some (plus 5), some (minus 17))
      ((some (plus 6), some (minus 18)) ∷ []) history-IsLawful refl refl refl (λ e. cc) (λ e. cc)

answered-no_path_example : handle history (answered no_answer) start_window ≡ record start_window {
  response_data = some no_answer;
  alerts = not_found_alert (some (plus 3)) ∷ [];
}
unfolding mounted
answered-no_path_example = answered-no_path history no_answer start_window refl

run-IsEnabled_example :
    IsEnabled history (run history start_click (mounted history)) (press_select true)
    ⊎ ((choice_of history true (run history start_click (mounted history)) ≡ true)
        × IsEnabled history (run history start_click (mounted history)) (press_select false))
run-IsEnabled_example = run-IsEnabled history history-IsLawful true start_click

sanitize_longitude-bounds_example :
    (y : Whole) × (as_number (sanitize_longitude (number (some (plus 400)))) ≡ some y)
    × (magnitude y ≤ 180)
sanitize_longitude-bounds_example =
    sanitize_longitude-bounds whole_doubles (number (some (plus 400))) (plus 400) refl (omega arith)

sanitize_longitude-meridian_example :
    (y : Whole) × (as_number (sanitize_longitude (number (some (plus 190)))) ≡ some y)
    × (meridian y ≡ 190)
sanitize_longitude-meridian_example =
    sanitize_longitude-meridian whole_doubles (number (some (plus 190))) (plus 190) refl
      (omega arith) refl refl

sanitize_longitude-opposite_example :
    (y : Whole) × (as_number (sanitize_longitude (number (some (minus 190)))) ≡ some y)
    × (170 ≡ (meridian y + 180) % 360)
sanitize_longitude-opposite_example =
    sanitize_longitude-opposite whole_doubles (number (some (minus 190))) 190 refl (omega arith)
      (omega arith)
