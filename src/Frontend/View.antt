-- ===== src/Frontend/View.antt =====
-- The template of vue-frontend/src/components/RoutingWindow.vue: the controls of the card
-- "Routing Options". The other card holds the element of the map.
pub mod Enabled
use fapra_osm_routing.Prelude.{Bool, true, false, not, List, [], ◌∷◌, Option, none, some}
use fapra_osm_routing.Frontend.Text.{Text, codes}
use fapra_osm_routing.Frontend.Numbers.{Numbers}
use fapra_osm_routing.Frontend.Leaflet.{Leaflet}
use fapra_osm_routing.Frontend.RoutingWindow.{
  Event, type_start, type_target, press_select, press_calculate, Window, select_disabled,
}

-- A text field with what it stands before, what it shows and what typing a text does; a button
-- with its caption, whether it can be pressed, and what that does.
pub data Control (Num : Type 0) : Type 0 where
  form_input : Text → Option Text → (Text → Event Num) → Control Num
  button : Text → (enabled : Bool) → Event Num → Control Num

-- What the user can do with a control.
pub data Allows {Num : Type 0} : Control Num → Event Num → Type 0 where
  typing :
      {name : Text} {shown : Option Text} {on_input : Text → Event Num} (t : Text)
      → Allows (form_input name shown on_input) (on_input t)
  pressing : {name : Text} {e : Event Num} → Allows (button name true e) e

module _ {Num : Type 0} ⦃n : Numbers Num⦄ (L : Leaflet Num) where
  unfoldable pub routing_options : Window L → List (Control Num)
  routing_options w =
      form_input (codes "Start point") w.start_point type_start
      ∷ button (codes "Select on map") (not (select_disabled L true w)) (press_select true)
      ∷ form_input (codes "Target point") w.target_point type_target
      ∷ button (codes "Select on map") (not (select_disabled L false w)) (press_select false)
      ∷ button (codes "Calculate route") true press_calculate
      ∷ []
