-- ===== src/Frontend/View/Enabled.antt =====
-- Which of the window's controls the user can use.
use fapra_osm_routing.Prelude.{
  Bool, true, false, not, ◌&&◌, List, ◌≡◌, ◌⊎◌, inl, inr, refl, ap, sym, subst, Bool-cases, ℕ, some,
  get_elem?,
}
use fapra_osm_routing.Frontend.Text.{Text}
use fapra_osm_routing.Frontend.Numbers.{Numbers}
use fapra_osm_routing.Frontend.Leaflet.{Leaflet, IsLawful}
use fapra_osm_routing.Frontend.RoutingWindow.{Event, press_select, Window, mounted, run}
use fapra_osm_routing.Frontend.RoutingWindow.Layers.{IsConsistent, run-IsConsistent}
use fapra_osm_routing.Frontend.View.{Control, button, Allows, pressing, routing_options}
use fapra_osm_routing.Frontend.RoutingWindow.Choosing.{choice_of}

module _ {Num : Type 0} ⦃n : Numbers Num⦄ (L : Leaflet Num) where
  -- A control of the window lets the user do it.
  abbrev pub IsEnabled : Window L → Event Num → Type 0
  IsEnabled w e =
      (i : ℕ) × (c : Control Num) × (get_elem? (routing_options L w) i ≡ some c) × Allows c e

  select_at : Bool → ℕ
  select_at true = 1
  select_at false = 3

  pressable : {name : Text} {b : Bool} {e : Event Num} → b ≡ true → Allows (button name b e) e
  pressable {name} {b} {e} h = subst (λ a. Allows (button name a e) e) (sym h) pressing

  select-IsEnabled :
      (b : Bool) (w : Window L) → choice_of L b w ≡ false → IsEnabled w (press_select b)
  unfolding routing_options
  select-IsEnabled true w off = (1, _, refl, pressable (ap not off))
  select-IsEnabled false w off = (3, _, refl, pressable (ap not off))

  only_one : (a b : Bool) → (a && b) ≡ false → a ≡ true → b ≡ false
  only_one true b e f = e
  only_one false b e f = absurd (cc)

  only_first : (a b : Bool) → (a && b) ≡ false → b ≡ true → a ≡ false
  only_first true true e f = absurd (cc)
  only_first true false e f = absurd (cc)
  only_first false b e f = refl

  other_off :
      (b : Bool) (w : Window L)
      → IsConsistent L w
      → choice_of L b w ≡ true
      → choice_of L (not b) w ≡ false
  other_off true w h on = only_one _ _ h.one_choice on
  other_off false w h on = only_first _ _ h.one_choice on

  -- After every sequence of events from the initial window on, for the start and for the target
  -- alike: the window has an enabled button that selects this point on the map, or this point is
  -- being chosen and the button for the other one is enabled. The map library is as documented.
  pub run-IsEnabled :
      (laws : IsLawful L) (b : Bool) (es : List (Event Num))
      → IsEnabled (run L es (mounted L)) (press_select b)
        ⊎ ((choice_of L b (run L es (mounted L)) ≡ true)
            × IsEnabled (run L es (mounted L)) (press_select (not b)))
  run-IsEnabled laws b es =
      let w = run L es (mounted L) in
      elim (Bool-cases (choice_of L b w)) [
        | inl on ↦
            inr (on, select-IsEnabled (not b) w (other_off b w (run-IsConsistent L laws es) on))
        | inr off ↦ inl (select-IsEnabled b w off)
      ]
