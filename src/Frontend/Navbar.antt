-- ===== src/Frontend/Navbar.antt =====
-- vue-frontend/src/components/Navbar.vue: the bar, which keeps the time of its last tick.
pub mod Timestamp
use fapra_osm_routing.Prelude.{ℕ, List, [], ◌∷◌, ◌++◌}
use fapra_osm_routing.Frontend.Text.{Text, codes}
use fapra_osm_routing.Frontend.Numbers.{Numbers}

-- What `new Date()` gives: the numbers of its getters.
pub record Date (Num : Type 0) : Type 0 where
  pub full_year : Num
  pub month : Num
  pub date : Num
  pub hours : Num
  pub minutes : Num
  pub seconds : Num

-- data() of the component.
pub record Navbar : Type 0 where
  pub timestamp : Text

abbrev pub navbar_data : Navbar
navbar_data = record { timestamp = [] }

-- What created() asks of the browser: to call getNow again and again.
pub data Timer : Type 0 where
  set_interval_get_now : (milliseconds : ℕ) → Timer

abbrev pub created : List Timer
created = set_interval_get_now 1000 ∷ []

module _ {Num : Type 0} ⦃n : Numbers Num⦄ where
  -- The day: getMonth counts from 0.
  abbrev pub date_text : Date Num → Text
  date_text today =
      n.show today.full_year
      ++ b'-' ∷ (n.show (n.add today.month n.one) ++ b'-' ∷ n.show today.date)

  abbrev pub time_text : Date Num → Text
  time_text today =
      n.show today.hours ++ b':' ∷ (n.show today.minutes ++ b':' ∷ n.show today.seconds)

  unfoldable pub get_now : Date Num → Navbar → Navbar
  get_now today bar = record bar { timestamp = date_text today ++ b' ' ∷ time_text today }
