-- ===== src/Frontend.antt =====
-- vue-frontend/src: the page that asks the server for routes, and main.js, which starts it.
pub mod Text
pub mod Numbers
pub mod Leaflet
pub mod Longitude
pub mod Request
pub mod RoutingWindow
pub mod View
pub mod Navbar
use fapra_osm_routing.Prelude.{Bool, false, List, [], ◌∷◌}

-- The plugins of the page.
pub data Plugin : Type 0 where
  bootstrap_vue icons_plugin : Plugin

-- What main.js asks of Vue; the page of App.vue is mounted at an element of the document.
pub data VueCall : Type 0 where
  install : Plugin → VueCall
  set_production_tip : Bool → VueCall
  mount_at_app : VueCall

abbrev pub main : List VueCall
main = install bootstrap_vue ∷ install icons_plugin ∷ set_production_tip false ∷ mount_at_app ∷ []
