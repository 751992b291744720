-- ===== src/Frontend/Leaflet.antt =====
-- The map library, a parameter: the calls that the page makes of it, and what they do to the map.
use fapra_osm_routing.Prelude.{◌≡◌, ◌≢◌, ◌⊎◌, List, Option, some}
use fapra_osm_routing.Frontend.Text.{Text}

-- What a layer shows.
pub data Content (Num : Type 0) : Type 0 where
  tiles : Content Num
  marker_at : Num → Num → Text → Content Num
  line_along : List (Num × Num) → Text → Content Num

pub record Leaflet (Num : Type 0) : Type 1 where
  pub World : Type 0
  pub Layer : Type 0
  -- L.map(…).setView(…) and L.tileLayer(…).addTo(map): the tiles, and the map with them.
  pub set_up : Layer × World
  -- L.marker([lat, long]).bindTooltip(text).addTo(map); none: Leaflet throws, since the
  -- coordinates are no place.
  pub add_marker : Num → Num → Text → World → Option (Layer × World)
  -- L.polyline(points).bindPopup(text).addTo(map)
  pub add_polyline : List (Num × Num) → Text → World → Option (Layer × World)
  -- layer.remove()
  pub remove : Layer → World → World
  -- What the user sees: the layers on the map.
  pub Shown : World → Layer → Type 0
  pub content : Layer → Content Num

-- A new layer is on the map, beside those before; a removed one is not, and the others stay.
pub record IsLawful {Num : Type 0} (L : Leaflet Num) : Type 0 where
  pub set_up-Shown : (k : L.Layer) → L.Shown L.set_up.1 k → k ≡ L.set_up.0
  pub marker_added :
      (lat long : Num) (t : Text) (m : L.World) {l : L.Layer} {m' : L.World}
      → L.add_marker lat long t m ≡ some (l, m')
      → L.Shown m' l × (L.content l ≡ marker_at lat long t)
  pub marker_others :
      (lat long : Num) (t : Text) (m : L.World) {l : L.Layer} {m' : L.World}
      → L.add_marker lat long t m ≡ some (l, m')
      → (k : L.Layer)
      → (L.Shown m' k → L.Shown m k ⊎ (k ≡ l)) × (L.Shown m k → L.Shown m' k × (k ≢ l))
  pub polyline_added :
      (ps : List (Num × Num)) (t : Text) (m : L.World) {l : L.Layer} {m' : L.World}
      → L.add_polyline ps t m ≡ some (l, m')
      → L.Shown m' l × (L.content l ≡ line_along ps t)
  pub polyline_others :
      (ps : List (Num × Num)) (t : Text) (m : L.World) {l : L.Layer} {m' : L.World}
      → L.add_polyline ps t m ≡ some (l, m')
      → (k : L.Layer)
      → (L.Shown m' k → L.Shown m k ⊎ (k ≡ l)) × (L.Shown m k → L.Shown m' k × (k ≢ l))
  pub removed :
      (l : L.Layer) (m : L.World) (k : L.Layer)
      → (L.Shown (L.remove l m) k → L.Shown m k × (k ≢ l))
        × (L.Shown m k → k ≢ l → L.Shown (L.remove l m) k)
