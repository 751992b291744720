-- ===== src/Frontend/Request.antt =====
-- The request that calcRoute of RoutingWindow.vue sends to the server.
pub mod Points
use fapra_osm_routing.Prelude.{ℕ, ◌∷◌, ◌++◌, List, Option, none, some, get_elem?}
use fapra_osm_routing.Frontend.Text.{Text, split}
use fapra_osm_routing.Frontend.Numbers.{Numbers}
use fapra_osm_routing.Frontend.Longitude.{JsValue, undefined, text, number, sanitize_longitude}

-- reqObj, with the points' fields in one record.
pub record Request (Num : Type 0) : Type 0 where
  pub start_latitude : Num
  pub start_longitude : JsValue Num
  pub end_latitude : Num
  pub end_longitude : JsValue Num

-- A part that is not there is undefined.
abbrev pub as_value : {Num : Type 0} → Option Text → JsValue Num
as_value none = undefined
as_value (some t) = text t

-- `latlong[i]` itself.
unfoldable pub part : {Num : Type 0} → Text → ℕ → JsValue Num
part val i = as_value (get_elem? (split b' ' val) i)

module _ {Num : Type 0} ⦃n : Numbers Num⦄ where
  -- `"" + lat + " " + lng`
  abbrev pub point_text : Num → Num → Text
  point_text lat lng = n.show lat ++ b' ' ∷ n.show lng

  -- parseFloat(undefined) is NaN.
  abbrev pub parsed : Option Text → Num
  parsed none = n.nan
  parsed (some t) = n.parse_float t

  -- `parseFloat(latlong[i])` of the parts.
  unfoldable pub coordinate : Text → ℕ → Num
  coordinate val i = parsed (get_elem? (split b' ' val) i)

  -- The object for two texts; the longitude of the start is the text's part.
  unfoldable pub request_of : Text → Text → Request Num
  unfolding coordinate part sanitize_longitude
  request_of start_point target_point = record {
    start_latitude = coordinate start_point 0;
    start_longitude = sanitize_longitude (part start_point 1);
    end_latitude = coordinate target_point 0;
    end_longitude = sanitize_longitude (number (coordinate target_point 1));
  }
