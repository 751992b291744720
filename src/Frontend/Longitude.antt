-- ===== src/Frontend/Longitude.antt =====
-- sanitizeLongitude of RoutingWindow.vue.
pub mod Whole
pub mod Bounds
use fapra_osm_routing.Prelude.{if◌then◌else◌}
use fapra_osm_routing.Frontend.Text.{Text}
use fapra_osm_routing.Frontend.Numbers.{Numbers}

-- What the page passes for a longitude: a part of a text that may not be there, or a number.
pub data JsValue (Num : Type 0) : Type 0 where
  undefined : JsValue Num
  text : Text → JsValue Num
  number : Num → JsValue Num

module _ {Num : Type 0} ⦃n : Numbers Num⦄ where
  -- The operators `<`, `>` and `%` convert their argument to a number.
  abbrev pub as_number : JsValue Num → Num
  as_number undefined = n.nan
  as_number (text t) = n.to_number t
  as_number (number x) = x

  -- A longitude in the range is returned as it was passed.
  unfoldable pub sanitize_longitude : JsValue Num → JsValue Num
  sanitize_longitude longitude =
      let x = as_number longitude in
      if n.lt x n.minus_180
      then number (n.rem x n.plus_180)
      else if n.lt n.plus_180 x
      then number (n.add n.minus_180 (n.rem x n.plus_180))
      else longitude
