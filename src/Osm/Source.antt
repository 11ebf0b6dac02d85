-- ===== src/Osm/Source.antt =====
-- internal/sources/osm/source.go and pbf.go. The PBF scanner (github.com/paulmach/osm) is a
-- parameter: the objects that it yields, in order, and the error that it ends with. Logging and the
-- progress counters are left out but for the three that the summary prints.
use inwheel_server.Prelude.{ℕ, ◌+◌, String, Option, none, some, List, [], ◌∷◌, length}
use inwheel_server.Prelude.Result.{Error, wrap, Result, ok, err, Action, continue, wrap_err}
use inwheel_server.Float64.{F64, Arithmetic}
use inwheel_server.Models.Profile.{Time, AccessibilityProfile}
use inwheel_server.Models.Place.{Category, Place, Tags}
use inwheel_server.Osm.Filter.{evaluate}
use inwheel_server.Osm.Transform.{Element, transform_osm_node, transform_osm_way}

-- A point of a way's line: X is the longitude.
pub record Point : Type 0 where
  pub x : F64
  pub y : F64

pub data Object : Type 0 where
  node : Element → Object
  way : ℕ → List Point → Tags → Object
  relation : Object

pub record Counters : Type 0 where
  pub processed : ℕ
  pub emitted : ℕ
  pub skipped : ℕ

module _ (fl : Arithmetic) (decimal : ℕ → String) where
  abbrev sum_points : List Point → F64 × F64 → F64 × F64
  sum_points [] acc = acc
  sum_points (p ∷ ps) acc = sum_points ps (fl.add acc.0 p.y, fl.add acc.1 p.x)

  -- Latitude and longitude.
  unfoldable pub centroid : List Point → F64 × F64
  centroid ls =
      let (lat, lng) = sum_points ls (fl.lit 0 0, fl.lit 0 0) in
      let n = fl.of_int (length ls) in (fl.div lat n, fl.div lng n)

  abbrev pub way_at : ℕ → Tags → F64 × F64 → Element
  way_at id tags c = record { id = id; lat = c.0; lng = c.1; tags = tags }

  module _ {S : Type 0} (now : S → Time)
      (sink : Place → Option AccessibilityProfile → Action S (Unit {0})) where
    abbrev pub State : Type 0
    State = Counters × S

    abbrev tick : Counters → Counters
    tick c = record c { processed = c.processed + 1 }

    -- The sink's answer with the counters of the source.
    abbrev emit : Result (Place × Option AccessibilityProfile) → Action State (Unit {0})
    emit (err e) st = (ok tt, (record st.0 { skipped = st.0.skipped + 1 }, st.1))
    emit (ok (p, profile)) st =
        let (r, s') = sink p profile st.1 in (r, (record st.0 { emitted = st.0.emitted + 1 }, s'))

    abbrev pub visit :
        (Time → Element → Category → Result (Place × Option AccessibilityProfile))
        → Element
        → Option Category
        → Action State (Unit {0})
    visit transformed e none st = (ok tt, (tick st.0, st.1))
    visit transformed e (some category) st =
        emit (transformed (now st.1) e category) (tick st.0, st.1)

    abbrev node_sink : Element → Action State (Unit {0})
    node_sink e = visit (transform_osm_node fl decimal) e (evaluate e.tags)

    abbrev way_sink : Element → Action State (Unit {0})
    way_sink e = visit (transform_osm_way fl decimal) e (evaluate e.tags)

    abbrev annotated : String → Result (Unit {0}) × State → Result (Unit {0}) × State
    annotated context r = (wrap_err context r.0, r.1)

    -- One turn of the loop over the scanner; a way with no located nodes is passed over.
    unfoldable pub stream_object : Object → Action State (Unit {0})
    unfolding evaluate transform_osm_node transform_osm_way centroid
    stream_object (node e) st = annotated "node" (node_sink e st)
    stream_object (way id [] tags) st = (ok tt, st)
    stream_object (way id (p ∷ ps) tags) st =
        annotated "way" (way_sink (way_at id tags (centroid (p ∷ ps))) st)
    stream_object relation st = (ok tt, st)

    abbrev scan_end : Option Error → Result (Unit {0})
    scan_end none = ok tt
    scan_end (some e) = err (wrap "pbf scan" e)

    unfoldable pub stream_elements : List Object → Option Error → Action State (Unit {0})
    unfolding stream_object
    stream_elements [] failure st = (scan_end failure, st)
    stream_elements (o ∷ os) failure st =
        let (r, st') = stream_object o st in continue r (λ _. stream_elements os failure) st'

    unfoldable pub full_import : List Object → Option Error → Action State (Unit {0})
    unfolding stream_elements
    full_import objects failure st = annotated "stream" (stream_elements objects failure st)
