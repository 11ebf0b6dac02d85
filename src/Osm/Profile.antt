-- ===== src/Osm/Profile.antt =====
-- internal/sources/osm/a11y.go: the accessibility profile that OSM tags give.
use Prim.Native.Char.{Char, code}
use inwheel_server.Prelude.{
  String, Bool, true, false, not, ◌&&◌, ◌||◌, Option, none, some, List, [], ◌∷◌, ◌==◌,
  if◌then◌else◌, eqb,
}
use inwheel_server.Prelude.Texts.{GoInt, is_positive, atoi, trim_space, chars, text}
use inwheel_server.Prelude.Dict.{lookup, at, member}
use inwheel_server.Float64.{F64, Arithmetic}
use inwheel_server.Models.Profile.{
  Time, SourceReport, EntranceProps, RestroomProps, ParkingProps, ElevatorProps,
  AccessibilityProfile, AccessibilityLevel, door_automatic, no_entrance, no_restroom, no_parking,
  no_elevator, empty_profile,
}
use inwheel_server.Models.Place.{Tags}
use inwheel_server.A11y.{level_for_door_width, level_for_slope_percent}

unfoldable pub map_restroom : Tags → Option RestroomProps
map_restroom tags = elim (lookup "toilets:wheelchair" tags) [
  | none ↦ none
  | some v ↦
      if v == "yes"
      then some (record no_restroom { is_accessible = some true })
      else if v == "no"
      then some (record no_restroom { is_accessible = some false })
      else none
]

abbrev counted : Option GoInt → Option ParkingProps
counted none = none
counted (some n) =
    some (record no_parking { has_disabled_spaces = some (is_positive n); count = some n })

unfoldable pub map_parking : Tags → Option ParkingProps
map_parking tags = elim (lookup "capacity:disabled" tags) [
  | some v ↦ counted (atoi v)
  | none ↦
      if at tags "parking:disabled" == "no"
      then some (record no_parking { has_disabled_spaces = some false })
      else none
]

abbrev positive : Option GoInt → Bool
positive none = false
positive (some n) = is_positive n

unfoldable pub step_count_positive : String → Bool
unfolding atoi
step_count_positive v = if v == "" then false else positive (atoi v)

-- The text without a final "%", if it has one.
strip_percent : List Char → Option (List Char)
strip_percent [] = none
strip_percent (c ∷ []) = if eqb (code c) b'%' then some [] else none
strip_percent (c ∷ d ∷ cs) = elim (strip_percent (d ∷ cs)) [ none ↦ none | some r ↦ some (c ∷ r) ]

unfoldable pub map_elevator : Tags → Option ElevatorProps
map_elevator tags = if at tags "elevator" == "yes" then some no_elevator else none

abbrev pub wheelchair_values : List String
wheelchair_values = "yes" ∷ "designated" ∷ "limited" ∷ "no" ∷ []

unfoldable pub wheelchair_reports : Time → Tags → List SourceReport
wheelchair_reports now tags = elim (lookup "wheelchair" tags) [
  | none ↦ []
  | some v ↦
      if member v wheelchair_values
      then record { source = "osm"; value = v; recorded_at = now } ∷ []
      else []
]

abbrev is_nonempty : List SourceReport → Bool
is_nonempty [] = false
is_nonempty (_ ∷ _) = true

module _ (fl : Arithmetic) where
  unfoldable pub parse_metres : List String → Option F64
  parse_metres [] = none
  parse_metres (v ∷ vs) =
      let rest = parse_metres vs in
      if v == "" then rest else elim (fl.parse_float v) [ none ↦ rest | some f ↦ some f ]

  abbrev absolute : F64 → F64
  absolute f = if fl.lt f (fl.lit 0 0) then fl.neg f else f

  abbrev parsed : Option (List Char) → Option F64
  parsed none = none
  parsed (some cs) = elim (fl.parse_float (text cs)) [ none ↦ none | some f ↦ some (absolute f) ]

  unfoldable pub parse_percent : String → Option F64
  unfolding strip_percent trim_space
  parse_percent v = parsed (strip_percent (chars (trim_space v)))

  -- The entrance's properties, each from its tags; `none` where they give no signal.
  abbrev pub door_signal : Tags → Bool
  door_signal tags = let v = at tags "automatic_door" in not (v == "") && not (v == "no")

  abbrev pub step_signal : Tags → Bool
  step_signal tags =
      step_count_positive (at tags "step_count")
      || step_count_positive (at tags "entrance:step_count")

  abbrev pub ramp_signal : Tags → Option Bool
  ramp_signal tags = elim (lookup "ramp:wheelchair" tags) [
    | some v ↦ if v == "yes" then some true else if v == "no" then some false else none
    | none ↦ if at tags "ramp" == "no" then some false else none
  ]

  abbrev pub width_signal : Tags → Option AccessibilityLevel
  width_signal tags = elim (parse_metres (at tags "width" ∷ at tags "door:width" ∷ [])) [
    | none ↦ none
    | some v ↦ some (level_for_door_width fl v)
  ]

  abbrev pub slope_signal : Tags → Option AccessibilityLevel
  slope_signal tags = elim (parse_percent (at tags "incline")) [
    | none ↦ none
    | some v ↦ some (level_for_slope_percent fl v)
  ]

  abbrev is_found {ℓ} : {A : Type ℓ} → Option A → Bool
  is_found none = false
  is_found (some a) = true

  unfoldable pub map_entrance : Tags → Option EntranceProps
  map_entrance tags =
      let props = record no_entrance {
        door =
            if door_signal tags
            then some (record { kind = door_automatic; width = none })
            else none;
        is_level = if step_signal tags then some false else none;
        has_fixed_ramp = ramp_signal tags;
        width = width_signal tags;
        slope_percent = slope_signal tags;
      } in
      let found =
        door_signal tags
        || step_signal tags
        || is_found (ramp_signal tags)
        || is_found (width_signal tags)
        || is_found (slope_signal tags) in
      if found then some props else none

  abbrev pub has_signal : AccessibilityProfile → Bool
  has_signal p =
      is_nonempty p.source_reports
      || is_found p.entrance
      || is_found p.restroom
      || is_found p.parking
      || is_found p.elevator

  unfoldable pub map_tags_to_profile : Time → Tags → Option AccessibilityProfile
  map_tags_to_profile now tags =
      let p = record empty_profile {
        source_reports = wheelchair_reports now tags;
        entrance = map_entrance tags;
        restroom = map_restroom tags;
        parking = map_parking tags;
        elevator = map_elevator tags;
      } in
      if has_signal p then some p else none
