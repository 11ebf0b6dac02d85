-- ===== src/A11y.antt =====
-- internal/a11y/engine.go: audit flags computed on every write, and the components that a place
-- inherits from its parent. The engine mutates through pointers; here the new profile is returned.
pub mod Flags
pub mod Inherit
mod Tests
use mathlib.Core.Option
use inwheel_server.Prelude.{
  String, Bool, true, false, not, ◌&&◌, ◌||◌, Option, none, some, List, [], ◌∷◌, ◌++◌, ◌==◌,
  if◌then◌else◌,
}
use inwheel_server.Float64.{F64, Arithmetic}
use inwheel_server.Models.Profile.{
  AccessibilityLevel, level_good, level_limited, level_no, EntranceProps, PathwayProps,
  RestroomProps, ParkingProps, ElevatorProps, AccessibilityProfile, empty_profile,
}
use inwheel_server.Models.Place.{Place}

abbrev pub flag_entrance_narrow_width : String
flag_entrance_narrow_width = "narrow width"

abbrev pub flag_entrance_no_level_route : String
flag_entrance_no_level_route = "no level route (no ramp and not level)"

abbrev pub flag_restroom_narrow_door : String
flag_restroom_narrow_door = "narrow door"

abbrev pub flag_restroom_small_turning : String
flag_restroom_small_turning = "small turning radius"

abbrev pub flag_restroom_no_grab_rails : String
flag_restroom_no_grab_rails = "missing grab rails"

abbrev pub flag_elevator_narrow_width : String
flag_elevator_narrow_width = "small cabin width"

abbrev pub flag_elevator_shallow_depth : String
flag_elevator_shallow_depth = "small cabin depth"

abbrev pub flag_elevator_narrow_door : String
flag_elevator_narrow_door = "narrow door"

abbrev pub flag_elevator_no_braille : String
flag_elevator_no_braille = "missing braille"

abbrev pub flag_elevator_no_audio : String
flag_elevator_no_audio = "missing audio"

abbrev pub flag_parking_no_disabled_spaces : String
flag_parking_no_disabled_spaces = "no disabled spaces"

abbrev pub flag_pathway_narrow_width : String
flag_pathway_narrow_width = "narrow pathway"

unfoldable pub level_for_door_width : Arithmetic → F64 → AccessibilityLevel
level_for_door_width fl metres =
    if fl.le (fl.lit 80 2) metres
    then level_good
    else if fl.le (fl.lit 70 2) metres
    then level_limited
    else level_no

unfoldable pub level_for_slope_percent : Arithmetic → F64 → AccessibilityLevel
level_for_slope_percent fl percent =
    if fl.le percent (fl.lit 6 0)
    then level_good
    else if fl.le percent (fl.lit 833 2)
    then level_limited
    else level_no

-- `p != nil && *p == models.LevelNo`
abbrev pub is_no : Option AccessibilityLevel → Bool
is_no none = false
is_no (some l) = l == level_no

-- `p != nil && *p`
abbrev pub is_set_true : Option Bool → Bool
is_set_true none = false
is_set_true (some b) = b

-- `p != nil && !*p`
abbrev pub is_set_false : Option Bool → Bool
is_set_false none = false
is_set_false (some b) = not b

-- `if c { flags = append(flags, f) }`
abbrev pub append_if : Bool → String → List String → List String
append_if c f flags = if c then flags ++ f ∷ [] else flags

pub entrance_flags : EntranceProps → List String
entrance_flags p =
    let flags = append_if (is_no p.width) flag_entrance_narrow_width [] in
    let has_ramp = is_set_true p.has_fixed_ramp || is_set_true p.has_removable_ramp in
    append_if (is_set_false p.is_level && not has_ramp) flag_entrance_no_level_route flags

pub pathway_flags : PathwayProps → List String
pathway_flags p = append_if (is_no p.width) flag_pathway_narrow_width []

pub restroom_flags : RestroomProps → List String
restroom_flags p =
    let door = append_if (is_no p.door_width) flag_restroom_narrow_door [] in
    let turning = append_if (is_no p.turning_radius) flag_restroom_small_turning door in
    append_if (is_set_false p.has_grab_rails) flag_restroom_no_grab_rails turning

pub parking_flags : ParkingProps → List String
parking_flags p = append_if (is_set_false p.has_disabled_spaces) flag_parking_no_disabled_spaces []

pub elevator_flags : ElevatorProps → List String
elevator_flags p =
    let width = append_if (is_no p.width) flag_elevator_narrow_width [] in
    let depth = append_if (is_no p.depth) flag_elevator_shallow_depth width in
    let door = append_if (is_no p.door_width) flag_elevator_narrow_door depth in
    let braille = append_if (is_set_false p.has_braille) flag_elevator_no_braille door in
    append_if (is_set_false p.has_audio) flag_elevator_no_audio braille

-- The assignments of `AuditFlags`, one for each component.
abbrev flag_entrance : EntranceProps → EntranceProps
flag_entrance p = record p { audit_flags = entrance_flags p }

abbrev flag_pathways : PathwayProps → PathwayProps
flag_pathways p = record p { audit_flags = pathway_flags p }

abbrev flag_restroom : RestroomProps → RestroomProps
flag_restroom p = record p { audit_flags = restroom_flags p }

abbrev flag_parking : ParkingProps → ParkingProps
flag_parking p = record p { audit_flags = parking_flags p }

abbrev flag_elevator : ElevatorProps → ElevatorProps
flag_elevator p = record p { audit_flags = elevator_flags p }

unfoldable pub with_audit_flags : AccessibilityProfile → AccessibilityProfile
unfolding entrance_flags pathway_flags restroom_flags parking_flags elevator_flags
with_audit_flags profile = record profile {
  entrance = Option.map flag_entrance profile.entrance;
  pathways = Option.map flag_pathways profile.pathways;
  restroom = Option.map flag_restroom profile.restroom;
  parking = Option.map flag_parking profile.parking;
  elevator = Option.map flag_elevator profile.elevator;
}

-- What the effective profile takes from the child; `SubmittedBy` stays nil.
abbrev pub own_part : Option AccessibilityProfile → AccessibilityProfile
own_part none = empty_profile
own_part (some ca) = record empty_profile {
  id = ca.id;
  place_id = ca.place_id;
  source_reports = ca.source_reports;
  user_verified = ca.user_verified;
  submitted_at = ca.submitted_at;
  updated_at = ca.updated_at;
  entrance = ca.entrance;
  pathways = ca.pathways;
  restroom = ca.restroom;
  parking = ca.parking;
  elevator = ca.elevator;
}

-- `if own == nil && inherited != nil { … }`, one for each component.
abbrev pub mark_entrance : String → EntranceProps → EntranceProps
mark_entrance parent c = record c { is_inherited = true; source_id = parent }

abbrev inherit_entrance :
    String → Option EntranceProps → Option EntranceProps → Option EntranceProps
inherit_entrance parent (some own) p = some own
inherit_entrance parent none p = Option.map (mark_entrance parent) p

abbrev pub mark_pathways : String → PathwayProps → PathwayProps
mark_pathways parent c = record c { is_inherited = true; source_id = parent }

abbrev inherit_pathways : String → Option PathwayProps → Option PathwayProps → Option PathwayProps
inherit_pathways parent (some own) p = some own
inherit_pathways parent none p = Option.map (mark_pathways parent) p

abbrev pub mark_restroom : String → RestroomProps → RestroomProps
mark_restroom parent c = record c { is_inherited = true; source_id = parent }

abbrev inherit_restroom :
    String → Option RestroomProps → Option RestroomProps → Option RestroomProps
inherit_restroom parent (some own) p = some own
inherit_restroom parent none p = Option.map (mark_restroom parent) p

abbrev pub mark_parking : String → ParkingProps → ParkingProps
mark_parking parent c = record c { is_inherited = true; source_id = parent }

abbrev inherit_parking : String → Option ParkingProps → Option ParkingProps → Option ParkingProps
inherit_parking parent (some own) p = some own
inherit_parking parent none p = Option.map (mark_parking parent) p

abbrev pub mark_elevator : String → ElevatorProps → ElevatorProps
mark_elevator parent c = record c { is_inherited = true; source_id = parent }

abbrev inherit_elevator :
    String → Option ElevatorProps → Option ElevatorProps → Option ElevatorProps
inherit_elevator parent (some own) p = some own
inherit_elevator parent none p = Option.map (mark_elevator parent) p

abbrev pub inherit : String → AccessibilityProfile → AccessibilityProfile → AccessibilityProfile
inherit parent effective pa = record effective {
  entrance = inherit_entrance parent effective.entrance pa.entrance;
  pathways = inherit_pathways parent effective.pathways pa.pathways;
  restroom = inherit_restroom parent effective.restroom pa.restroom;
  parking = inherit_parking parent effective.parking pa.parking;
  elevator = inherit_elevator parent effective.elevator pa.elevator;
}

abbrev pub inherit_from : AccessibilityProfile → Option Place → AccessibilityProfile
inherit_from effective none = effective
inherit_from effective (some parent) = elim (parent.accessibility) [
  | none ↦ effective
  | some pa ↦ inherit parent.id effective pa
]

unfoldable pub compute_effective_profile : Option Place → Option Place → Option AccessibilityProfile
compute_effective_profile none parent = none
compute_effective_profile (some child) parent =
    some (inherit_from (own_part child.accessibility) parent)
