-- ===== src/A11y/Inherit.antt =====
-- The effective profile of a place under its parent.
use inwheel_server.Prelude.{String, Option, none, some, true, false, ◌≡◌, arith}
use inwheel_server.Models.Profile.{
  AccessibilityProfile, EntranceProps, PathwayProps, RestroomProps, ParkingProps, ElevatorProps,
}
use inwheel_server.Models.Place.{Place}
use inwheel_server.A11y.{with_audit_flags, compute_effective_profile}

abbrev pub HasComputedFlags : AccessibilityProfile → Type 0
HasComputedFlags p = with_audit_flags p ≡ p

-- If the stored profiles of a place and its parent carry the flags that the engine computes, so
-- does the effective profile: inheriting a component and flagging it commute.
pub effective-HasComputedFlags :
    (child parent : Place) (ca pa : AccessibilityProfile) {e : AccessibilityProfile}
    → child.accessibility ≡ some ca
    → parent.accessibility ≡ some pa
    → HasComputedFlags ca
    → HasComputedFlags pa
    → compute_effective_profile (some child) (some parent) ≡ some e
    → HasComputedFlags e
unfolding compute_effective_profile with_audit_flags
effective-HasComputedFlags child parent ca pa hc hp fc fp h = ground arith

abbrev pub InheritsEntrance : String → Option EntranceProps → Type 0
InheritsEntrance parent none = ⊥
InheritsEntrance parent (some c) = (c.is_inherited ≡ true) × (c.source_id ≡ parent)

abbrev pub IsOwnEntrance : Option EntranceProps → Type 0
IsOwnEntrance none = Unit
IsOwnEntrance (some c) = c.is_inherited ≡ false

abbrev pub InheritsPathways : String → Option PathwayProps → Type 0
InheritsPathways parent none = ⊥
InheritsPathways parent (some c) = (c.is_inherited ≡ true) × (c.source_id ≡ parent)

abbrev pub IsOwnPathways : Option PathwayProps → Type 0
IsOwnPathways none = Unit
IsOwnPathways (some c) = c.is_inherited ≡ false

abbrev pub InheritsRestroom : String → Option RestroomProps → Type 0
InheritsRestroom parent none = ⊥
InheritsRestroom parent (some c) = (c.is_inherited ≡ true) × (c.source_id ≡ parent)

abbrev pub IsOwnRestroom : Option RestroomProps → Type 0
IsOwnRestroom none = Unit
IsOwnRestroom (some c) = c.is_inherited ≡ false

abbrev pub InheritsParking : String → Option ParkingProps → Type 0
InheritsParking parent none = ⊥
InheritsParking parent (some c) = (c.is_inherited ≡ true) × (c.source_id ≡ parent)

abbrev pub IsOwnParking : Option ParkingProps → Type 0
IsOwnParking none = Unit
IsOwnParking (some c) = c.is_inherited ≡ false

abbrev pub InheritsElevator : String → Option ElevatorProps → Type 0
InheritsElevator parent none = ⊥
InheritsElevator parent (some c) = (c.is_inherited ≡ true) × (c.source_id ≡ parent)

abbrev pub IsOwnElevator : Option ElevatorProps → Type 0
IsOwnElevator none = Unit
IsOwnElevator (some c) = c.is_inherited ≡ false

-- A stored profile marks no component as inherited.
abbrev pub IsStored : AccessibilityProfile → Type 0
IsStored p =
    IsOwnEntrance p.entrance
    × IsOwnPathways p.pathways
    × IsOwnRestroom p.restroom
    × IsOwnParking p.parking
    × IsOwnElevator p.elevator
