-- ===== src/Models/Profile.antt =====
-- pkg/models/accessibility.go. A pointer field is an `Option`; `type X string` is a text, since the
-- database and the API can hold any; a time is a number of nanoseconds.
use inwheel_server.Prelude.{ℕ, String, Option, none, Bool, false, List, [], ◌∷◌}
use inwheel_server.Prelude.Texts.{GoInt}

abbrev pub Time : Type 0
Time = ℕ

abbrev pub AccessibilityLevel : Type 0
AccessibilityLevel = String

abbrev pub level_good : AccessibilityLevel
level_good = "good"

abbrev pub level_limited : AccessibilityLevel
level_limited = "limited"

abbrev pub level_no : AccessibilityLevel
level_no = "no"

abbrev pub levels : List AccessibilityLevel
levels = level_good ∷ level_limited ∷ level_no ∷ []

abbrev pub door_automatic : String
door_automatic = "automatic"

abbrev pub door_types : List String
door_types = door_automatic ∷ "manual" ∷ "revolving" ∷ "none" ∷ []

abbrev pub surface_types : List String
surface_types =
    "asphalt" ∷ "paving_stones" ∷ "cobblestone" ∷ "gravel" ∷ "concrete" ∷ "wood" ∷ "carpet"
    ∷ "tiles" ∷ []

pub record SourceReport : Type 0 where
  pub source : String
  pub value : String
  pub recorded_at : Time

pub record DoorProps : Type 0 where
  pub kind : String
  pub width : Option AccessibilityLevel

pub record EntranceProps : Type 0 where
  pub is_level : Option Bool
  pub has_fixed_ramp : Option Bool
  pub has_removable_ramp : Option Bool
  pub slope_percent : Option AccessibilityLevel
  pub width : Option AccessibilityLevel
  pub door : Option DoorProps
  pub has_intercom : Option Bool
  pub audit_flags : List String
  pub is_inherited : Bool
  pub source_id : String

pub record PathwayProps : Type 0 where
  pub width : Option AccessibilityLevel
  pub surface : String
  pub is_kerbstone_free : Option Bool
  pub has_steps : Option Bool
  pub audit_flags : List String
  pub is_inherited : Bool
  pub source_id : String

pub record RestroomProps : Type 0 where
  pub is_accessible : Option Bool
  pub door_width : Option AccessibilityLevel
  pub turning_radius : Option AccessibilityLevel
  pub has_grab_rails : Option Bool
  pub has_roll_in_shower : Option Bool
  pub toilet_seat_height : Option AccessibilityLevel
  pub has_emergency_pull : Option Bool
  pub has_changing_table : Option Bool
  pub audit_flags : List String
  pub is_inherited : Bool
  pub source_id : String

pub record ParkingProps : Type 0 where
  pub has_disabled_spaces : Option Bool
  pub count : Option GoInt
  pub distance_to_entrance : Option AccessibilityLevel
  pub width : Option AccessibilityLevel
  pub has_dedicated_signage : Option Bool
  pub audit_flags : List String
  pub is_inherited : Bool
  pub source_id : String

pub record ElevatorProps : Type 0 where
  pub width : Option AccessibilityLevel
  pub depth : Option AccessibilityLevel
  pub door_width : Option AccessibilityLevel
  pub has_braille : Option Bool
  pub has_audio : Option Bool
  pub audit_flags : List String
  pub is_inherited : Bool
  pub source_id : String

pub record AccessibilityProfile : Type 0 where
  pub id : String
  pub place_id : String
  pub source_reports : List SourceReport
  pub entrance : Option EntranceProps
  pub pathways : Option PathwayProps
  pub restroom : Option RestroomProps
  pub parking : Option ParkingProps
  pub elevator : Option ElevatorProps
  pub user_verified : Bool
  pub submitted_by : Option String
  pub submitted_at : Option Time
  pub updated_at : Time

-- The zero values that `&models.X{}` starts from.
abbrev pub no_entrance : EntranceProps
no_entrance = record {
  is_level = none;
  has_fixed_ramp = none;
  has_removable_ramp = none;
  slope_percent = none;
  width = none;
  door = none;
  has_intercom = none;
  audit_flags = [];
  is_inherited = false;
  source_id = "";
}

abbrev pub no_restroom : RestroomProps
no_restroom = record {
  is_accessible = none;
  door_width = none;
  turning_radius = none;
  has_grab_rails = none;
  has_roll_in_shower = none;
  toilet_seat_height = none;
  has_emergency_pull = none;
  has_changing_table = none;
  audit_flags = [];
  is_inherited = false;
  source_id = "";
}

abbrev pub no_parking : ParkingProps
no_parking = record {
  has_disabled_spaces = none;
  count = none;
  distance_to_entrance = none;
  width = none;
  has_dedicated_signage = none;
  audit_flags = [];
  is_inherited = false;
  source_id = "";
}

abbrev pub no_elevator : ElevatorProps
no_elevator = record {
  width = none;
  depth = none;
  door_width = none;
  has_braille = none;
  has_audio = none;
  audit_flags = [];
  is_inherited = false;
  source_id = "";
}

abbrev pub empty_profile : AccessibilityProfile
empty_profile = record {
  id = "";
  place_id = "";
  source_reports = [];
  entrance = none;
  pathways = none;
  restroom = none;
  parking = none;
  elevator = none;
  user_verified = false;
  submitted_by = none;
  submitted_at = none;
  updated_at = 0;
}
