-- ===== src/Models/Place.antt =====
-- pkg/models/place.go: places, external references and queued records. OSM ids are positive.
use inwheel_server.Prelude.{ℕ, String, Option, List, [], ◌∷◌}
use inwheel_server.Float64.{F64}
use inwheel_server.Models.Profile.{AccessibilityProfile, Time}

abbrev pub Rank : Type 0
Rank = ℕ

abbrev pub rank_landmark : Rank
rank_landmark = 1

abbrev pub rank_establishment : Rank
rank_establishment = 2

abbrev pub rank_feature : Rank
rank_feature = 3

abbrev pub status_active : String
status_active = "active"

abbrev pub place_statuses : List String
place_statuses = status_active ∷ "closed" ∷ "osm_removed" ∷ []

abbrev pub Category : Type 0
Category = String

abbrev pub categories : List Category
categories =
    "mall" ∷ "airport" ∷ "train_station" ∷ "restaurant" ∷ "cafe" ∷ "bar" ∷ "shop" ∷ "healthcare"
    ∷ "education" ∷ "finance" ∷ "entertainment" ∷ "government" ∷ "transport" ∷ "social" ∷ "worship"
    ∷ "toilet" ∷ "parking" ∷ "entrance" ∷ "other" ∷ []

abbrev pub osm_types : List String
osm_types = "node" ∷ "way" ∷ "relation" ∷ []

abbrev pub Tags : Type 0
Tags = List (String × String)

pub record ExternalRef : Type 0 where
  pub id : String
  pub confidence : F64
  pub matched_at : Time

abbrev pub ExternalIds : Type 0
ExternalIds = List (String × ExternalRef)

-- `coordinates` is the raw JSON text of the value.
pub record Geometry : Type 0 where
  pub kind : String
  pub coordinates : String

pub record Place : Type 0 where
  pub id : String
  pub osm_id : ℕ
  pub osm_type : String
  pub name : String
  pub lng : F64
  pub lat : F64
  pub geometry : Option Geometry
  pub category : Category
  pub rank : Rank
  pub parent_id : Option String
  pub accessibility : Option AccessibilityProfile
  pub tags : Tags
  pub external_ids : ExternalIds
  pub status : String
  pub source : String
  pub submitted_by : Option String
  pub submitted_at : Option Time
  pub created_at : Time
  pub updated_at : Time

pub record UnmatchedExternal : Type 0 where
  pub id : ℕ
  pub source : String
  pub source_id : String
  pub name : String
  pub category : String
  pub street : String
  pub house_number : String
  pub lat : F64
  pub lng : F64
  pub payload : String
  pub last_attempted : Time
  pub attempts : ℕ
