-- ===== src/Identity/Record.antt =====
-- internal/identity/record.go and decision.go, and the repository interfaces of matcher.go,
-- resolve.go and sweep.go over any state `S`.
use inwheel_server.Prelude.{ℕ, String, Option, List}
use inwheel_server.Prelude.Result.{Action}
use inwheel_server.Float64.{F64}
use inwheel_server.Models.Profile.{Time}
use inwheel_server.Models.Place.{Category, Place, ExternalRef, UnmatchedExternal}

pub record Record : Type 0 where
  pub source : String
  pub source_id : String
  pub name : String
  pub lat : F64
  pub lng : F64
  pub category : Category
  pub street : String
  pub house_number : String
  pub payload : Option String

-- An int in Go: `other` stands for every value that has no name.
pub data Kind : Type 0 where
  no_match low_confidence confident : Kind
  other : ℕ → Kind

unfoldable pub kind_string : Kind → String
kind_string confident = "confident"
kind_string low_confidence = "low_confidence"
kind_string no_match = "no_match"
kind_string (other n) = "unknown"

pub record Decision : Type 0 where
  pub kind : Kind
  pub matched_place_id : String
  pub confidence : F64

pub record CandidateRepo (S : Type 0) : Type 0 where
  pub find_candidates : F64 → F64 → F64 → List Category → Action S (List Place)

pub record AttachRepo (S : Type 0) : Type 0 where
  pub attach_external_ref : String → String → ExternalRef → Action S (Unit {0})

pub record EnqueueRepo (S : Type 0) : Type 0 where
  pub enqueue : UnmatchedExternal → Action S (Unit {0})

pub record SweepRepo (S : Type 0) : Type 0 where
  pub find_candidates_near_touched : List String → F64 → Action S (List UnmatchedExternal)
  pub bump_attempts : ℕ → Time → Action S (Unit {0})
  pub delete : ℕ → Action S (Unit {0})
