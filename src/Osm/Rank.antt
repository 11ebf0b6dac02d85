-- ===== src/Osm/Rank.antt =====
-- internal/sources/osm/rank.go: the zoom-level priority of a place.
use inwheel_server.Prelude.{String, ◌||◌, List, [], ◌∷◌, ◌==◌, if◌then◌else◌}
use inwheel_server.Prelude.Dict.{at, member}
use inwheel_server.Models.Place.{
  Rank, rank_landmark, rank_establishment, rank_feature, Category, Tags,
}

abbrev landmark_transport_amenity : List String
landmark_transport_amenity = "bus_station" ∷ "ferry_terminal" ∷ []

abbrev landmark_transport_public : List String
landmark_transport_public = "station" ∷ []

abbrev feature_amenity : List String
feature_amenity = "toilets" ∷ "atm" ∷ "shelter" ∷ []

unfoldable pub derive_rank : Category → Tags → Rank
unfolding at member
derive_rank category tags =
    let amenity = at tags "amenity" in
    let public_transport = at tags "public_transport" in
    if category == "healthcare"
    then (if amenity == "hospital" then rank_landmark else rank_establishment)
    else if category == "education"
    then (if amenity == "university" then rank_landmark else rank_establishment)
    else if category == "transport"
    then (if member amenity landmark_transport_amenity
        then rank_landmark
        else if member public_transport landmark_transport_public
        then rank_landmark
        else rank_establishment)
    else if category == "toilet"
    then rank_feature
    else if category == "finance" || category == "social"
    then (if member amenity feature_amenity then rank_feature else rank_establishment)
    else rank_establishment
