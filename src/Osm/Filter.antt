-- ===== src/Osm/Filter.antt =====
-- internal/sources/osm/filter.go: which OSM elements are places of ours, by an allowlist of tags.
use inwheel_server.Prelude.{
  String, Bool, false, not, ◌&&◌, Option, none, some, List, [], ◌∷◌, ◌==◌, if◌then◌else◌, any,
}
use inwheel_server.Prelude.Dict.{lookup, at, member}
use inwheel_server.Models.Place.{Category, Tags}

abbrev pub amenity_to_category : List (String × Category)
amenity_to_category =
    ("restaurant", "restaurant")
    ∷ ("fast_food", "restaurant")
    ∷ ("food_court", "restaurant")
    ∷ ("cafe", "cafe")
    ∷ ("ice_cream", "cafe")
    ∷ ("biergarten", "cafe")
    ∷ ("bar", "bar")
    ∷ ("pub", "bar")
    ∷ ("nightclub", "bar")
    ∷ ("hospital", "healthcare")
    ∷ ("clinic", "healthcare")
    ∷ ("doctors", "healthcare")
    ∷ ("dentist", "healthcare")
    ∷ ("pharmacy", "healthcare")
    ∷ ("veterinary", "healthcare")
    ∷ ("nursing_home", "healthcare")
    ∷ ("school", "education")
    ∷ ("university", "education")
    ∷ ("college", "education")
    ∷ ("kindergarten", "education")
    ∷ ("childcare", "education")
    ∷ ("library", "education")
    ∷ ("language_school", "education")
    ∷ ("music_school", "education")
    ∷ ("driving_school", "education")
    ∷ ("research_institute", "education")
    ∷ ("bank", "finance")
    ∷ ("atm", "finance")
    ∷ ("bureau_de_change", "finance")
    ∷ ("money_transfer", "finance")
    ∷ ("cinema", "entertainment")
    ∷ ("theatre", "entertainment")
    ∷ ("arts_centre", "entertainment")
    ∷ ("casino", "entertainment")
    ∷ ("community_centre", "entertainment")
    ∷ ("events_venue", "entertainment")
    ∷ ("social_centre", "entertainment")
    ∷ ("townhall", "government")
    ∷ ("courthouse", "government")
    ∷ ("embassy", "government")
    ∷ ("police", "government")
    ∷ ("fire_station", "government")
    ∷ ("post_office", "government")
    ∷ ("bus_station", "transport")
    ∷ ("ferry_terminal", "transport")
    ∷ ("taxi", "transport")
    ∷ ("car_rental", "transport")
    ∷ ("bicycle_rental", "transport")
    ∷ ("car_sharing", "transport")
    ∷ ("social_facility", "social")
    ∷ ("shelter", "social")
    ∷ ("place_of_worship", "worship")
    ∷ ("toilets", "toilet")
    ∷ ("marketplace", "other")
    ∷ ("internet_cafe", "other")
    ∷ []

abbrev pub public_transport_allowlist : List String
public_transport_allowlist = "station" ∷ "stop_area" ∷ []

abbrev pub building_qualifying_keys : List String
building_qualifying_keys =
    "amenity" ∷ "shop" ∷ "tourism" ∷ "leisure" ∷ "office" ∷ "healthcare" ∷ "public_transport" ∷ []

-- `if pt, ok := tags["public_transport"]; ok { if _, allowed := …[pt]; allowed`
abbrev pub allowed_transport : Option String → Bool
allowed_transport none = false
allowed_transport (some pt) = member pt public_transport_allowlist

abbrev pub has_tag : Tags → String → Bool
has_tag tags key = not (at tags key == "")

-- The branches below the amenity lookup.
abbrev pub evaluate_rest : Tags → Option Category
evaluate_rest tags =
    if allowed_transport (lookup "public_transport" tags)
    then some "transport"
    else if has_tag tags "shop"
    then some "shop"
    else if has_tag tags "building" && any (has_tag tags) building_qualifying_keys
    then some "other"
    else none

abbrev or_rest : Option Category → Tags → Option Category
or_rest none tags = evaluate_rest tags
or_rest (some cat) tags = some cat

-- `none` stands for ("", false).
unfoldable pub evaluate : Tags → Option Category
unfolding lookup at member
evaluate tags = or_rest (lookup (at tags "amenity") amenity_to_category) tags
