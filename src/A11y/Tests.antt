-- ===== src/A11y/Tests.antt =====
-- Runs of internal/a11y and witnesses of its theorems.
use inwheel_server.Prelude.{String, none, some, false, [], ◌∷◌, ◌≡◌, refl}
use inwheel_server.Models.Profile.{
  level_no, EntranceProps, no_entrance, no_parking, AccessibilityProfile, empty_profile,
}
use inwheel_server.Models.Place.{Place, status_active}
use inwheel_server.A11y.{entrance_flags, with_audit_flags, mark_parking}

abbrev steps : EntranceProps
steps = record no_entrance {
  is_level = some false;
  has_fixed_ramp = some false;
  width = some level_no;
}

abbrev shop_profile : AccessibilityProfile
shop_profile = with_audit_flags (record empty_profile { id = "a1"; entrance = some steps })

abbrev mall_profile : AccessibilityProfile
mall_profile = with_audit_flags (record empty_profile {
  id = "a2";
  entrance = some no_entrance;
  parking = some (record no_parking { has_disabled_spaces = some false });
})

abbrev place_of : String → AccessibilityProfile → Place
place_of id p = record {
  id = id;
  osm_id = 0;
  osm_type = "";
  name = id;
  lng = 0;
  lat = 0;
  geometry = none;
  category = "shop";
  rank = 2;
  parent_id = none;
  accessibility = some p;
  tags = [];
  external_ids = [];
  status = status_active;
  source = "";
  submitted_by = none;
  submitted_at = none;
  created_at = 0;
  updated_at = 0;
}

abbrev shop : Place
shop = place_of "shop" shop_profile

abbrev mall : Place
mall = place_of "mall" mall_profile

steps_flags : entrance_flags steps ≡ "narrow width" ∷ "no level route (no ramp and not level)" ∷ []
unfolding entrance_flags
steps_flags = refl

abbrev shop_effective : AccessibilityProfile
shop_effective = record shop_profile {
  parking =
      (record mall_profile {
        parking = elim (mall_profile.parking) [
          | none ↦ none
          | some c ↦ some (mark_parking "mall" c)
        ];
      }).parking;
}
