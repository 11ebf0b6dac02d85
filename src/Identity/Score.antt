-- ===== src/Identity/Score.antt =====
-- internal/identity/score.go: the score of a candidate, from distance, name and address.
use inwheel_server.Prelude.{
  ℕ, ◌+◌, ◌-◌, String, Bool, true, false, not, ◌&&◌, ◌||◌, List, [], ◌∷◌, ◌==◌, eqb, length, keep,
  if◌then◌else◌,
}
use inwheel_server.Prelude.Dict.{at, member}
use inwheel_server.Float64.{F64, Arithmetic}
use inwheel_server.Models.Place.{Place}
use inwheel_server.Identity.Record.{Record}
use inwheel_server.Identity.Normalize.{Unicode, normalize}

abbrev pub token_set : List String → List String
token_set [] = []
token_set (t ∷ ts) = let set = token_set ts in if member t set then set else t ∷ set

abbrev pub intersect : List String → List String → ℕ
intersect r p = length (keep (λ tok. member tok p) r)

-- `len(at) != len(bt)` and the loop over the indices.
abbrev same_tokens : List String → List String → Bool
same_tokens [] [] = true
same_tokens (a ∷ as') (b ∷ bs) = a == b && same_tokens as' bs
same_tokens _ _ = false

module _ (fl : Arithmetic) where
  abbrev pub zero_f : F64
  zero_f = fl.lit 0 0

  abbrev pub one_f : F64
  one_f = fl.lit 1 0

  abbrev pub radius_m : F64
  radius_m = fl.lit 500 1

  abbrev pub confident_threshold : F64
  confident_threshold = fl.lit 80 2

  abbrev pub low_confidence_threshold : F64
  low_confidence_threshold = fl.lit 55 2

  abbrev pub weight_distance : F64
  weight_distance = fl.lit 5 1

  abbrev pub weight_name : F64
  weight_name = fl.lit 4 1

  abbrev pub weight_address : F64
  weight_address = fl.lit 1 1

  abbrev to_rad : F64 → F64
  to_rad d = fl.div (fl.mul d fl.pi) (fl.lit 180 0)

  unfoldable pub haversine_meters : F64 → F64 → F64 → F64 → F64
  haversine_meters lat1 lng1 lat2 lng2 =
      let d_lat = to_rad (fl.sub lat2 lat1) in
      let d_lng = to_rad (fl.sub lng2 lng1) in
      let two = fl.lit 2 0 in
      let s_lat = fl.sin (fl.div d_lat two) in
      let s_lng = fl.sin (fl.div d_lng two) in
      let a =
        fl.add (fl.mul s_lat s_lat)
          (fl.mul (fl.mul (fl.mul (fl.cos (to_rad lat1)) (fl.cos (to_rad lat2))) s_lng) s_lng) in
      let c = fl.mul two (fl.atan2 (fl.sqrt a) (fl.sqrt (fl.sub one_f a))) in
      fl.mul (fl.lit 63710088 1) c

  unfoldable pub distance_score : F64 → F64 → F64 → F64 → F64
  distance_score r_lat r_lng p_lat p_lng =
      let meters = haversine_meters r_lat r_lng p_lat p_lng in
      if fl.le radius_m meters then zero_f else fl.sub one_f (fl.div meters radius_m)

  -- The float of a similarity of two token sets.
  abbrev pub jaccard : List String → List String → F64
  jaccard r p =
      let common = intersect r p in
      let all = length r + length p - common in
      if eqb (length r) 0 || eqb (length p) 0
      then zero_f
      else if eqb all 0
      then zero_f
      else fl.div (fl.of_int common) (fl.of_int all)

  -- With an address present the three weights are used as they are; the constant expressions of the
  -- other branch are exact in Go until they meet the variable `denom`.
  unfoldable pub combined_score : F64 → F64 → F64 → Bool → F64
  combined_score distance name address true =
      fl.add (fl.add (fl.mul weight_distance distance) (fl.mul weight_name name))
        (fl.mul weight_address address)
  combined_score distance name address false =
      let denom = fl.lit 9 1 in
      let w_dist = fl.add weight_distance (fl.div (fl.lit 5 2) denom) in
      let w_name = fl.add weight_name (fl.div (fl.lit 4 2) denom) in
      fl.add (fl.mul w_dist distance) (fl.mul w_name name)

  module _ (uni : Unicode) where
    unfoldable pub name_score : String → String → F64
    unfolding member
    name_score r_name p_name =
        jaccard (token_set (normalize uni r_name)) (token_set (normalize uni p_name))

    abbrev streets_match : String → String → Bool
    streets_match a b = same_tokens (normalize uni a) (normalize uni b)

    -- The score and whether an address is present.
    unfoldable pub address_score : String → String → String → String → F64 × Bool
    address_score r_street r_house p_street p_house =
        if r_street == "" || p_street == ""
        then (zero_f, false)
        else if not (streets_match r_street p_street)
        then (zero_f, true)
        else if not (r_house == "") && not (p_house == "") && uni.equal_fold r_house p_house
        then (one_f, true)
        else (fl.lit 5 1, true)

    unfoldable pub score_candidate : Record → Place → F64
    unfolding at distance_score name_score address_score combined_score haversine_meters
    score_candidate r p =
        let dist = distance_score r.lat r.lng p.lat p.lng in
        let name = name_score r.name p.name in
        let (addr, present) =
          address_score r.street r.house_number (at p.tags "addr:street")
            (at p.tags "addr:housenumber") in
        combined_score dist name addr present
