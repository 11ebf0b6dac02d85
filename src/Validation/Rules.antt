-- ===== src/Validation/Rules.antt =====
-- What internal/validation lets through.
use inwheel_server.Prelude.{
  ◌≤◌, String, Option, none, some, true, false, List, [], ◌∷◌, ◌≡◌, ◌≢◌, ◌↔◌, ◌⊎◌, inl, inr, arith,
  length, All, eq_iff,
}
use inwheel_server.Prelude.Texts.{trim_space}
use inwheel_server.Prelude.Result.{Result, ok, err}
use inwheel_server.Float64.{F64, Arithmetic, IsNan, IsTotal}
use inwheel_server.Models.Profile.{SourceReport, AccessibilityProfile}
use inwheel_server.Models.Place.{Place, Tags}
use inwheel_server.Pagination.{Codecs, decode}
use inwheel_server.Validation.{
  byte_length, tag_errors, validate_tags, place, report_errors, accessibility_profile,
  PlacesQueryParams, places_query, blank_query,
}

abbrev pub IsShortTag : String × String → Type 0
IsShortTag t = (byte_length t.0 ≤ 64) × (byte_length t.1 ≤ 256)

tag_errors_iff : (tags : Tags) → (tag_errors tags ≡ []) ↔ All IsShortTag tags
unfolding tag_errors
tag_errors_iff [] = ground arith
tag_errors_iff ((k, v) ∷ tags) = ground (arith, tag_errors_iff tags)

-- A place is accepted exactly when its name is not blank, it has at most 50 tags, and no tag's key
-- is longer than 64 bytes and none's value longer than 256. It is bytes of UTF-8 that count, not
-- characters.
pub place_iff :
    (p : Place)
    → (place (some p) ≡ [])
      ↔ ((trim_space p.name ≢ "") × (length p.tags ≤ 50) × All IsShortTag p.tags)
unfolding place validate_tags
place_iff p = ground (arith, tag_errors_iff p.tags, eq_iff (trim_space p.name) "")

abbrev pub IsShortReport : SourceReport → Type 0
IsShortReport r = (byte_length r.source ≤ 64) × (byte_length r.value ≤ 64)

report_errors_iff : (rs : List SourceReport) → (report_errors rs ≡ []) ↔ All IsShortReport rs
unfolding report_errors
report_errors_iff [] = ground arith
report_errors_iff (r ∷ rs) = ground (arith, report_errors_iff rs)

-- A profile is accepted exactly when it has at most 50 source reports, each with a source and a
-- value of at most 64 bytes.
pub accessibility_profile_iff :
    (p : AccessibilityProfile)
    → (accessibility_profile (some p) ≡ [])
      ↔ ((length p.source_reports ≤ 50) × All IsShortReport p.source_reports)
unfolding accessibility_profile
accessibility_profile_iff p = ground (arith, report_errors_iff p.source_reports)

module _ (fl : Arithmetic) (codecs : Codecs) where
  abbrev pub NoProximity : PlacesQueryParams → Type 0
  NoProximity p = (p.lng ≡ none) × (p.lat ≡ none) × (p.radius ≡ none)

  abbrev pub IsProximity : PlacesQueryParams → Type 0
  IsProximity p = (p.lng ≢ none) × (p.lat ≢ none) × (p.radius ≢ none)

  abbrev pub NoBox : PlacesQueryParams → Type 0
  NoBox p = (p.min_lng ≡ none) × (p.min_lat ≡ none) × (p.max_lng ≡ none) × (p.max_lat ≡ none)

  -- Both are given, and the first is less than the second, or one of them is a NaN.
  abbrev pub IsBelow : Option F64 → Option F64 → Type 0
  IsBelow (some low) (some high) = (fl.lt low high ≡ true) ⊎ (IsNan fl low ⊎ IsNan fl high)
  IsBelow _ _ = ⊥

  IsBelow-iff :
      IsTotal fl → (low high : F64) → (fl.le high low ≡ false) ↔ IsBelow (some low) (some high)
  IsBelow-iff total low high =
      ground
        (arith, total.le_or_lt low high, total.numbers_of_le high low, total.numbers_of_lt low high)

  abbrev pub IsBox : PlacesQueryParams → Type 0
  IsBox p = IsBelow p.min_lng p.max_lng × IsBelow p.min_lat p.max_lat

  abbrev pub IsOk {ℓ} : {A : Type ℓ} → Result A → Type 0
  IsOk (ok a) = Unit
  IsOk (err e) = ⊥

  abbrev pub IsCursor : Option String → Type 0
  IsCursor none = Unit
  IsCursor (some c) = IsOk (decode codecs c)

  abbrev pub IsText : Option String → Type 0
  IsText none = Unit
  IsText (some q) = trim_space q ≢ ""

  blank_query_iff : (q : Option String) → (blank_query fl codecs q ≡ false) ↔ IsText q
  blank_query_iff none = ground arith
  blank_query_iff (some q) = ground (arith, eq_iff (trim_space q) "")

  -- What the code tests: both are given, and the second is not at most the first.
  abbrev Passes : Option F64 → Option F64 → Type 0
  Passes (some low) (some high) = fl.le high low ≡ false
  Passes _ _ = ⊥

  Passes-iff : IsTotal fl → (low high : Option F64) → Passes low high ↔ IsBelow low high
  Passes-iff total (some low) (some high) = IsBelow-iff total low high
  Passes-iff total (some low) none = (λ h. h, λ h. h)
  Passes-iff total none high = (λ h. h, λ h. h)

  tested_iff :
      (p : PlacesQueryParams)
      → (places_query fl codecs p ≡ []) ↔ (
          ((NoProximity p × NoBox p)
            ⊎ ((IsProximity p × NoBox p)
                ⊎ (NoProximity p × (Passes p.min_lng p.max_lng × Passes p.min_lat p.max_lat))))
          × IsCursor p.cursor
          × IsText p.q)
  unfolding places_query
  tested_iff p = ground (arith, blank_query_iff p.q)

  last_of {ℓ κ} : {A B : Type ℓ} {C D : Type κ} → (C → D) → (A ⊎ (B ⊎ C)) → (A ⊎ (B ⊎ D))
  last_of f (inl a) = inl a
  last_of f (inr (inl b)) = inr (inl b)
  last_of f (inr (inr c)) = inr (inr (f c))

  -- A query is accepted exactly when it names no area, or a point with a radius, or a box whose lower
  -- bounds are less than its upper ones or not comparable with them, one of the two being a NaN; and
  -- its cursor, if any, decodes; and its text, if any, is not blank. The comparisons of floats are
  -- taken to be total on numbers.
  pub places_query_iff :
      IsTotal fl
      → (p : PlacesQueryParams)
      → (places_query fl codecs p ≡ []) ↔ (
          ((NoProximity p × NoBox p) ⊎ ((IsProximity p × NoBox p) ⊎ (NoProximity p × IsBox p)))
          × IsCursor p.cursor
          × IsText p.q)
  places_query_iff total p =
      let lng = Passes-iff total p.min_lng p.max_lng in
      let lat = Passes-iff total p.min_lat p.max_lat in
      let tested = tested_iff p in
      (
        λ h.
            let (area, cursor, text) = tested.0 h in
            (last_of (λ b. (b.0, (lng.0 b.1.0, lat.0 b.1.1))) area, cursor, text),
        λ h. tested.1 (last_of (λ b. (b.0, (lng.1 b.1.0, lat.1 b.1.1))) h.0, h.1, h.2),
      )
