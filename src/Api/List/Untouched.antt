-- ===== src/Api/List/Untouched.antt =====
-- ListPlaces of cmd/api/main.go and the table of API keys.
use inwheel_server.Prelude.{
  ℕ, String, Bool, Option, List, [], ◌∷◌, ◌≡◌, refl, ◌∙◌, ◌+◌, map, take, keep,
}
use inwheel_server.Prelude.Result.{Result, ok, err, Action}
use inwheel_server.Float64.{Arithmetic}
use inwheel_server.Models.Place.{Place}
use inwheel_server.Db.{Db, Postgres, statement}
use inwheel_server.Pagination.{Codecs}
use inwheel_server.Validation.{FieldError, places_query}
use inwheel_server.Api.List.{
  ListParams, limit_or, trimmed, sort_listed, selected, area, with_profile, preload, find_listed,
  respond, list_area, list_valid, list_places,
}
use inwheel_server.PlaceRepo.Profiles.Untouched.{SameKeys, statement-SameKeys, bind-SameKeys}

pub preload-SameKeys : (ps : List Place) → SameKeys (preload ps)
unfolding preload
preload-SameKeys [] db = refl
preload-SameKeys (p ∷ ps) db =
    statement-SameKeys (λ s. (ok (map (with_profile s.profiles) (p ∷ ps)), s)) (λ s. refl) db

module _ (fl : Arithmetic) (codecs : Codecs) (pg : Postgres) (params : ListParams) where
  respond-SameKeys :
      (n : ℕ) (r : Result (List Place) × Db)
      → (respond fl codecs pg n r).1.api_keys ≡ (r.1).api_keys
  respond-SameKeys n (ok ps, db) = refl
  respond-SameKeys n (err e, db) = refl

  find_listed-SameKeys :
      (n : ℕ) (in_area : Place → Bool) (cursor q : Option String)
      → SameKeys (find_listed fl codecs pg n in_area cursor q)
  unfolding find_listed
  find_listed-SameKeys n in_area cursor q =
      let body : Action Db (List Place) = λ s. (
        ok (take n (sort_listed pg (keep (selected fl codecs pg in_area cursor q) s.places))),
        s,
      ) in
      bind-SameKeys (statement body) preload (statement-SameKeys body (λ s. refl)) preload-SameKeys

  list_area-SameKeys :
      (area : Result (Place → Bool)) → SameKeys (list_area fl codecs pg params area)
  list_area-SameKeys (err e) db = refl
  list_area-SameKeys (ok in_area) db =
      let n = limit_or params.limit in
      let cursor = params.query.cursor in
      let q = trimmed params.query.q in
      respond-SameKeys n (find_listed fl codecs pg (n + 1) in_area cursor q db)
      ∙ find_listed-SameKeys (n + 1) in_area cursor q db

  list_valid-SameKeys : (es : List FieldError) → SameKeys (list_valid fl codecs pg params es)
  list_valid-SameKeys (e ∷ es) db = refl
  list_valid-SameKeys [] db = list_area-SameKeys (area pg params.query) db

  pub list_places-SameKeys : SameKeys (list_places fl codecs pg params)
  unfolding list_places
  list_places-SameKeys =
      list_valid-SameKeys
        (places_query fl codecs (record params.query { q = trimmed params.query.q }))
