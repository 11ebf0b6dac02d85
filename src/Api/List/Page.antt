-- ===== src/Api/List/Page.antt =====
-- One page of a listing, from a database that nobody else uses meanwhile.
use inwheel_server.Prelude.{
  ℕ, zero, suc, ◌+◌, ◌<◌, ◌≤◌, String, Bool, true, false, Option, none, some, List, [], ◌∷◌, ◌++◌,
  ◌≡◌, refl, ap, ◌∙◌, ltb, keep, take, map, length, arith,
}
use inwheel_server.Prelude.Result.{ok}
use inwheel_server.Float64.{Arithmetic}
use inwheel_server.Models.Profile.{AccessibilityProfile}
use inwheel_server.Models.Place.{Place}
use inwheel_server.Db.{Db, Postgres}
use inwheel_server.Db.Quiet.{statement-quiet}
use inwheel_server.Pagination.{Codecs, encode, decode}
use inwheel_server.Validation.{PlacesQueryParams, places_query}
use inwheel_server.Api.List.{
  ListParams, trimmed, limit_or, page_200, sort_listed, area, with_profile, preload, selected,
  find_listed, cursor_of, cut_page, list_places,
}

abbrev pub drop : {A : Type 0} → ℕ → List A → List A
drop zero xs = xs
drop (suc n) [] = []
drop (suc n) (x ∷ xs) = drop n xs

pub take-append-drop : {A : Type 0} (n : ℕ) (xs : List A) → take n xs ++ drop n xs ≡ xs
take-append-drop zero xs = refl
take-append-drop (suc n) [] = refl
take-append-drop (suc n) (x ∷ xs) = ap (λ l. x ∷ l) (take-append-drop n xs)

pub length-drop-lt :
    {A : Type 0} (n : ℕ) (xs : List A) → 0 < n → 0 < length xs → length (drop n xs) < length xs
length-drop-lt zero xs h k = absurd (omega (arith, h))
length-drop-lt (suc n) [] h k = absurd (omega (arith, k))
length-drop-lt (suc zero) (x ∷ xs) h k = omega arith
length-drop-lt (suc (suc n)) (x ∷ []) h k = omega arith
length-drop-lt (suc (suc n)) (x ∷ y ∷ xs) h k =
    omega (arith, length-drop-lt (suc n) (y ∷ xs) (omega arith) (omega arith))

-- One more than `n` is taken only if there is more than `n`.
pub take_more-map :
    {A B : Type 0} (f : A → B) (n : ℕ) (xs : List A)
    → take n (map f (take (n + 1) xs)) ≡ map f (take n xs)
take_more-map f zero xs = refl
take_more-map f (suc n) [] = ground arith
take_more-map f (suc n) (x ∷ xs) = ground (arith, take_more-map f n xs)

pub take_more_length :
    {A B : Type 0} (f : A → B) (n : ℕ) (xs : List A)
    → ltb n (length (map f (take (n + 1) xs))) ≡ ltb n (length xs)
take_more_length f zero [] = refl
take_more_length f zero (x ∷ xs) = ground arith
take_more_length f (suc n) [] = ground arith
take_more_length f (suc n) (x ∷ xs) = ground (arith, take_more_length f n xs)

pub take_all : {A : Type 0} (n : ℕ) (xs : List A) → length xs ≤ n → take n xs ≡ xs
take_all zero [] h = refl
take_all zero (x ∷ xs) h = absurd (omega (arith, h))
take_all (suc n) [] h = refl
take_all (suc n) (x ∷ xs) h = ap (λ l. x ∷ l) (take_all n xs (omega (arith, h)))

pub preload-lem :
    (ps : List Place) (db : Db)
    → db.script ≡ []
    → preload ps db ≡ (ok (map (with_profile db.profiles) ps), db)
unfolding preload
preload-lem [] db calm = refl
preload-lem (p ∷ ps) db calm =
    statement-quiet (λ s. (ok (map (with_profile s.profiles) (p ∷ ps)), s)) db calm

module _ (fl : Arithmetic) (codecs : Codecs) (pg : Postgres) where
  -- The query that is validated.
  abbrev pub checked_query : PlacesQueryParams → PlacesQueryParams
  checked_query q = record q { q = trimmed q.q }

  find_listed-lem :
      (n : ℕ) (in_area : Place → Bool) (cursor q : Option String) (db : Db)
      → db.script ≡ []
      → find_listed fl codecs pg n in_area cursor q db ≡ (
        ok (
            map
              (with_profile db.profiles)
              (take n (sort_listed pg (keep (selected fl codecs pg in_area cursor q) db.places)))),
        db,
      )
  unfolding find_listed
  find_listed-lem n in_area cursor q db calm =
      rw
        (statement-quiet
          (λ s. (
            ok (take n (sort_listed pg (keep (selected fl codecs pg in_area cursor q) s.places))),
            s,
          ))
          db calm)
        (preload-lem
          (take n (sort_listed pg (keep (selected fl codecs pg in_area cursor q) db.places))) db
          calm)

  pub list_places-lem :
      (params : ListParams) (in_area : Place → Bool) (db : Db)
      → db.script ≡ []
      → places_query fl codecs (checked_query params.query) ≡ []
      → area pg params.query ≡ ok in_area
      → list_places fl codecs pg params db ≡ (
        cut_page fl codecs pg (limit_or params.limit) (
            map (with_profile db.profiles) (
              take (limit_or params.limit + 1) (
                sort_listed pg (
                  keep
                    (selected fl codecs pg in_area params.query.cursor (trimmed params.query.q))
                    db.places)))),
        db,
      )
  unfolding list_places
  list_places-lem params in_area db calm valid here =
      rw
        (
          valid,
          here,
          find_listed-lem (limit_or params.limit + 1) in_area params.query.cursor
              (trimmed params.query.q) db calm,
        )
        refl

  -- A query that is accepted is accepted with any cursor that decodes.
  pub places_query-cursor :
      (q : PlacesQueryParams) (c : String) (at : ℕ × String)
      → places_query fl codecs (checked_query q) ≡ []
      → decode codecs c ≡ ok at
      → places_query fl codecs (checked_query (record q { cursor = some c })) ≡ []
  unfolding places_query
  places_query-cursor q c at h k = ground arith

  pub area-cursor :
      (q : PlacesQueryParams) (c : Option String) → area pg (record q { cursor = c }) ≡ area pg q
  unfolding area
  area-cursor q c = refl

  -- The last place of a page, with what stands before it.
  pub last-split :
      (profiles : List AccessibilityProfile) (p : Place) (ps : List Place)
      → (init : List Place) × (x : Place) × (p ∷ ps ≡ init ++ x ∷ [])
        × (cursor_of fl codecs pg (map (with_profile profiles) (p ∷ ps))
            ≡ ok (encode codecs x.updated_at x.id))
  last-split profiles p [] = ([], p, refl, refl)
  last-split profiles p (q ∷ ps) =
      let (init, x, e, c) = last-split profiles q ps in (p ∷ init, x, ap (λ l. p ∷ l) e, c)

  -- A page that is not the last one.
  pub cut_page-more :
      (profiles : List AccessibilityProfile) (limit : ℕ) (ps : List Place)
      → 0 < limit
      → ltb limit (length ps) ≡ true
      → (init : List Place) × (x : Place) × (take limit ps ≡ init ++ x ∷ [])
        × (cut_page fl codecs pg limit (map (with_profile profiles) (take (limit + 1) ps))
            ≡ ok (
                page_200
                  (map (with_profile profiles) (take limit ps))
                  (some (encode codecs x.updated_at x.id))))
  unfolding cut_page
  cut_page-more profiles zero ps h k = absurd (omega (arith, h))
  cut_page-more profiles (suc n) [] h k = absurd (ground (arith, k))
  cut_page-more profiles (suc n) (p ∷ ps) h k =
      let (init, x, e, c) = last-split profiles p (take n ps) in
      let more = take_more_length (with_profile profiles) (suc n) (p ∷ ps) ∙ k in
      let same = take_more-map (with_profile profiles) (suc n) (p ∷ ps) in
      (init, x, e, rw (more, same, c) refl)

  pub cut_page-last :
      (profiles : List AccessibilityProfile) (limit : ℕ) (ps : List Place)
      → ltb limit (length ps) ≡ false
      → cut_page fl codecs pg limit (map (with_profile profiles) (take (limit + 1) ps))
        ≡ ok (page_200 (map (with_profile profiles) ps) none)
  unfolding cut_page
  cut_page-last profiles limit ps k =
      let more = take_more_length (with_profile profiles) limit ps ∙ k in
      let whole = take_all (limit + 1) ps (ground (arith, k)) in rw (more, whole) refl
