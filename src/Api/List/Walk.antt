-- ===== src/Api/List/Walk.antt =====
-- A listing of cmd/api/main.go read to its end, as its next_cursor says, from a database that nobody
-- else uses meanwhile.
use inwheel_server.Prelude.{
  ℕ, zero, suc, ◌+◌, ◌%◌, ◌<◌, ◌≤◌, String, Bool, ◌&&◌, Option, none, some, List, [], ◌∷◌, ◌++◌,
  ◌≡◌, refl, sym, ap, ◌∙◌, subst, inl, inr, Bool-cases, ltb, keep, take, map, length, find_first,
  All, arith,
}
use inwheel_server.Prelude.Result.{Result, ok, err}
use inwheel_server.Float64.{Arithmetic}
use inwheel_server.Models.Place.{Place}
use inwheel_server.Db.{Db, Postgres}
use inwheel_server.Pagination.{Codecs, encode, decode, truncate}
use inwheel_server.Pagination.RoundTrip.{IsCodec, decode-encode}
use inwheel_server.Validation.{places_query}
use inwheel_server.PlaceRepo.Places.{has_place}
use inwheel_server.Api.List.{
  ListParams, trimmed, limit_or, ListResponse, page_200, invalid_400, sort_listed, beyond, area,
  after_cursor, with_profile, selected, cut_page, list_places,
}
use inwheel_server.Api.List.Order.{
  IsUuidOrder, IsRow, IsTable, IsTable-rows, IsListed, All-sort_listed, keep-IsTable,
  sort_listed-IsListed, keep-sort_listed, find_first-sort_listed, keep-beyond, length-sort_listed,
}
use inwheel_server.Api.List.Page.{
  drop, take-append-drop, length-drop-lt, checked_query, list_places-lem, places_query-cursor,
  area-cursor, cut_page-more, cut_page-last,
}

abbrev pub with_cursor : Option String → ListParams → ListParams
with_cursor c params = record params { query = record params.query { cursor = c } }

abbrev pub prepend : List Place → Option (List Place) → Option (List Place)
prepend ps none = none
prepend ps (some qs) = some (ps ++ qs)

abbrev pub walk_on :
    (ListParams → Db → Option (List Place))
    → ListParams
    → Result ListResponse × Db
    → Option (List Place)
walk_on next params (ok (page_200 ps none), db) = some ps
walk_on next params (ok (page_200 ps (some c)), db) =
    prepend ps (next (with_cursor (some c) params) db)
walk_on next params (ok (invalid_400 es), db) = none
walk_on next params (err e, db) = none

append_assoc : {A : Type 0} (a b c : List A) → (a ++ b) ++ c ≡ a ++ (b ++ c)
append_assoc [] b c = refl
append_assoc (x ∷ a) b c = ap (λ l. x ∷ l) (append_assoc a b c)

map-append : {A B : Type 0} (f : A → B) (a b : List A) → map f (a ++ b) ≡ map f a ++ map f b
map-append f [] b = refl
map-append f (x ∷ a) b = ap (λ l. f x ∷ l) (map-append f a b)

length-keep : {A : Type 0} (t : A → Bool) (xs : List A) → length (keep t xs) ≤ length xs
length-keep t [] = omega arith
length-keep t (x ∷ xs) = ground (arith, length-keep t xs)

keep-and :
    {A : Type 0} (t u v : A → Bool) (xs : List A)
    → ((x : A) → v x ≡ (t x && u x))
    → keep v xs ≡ keep u (keep t xs)
keep-and t u v [] h = refl
keep-and t u v (x ∷ xs) h = ground (arith, h x, keep-and t u v xs h)

All-prefix :
    {A : Type 0} (P : A → Type 0) (a : List A) (x : A) (b : List A) → All P (a ++ x ∷ b) → P x
All-prefix P [] x b (h, _) = h
All-prefix P (y ∷ a) x b (_, h) = All-prefix P a x b h

whole_time : (t : ℕ) → t % 1000 ≡ 0 → truncate t ≡ t
whole_time t h = omega (arith, h)

append-page :
    {A : Type 0} (n : ℕ) (all pre xs init : List A) (x : A)
    → all ≡ pre ++ xs
    → take n xs ≡ init ++ x ∷ []
    → all ≡ (pre ++ init) ++ x ∷ drop n xs
append-page n all pre xs init x h k =
    h
    ∙ ap (λ l. pre ++ l)
        (sym (take-append-drop n xs)
          ∙ ap (λ l. l ++ drop n xs) k
          ∙ append_assoc init (x ∷ []) (drop n xs))
    ∙ sym (append_assoc pre init (x ∷ drop n xs))

module _ (fl : Arithmetic) (codecs : Codecs) (pg : Postgres) where
  -- The client's loop, `fuel` pages at most.
  unfoldable pub walk : ℕ → ListParams → Db → Option (List Place)
  walk zero params db = none
  walk (suc fuel) params db = walk_on (walk fuel) params (list_places fl codecs pg params db)

  module _ (params : ListParams) (in_area : Place → Bool) (db : Db) where
    -- What a page with a cursor is taken from.
    abbrev pub listed : Option String → List Place
    listed cursor =
        sort_listed pg
          (keep (selected fl codecs pg in_area cursor (trimmed params.query.q)) db.places)

    abbrev pub shown : List Place → List Place
    shown ps = map (with_profile db.profiles) ps

    page-lem :
        (cursor : Option String)
        → db.script ≡ []
        → places_query fl codecs (checked_query fl codecs pg (with_cursor cursor params).query) ≡ []
        → area pg params.query ≡ ok in_area
        → list_places fl codecs pg (with_cursor cursor params) db ≡ (
          cut_page fl codecs pg
              (limit_or params.limit)
              (shown (take (limit_or params.limit + 1) (listed cursor))),
          db,
        )
    page-lem cursor calm valid here =
        list_places-lem fl codecs pg (with_cursor cursor params) in_area db calm valid
          (area-cursor fl codecs pg params.query cursor ∙ here)

    module _ (laws : IsUuidOrder codecs pg) (table : IsTable codecs pg db.places) where
      abbrev pub first_rows : List Place
      first_rows = keep (selected fl codecs pg in_area none (trimmed params.query.q)) db.places

      listed-next :
          (c : String) (pre : List Place) (x : Place) (post : List Place)
          → decode codecs c ≡ ok (x.updated_at, x.id)
          → listed none ≡ pre ++ x ∷ post
          → listed (some c) ≡ post
      unfolding after_cursor
      listed-next c pre x post h split =
          let base = selected fl codecs pg in_area none (trimmed params.query.q) in
          let later = beyond pg (x.updated_at, x.id) in
          let rows = keep base db.places in
          let rows-IsTable = keep-IsTable codecs pg base db.places table in
          ap (sort_listed pg) (
            keep-and base later (selected fl codecs pg in_area (some c) (trimmed params.query.q))
              db.places (λ p. ground (arith, h)))
          ∙ sym (keep-sort_listed codecs pg laws later rows rows-IsTable)
          ∙ ap (keep later) split
          ∙ keep-beyond codecs pg laws pre x post (
              subst (λ l. IsListed codecs pg l) split
                (sort_listed-IsListed codecs pg laws rows rows-IsTable))

      listed-IsRow :
          (pre : List Place) (x : Place) (post : List Place)
          → listed none ≡ pre ++ x ∷ post
          → IsRow codecs pg x
      listed-IsRow pre x post split = All-prefix (IsRow codecs pg) pre x post (
          subst (λ l. All (IsRow codecs pg) l) split
            (All-sort_listed codecs pg (IsRow codecs pg) first_rows (
              IsTable-rows codecs pg first_rows (
                keep-IsTable codecs pg (selected fl codecs pg in_area none (trimmed params.query.q))
                  db.places table))))

      module _ (coding : IsCodec codecs) (calm : db.script ≡ [])
          (here : area pg params.query ≡ ok in_area) (positive : 0 < limit_or params.limit) where
        IsValid : Option String → Type 0
        IsValid cursor =
            places_query fl codecs (checked_query fl codecs pg (with_cursor cursor params).query)
            ≡ []

        walk-from :
            (fuel : ℕ) (cursor : Option String) (pre ps : List Place)
            → listed none ≡ pre ++ ps
            → listed cursor ≡ ps
            → length ps < fuel
            → IsValid cursor
            → walk fuel (with_cursor cursor params) db ≡ some (shown ps)
        unfolding walk IsValid
        walk-from zero cursor pre ps split rest short valid = absurd (omega (arith, short))
        walk-from (suc fuel) cursor pre ps split rest short valid =
            let limit = limit_or params.limit in
            let page = page-lem cursor calm valid here in
            elim (Bool-cases (ltb limit (length ps))) [
              | inl more ↦
                  let (init, x, e, cut) =
                    cut_page-more fl codecs pg db.profiles limit ps positive more in
                  let post = drop limit ps in
                  let split' : listed none ≡ (pre ++ init) ++ x ∷ post =
                    append-page limit (listed none) pre ps init x split e in
                  let (uuid, whole) = listed-IsRow (pre ++ init) x post split' in
                  let c = encode codecs x.updated_at x.id in
                  let read : decode codecs c ≡ ok (x.updated_at, x.id) =
                    decode-encode codecs x.updated_at x.id coding uuid
                    ∙ ap (λ t. ok (t, x.id)) (whole_time x.updated_at whole) in
                  let rec =
                    walk-from fuel (some c) ((pre ++ init) ++ x ∷ []) post
                      (split' ∙ sym (append_assoc (pre ++ init) (x ∷ []) post))
                      (listed-next c (pre ++ init) x post read split')
                      (omega
                        (arith, length-drop-lt limit ps positive (ground (arith, more)), short))
                      (places_query-cursor fl codecs pg (with_cursor cursor params).query c
                        (x.updated_at, x.id) valid read) in
                  rw (page, rest, cut, rec)
                    (ap some (
                      sym (map-append (with_profile db.profiles) (take limit ps) post)
                      ∙ ap shown (take-append-drop limit ps)))
              | inr last ↦
                  rw (page, rest, cut_page-last fl codecs pg db.profiles limit ps last) refl
            ]

-- A client that follows next_cursor from the first page, with a valid query and a limit of at least 1,
-- on a database that nobody else uses and where no statement fails, reaches the end within one page
-- more than the table has rows. What it has read is, each with its profile, a list that is strictly in
-- the order of the listing and in which every id finds what it finds among the places that match the
-- query: no place is left out or read twice. Assumed are a table of rows with distinct UUIDs and times
-- in whole microseconds, an order of UUIDs that is strict and total, and cursors whose base64 and time
-- can be read back.
pub walk-list_places :
    (fl : Arithmetic) (codecs : Codecs) (pg : Postgres) (params : ListParams)
    (in_area : Place → Bool) (db : Db) (j : String)
    → IsUuidOrder codecs pg
    → IsCodec codecs
    → IsTable codecs pg db.places
    → db.script ≡ []
    → area pg params.query ≡ ok in_area
    → 0 < limit_or params.limit
    → places_query fl codecs (checked_query fl codecs pg (with_cursor none params).query) ≡ []
    → (all : List Place) × (walk fl codecs pg (suc (length db.places)) (with_cursor none params) db
        ≡ some (map (with_profile db.profiles) all))
      × IsListed codecs pg all
      × (find_first (has_place j) all
          ≡ find_first
              (has_place j)
              (keep (selected fl codecs pg in_area none (trimmed params.query.q)) db.places))
unfolding IsValid
walk-list_places fl codecs pg params in_area db j laws coding table calm here positive valid =
    let rows = first_rows fl codecs pg params in_area db laws table in
    let rows-IsTable =
      keep-IsTable codecs pg (selected fl codecs pg in_area none (trimmed params.query.q)) db.places
        table in
    let short =
      length-keep (selected fl codecs pg in_area none (trimmed params.query.q)) db.places in
    (
      sort_listed pg rows,
      walk-from fl codecs pg params in_area db laws table coding calm here positive
          (suc (length db.places)) none [] (sort_listed pg rows) refl refl
          (omega (arith, short, length-sort_listed pg rows)) valid,
      sort_listed-IsListed codecs pg laws rows rows-IsTable,
      find_first-sort_listed codecs pg laws j rows rows-IsTable,
    )
