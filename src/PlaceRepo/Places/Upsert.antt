-- ===== src/PlaceRepo/Places/Upsert.antt =====
-- UpsertBatch of internal/place/repository.go: which rows it makes, and what it does to a row that
-- was there.
use inwheel_server.Prelude.{
  ℕ, suc, ◌≤◌, String, true, false, not, none, some, List, [], ◌∷◌, ◌≡◌, refl, ap, inl, inr,
  if◌then◌else◌, Bool-cases, find_first, any, arith, eq_iff, length,
}
use inwheel_server.Prelude.Dict.{lookup}
use inwheel_server.Prelude.Result.{Result, ok, err, wrap_err}
use inwheel_server.Models.Profile.{Time}
use inwheel_server.Models.Place.{Place}
use inwheel_server.Db.{Db, Postgres}
use inwheel_server.Db.Laws.{Outcome, wrapped-cases}
use inwheel_server.PlaceRepo.Places.{
  conflicts, overwrite, upsert_place, upsert_places, repeats_key, rank_ok, taken, upsert_body,
  upsert_batch,
}

abbrev count_key : Place → List Place → ℕ
count_key q [] = 0
count_key q (row ∷ rows) = if conflicts q row then suc (count_key q rows) else count_key q rows

-- The partial unique index: at most one row has a given OSM id, other than 0, and type.
abbrev pub HasUniqueKeys : List Place → Type 0
HasUniqueKeys rows = (q : Place) → count_key q rows ≤ 1

module _ (fresh : String) (now : Time) (p : Place) where
  count_key-upsert_other :
      (q : Place) (rows : List Place)
      → conflicts q p ≡ false
      → count_key q (upsert_place fresh now p rows).1 ≡ count_key q rows
  unfolding upsert_place
  count_key-upsert_other q [] h = ground arith
  count_key-upsert_other q (row ∷ rows) h = ground (
    arith,
    count_key-upsert_other q rows,
    eq_iff row.osm_type p.osm_type,
    eq_iff row.osm_type q.osm_type,
    eq_iff p.osm_type q.osm_type,
  )

  count_key-upsert_own :
      (q : Place) (rows : List Place)
      → conflicts q p ≡ true
      → count_key q rows ≤ 1
      → count_key q (upsert_place fresh now p rows).1 ≡ 1
  unfolding upsert_place
  count_key-upsert_own q [] h k = ground arith
  count_key-upsert_own q (row ∷ rows) h k = ground (
    arith,
    count_key-upsert_own q rows,
    eq_iff row.osm_type p.osm_type,
    eq_iff row.osm_type q.osm_type,
    eq_iff p.osm_type q.osm_type,
  )

  upsert_place-HasUniqueKeys :
      (rows : List Place) → HasUniqueKeys rows → HasUniqueKeys (upsert_place fresh now p rows).1
  upsert_place-HasUniqueKeys rows u q = elim (Bool-cases (conflicts q p)) [
    | inl own ↦ omega (arith, count_key-upsert_own q rows own (u q))
    | inr other ↦ omega (arith, count_key-upsert_other q rows other, u q)
  ]

  -- The row that was there keeps its id, and takes the columns of the batch.
  upsert_place-found :
      (rows : List Place) (row : Place)
      → find_first (conflicts p) rows ≡ some row
      → ((upsert_place fresh now p rows).0 ≡ row.id)
        × (find_first (conflicts p) (upsert_place fresh now p rows).1 ≡ some (overwrite now p row))
  unfolding upsert_place
  upsert_place-found [] row h = absurd (cc h)
  upsert_place-found (r ∷ rows) row h = (
    ground (
      arith,
      (λ (k : find_first (conflicts p) rows ≡ some row). (upsert_place-found rows row k).0),
    ),
    ground (
      arith,
      (λ (k : find_first (conflicts p) rows ≡ some row). (upsert_place-found rows row k).1),
    ),
  )

upsert_places-HasUniqueKeys :
    (pg : Postgres) (n : ℕ) (now : Time) (ps rows : List Place)
    → HasUniqueKeys rows
    → HasUniqueKeys (upsert_places pg n now ps rows).1
unfolding upsert_places
upsert_places-HasUniqueKeys pg n now [] rows u = u
upsert_places-HasUniqueKeys pg n now (p ∷ ps) rows u =
    let next = (upsert_place (pg.gen_random_uuid n) now p rows).1 in
    upsert_places-HasUniqueKeys pg (suc n) now ps next
      (upsert_place-HasUniqueKeys (pg.gen_random_uuid n) now p rows u)

upsert-cases :
    (pg : Postgres) (p : Place) (ps : List Place) (db : Db)
    → Outcome
        (upsert_batch pg (p ∷ ps))
        (λ s.
          (wrap_err "upsert places" (upsert_body pg (p ∷ ps) s).0, (upsert_body pg (p ∷ ps) s).1))
        db
unfolding upsert_batch
upsert-cases pg p ps db =
    wrapped-cases (upsert_body pg (p ∷ ps)) "upsert places" (upsert_batch pg (p ∷ ps)) (λ s. refl)
      db

upsert_body-HasUniqueKeys :
    (pg : Postgres) (ps : List Place) (s : Db)
    → HasUniqueKeys s.places
    → HasUniqueKeys (upsert_body pg ps s).1.places
upsert_body-HasUniqueKeys pg ps s u =
    let all = upsert_places-HasUniqueKeys pg s.next_uuid s.clock ps s.places u in
    elim (Bool-cases (repeats_key ps)) [
      | inl a ↦ rw a u
      | inr a ↦ elim (Bool-cases (any (λ p. not (rank_ok p)) ps)) [
        | inl b ↦ rw (a, b) u
        | inr b ↦ elim (Bool-cases (any (taken s.places) ps)) [
          | inl c ↦ rw (a, b, c) u
          | inr c ↦ rw (a, b, c) all
        ]
      ]
    ]

upsert_batch-nil : (pg : Postgres) (db : Db) → upsert_batch pg [] db ≡ (ok [], db)
unfolding upsert_batch
upsert_batch-nil pg db = refl

-- Whatever happens around it, a batch leaves at most one row for each OSM id, other than 0, and
-- type: importing an element again never makes a second place of it.
pub upsert_batch-HasUniqueKeys :
    (pg : Postgres) (ps : List Place) (db : Db)
    → HasUniqueKeys db.places
    → HasUniqueKeys (upsert_batch pg ps db).1.places
upsert_batch-HasUniqueKeys pg [] db u = rw (upsert_batch-nil pg db) u
upsert_batch-HasUniqueKeys pg (p ∷ ps) db u =
    let (s, rows, cases) = upsert-cases pg p ps db in
    let u' : HasUniqueKeys s.places = rw rows.places u in
    elim cases [ inl h ↦ rw h (upsert_body-HasUniqueKeys pg (p ∷ ps) s u') | inr (e, h) ↦ rw h u' ]

upsert_places-length :
    (pg : Postgres) (n : ℕ) (now : Time) (ps rows : List Place)
    → length (upsert_places pg n now ps rows).0 ≡ length ps
unfolding upsert_places
upsert_places-length pg n now [] rows = refl
upsert_places-length pg n now (p ∷ ps) rows =
    ap suc
      (upsert_places-length pg (suc n) now ps (upsert_place (pg.gen_random_uuid n) now p rows).1)

upsert_body-length :
    (pg : Postgres) (ps : List Place) (s : Db) (done : List Place)
    → (upsert_body pg ps s).0 ≡ ok done
    → length done ≡ length ps
upsert_body-length pg ps s done h =
    ground (arith, upsert_places-length pg s.next_uuid s.clock ps s.places)

-- A batch that succeeds gives back as many places as it was given.
pub upsert_batch-length :
    (pg : Postgres) (ps : List Place) (db : Db) (done : List Place)
    → (upsert_batch pg ps db).0 ≡ ok done
    → length done ≡ length ps
upsert_batch-length pg [] db done h = ground (arith, upsert_batch-nil pg db)
upsert_batch-length pg (p ∷ ps) db done h =
    let (s, rows, cases) = upsert-cases pg p ps db in
    elim cases [
      | inl k ↦
          upsert_body-length pg (p ∷ ps) s done
            (unwrapped (upsert_body pg (p ∷ ps) s).0 (rw k at h))
      | inr (e, k) ↦ absurd (cc (ap (λ (r : Result (List Place) × Db). r.0) k))
    ]
  where
    unwrapped : (r : Result (List Place)) → wrap_err "upsert places" r ≡ ok done → r ≡ ok done
    unwrapped (ok a) e = e
    unwrapped (err x) e = absurd (cc e)

-- If a place of a known OSM element is imported again, its row keeps its id and its parent, and the
-- import answers with that id; but the row's external ids are replaced by those of the import, so a
-- reference that the matcher had attached under a source which the import does not name is gone.
pub upsert_replaces_refs :
    (pg : Postgres) (p row : Place) (source : String) (db : Db) (done : List Place)
    → find_first (conflicts p) db.places ≡ some row
    → lookup source p.external_ids ≡ none
    → (upsert_batch pg (p ∷ []) db).0 ≡ ok done
    → (row' : Place) × (find_first (conflicts p) (upsert_batch pg (p ∷ []) db).1.places ≡ some row')
      × (row'.id ≡ row.id)
      × (row'.parent_id ≡ row.parent_id)
      × (done ≡ record p { id = row.id } ∷ [])
      × (lookup source row'.external_ids ≡ none)
unfolding upsert_places repeats_key
upsert_replaces_refs pg p row source db done found unnamed h =
    let (s, rows, cases) = upsert-cases pg p [] db in
    let found' : find_first (conflicts p) s.places ≡ some row = rw rows.places found in
    let there = upsert_place-found (pg.gen_random_uuid s.next_uuid) s.clock p s.places row found' in
    elim cases [
      | inr (e, k) ↦ absurd (cc (ap (λ (r : Result (List Place) × Db). r.0) k))
      | inl k ↦ elim (Bool-cases (any (λ p. not (rank_ok p)) (p ∷ []))) [
        | inl b ↦ absurd (ground (arith, b, k))
        | inr b ↦ elim (Bool-cases (any (taken s.places) (p ∷ []))) [
          | inl c ↦ absurd (ground (arith, b, c, k))
          | inr c ↦ (
            overwrite s.clock p row,
            rw (k, b, c) there.1,
            refl,
            refl,
            ground (arith, h, k, b, c, there.0),
            unnamed,
          )
        ]
      ]
    ]
