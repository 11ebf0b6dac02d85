-- ===== src/PlaceRepo/Places/Near.antt =====
-- FindCandidates of internal/place/repository.go: its filter, its limit and its order.
use inwheel_server.Prelude.{
  ℕ, zero, suc, ◌≤◌, Bool, true, false, ◌&&◌, List, [], ◌∷◌, ◌≡◌, refl, ap, inl, inr, Bool-cases,
  keep, take, length, length-take-le, All, All-take, arith, ◌==◌,
}
use inwheel_server.Prelude.Dict.{member}
use inwheel_server.Prelude.Result.{Result, ok}
use inwheel_server.Float64.{F64}
use inwheel_server.Models.Place.{Category, Place, status_active}
use inwheel_server.Db.{Db, Postgres}
use inwheel_server.Db.Laws.{wrapped-cases}
use inwheel_server.PlaceRepo.Places.{nearer, insert_near, sort_near, is_candidate, find_candidates}

module _ (pg : Postgres) (lng lat : F64) where
  -- No place is farther than one that comes after it.
  abbrev pub IsNearFirst : List Place → Type 0
  IsNearFirst [] = Unit
  IsNearFirst (p ∷ ps) = All (λ q. nearer pg lng lat p q ≡ true) ps × IsNearFirst ps

  -- ST_Distance from one point is a total preorder on the places.
  pub record IsDistance : Type 0 where
    pub total : (p q : Place) → nearer pg lng lat p q ≡ false → nearer pg lng lat q p ≡ true
    pub transitive :
        (p q r : Place)
        → nearer pg lng lat p q ≡ true
        → nearer pg lng lat q r ≡ true
        → nearer pg lng lat p r ≡ true

  IsNearFirst-take : (n : ℕ) (ps : List Place) → IsNearFirst ps → IsNearFirst (take n ps)
  IsNearFirst-take zero ps h = tt
  IsNearFirst-take (suc n) [] h = tt
  IsNearFirst-take (suc n) (p ∷ ps) (all, h) =
      (All-take (λ q. nearer pg lng lat p q ≡ true) n ps all, IsNearFirst-take n ps h)

  module _ (P : Place → Type 0) where
    All-insert_near :
        (p : Place) (ps : List Place) → P p → All P ps → All P (insert_near pg lng lat p ps)
    unfolding insert_near
    All-insert_near p [] h k = (h, tt)
    All-insert_near p (q ∷ qs) h (l, k) = elim (Bool-cases (nearer pg lng lat p q)) [
      | inl near ↦ rw near (h, (l, k))
      | inr far ↦ rw far (l, All-insert_near p qs h k)
    ]

    All-sort_near : (ps : List Place) → All P ps → All P (sort_near pg lng lat ps)
    unfolding sort_near
    All-sort_near [] h = tt
    All-sort_near (p ∷ ps) (h, k) =
        All-insert_near p (sort_near pg lng lat ps) h (All-sort_near ps k)

  module _ (dist : IsDistance) where
    All-nearer :
        (p q : Place) (qs : List Place)
        → nearer pg lng lat p q ≡ true
        → All (λ r. nearer pg lng lat q r ≡ true) qs
        → All (λ r. nearer pg lng lat p r ≡ true) qs
    All-nearer p q [] h k = tt
    All-nearer p q (r ∷ rs) h (l, k) = (dist.transitive p q r h l, All-nearer p q rs h k)

    insert_near-IsNearFirst :
        (p : Place) (ps : List Place) → IsNearFirst ps → IsNearFirst (insert_near pg lng lat p ps)
    unfolding insert_near
    insert_near-IsNearFirst p [] h = (tt, tt)
    insert_near-IsNearFirst p (q ∷ qs) (all, h) = elim (Bool-cases (nearer pg lng lat p q)) [
      | inl near ↦ rw near ((near, All-nearer p q qs near all), (all, h))
      | inr far ↦ rw far (
        All-insert_near (λ r. nearer pg lng lat q r ≡ true) p qs (dist.total p q far) all,
        insert_near-IsNearFirst p qs h,
      )
    ]

    sort_near-IsNearFirst : (ps : List Place) → IsNearFirst (sort_near pg lng lat ps)
    unfolding sort_near
    sort_near-IsNearFirst [] = tt
    sort_near-IsNearFirst (p ∷ ps) =
        insert_near-IsNearFirst p (sort_near pg lng lat ps) (sort_near-IsNearFirst ps)

All-keep : (t : Place → Bool) (ps : List Place) → All (λ p. t p ≡ true) (keep t ps)
All-keep t [] = tt
All-keep t (p ∷ ps) = elim (Bool-cases (t p)) [
  | inl yes' ↦ rw yes' (yes', All-keep t ps)
  | inr no' ↦ rw no' (All-keep t ps)
]

-- What the rows that pass the filter become.
nearest-lem :
    (pg : Postgres) (lng lat : F64) (t : Place → Bool) (rows : List Place)
    → IsDistance pg lng lat
    → let found = take 32 (sort_near pg lng lat (keep t rows)) in
      (length found ≤ 32) × All (λ p. t p ≡ true) found × IsNearFirst pg lng lat found
nearest-lem pg lng lat t rows dist =
    let sorted = sort_near pg lng lat (keep t rows) in
    (
      length-take-le 32 sorted,
      All-take (λ p. t p ≡ true) 32 sorted
          (All-sort_near pg lng lat (λ p. t p ≡ true) (keep t rows) (All-keep t rows)),
      IsNearFirst-take pg lng lat 32 sorted (sort_near-IsNearFirst pg lng lat dist (keep t rows)),
    )

-- A search that answers gives at most 32 places, every one active, of a category that was asked for
-- and within the radius, and no place is farther than one that comes after it. The distance from the
-- point is taken to be a total preorder.
pub find_candidates_lem :
    (pg : Postgres) (lat lng radius : F64) (cs : List Category) (db : Db) (found : List Place)
    → IsDistance pg lng lat
    → (find_candidates pg lat lng radius cs db).0 ≡ ok found
    → (length found ≤ 32)
      × All
          (λ p.
            (p.status == status_active
              && member p.category cs
              && pg.st_dwithin p.lng p.lat lng lat radius)
            ≡ true)
          found
      × IsNearFirst pg lng lat found
unfolding find_candidates
find_candidates_lem pg lat lng radius [] db found dist h =
    let same : found ≡ [] = ground (arith, h) in rw same (omega arith, tt, tt)
find_candidates_lem pg lat lng radius (c ∷ cs) db found dist h =
    let (s, rows, cases) =
      wrapped-cases _ "find candidates" (find_candidates pg lat lng radius (c ∷ cs)) (λ s. refl)
        db in
    elim cases [
      | inl k ↦
          let t : Place → Bool = is_candidate pg lat lng radius (c ∷ cs) in
          let same : found ≡ take 32 (sort_near pg lng lat (keep t s.places)) =
            ground (arith, h, k) in
          rw same (nearest-lem pg lng lat t s.places dist)
      | inr (e, k) ↦ absurd (cc (ap (λ (r : Result (List Place) × Db). r.0) k))
    ]
