-- ===== src/Api/List/Unordered.antt =====
-- A listing of cmd/api/main.go and the order in which the table holds its rows.
use mathlib.Core.List.{Permᴰ}
use inwheel_server.Prelude.{
  Bool, false, List, [], ◌∷◌, ◌≡◌, refl, sym, ap, ◌∙◌, subst, inl, inr, Bool-cases, All, arith,
  ◌==◌, eq_iff, ◌+◌, keep, map, take,
}
use inwheel_server.Models.Place.{Place}
use inwheel_server.Db.{Postgres}
use inwheel_server.Pagination.{Codecs}
use inwheel_server.Db.{Db}
use inwheel_server.Float64.{Arithmetic}
use inwheel_server.Prelude.Result.{ok}
use inwheel_server.Validation.{places_query}
use inwheel_server.Api.List.{
  ListParams, limit_or, trimmed, before, insert_listed, sort_listed, selected, area, with_profile,
  cut_page, list_places,
}
use inwheel_server.Api.List.Page.{checked_query, list_places-lem}
use inwheel_server.Api.List.Order.{
  keep-sort_listed, IsUuidOrder, IsRow, IsApart, IsTable, before_trans, before_total, before_asym,
}

All-Perm : {A : Type 0} (P : A → Type 0) {xs ys : List A} → Permᴰ xs ys → All P xs → All P ys
All-Perm P Permᴰ.nil h = tt
All-Perm P (Permᴰ.cons e d) (h, k) = (subst P e h, All-Perm P d k)
All-Perm P (Permᴰ.swap e f) (h, (k, l)) = (subst P f k, (subst P e h, l))
All-Perm P (Permᴰ.trans d e) h = All-Perm P e (All-Perm P d h)

module _ (codecs : Codecs) (pg : Postgres) where
  apart_sym : (p q : Place) → (p.id == q.id) ≡ false → (q.id == p.id) ≡ false
  apart_sym p q h = ground (arith, h, eq_iff p.id q.id, eq_iff q.id p.id)

  IsTable-Perm : {xs ys : List Place} → Permᴰ xs ys → IsTable codecs pg xs → IsTable codecs pg ys
  IsTable-Perm Permᴰ.nil h = tt
  IsTable-Perm (Permᴰ.cons {l₂ = ys} e d) (row, apart, h) = (
    subst (IsRow codecs pg) e row,
    subst (λ p. IsApart codecs pg p ys) e (All-Perm _ d apart),
    IsTable-Perm d h,
  )
  IsTable-Perm (Permᴰ.swap {a = p} {b = q} {b' = second} {l = l} e f)
        (row, (ne, apart), (row', apart', h)) =
      subst (λ a. IsTable codecs pg (a ∷ second ∷ l)) f
        (subst (λ b. IsTable codecs pg (q ∷ b ∷ l)) e
          (row', (apart_sym p q ne, apart'), (row, apart, h)))
  IsTable-Perm (Permᴰ.trans d e) h = IsTable-Perm e (IsTable-Perm d h)

  module _ (laws : IsUuidOrder codecs pg) where
    insert_listed-swap :
        (p q : Place) (ps : List Place)
        → IsRow codecs pg p
        → IsRow codecs pg q
        → (p.id == q.id) ≡ false
        → insert_listed pg p (insert_listed pg q ps) ≡ insert_listed pg q (insert_listed pg p ps)
    unfolding insert_listed
    insert_listed-swap p q [] u v apart = elim (Bool-cases (before pg p q)) [
      | inl y ↦ rw (y, before_asym codecs pg laws p q y) refl
      | inr n ↦ rw (n, before_total codecs pg laws p q u v apart n) refl
    ]
    insert_listed-swap p q (z ∷ zs) u v apart = elim (Bool-cases (before pg p z)) [
      | inl pz ↦ elim (Bool-cases (before pg q z)) [
        | inl qz ↦ elim (Bool-cases (before pg p q)) [
          | inl y ↦ rw (pz, qz, y, before_asym codecs pg laws p q y) refl
          | inr n ↦ rw (pz, qz, n, before_total codecs pg laws p q u v apart n, pz) refl
        ]
        | inr qz ↦ elim (Bool-cases (before pg q p)) [
          | inl y ↦ absurd (cc (before_trans codecs pg laws q p z y pz, qz))
          | inr n ↦ rw (pz, qz, n, pz) refl
        ]
      ]
      | inr pz ↦ elim (Bool-cases (before pg q z)) [
        | inl qz ↦ elim (Bool-cases (before pg p q)) [
          | inl y ↦ absurd (cc (before_trans codecs pg laws p q z y qz, pz))
          | inr n ↦ rw (pz, qz, n, pz) refl
        ]
        | inr qz ↦ rw (pz, qz, pz) (ap (λ l. z ∷ l) (insert_listed-swap p q zs u v apart))
      ]
    ]

    pub sort_listed-Perm :
        {xs ys : List Place}
        → Permᴰ xs ys
        → IsTable codecs pg xs
        → sort_listed pg xs ≡ sort_listed pg ys
    unfolding sort_listed
    sort_listed-Perm Permᴰ.nil h = refl
    sort_listed-Perm (Permᴰ.cons {l₂ = ys} e d) (row, apart, h) =
        ap (insert_listed pg _) (sort_listed-Perm d h)
        ∙ ap (λ p. insert_listed pg p (sort_listed pg ys)) e
    sort_listed-Perm (Permᴰ.swap {a = p} {b = q} {b' = second} {l = l} e f)
          (row, (ne, apart), (row', apart', h)) =
        insert_listed-swap p q (sort_listed pg l) row row' ne
        ∙ ap (λ b. insert_listed pg q (insert_listed pg b (sort_listed pg l))) e
        ∙ ap (λ a. insert_listed pg a (insert_listed pg second (sort_listed pg l))) f
    sort_listed-Perm (Permᴰ.trans d e) h =
        sort_listed-Perm d h ∙ sort_listed-Perm e (IsTable-Perm d h)

-- A listing does not depend on the order in which the table holds its rows: over the same rows in another
-- order the answer is the same, for a valid query and if no statement fails; `<` of uuid is a strict
-- total order, and the rows have distinct UUIDs and times in whole microseconds.
pub list_places-Perm :
    (fl : Arithmetic) (codecs : Codecs) (pg : Postgres) (params : ListParams)
    (in_area : Place → Bool) (db : Db) (rows : List Place)
    → IsUuidOrder codecs pg
    → IsTable codecs pg db.places
    → Permᴰ db.places rows
    → db.script ≡ []
    → places_query fl codecs (checked_query fl codecs pg params.query) ≡ []
    → area pg params.query ≡ ok in_area
    → (list_places fl codecs pg params (record db { places = rows })).0
      ≡ (list_places fl codecs pg params db).0
list_places-Perm fl codecs pg params in_area db rows laws table same calm valid here =
    let chosen = selected fl codecs pg in_area params.query.cursor (trimmed params.query.q) in
    let sorted =
      sym (keep-sort_listed codecs pg laws chosen rows (IsTable-Perm codecs pg same table))
      ∙ ap (keep chosen) (sym (sort_listed-Perm codecs pg laws same table))
      ∙ keep-sort_listed codecs pg laws chosen db.places table in
    ap (λ x. x.0)
      (list_places-lem fl codecs pg params in_area (record db { places = rows }) calm valid here)
    ∙ ap
        (λ ps.
          cut_page fl codecs pg (limit_or params.limit)
            (map (with_profile db.profiles) (take (limit_or params.limit + 1) ps)))
        sorted
    ∙ sym (ap (λ x. x.0) (list_places-lem fl codecs pg params in_area db calm valid here))
