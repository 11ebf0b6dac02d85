-- ===== src/Api/List/Order.antt =====
-- The order of a listing in cmd/api/main.go, and what a cursor cuts off it.
use inwheel_server.Prelude.{
  suc, ◌%◌, String, Bool, true, false, some, List, [], ◌∷◌, ◌++◌, ◌≡◌, refl, ap, ◌∙◌, inl, inr,
  if◌then◌else◌, Bool-cases, keep, length, find_first, All, arith, ◌==◌, eq_iff,
}
use inwheel_server.Models.Place.{Place}
use inwheel_server.Db.{Postgres}
use inwheel_server.PlaceRepo.Places.{has_place}
use inwheel_server.Pagination.{Codecs}
use inwheel_server.Api.List.{before, insert_listed, sort_listed, beyond}

-- `<` of uuid, on the texts that are one, is a strict total order.
pub record IsUuidOrder (codecs : Codecs) (pg : Postgres) : Type 0 where
  pub irrefl : (a : String) → pg.uuid_less a a ≡ false
  pub transitive :
      (a b c : String) → pg.uuid_less a b ≡ true → pg.uuid_less b c ≡ true → pg.uuid_less a c ≡ true
  pub total :
      (a b : String)
      → codecs.is_uuid a ≡ true
      → codecs.is_uuid b ≡ true
      → (a == b) ≡ false
      → pg.uuid_less a b ≡ false
      → pg.uuid_less b a ≡ true

module _ (codecs : Codecs) (pg : Postgres) where
  -- A row has a UUID, and a time in whole microseconds, as the columns' types say.
  abbrev pub IsRow : Place → Type 0
  IsRow p = (codecs.is_uuid p.id ≡ true) × (p.updated_at % 1000 ≡ 0)

  abbrev pub IsApart : Place → List Place → Type 0
  IsApart p ps = All (λ q. (p.id == q.id) ≡ false) ps

  -- Rows with distinct ids.
  abbrev pub IsTable : List Place → Type 0
  IsTable [] = Unit
  IsTable (p ∷ ps) = IsRow p × IsApart p ps × IsTable ps

  -- Every place comes strictly before those after it.
  abbrev pub IsListed : List Place → Type 0
  IsListed [] = Unit
  IsListed (p ∷ ps) = All (λ q. before pg p q ≡ true) ps × IsListed ps

  module _ (P : Place → Type 0) where
    pub All-keep_any : (t : Place → Bool) (ps : List Place) → All P ps → All P (keep t ps)
    All-keep_any t [] h = tt
    All-keep_any t (p ∷ ps) (h, k) = elim (Bool-cases (t p)) [
      | inl y ↦ rw y (h, All-keep_any t ps k)
      | inr n ↦ rw n (All-keep_any t ps k)
    ]

    All-insert_listed :
        (p : Place) (ps : List Place) → P p → All P ps → All P (insert_listed pg p ps)
    unfolding insert_listed
    All-insert_listed p [] h k = (h, tt)
    All-insert_listed p (q ∷ qs) h (l, k) = elim (Bool-cases (before pg p q)) [
      | inl y ↦ rw y (h, (l, k))
      | inr n ↦ rw n (l, All-insert_listed p qs h k)
    ]

    pub All-sort_listed : (ps : List Place) → All P ps → All P (sort_listed pg ps)
    unfolding sort_listed
    All-sort_listed [] h = tt
    All-sort_listed (p ∷ ps) (h, k) =
        All-insert_listed p (sort_listed pg ps) h (All-sort_listed ps k)

  pub keep-IsTable : (t : Place → Bool) (ps : List Place) → IsTable ps → IsTable (keep t ps)
  keep-IsTable t [] h = tt
  keep-IsTable t (p ∷ ps) (row, apart, h) = elim (Bool-cases (t p)) [
    | inl y ↦ rw y (row, All-keep_any (λ q. (p.id == q.id) ≡ false) t ps apart, keep-IsTable t ps h)
    | inr n ↦ rw n (keep-IsTable t ps h)
  ]

  pub IsTable-rows : (ps : List Place) → IsTable ps → All IsRow ps
  IsTable-rows [] h = tt
  IsTable-rows (p ∷ ps) (row, apart, h) = (row, IsTable-rows ps h)

  module _ (laws : IsUuidOrder codecs pg) where
    pub before_irrefl : (p : Place) → before pg p p ≡ false
    before_irrefl p = ground (arith, laws.irrefl p.id)

    pub before_trans :
        (p q r : Place) → before pg p q ≡ true → before pg q r ≡ true → before pg p r ≡ true
    before_trans p q r h k = ground (arith, laws.transitive p.id q.id r.id)

    pub before_total :
        (p q : Place)
        → IsRow p
        → IsRow q
        → (p.id == q.id) ≡ false
        → before pg p q ≡ false
        → before pg q p ≡ true
    before_total p q (u, _) (v, _) apart h = ground (arith, laws.total p.id q.id u v apart)

    -- After `p` comes what does not come before it.
    pub before_asym : (p q : Place) → before pg p q ≡ true → before pg q p ≡ false
    before_asym p q h = elim (Bool-cases (before pg q p)) [
      | inl k ↦ absurd (cc (before_trans p q p h k, before_irrefl p))
      | inr k ↦ k
    ]

    All-before :
        (p q : Place) (qs : List Place)
        → before pg p q ≡ true
        → All (λ r. before pg q r ≡ true) qs
        → All (λ r. before pg p r ≡ true) qs
    All-before p q [] h k = tt
    All-before p q (r ∷ rs) h (l, k) = (before_trans p q r h l, All-before p q rs h k)

    insert_listed-IsListed :
        (p : Place) (ps : List Place)
        → IsRow p
        → All IsRow ps
        → IsApart p ps
        → IsListed ps
        → IsListed (insert_listed pg p ps)
    unfolding insert_listed
    insert_listed-IsListed p [] row rows apart h = (tt, tt)
    insert_listed-IsListed p (q ∷ qs) row (row', rows) (ne, apart) (all, h) =
        elim (Bool-cases (before pg p q)) [
          | inl y ↦ rw y ((y, All-before p q qs y all), (all, h))
          | inr n ↦ rw n (
            All-insert_listed (λ r. before pg q r ≡ true) p qs (before_total p q row row' ne n) all,
            insert_listed-IsListed p qs row rows apart h,
          )
        ]

    pub sort_listed-IsListed : (ps : List Place) → IsTable ps → IsListed (sort_listed pg ps)
    unfolding sort_listed
    sort_listed-IsListed [] h = tt
    sort_listed-IsListed (p ∷ ps) (row, apart, h) =
        insert_listed-IsListed p (sort_listed pg ps) row
          (All-sort_listed IsRow ps (IsTable-rows ps h))
          (All-sort_listed (λ q. (p.id == q.id) ≡ false) ps apart) (sort_listed-IsListed ps h)

    insert_listed-front :
        (p : Place) (ps : List Place)
        → All (λ q. before pg p q ≡ true) ps
        → insert_listed pg p ps ≡ p ∷ ps
    unfolding insert_listed
    insert_listed-front p [] h = refl
    insert_listed-front p (q ∷ qs) (h, k) = rw h refl

    keep-insert_listed :
        (t : Place → Bool) (p : Place) (ps : List Place)
        → IsListed ps
        → keep t (insert_listed pg p ps)
          ≡ (if t p then insert_listed pg p (keep t ps) else keep t ps)
    unfolding insert_listed
    keep-insert_listed t p [] h = ground arith
    keep-insert_listed t p (q ∷ qs) (all, h) = elim (Bool-cases (before pg p q)) [
      | inl y ↦
          let front =
            insert_listed-front p (keep t qs)
              (All-keep_any (λ r. before pg p r ≡ true) t qs (All-before p q qs y all)) in
          ground (arith, y, front)
      | inr n ↦ ground (arith, n, keep-insert_listed t p qs h)
    ]

    -- Filtering a table and sorting it can change places.
    pub keep-sort_listed :
        (t : Place → Bool) (ps : List Place)
        → IsTable ps
        → keep t (sort_listed pg ps) ≡ sort_listed pg (keep t ps)
    unfolding sort_listed
    keep-sort_listed t [] h = refl
    keep-sort_listed t (p ∷ ps) (row, apart, h) = ground (
      arith,
      keep-insert_listed t p (sort_listed pg ps) (sort_listed-IsListed ps h),
      keep-sort_listed t ps h,
    )

    -- The id finds the same place in the sorted table.
    find_first-insert_listed :
        (j : String) (p : Place) (ps : List Place)
        → IsApart p ps
        → find_first (has_place j) (insert_listed pg p ps)
          ≡ (if p.id == j then some p else find_first (has_place j) ps)
    unfolding insert_listed
    find_first-insert_listed j p [] apart = ground arith
    find_first-insert_listed j p (q ∷ qs) (ne, apart) = ground (
      arith,
      find_first-insert_listed j p qs apart,
      eq_iff p.id j,
      eq_iff q.id j,
      eq_iff p.id q.id,
    )

    pub find_first-sort_listed :
        (j : String) (ps : List Place)
        → IsTable ps
        → find_first (has_place j) (sort_listed pg ps) ≡ find_first (has_place j) ps
    unfolding sort_listed
    find_first-sort_listed j [] h = refl
    find_first-sort_listed j (p ∷ ps) (row, apart, h) = ground (
      arith,
      find_first-insert_listed j p (sort_listed pg ps)
          (All-sort_listed (λ q. (p.id == q.id) ≡ false) ps apart),
      find_first-sort_listed j ps h,
    )

    beyond-before : (x p : Place) → beyond pg (x.updated_at, x.id) p ≡ before pg x p
    beyond-before x p = ground arith

    keep-All :
        (x : Place) (ps : List Place)
        → All (λ q. before pg x q ≡ true) ps
        → keep (beyond pg (x.updated_at, x.id)) ps ≡ ps
    keep-All x [] h = refl
    keep-All x (p ∷ ps) (h, k) = ground (arith, beyond-before x p, keep-All x ps k)

    -- What lies beyond a place of a listing is what comes after it.
    pub keep-beyond :
        (pre : List Place) (x : Place) (post : List Place)
        → IsListed (pre ++ x ∷ post)
        → keep (beyond pg (x.updated_at, x.id)) (pre ++ x ∷ post) ≡ post
    keep-beyond [] x post (all, h) =
        ground (arith, beyond-before x x, before_irrefl x, keep-All x post all)
    keep-beyond (p ∷ pre) x post (all, h) = ground (
      arith,
      beyond-before x p,
      before_asym p x (All-middle pre x post all),
      keep-beyond pre x post h,
    )
      where
        All-middle :
            (pre : List Place) (x : Place) (post : List Place)
            → All (λ q. before pg p q ≡ true) (pre ++ x ∷ post)
            → before pg p x ≡ true
        All-middle [] x post (h', k) = h'
        All-middle (q ∷ pre) x post (h', k) = All-middle pre x post k

length-insert_listed :
    (pg : Postgres) (p : Place) (ps : List Place) → length (insert_listed pg p ps) ≡ suc (length ps)
unfolding insert_listed
length-insert_listed pg p [] = refl
length-insert_listed pg p (q ∷ qs) = ground (arith, length-insert_listed pg p qs)

pub length-sort_listed : (pg : Postgres) (ps : List Place) → length (sort_listed pg ps) ≡ length ps
unfolding sort_listed
length-sort_listed pg [] = refl
length-sort_listed pg (p ∷ ps) =
    length-insert_listed pg p (sort_listed pg ps) ∙ ap suc (length-sort_listed pg ps)
