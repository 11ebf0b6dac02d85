-- ===== src/Identity/Matcher/Best.antt =====
-- The candidate that internal/identity/matcher.go picks.
use inwheel_server.Prelude.{
  ℕ, suc, ◌+◌, true, false, Option, none, some, List, [], ◌∷◌, ◌≡◌, refl, ◌∙◌, ap, ◌⊎◌, inl, inr,
  Bool-cases, get_elem?, All, arith,
}
use inwheel_server.Prelude.Result.{ok}
use inwheel_server.Float64.{F64, Arithmetic, IsOrdered}
use inwheel_server.Models.Place.{Place}
use inwheel_server.Identity.Record.{no_match, low_confidence, confident, other, Decision}
use inwheel_server.Identity.Score.{confident_threshold, low_confidence_threshold}
use inwheel_server.Identity.Matcher.{Best, best_from, settle, decide, no_decision}

module _ (fl : Arithmetic) (score : Place → F64) where
  -- The decision names a candidate and its score, and no candidate scores higher.
  pub record IsBest (cs : List Place) (d : Decision) : Type 0 where
    pub index : ℕ
    pub place : Place
    pub listed : get_elem? cs index ≡ some place
    pub named : d.matched_place_id ≡ place.id
    pub scored : d.confidence ≡ score place
    pub highest : All (λ c. fl.lt d.confidence (score c) ≡ false) cs

  abbrev pub IsDecided : List Place → Decision → Type 0
  IsDecided cs d = elim (d.kind) [
    | confident ↦ (fl.le (confident_threshold fl) d.confidence ≡ true) × IsBest cs d
    | low_confidence ↦
        (fl.le (low_confidence_threshold fl) d.confidence ≡ true)
        × (fl.le (confident_threshold fl) d.confidence ≡ false)
        × IsBest cs d
    | no_match ↦ All (λ c. fl.le (low_confidence_threshold fl) (score c) ≡ false) cs
    | other n ↦ ⊥
  ]

  -- Where the loop's best comes from: nothing yet, or a place of the list.
  abbrev Origin : List Place → Best → Type 0
  Origin all best =
      ((best.0 ≡ none) × (best.1 ≡ fl.neg (fl.lit 10 1)))
      ⊎ ((i : ℕ) × (p : Place) × (best.0 ≡ some i)
          × (get_elem? all i ≡ some p)
          × (best.1 ≡ score p))

  module _ (ord : IsOrdered fl) where
    -- The loop's result is a number, is not below any score, and is not below where it started.
    record Found (all rest : List Place) (start final : Best) : Type 0 where
      number : fl.le final.1 final.1 ≡ true
      rises : (v : F64) → fl.lt start.1 v ≡ false → fl.lt final.1 v ≡ false
      highest : All (λ c. fl.lt final.1 (score c) ≡ false) rest
      origin : Origin all final

    best_from-Found :
        (all rest : List Place) (i : ℕ) (best : Best)
        → ((j : ℕ) → get_elem? all (i + j) ≡ get_elem? rest j)
        → fl.le best.1 best.1 ≡ true
        → Origin all best
        → Found all rest best (best_from fl score rest i best)
    unfolding best_from
    best_from-Found all [] i best at num org = record {
      number = num;
      rises = λ v h. h;
      highest = tt;
      origin = org;
    }
    best_from-Found all (c ∷ cs) i best at num org =
        let at' : (j : ℕ) → get_elem? all (suc i + j) ≡ get_elem? cs j =
          λ j. ap (get_elem? all) (omega arith) ∙ at (suc j) in
        elim (Bool-cases (fl.lt best.1 (score c))) [
          | inl better ↦
              let f =
                best_from-Found all cs (suc i) (some i, score c) at'
                  (ord.number_of_lt best.1 (score c) better)
                  (inr (i, c, refl, ap (get_elem? all) (omega arith) ∙ at 0, refl)) in
              rw better (record {
                number = f.number;
                rises = λ v h. f.rises v (ground (arith, ord.lt_trans best.1 (score c) v));
                highest = (f.rises (score c) (ord.lt_irrefl (score c)), f.highest);
                origin = f.origin;
              })
          | inr worse ↦
              let f = best_from-Found all cs (suc i) best at' num org in
              rw worse (record {
                number = f.number;
                rises = f.rises;
                highest = (f.rises (score c) worse, f.highest);
                origin = f.origin;
              })
        ]

    All-low :
        (b : F64) (cs : List Place)
        → fl.le b b ≡ true
        → fl.le (low_confidence_threshold fl) b ≡ false
        → All (λ c. fl.lt b (score c) ≡ false) cs
        → All (λ c. fl.le (low_confidence_threshold fl) (score c) ≡ false) cs
    All-low b [] num low h = tt
    All-low b (c ∷ cs) num low (p, h) = (
      ground (arith, ord.lt_of_between (low_confidence_threshold fl) (score c) b num),
      All-low b cs num low h,
    )

    settle_lem :
        (cs : List Place) (start : Best) (idx : Option ℕ) (b : F64)
        → Found cs cs start (idx, b)
        → (d : Decision) × (settle fl cs (idx, b) ≡ ok d) × IsDecided cs d
    unfolding settle
    settle_lem cs start idx b f = elim f.origin [
      | inl (nowhere, least) ↦ (
        no_decision fl,
        ground (arith, ord.minus_one_high, ord.minus_one_low),
        All-low b cs f.number (ground (arith, ord.minus_one_low)) f.highest,
      )
      | inr (i, p, here, listed, value) ↦ elim (Bool-cases (fl.le (confident_threshold fl) b)) [
        | inl high ↦ (
          record { kind = confident; matched_place_id = p.id; confidence = b },
          ground arith,
          (
            high,
            record {
              index = i;
              place = p;
              listed = listed;
              named = refl;
              scored = value;
              highest = f.highest;
            },
          ),
        )
        | inr below ↦ elim (Bool-cases (fl.le (low_confidence_threshold fl) b)) [
          | inl low ↦ (
            record { kind = low_confidence; matched_place_id = p.id; confidence = b },
            ground arith,
            (
              low,
              below,
              record {
                index = i;
                place = p;
                listed = listed;
                named = refl;
                scored = value;
                highest = f.highest;
              },
            ),
          )
          | inr none' ↦ (no_decision fl, ground arith, All-low b cs f.number none' f.highest)
        ]
      ]
    ]

    -- The matcher's decision is total: it never reads past the candidates. A confident or a
    -- low-confidence decision names a candidate of the highest score, which is at least 0.80, or at
    -- least 0.55 and not 0.80; with no match every score is below 0.55 or not a number. The order of
    -- the floats is that of IEEE 754.
    pub decide_lem :
        (cs : List Place) → (d : Decision) × (decide fl score cs ≡ ok d) × IsDecided cs d
    unfolding decide
    decide_lem [] = (no_decision fl, refl, tt)
    decide_lem (c ∷ cs) =
        let all : List Place = c ∷ cs in
        let start : Best = (none, fl.neg (fl.lit 10 1)) in
        settle_lem all start (best_from fl score all 0 start).0 (best_from fl score all 0 start).1 (
          best_from-Found all all 0 start (λ j. ap (get_elem? all) (omega arith))
            ord.minus_one_number (inl (refl, refl)))
