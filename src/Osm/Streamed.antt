-- ===== src/Osm/Streamed.antt =====
-- What a full import hands to its sink, and its counters (internal/sources/osm/source.go).
use inwheel_server.Prelude.{
  ℕ, ◌+◌, String, Option, none, some, List, [], ◌∷◌, ◌≡◌, refl, ap, ◌∙◌, arith,
}
use inwheel_server.Prelude.Result.{Error, Result, ok, err, Action, continue, wrap_err}
use inwheel_server.Float64.{Arithmetic}
use inwheel_server.Models.Profile.{Time, AccessibilityProfile}
use inwheel_server.Models.Place.{Category, Place}
use inwheel_server.Osm.Filter.{evaluate}
use inwheel_server.Osm.Transform.{Element, transform}
use inwheel_server.Osm.Source.{
  Object, node, way, relation, Counters, centroid, way_at, visit, stream_object, stream_elements,
  full_import,
}
use inwheel_server.Osm.Emitted.{transform-evaluate}

abbrev found {ℓ} : {A : Type ℓ} → Option A → ℕ
found none = 0
found (some a) = 1

-- 1 for a node, or a way with located nodes, whose tags pass the filter.
abbrev pub qualifies : Object → ℕ
qualifies (node e) = found (evaluate e.tags)
qualifies (way id [] tags) = 0
qualifies (way id (p ∷ ps) tags) = found (evaluate tags)
qualifies relation = 0

abbrev pub qualifying : List Object → ℕ
qualifying [] = 0
qualifying (o ∷ os) = qualifies o + qualifying os

abbrev pub start : Counters
start = record { processed = 0; emitted = 0; skipped = 0 }

unwrapped : (r : Result (Unit {0})) → wrap_err "stream" r ≡ ok tt → r ≡ ok tt
unwrapped (ok u) h = refl
unwrapped (err e) h = absurd (cc h)

module _ (fl : Arithmetic) (decimal : ℕ → String) {S : Type 0} (now : S → Time)
    (sink : Place → Option AccessibilityProfile → Action S (Unit {0})) where
  -- What one object adds to the counters.
  abbrev Adds : ℕ → Counters → Counters → Type 0
  Adds n c' c = (c'.emitted ≡ c.emitted + n) × (c'.skipped ≡ c.skipped)

  visit-Adds :
      (osm_type : String) (e : Element) (cat : Option Category) (c : Counters) (s : S)
      → evaluate e.tags ≡ cat
      → Adds
          (found cat)
          (visit fl decimal now sink
            (λ t e' k. transform fl decimal t e' k osm_type)
            e
            cat
            (c, s)).1.0
          c
  visit-Adds osm_type e none c s h = (omega arith, refl)
  visit-Adds osm_type e (some k) c s h =
      let t = transform-evaluate fl decimal (now s) e osm_type k h in rw t.2 (refl, refl)

  -- The sink run on what one element becomes, if its tags pass the filter.
  abbrev given : Result (Place × Option AccessibilityProfile) → S → S
  given (ok (p, profile)) s = (sink p profile s).1
  given (err e) s = s

  abbrev offered : String → Element → Option Category → S → S
  offered osm_type e none s = s
  offered osm_type e (some k) s = given (transform fl decimal (now s) e k osm_type) s

  abbrev handed : Object → S → S
  handed (node e) s = offered "node" e (evaluate e.tags) s
  handed (way id [] tags) s = s
  handed (way id (p ∷ ps) tags) s =
      offered "way" (way_at fl decimal id tags (centroid fl decimal (p ∷ ps))) (evaluate tags) s
  handed relation s = s

  -- The sink's state after it was given every element that passes the filter, in the order of the
  -- file.
  abbrev pub all_handed : List Object → S → S
  all_handed [] s = s
  all_handed (o ∷ os) s = all_handed os (handed o s)

  visit-offered :
      (osm_type : String) (e : Element) (cat : Option Category) (c : Counters) (s : S)
      → evaluate e.tags ≡ cat
      → (visit fl decimal now sink
          (λ t e' k. transform fl decimal t e' k osm_type)
          e
          cat
          (c, s)).1.1
        ≡ offered osm_type e cat s
  visit-offered osm_type e none c s h = refl
  visit-offered osm_type e (some k) c s h =
      let t = transform-evaluate fl decimal (now s) e osm_type k h in rw t.2 refl

  stream_object-handed :
      (o : Object) (c : Counters) (s : S)
      → (stream_object fl decimal now sink o (c, s)).1.1 ≡ handed o s
  unfolding stream_object
  stream_object-handed (node e) c s = visit-offered "node" e (evaluate e.tags) c s refl
  stream_object-handed (way id [] tags) c s = refl
  stream_object-handed (way id (p ∷ ps) tags) c s =
      visit-offered "way" (way_at fl decimal id tags (centroid fl decimal (p ∷ ps))) (evaluate tags)
        c s refl
  stream_object-handed relation c s = refl

  stream_elements-handed :
      (os : List Object) (failure : Option Error) (c : Counters) (s : S)
      → (stream_elements fl decimal now sink os failure (c, s)).0 ≡ ok tt
      → (stream_elements fl decimal now sink os failure (c, s)).1.1 ≡ all_handed os s
  unfolding stream_elements
  stream_elements-handed [] failure c s h = refl
  stream_elements-handed (o ∷ os) failure c s h =
      let first = stream_object fl decimal now sink o (c, s) in
      rest first.0 first.1.0 first.1.1 (stream_object-handed o c s)
        (stream_elements-handed os failure first.1.0 first.1.1) h
    where
      rest :
          (r : Result (Unit {0})) (c' : Counters) (s' : S)
          → s' ≡ handed o s
          → ((stream_elements fl decimal now sink os failure (c', s')).0 ≡ ok tt
              → (stream_elements fl decimal now sink os failure (c', s')).1.1 ≡ all_handed os s')
          → (continue r (λ _. stream_elements fl decimal now sink os failure) (c', s')).0 ≡ ok tt
          → (continue r (λ _. stream_elements fl decimal now sink os failure) (c', s')).1.1
            ≡ all_handed os (handed o s)
      rest (ok u) c' s' one later h' = later h' ∙ ap (all_handed os) one
      rest (err x) c' s' one later h' = absurd (cc h')

  stream_object-Adds :
      (o : Object) (c : Counters) (s : S)
      → Adds (qualifies o) (stream_object fl decimal now sink o (c, s)).1.0 c
  unfolding stream_object
  stream_object-Adds (node e) c s = visit-Adds "node" e (evaluate e.tags) c s refl
  stream_object-Adds (way id [] tags) c s = (omega arith, refl)
  stream_object-Adds (way id (p ∷ ps) tags) c s =
      visit-Adds "way" (way_at fl decimal id tags (centroid fl decimal (p ∷ ps))) (evaluate tags) c
        s refl
  stream_object-Adds relation c s = (omega arith, refl)

  stream_elements-Adds :
      (os : List Object) (failure : Option Error) (c : Counters) (s : S)
      → (stream_elements fl decimal now sink os failure (c, s)).0 ≡ ok tt
      → Adds (qualifying os) (stream_elements fl decimal now sink os failure (c, s)).1.0 c
  unfolding stream_elements
  stream_elements-Adds [] failure c s h = (omega arith, refl)
  stream_elements-Adds (o ∷ os) failure c s h =
      let first = stream_object fl decimal now sink o (c, s) in
      rest first.0 first.1.0 first.1.1 (stream_object-Adds o c s)
        (stream_elements-Adds os failure first.1.0 first.1.1) h
    where
      rest :
          (r : Result (Unit {0})) (c' : Counters) (s' : S)
          → Adds (qualifies o) c' c
          → ((stream_elements fl decimal now sink os failure (c', s')).0 ≡ ok tt
              → Adds
                  (qualifying os)
                  (stream_elements fl decimal now sink os failure (c', s')).1.0
                  c')
          → (continue r (λ _. stream_elements fl decimal now sink os failure) (c', s')).0 ≡ ok tt
          → Adds
              (qualifying (o ∷ os))
              (continue r (λ _. stream_elements fl decimal now sink os failure) (c', s')).1.0
              c
      rest (ok u) c' s' one later h' =
          let (e, k) = later h' in (omega (arith, one.0, e), omega (arith, one.1, k))
      rest (err x) c' s' one later h' = absurd (cc h')

  -- A full import that succeeds has given the sink, in the order of the file, the transform of each
  -- node, and of each way with located nodes, whose tags pass the filter, and nothing else: the
  -- sink's state is what these calls make of it. `emitted` counts them, and no element was skipped.
  pub full_import_complete :
      (os : List Object) (failure : Option Error) (s : S)
      → (full_import fl decimal now sink os failure (start, s)).0 ≡ ok tt
      → ((full_import fl decimal now sink os failure (start, s)).1.1 ≡ all_handed os s)
        × ((full_import fl decimal now sink os failure (start, s)).1.0.emitted ≡ qualifying os)
        × ((full_import fl decimal now sink os failure (start, s)).1.0.skipped ≡ 0)
  unfolding full_import
  full_import_complete os failure s h =
      let r = stream_elements fl decimal now sink os failure (start, s) in
      let added = stream_elements-Adds os failure start s (unwrapped r.0 h) in
      (stream_elements-handed os failure start s (unwrapped r.0 h), omega (arith, added.0), added.1)
