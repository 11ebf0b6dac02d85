-- ===== src/Ingestion/Batcher/Written.antt =====
-- What cmd/ingestion/batcher.go has written after an import.
use inwheel_server.Prelude.{
  ℕ, ◌+◌, ◌<◌, String, Bool, Option, none, some, List, [], ◌∷◌, ◌++◌, ◌≡◌, refl, ap, ◌∙◌, length,
  leb, length-append, inl, inr, Bool-cases, arith,
}
use inwheel_server.Prelude.Result.{Result, ok, err, Action, continue}
use inwheel_server.Models.Profile.{AccessibilityProfile}
use inwheel_server.Models.Place.{Place}
use inwheel_server.Ingestion.Batcher.{
  Batcher, new_batcher, write_one, touch, write_profiles, emptied, flushed, flush_buffer, flush_now,
  sink, sink_all,
}

-- The batcher has taken `n` places, fewer than `size` of them are waiting.
pub record IsBatch (n : ℕ) (b : Batcher) : Type 0 where
  pub taken : b.written + length b.buffer ≡ n
  pub room : length b.buffer < b.size

-- What a write of profiles leaves alone.
pub record SameBatch (b' b : Batcher) : Type 0 where
  pub size : b'.size ≡ b.size
  pub written : b'.written ≡ b.written

SameBatch-trans : {a b c : Batcher} → SameBatch a b → SameBatch b c → SameBatch a c
SameBatch-trans h k = record { size = cc (h.size, k.size); written = cc (h.written, k.written) }

continue-SameBatch :
    {S : Type 0} (r : Result (Unit {0})) (f : Action (Batcher × S) (Unit {0})) (b' : Batcher)
    (s : S) (b : Batcher)
    → SameBatch b' b
    → SameBatch (f (b', s)).1.0 b
    → SameBatch (continue r (λ _. f) (b', s)).1.0 b
continue-SameBatch (ok u) f b' s b h k = k
continue-SameBatch (err e) f b' s b h k = h

continue-IsBatch :
    {S : Type 0} (n m : ℕ) (r : Result (Unit {0})) (f : Action (Batcher × S) (Unit {0}))
    (b : Batcher) (s : S)
    → (r ≡ ok tt → IsBatch n b)
    → (IsBatch n b → (f (b, s)).0 ≡ ok tt → IsBatch m (f (b, s)).1.0)
    → (continue r (λ _. f) (b, s)).0 ≡ ok tt
    → IsBatch m (continue r (λ _. f) (b, s)).1.0
continue-IsBatch n m (ok u) f b s here rest h = rest (here refl) h
continue-IsBatch n m (err e) f b s here rest h = absurd (cc h)

module _ {S : Type 0} (flush : List Place → Action S (List Place))
    (write_profile : Option (String → AccessibilityProfile → Action S Bool)) where
  write_one-SameBatch :
      (id : String) (profile : Option AccessibilityProfile)
      (writer : Option (String → AccessibilityProfile → Action S Bool)) (b : Batcher) (s : S)
      → SameBatch (write_one flush write_profile id profile writer (b, s)).1.0 b
  write_one-SameBatch id none writer b s = record { size = refl; written = refl }
  write_one-SameBatch id (some p) none b s = record { size = refl; written = refl }
  write_one-SameBatch id (some p) (some write) b s = ground arith

  write_profiles-SameBatch :
      (ps : List Place) (pending : List (Option AccessibilityProfile)) (b : Batcher) (s : S)
      → SameBatch (write_profiles flush write_profile ps pending (b, s)).1.0 b
  unfolding write_profiles
  write_profiles-SameBatch [] pending b s = record { size = refl; written = refl }
  write_profiles-SameBatch (p ∷ ps) [] b s = ground (arith, write_profiles-SameBatch ps [] b s)
  write_profiles-SameBatch (p ∷ ps) (profile ∷ pending) b s =
      let b' = touch flush write_profile p.id b in
      let one = write_one flush write_profile p.id profile write_profile (b', s) in
      let same = write_one-SameBatch p.id profile write_profile b' s in
      let rest = write_profiles-SameBatch ps pending one.1.0 one.1.1 in
      let skipped = write_profiles-SameBatch ps pending b s in
      ground (
        arith,
        skipped,
        continue-SameBatch one.0 (write_profiles flush write_profile ps pending) one.1.0 one.1.1 b
            (SameBatch-trans same (record { size = refl; written = refl }))
            (SameBatch-trans rest (SameBatch-trans same (record { size = refl; written = refl }))),
      )

  -- The law of `flush`: it fills in ids, and neither adds nor drops a place.
  abbrev pub KeepsLength : Type 0
  KeepsLength =
      (ps : List Place) (s : S) (done : List Place)
      → (flush ps s).0 ≡ ok done
      → length done ≡ length ps

  module _ (law : KeepsLength) where
    emptied-IsBatch :
        (n : ℕ) (r : Result (Unit {0})) (b : Batcher) (s : S)
        → 0 < b.size
        → b.written ≡ n
        → (emptied flush write_profile (r, (b, s))).0 ≡ ok tt
        → IsBatch n (emptied flush write_profile (r, (b, s))).1.0
          × ((emptied flush write_profile (r, (b, s))).1.0.size ≡ b.size)
          × ((emptied flush write_profile (r, (b, s))).1.0.buffer ≡ [])
    emptied-IsBatch n (ok u) b s pos same h = (omega arith, refl, refl)
    emptied-IsBatch n (err e) b s pos same h = absurd (cc h)

    flushed-IsBatch :
        (n : ℕ) (b : Batcher) (r : Result (List Place)) (s : S)
        → 0 < b.size
        → ((done : List Place) → r ≡ ok done → b.written + length done ≡ n)
        → (flushed flush write_profile b r s).0 ≡ ok tt
        → IsBatch n (flushed flush write_profile b r s).1.0
          × ((flushed flush write_profile b r s).1.0.size ≡ b.size)
          × ((flushed flush write_profile b r s).1.0.buffer ≡ [])
    flushed-IsBatch n b (err e) s pos same h = absurd (cc h)
    flushed-IsBatch n b (ok done) s pos same h =
        let b' = record b { buffer = done; written = b.written + length done } in
        let wrote = write_profiles flush write_profile done b.pending_profiles (b', s) in
        let kept = write_profiles-SameBatch done b.pending_profiles b' s in
        let (batch, size, empty) =
          emptied-IsBatch n wrote.0 wrote.1.0 wrote.1.1 (omega (arith, kept.size))
            (cc (kept.written, same done refl)) h in
        (batch, size ∙ kept.size, empty)

    -- A successful flush leaves nothing waiting.
    flush_now-IsBatch :
        (n : ℕ) (b : Batcher) (s : S)
        → 0 < b.size
        → b.written + length b.buffer ≡ n
        → (flush_now flush write_profile (b, s)).0 ≡ ok tt
        → IsBatch n (flush_now flush write_profile (b, s)).1.0
          × ((flush_now flush write_profile (b, s)).1.0.size ≡ b.size)
          × ((flush_now flush write_profile (b, s)).1.0.buffer ≡ [])
    unfolding flush_now
    flush_now-IsBatch n b s pos same h = buffered b.buffer refl same h
      where
        buffered :
            (ps : List Place)
            → b.buffer ≡ ps
            → b.written + length ps ≡ n
            → (flush_buffer flush write_profile ps b s).0 ≡ ok tt
            → IsBatch n (flush_buffer flush write_profile ps b s).1.0
              × ((flush_buffer flush write_profile ps b s).1.0.size ≡ b.size)
              × ((flush_buffer flush write_profile ps b s).1.0.buffer ≡ [])
        buffered [] e k h' = (record { taken = same; room = omega (arith, ap length e) }, refl, e)
        buffered (p ∷ ps) e k h' =
            flushed-IsBatch n b (flush (p ∷ ps) s).0 (flush (p ∷ ps) s).1 pos
              (λ done f. omega (arith, law (p ∷ ps) s done f)) h'

    sink-IsBatch :
        (n : ℕ) (p : Place) (profile : Option AccessibilityProfile) (b : Batcher) (s : S)
        → IsBatch n b
        → (sink flush write_profile p profile (b, s)).0 ≡ ok tt
        → IsBatch (n + 1) (sink flush write_profile p profile (b, s)).1.0
    unfolding sink
    sink-IsBatch n p profile b s batch h =
        let b' : Batcher = record b {
          buffer = b.buffer ++ p ∷ [];
          pending_profiles = b.pending_profiles ++ profile ∷ [];
        } in
        let longer = length-append b.buffer (p ∷ []) in
        elim (Bool-cases (leb b.size (length (b.buffer ++ p ∷ [])))) [
          | inl full ↦
              rw full
                (flush_now-IsBatch (n + 1) b' s (omega (arith, batch.room))
                  (omega (arith, longer, batch.taken)) (rw full at h)).0
          | inr room ↦
              rw room
                (record { taken = omega (arith, longer, batch.taken); room = ground (arith, room) })
        ]

    sink_all-IsBatch :
        (n : ℕ) (items : List (Place × Option AccessibilityProfile)) (b : Batcher) (s : S)
        → IsBatch n b
        → (sink_all flush write_profile items (b, s)).0 ≡ ok tt
        → IsBatch (n + length items) (sink_all flush write_profile items (b, s)).1.0
    unfolding sink_all
    sink_all-IsBatch n [] b s batch h = record {
      taken = omega (arith, batch.taken);
      room = batch.room;
    }
    sink_all-IsBatch n ((p, profile) ∷ items) b s batch h =
        let first = sink flush write_profile p profile (b, s) in
        continue-IsBatch (n + 1) (n + length ((p, profile) ∷ items)) first.0
          (sink_all flush write_profile items) first.1.0 first.1.1
          (λ e. sink-IsBatch n p profile b s batch e)
          (λ kept rest.
            (let done = sink_all-IsBatch (n + 1) items first.1.0 first.1.1 kept rest in
              record { taken = omega (arith, done.taken); room = done.room }))
          h

    -- If every sink of an import and the final flush succeed, all its places have been written and
    -- nothing is left in the buffer.
    pub import_written :
        (size : ℕ) (items : List (Place × Option AccessibilityProfile)) (s : S)
        → 0 < size
        → (sink_all flush write_profile items (new_batcher size, s)).0 ≡ ok tt
        → (flush_now flush write_profile
            (sink_all flush write_profile items (new_batcher size, s)).1).0
          ≡ ok tt
        → let done =
            flush_now flush write_profile
              (sink_all flush write_profile items (new_batcher size, s)).1 in
          (done.1.0.written ≡ length items) × (done.1.0.buffer ≡ [])
    import_written size items s pos h k =
        let bs = sink_all flush write_profile items (new_batcher size, s) in
        let taken =
          sink_all-IsBatch 0 items (new_batcher size) s (record { taken = refl; room = pos }) h in
        let (batch, same, empty) =
          flush_now-IsBatch (length items) bs.1.0 bs.1.1 (omega (arith, taken.room))
            (omega (arith, taken.taken)) k in
        (omega (arith, batch.taken, ap length empty), empty)
