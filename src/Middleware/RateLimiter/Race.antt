-- ===== src/Middleware/RateLimiter/Race.antt =====
-- Allow and sweep of internal/middleware/middleware.go, step by step: the sync.Map holds pointers to the
-- buckets, so a sweep that has seen a full bucket may delete it after an Allow has taken from it.
use inwheel_server.Prelude.{
  ℕ, suc, String, Bool, true, false, Option, none, some, eqb, eqb_iff, eq_refl, ◌==◌, ◌≡◌, refl,
  arith, if◌then◌else◌,
}
use inwheel_server.Float64.{F64, Arithmetic}
use inwheel_server.Models.Profile.{Time}
use inwheel_server.Middleware.RateLimiter.{RateLibrary, is_full}

-- The map, the buckets by their pointers, and the next pointer.
pub record Shared (Bucket : Type 0) : Type 0 where
  pub pointers : String → Option ℕ
  pub buckets : ℕ → Bucket
  pub next : ℕ
  pub r : F64
  pub b : ℕ

abbrev pub set_pointer : String → Option ℕ → (String → Option ℕ) → String → Option ℕ
set_pointer key n pointers k = if key == k then n else pointers k

abbrev pub set_bucket : {Bucket : Type 0} → ℕ → Bucket → (ℕ → Bucket) → ℕ → Bucket
set_bucket n v buckets i = if eqb n i then v else buckets i

module _ {Bucket : Type 0} (lib : RateLibrary Bucket) where
  abbrev pub loaded : String → Option ℕ → Shared Bucket → ℕ × Shared Bucket
  loaded key (some n) s = (n, s)
  loaded key none s = (
    s.next,
    record s {
      pointers = set_pointer key (some s.next) s.pointers;
      buckets = set_bucket s.next (lib.new_limiter s.r s.b) s.buckets;
      next = suc s.next;
    },
  )

  -- Load, or LoadOrStore of a new bucket.
  unfoldable pub load : String → Shared Bucket → ℕ × Shared Bucket
  load key s = loaded key (s.pointers key) s

  -- Allow of the bucket behind the pointer.
  unfoldable pub take : Time → ℕ → Shared Bucket → Bool × Shared Bucket
  take now n s =
      let (allowed, v) = lib.allow now (s.buckets n) in
      (allowed, record s { buckets = set_bucket n v s.buckets })

  abbrev pub allow_step : Time → String → Shared Bucket → Bool × Shared Bucket
  allow_step now key s = let (n, s') = load key s in take now n s'

  module _ (fl : Arithmetic) where
    abbrev pub full_at : Time → Option ℕ → Shared Bucket → Bool
    full_at now none s = false
    full_at now (some n) s = is_full lib fl now s.b (s.buckets n)

    -- What the Range of a sweep sees at the key.
    unfoldable pub check : Time → String → Shared Bucket → Bool
    check now key s = full_at now (s.pointers key) s

  unfoldable pub delete_if : Bool → String → Shared Bucket → Shared Bucket
  delete_if doomed key s =
      if doomed then record s { pointers = set_pointer key none s.pointers } else s

  abbrev pub pointed : Option ℕ → Shared Bucket → Bucket
  pointed none s = lib.new_limiter s.r s.b
  pointed (some n) s = s.buckets n

  -- The bucket that the next Allow of the key takes from.
  abbrev pub bucket_of : String → Shared Bucket → Bucket
  bucket_of key s = pointed (s.pointers key) s

  -- An Allow of the key between the check and the deletion, and after the deletion.
  abbrev pub amid : Arithmetic → Time → String → Shared Bucket → Bool × Shared Bucket
  amid fl now key s =
      let doomed = check fl now key s in
      let (allowed, s') = allow_step now key s in (allowed, delete_if doomed key s')

  abbrev pub in_turn : Arithmetic → Time → String → Shared Bucket → Bool × Shared Bucket
  in_turn fl now key s = allow_step now key (delete_if (check fl now key s) key s)

-- An Allow that comes between a sweep's look at a full bucket and the deletion is forgotten: it is answered from
-- that bucket, and the key's next Allow has a new bucket, as if nothing had been taken. After the whole
-- sweep the same Allow is answered from a new bucket, and the next one has what is left of that.
pub amid_forgets :
    {Bucket : Type 0} (lib : RateLibrary Bucket) (fl : Arithmetic) (now : Time) (key : String)
    (s : Shared Bucket) (n : ℕ)
    → s.pointers key ≡ some n
    → is_full lib fl now s.b (s.buckets n) ≡ true
    → let new = lib.new_limiter s.r s.b in
      ((amid lib fl now key s).0 ≡ (lib.allow now (s.buckets n)).0)
      × (bucket_of lib key (amid lib fl now key s).1 ≡ new)
      × ((in_turn lib fl now key s).0 ≡ (lib.allow now new).0)
      × (bucket_of lib key (in_turn lib fl now key s).1 ≡ (lib.allow now new).1)
unfolding check load take delete_if
amid_forgets lib fl now key s n here full =
    let same : eqb s.next s.next ≡ true = ground (arith, eqb_iff s.next s.next) in
    (
      rw here refl,
      rw (here, full, eq_refl key) refl,
      rw (here, full, eq_refl key, same) refl,
      rw (here, full, eq_refl key, same, eq_refl key, same) refl,
    )
