-- ===== src/Api/Keys/Concurrent/Exclusive.antt =====
-- Two registrations of one address that cmd/api has answered with 201.
use inwheel_server.Prelude.{
  ℕ, String, Bool, true, false, List, [], ◌∷◌, ◌≡◌, ◌≤◌, refl, ◌&&◌, ◌==◌, any, keep, length, arith,
  inl, inr, Bool-cases, eq_iff, subst,
}
use inwheel_server.Prelude.Result.{ok}
use inwheel_server.Models.Profile.{Time}
use inwheel_server.Db.{ApiKey, Postgres}
use inwheel_server.Api.Keys.{has_hash, has_email, registered_201}
use inwheel_server.Api.Keys.Unique.{HasUniqueKeys}
use inwheel_server.Api.Keys.Concurrent.{Phase, answered, System, Run}
use inwheel_server.Api.Keys.Concurrent.Invariant.{is_row, claim, IsSound, Run-IsSound}

abbrev is_held : String → String → ApiKey → Bool
is_held hash e k = has_hash hash k && k.email == e

none_kept :
    (h : String) (t : ApiKey → Bool) (ks : List ApiKey)
    → ((k : ApiKey) → t k ≡ true → (k.key_hash == h) ≡ true)
    → length (keep (λ k. k.key_hash == h) ks) ≤ 0
    → any t ks ≡ false
none_kept h t [] only few = refl
none_kept h t (k ∷ ks) only few = ground (arith, only k, none_kept h t ks only, few)

any-is_held :
    (h e : String) (ks : List ApiKey)
    → length (keep (λ k. k.key_hash == h) ks) ≤ 1
    → any (is_row h e) ks ≡ true
    → any (has_hash h) ks ≡ true
    → any (is_held h e) ks ≡ true
any-is_held h e [] few row key = row
any-is_held h e (k ∷ ks) few row key = elim (Bool-cases (k.key_hash == h)) [
  | inr n ↦ ground (arith, n, any-is_held h e ks, few, row, key)
  | inl y ↦
      let rest = none_kept h (is_row h e) ks (λ k' r. ground (arith, r)) (ground (arith, y, few)) in
      let others =
        none_kept h (has_hash h) ks (λ k' r. ground (arith, r)) (ground (arith, y, few)) in
      ground (arith, y, rest, others, row, key)
]

some_kept :
    (t c : ApiKey → Bool) (ks : List ApiKey)
    → ((k : ApiKey) → t k ≡ true → c k ≡ true)
    → any t ks ≡ true
    → 1 ≤ length (keep c ks)
some_kept t c [] h y = absurd (ground (arith, y))
some_kept t c (k ∷ ks) h y = ground (arith, h k, some_kept t c ks h, y)

two_kept :
    (a b : String) (e : String) (ks : List ApiKey)
    → (a == b) ≡ false
    → any (is_held a e) ks ≡ true
    → any (is_held b e) ks ≡ true
    → 2 ≤ length (keep (has_email e) ks)
two_kept a b e [] other x y = absurd (ground (arith, x))
two_kept a b e (k ∷ ks) other x y = ground (
  arith,
  eq_iff a b,
  eq_iff k.key_hash a,
  eq_iff k.key_hash b,
  some_kept (is_held a e) (has_email e) ks (λ k' r. ground (arith, r)),
  some_kept (is_held b e) (has_email e) ks (λ k' r. ground (arith, r)),
  two_kept a b e ks other,
  x,
  y,
)

exclusive :
    (a b e : String) (ks : List ApiKey)
    → HasUniqueKeys ks
    → (a == b) ≡ false
    → any (is_row a e) ks ≡ true
    → any (is_row b e) ks ≡ true
    → any (has_hash a) ks && any (has_hash b) ks ≡ false
exclusive a b e ks unique other x y = elim (Bool-cases (any (has_hash a) ks)) [
  | inr n ↦ rw n refl
  | inl p ↦ elim (Bool-cases (any (has_hash b) ks)) [
    | inr n ↦ rw (p, n) refl
    | inl q ↦ absurd (
        omega (
          arith,
          unique.emails e,
          two_kept a b e ks other (any-is_held a e ks (unique.hashes a) x p)
              (any-is_held b e ks (unique.hashes b) y q),
        ))
  ]
]

-- When two registrations of one address have been answered with 201, each with its own key, the two keys are
-- not both active: after any steps, of any clients, from a state where the keys are sound.
pub Run-exclusive :
    (sha256_hex : String → String) (pg : Postgres) (s t : System) (i j : ℕ) (a b e : String)
    (at bt : Time)
    → Run sha256_hex pg s t
    → IsSound sha256_hex s
    → (sha256_hex a == sha256_hex b) ≡ false
    → t.phase i ≡ answered (ok (registered_201 a at e))
    → t.phase j ≡ answered (ok (registered_201 b bt e))
    → any (has_hash (sha256_hex a)) t.db.api_keys && any (has_hash (sha256_hex b)) t.db.api_keys
      ≡ false
Run-exclusive sha256_hex pg s t i j a b e at bt run sound other first second =
    let after = Run-IsSound sha256_hex pg s t run sound in
    let row = λ (x : Phase). claim sha256_hex x t.db.api_keys ≡ true in
    exclusive (sha256_hex a) (sha256_hex b) e t.db.api_keys after.unique other
      (subst row first (after.claims i)) (subst row second (after.claims j))
