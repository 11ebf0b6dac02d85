-- ===== src/Api/Keys/Revoked.antt =====
-- What authentication in cmd/api/auth.go answers after a key is revoked.
use inwheel_server.Prelude.{
  String, Bool, none, List, [], ◌∷◌, ◌≡◌, ◌≢◌, refl, inl, inr, Bool-cases, find_first, any, arith,
  ◌==◌,
}
use inwheel_server.Prelude.Result.{ok}
use inwheel_server.Models.Profile.{Time}
use inwheel_server.Db.{ApiKey, Db}
use inwheel_server.Db.Laws.{statement-cases}
use inwheel_server.Api.Keys.{
  has_hash, revoke_rows, revoke_body, revoked_204, revoke_key, lookup_key, authenticate,
}

find_first-revoke_rows :
    (now : Time) (hash : String) (ks : List ApiKey)
    → find_first (has_hash hash) (revoke_rows now hash ks) ≡ none
unfolding revoke_rows
find_first-revoke_rows now hash [] = refl
find_first-revoke_rows now hash (k ∷ ks) = ground (arith, find_first-revoke_rows now hash ks)

lookup_key-none :
    (hash : String) (db : Db) (id : String)
    → find_first (has_hash hash) db.api_keys ≡ none
    → (lookup_key hash db).0 ≢ ok id
lookup_key-none hash db id h k =
    let (s, rows, cases) =
      statement-cases (λ s. (ok (find_first (has_hash hash) s.api_keys), s)) db in
    elim cases [
      | inl e ↦ ground (arith, e, h, k, rows.api_keys)
      | inr (x, e) ↦ ground (arith, e, k)
    ]

revoke_key-none :
    (sha256_hex : String → String) (raw : String) (db : Db)
    → (revoke_key sha256_hex raw db).0 ≡ ok revoked_204
    → find_first (has_hash (sha256_hex raw)) (revoke_key sha256_hex raw db).1.api_keys ≡ none
unfolding revoke_key
revoke_key-none sha256_hex raw db h =
    let hash = sha256_hex raw in
    let (s, rows, cases) = statement-cases (revoke_body hash) db in
    elim cases [
      | inl e ↦ elim (Bool-cases (any (has_hash hash) s.api_keys)) [
        | inl found ↦ rw (e, found) (find_first-revoke_rows s.clock hash s.api_keys)
        | inr missing ↦ absurd (ground (arith, e, missing, h))
      ]
      | inr (x, e) ↦ absurd (ground (arith, e, h))
    ]

-- Once a revocation has answered 204, the key authenticates nobody, whatever the limiter answers and
-- whatever happens around the lookup.
pub authenticate-revoke_key :
    (sha256_hex : String → String) (allow : String → Bool) (raw id : String) (db : Db)
    → (revoke_key sha256_hex raw db).0 ≡ ok revoked_204
    → (authenticate sha256_hex allow raw (revoke_key sha256_hex raw db).1).0 ≢ ok id
unfolding authenticate
authenticate-revoke_key sha256_hex allow raw id db h =
    let after = (revoke_key sha256_hex raw db).1 in
    let nobody = lookup_key-none (sha256_hex raw) after id (revoke_key-none sha256_hex raw db h) in
    elim (Bool-cases (raw == "")) [
      | inl blank ↦ rw blank (λ k. cc k)
      | inr given ↦ elim (Bool-cases (allow (sha256_hex raw))) [
        | inl open' ↦ rw (given, open') nobody
        | inr shut ↦ rw (given, shut) (λ k. cc k)
      ]
    ]
