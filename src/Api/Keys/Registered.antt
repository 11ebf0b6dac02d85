-- ===== src/Api/Keys/Registered.antt =====
-- Register of cmd/api/handle_register.go, and what the new key is good for.
use inwheel_server.Prelude.{
  suc, String, Bool, true, false, none, some, List, [], ◌∷◌, ◌≡◌, refl, ap, ◌∙◌, arith, ◌==◌, any,
  find_first, inl, inr, Bool-cases, Option-cases, eq_refl,
}
use inwheel_server.Prelude.Result.{has_pg_code, ok}
use inwheel_server.Models.Profile.{Time}
use inwheel_server.Db.{Db, Postgres, statement}
use inwheel_server.Db.Quiet.{statement-quiet}
use inwheel_server.Validation.{FieldError, email}
use inwheel_server.Api.Keys.{
  has_hash, has_email, find_body, authenticate, revoke_body, revoke_key, revoked_204, key_row,
  collides, insert_key, insert_new, register_valid, register, registered_201,
}

module _ (sha256_hex : String → String) (pg : Postgres) (e raw : String) (db : Db)
    (calm : db.script ≡ []) where
  -- The database with the new key.
  abbrev with_key : Db
  with_key = record db {
    api_keys = key_row pg e (sha256_hex raw) db ∷ db.api_keys;
    next_uuid = suc db.next_uuid;
  }

  module _ (t : Time) (e' : String) where
    insert_new-lem :
        (insert_new sha256_hex pg e (some raw) db).0 ≡ ok (registered_201 raw t e')
        → (insert_new sha256_hex pg e (some raw) db).1 ≡ with_key
    unfolding has_pg_code
    insert_new-lem h =
        let quiet = statement-quiet (insert_key pg e (sha256_hex raw)) db calm in
        elim (Bool-cases (any (collides (key_row pg e (sha256_hex raw) db)) db.api_keys)) [
          | inl y ↦ absurd (ground (arith, quiet, y, h))
          | inr n ↦ rw (quiet, n) refl
        ]

    register_valid-lem :
        (es : List FieldError)
        → (register_valid sha256_hex pg e (some raw) es db).0 ≡ ok (registered_201 raw t e')
        → (register_valid sha256_hex pg e (some raw) es db).1 ≡ with_key
    register_valid-lem (x ∷ xs) h = absurd (ground (arith, h))
    register_valid-lem [] h =
        let quiet = statement-quiet (find_body (has_email e)) db calm in
        elim (Option-cases (find_first (has_email e) db.api_keys)) [
          | inl free ↦
              let step : statement (find_body (has_email e)) db ≡ (ok none, db) =
                quiet ∙ ap (λ o. (ok o, db)) free in
              rw step (insert_new-lem (rw step at h))
          | inr (k, taken) ↦
              let step : statement (find_body (has_email e)) db ≡ (ok (some k), db) =
                quiet ∙ ap (λ o. (ok o, db)) taken in
              absurd (ground (arith, rw step at h))
        ]

    register-lem :
        (email_regex : String → Bool) (allowed : Bool)
        → (register sha256_hex pg email_regex allowed e (some raw) db).0
          ≡ ok (registered_201 raw t e')
        → (register sha256_hex pg email_regex allowed e (some raw) db).1 ≡ with_key
    unfolding register
    register-lem email_regex true h = register_valid-lem (email email_regex e) h
    register-lem email_regex false h = absurd (ground (arith, h))

  authenticate-with_key :
      (allow : String → Bool)
      → (raw == "") ≡ false
      → allow (sha256_hex raw) ≡ true
      → (authenticate sha256_hex allow raw with_key).0 ≡ ok (pg.gen_random_uuid db.next_uuid)
  unfolding authenticate
  authenticate-with_key allow key yes' =
      let quiet = statement-quiet (find_body (has_hash (sha256_hex raw))) with_key calm in
      rw (key, yes', quiet, eq_refl (sha256_hex raw)) refl

  revoke_key-with_key : (revoke_key sha256_hex raw with_key).0 ≡ ok revoked_204
  unfolding revoke_key
  revoke_key-with_key =
      let quiet = statement-quiet (revoke_body (sha256_hex raw)) with_key calm in
      rw (quiet, eq_refl (sha256_hex raw)) refl

-- After a registration has answered 201 with a key that is not empty, that key authenticates, where the
-- limiter allows it, as the row that the registration has inserted, and a revocation with it is answered
-- with 204: if no statement fails.
pub authenticate-register :
    (sha256_hex : String → String) (pg : Postgres) (email_regex allow : String → Bool)
    (allowed : Bool) (e raw : String) (t : Time) (e' : String) (db : Db)
    → db.script ≡ []
    → (raw == "") ≡ false
    → allow (sha256_hex raw) ≡ true
    → (register sha256_hex pg email_regex allowed e (some raw) db).0 ≡ ok (registered_201 raw t e')
    → let after = (register sha256_hex pg email_regex allowed e (some raw) db).1 in
      ((authenticate sha256_hex allow raw after).0 ≡ ok (pg.gen_random_uuid db.next_uuid))
      × ((revoke_key sha256_hex raw after).0 ≡ ok revoked_204)
authenticate-register sha256_hex pg email_regex allow allowed e raw t e' db calm key yes' h =
    rw (register-lem sha256_hex pg e raw db calm t e' email_regex allowed h) (
      authenticate-with_key sha256_hex pg e raw db calm allow key yes',
      revoke_key-with_key sha256_hex pg e raw db calm,
    )
