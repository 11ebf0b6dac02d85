-- ===== src/Api/Keys.antt =====
-- cmd/api/auth.go, handle_register.go and handle_revoke.go: API keys. What the token buckets answer
-- (`allow`), the SHA-256 digest, the e-mail pattern and the random key are parameters. The request's
-- headers and its address are arguments; logging is left out, and so is a security scheme other than
-- ApiKeyAuth, which api/openapi.yaml does not have.
pub mod Revoked
pub mod Unique
pub mod Registered
pub mod Concurrent
mod Tests
use inwheel_server.Prelude.{
  suc, String, Bool, true, false, not, ◌&&◌, ◌||◌, Option, none, some, List, [], ◌∷◌, ◌==◌,
  if◌then◌else◌, any, find_first,
}
use inwheel_server.Prelude.Result.{
  Error, sentinel, message, pg_error, has_pg_code, Result, ok, err, Action,
}
use inwheel_server.Models.Profile.{Time}
use inwheel_server.Db.{ApiKey, Db, Postgres, statement}
use inwheel_server.Validation.{FieldError, email}

abbrev pub unauthorized : Error
unauthorized = sentinel "unauthorized"

abbrev pub rate_limited : Error
rate_limited = sentinel "rate limit exceeded"

abbrev pub is_active : ApiKey → Bool
is_active k = elim (k.revoked_at) [ none ↦ true | some t ↦ false ]

-- `key_hash = ? AND revoked_at IS NULL`
abbrev pub has_hash : String → ApiKey → Bool
has_hash hash k = k.key_hash == hash && is_active k

-- `email = ? AND revoked_at IS NULL`
abbrev pub has_email : String → ApiKey → Bool
has_email e k = k.email == e && is_active k

abbrev pub key_id : Result (Option ApiKey) → Result String
key_id (ok none) = err unauthorized
key_id (ok (some k)) = ok k.id
key_id (err e) = err e

abbrev pub find_body : (ApiKey → Bool) → Action Db (Option ApiKey)
find_body t db = (ok (find_first t db.api_keys), db)

abbrev pub lookup_key : String → Action Db String
lookup_key hash db = let (r, db') = statement (find_body (has_hash hash)) db in (key_id r, db')

abbrev pub revoke_row : Time → String → ApiKey → ApiKey
revoke_row now hash k = if has_hash hash k then record k { revoked_at = some now } else k

unfoldable pub revoke_rows : Time → String → List ApiKey → List ApiKey
revoke_rows now hash [] = []
revoke_rows now hash (k ∷ ks) = revoke_row now hash k ∷ revoke_rows now hash ks

pub data RevokeResponse : Type 0 where
  revoked_204 unauthorized_401 : RevokeResponse

abbrev pub revoke_body : String → Action Db RevokeResponse
revoke_body hash db =
    if any (has_hash hash) db.api_keys
    then (ok revoked_204, record db { api_keys = revoke_rows db.clock hash db.api_keys })
    else (ok unauthorized_401, db)

pub data RegisterResponse : Type 0 where
  registered_201 : String → Time → String → RegisterResponse
  rejected_400 : List FieldError → RegisterResponse
  conflict_409 limited_429 : RegisterResponse

abbrev pub key_row : Postgres → String → String → Db → ApiKey
key_row pg e hash db = record {
  id = pg.gen_random_uuid db.next_uuid;
  email = e;
  key_hash = hash;
  created_at = db.clock;
  revoked_at = none;
}

-- UNIQUE (key_hash), UNIQUE (email) WHERE revoked_at IS NULL and PRIMARY KEY (id).
abbrev pub collides : ApiKey → ApiKey → Bool
collides row k = k.key_hash == row.key_hash || has_email row.email k || k.id == row.id

abbrev pub insert_key : Postgres → String → String → Action Db ApiKey
insert_key pg e hash db =
    let row = key_row pg e hash db in
    if any (collides row) db.api_keys
    then (err (pg_error "23505"), db)
    else (ok row, record db { api_keys = row ∷ db.api_keys; next_uuid = suc db.next_uuid })

abbrev pub created : String → Result ApiKey → Result RegisterResponse
created raw (ok row) = ok (registered_201 raw row.created_at row.email)
created raw (err e) = if has_pg_code "23505" e then ok conflict_409 else err e

module _ (sha256_hex : String → String) where
  unfoldable pub authenticate : (String → Bool) → String → Action Db String
  authenticate allow raw db =
      if raw == ""
      then (err unauthorized, db)
      else if not (allow (sha256_hex raw))
      then (err rate_limited, db)
      else lookup_key (sha256_hex raw) db

  unfoldable pub revoke_key : String → Action Db RevokeResponse
  revoke_key raw = statement (revoke_body (sha256_hex raw))

  abbrev pub insert_new : Postgres → String → Option String → Action Db RegisterResponse
  insert_new pg e none db = (err (message "random source"), db)
  insert_new pg e (some raw) db =
      let (r, db') = statement (insert_key pg e (sha256_hex raw)) db in (created raw r, db')

  abbrev pub unless_taken :
      Postgres → String → Option String → Result (Option ApiKey) → Action Db RegisterResponse
  unless_taken pg e random (err x) db = (err x, db)
  unless_taken pg e random (ok (some k)) db = (ok conflict_409, db)
  unless_taken pg e random (ok none) db = insert_new pg e random db

  abbrev pub register_valid :
      Postgres → String → Option String → List FieldError → Action Db RegisterResponse
  register_valid pg e random (x ∷ xs) db = (ok (rejected_400 (x ∷ xs)), db)
  register_valid pg e random [] db =
      let (r, db') = statement (find_body (has_email e)) db in unless_taken pg e random r db'

  -- `allowed` is what the limiter of the address answers.
  unfoldable pub register :
      Postgres → (String → Bool) → Bool → String → Option String → Action Db RegisterResponse
  register pg email_regex allowed e random db =
      if not allowed
      then (ok limited_429, db)
      else register_valid pg e random (email email_regex e) db
