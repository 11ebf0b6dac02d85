-- ===== src/Api/Keys/Unique.antt =====
-- The constraints on API keys over register and revokeKey of cmd/api.
use inwheel_server.Prelude.{
  ◌≤◌, String, Bool, true, false, Option, none, some, List, [], ◌∷◌, ◌≡◌, refl, subst, sym, ap,
  arith, ◌==◌, any, keep, length, inl, inr, Bool-cases, eq_iff,
}
use inwheel_server.Prelude.Result.{Result, ok, err, Action}
use inwheel_server.Models.Profile.{Time}
use inwheel_server.Db.{ApiKey, Db, Postgres, statement}
use inwheel_server.Db.Laws.{statement-cases}
use inwheel_server.Validation.{FieldError, email}
use inwheel_server.Api.Keys.{
  has_hash, has_email, revoke_rows, revoke_body, revoke_key, key_row, collides, insert_key,
  find_body, unless_taken, register_valid, register,
}

-- No digest and no id is there twice, and no address has two active keys.
pub record HasUniqueKeys (ks : List ApiKey) : Type 0 where
  pub hashes : (h : String) → length (keep (λ k. k.key_hash == h) ks) ≤ 1
  pub ids : (id : String) → length (keep (λ k. k.id == id) ks) ≤ 1
  pub emails : (e : String) → length (keep (has_email e) ks) ≤ 1

keep-none :
    {A : Type 0} (t c : A → Bool) (xs : List A)
    → ((x : A) → t x ≡ true → c x ≡ true)
    → any c xs ≡ false
    → keep t xs ≡ []
keep-none t c [] h k = refl
keep-none t c (x ∷ xs) h k = ground (arith, h x, keep-none t c xs h)

key_row-HasUniqueKeys :
    (row : ApiKey) (ks : List ApiKey)
    → any (collides row) ks ≡ false
    → HasUniqueKeys ks
    → HasUniqueKeys (row ∷ ks)
key_row-HasUniqueKeys row ks free h = record {
  hashes = λ x. elim (Bool-cases (row.key_hash == x)) [
    | inl y ↦
        rw
          (
            y,
            keep-none (λ k. k.key_hash == x) (collides row) ks
                (λ k e. ground (
                  arith,
                  eq_iff row.key_hash x,
                  eq_iff k.key_hash x,
                  eq_iff k.key_hash row.key_hash,
                ))
                free,
          )
          (omega arith)
    | inr n ↦ rw n (h.hashes x)
  ];
  ids = λ x. elim (Bool-cases (row.id == x)) [
    | inl y ↦
        rw
          (
            y,
            keep-none (λ k. k.id == x) (collides row) ks
                (λ k e. ground (arith, eq_iff row.id x, eq_iff k.id x, eq_iff k.id row.id)) free,
          )
          (omega arith)
    | inr n ↦ rw n (h.ids x)
  ];
  emails = λ x. elim (Bool-cases (has_email x row)) [
    | inl y ↦
        rw
          (
            y,
            keep-none (has_email x) (collides row) ks
                (λ k e.
                  ground
                    (arith, y, e, eq_iff row.email x, eq_iff k.email x, eq_iff k.email row.email))
                free,
          )
          (omega arith)
    | inr n ↦ rw n (h.emails x)
  ];
}

module _ (now : Time) (hash x : String) where
  keep_hash-revoke_rows :
      (ks : List ApiKey)
      → length (keep (λ k. k.key_hash == x) (revoke_rows now hash ks))
        ≡ length (keep (λ k. k.key_hash == x) ks)
  unfolding revoke_rows
  keep_hash-revoke_rows [] = refl
  keep_hash-revoke_rows (k ∷ ks) = ground (arith, keep_hash-revoke_rows ks)

  keep_id-revoke_rows :
      (ks : List ApiKey)
      → length (keep (λ k. k.id == x) (revoke_rows now hash ks)) ≡ length (keep (λ k. k.id == x) ks)
  unfolding revoke_rows
  keep_id-revoke_rows [] = refl
  keep_id-revoke_rows (k ∷ ks) = ground (arith, keep_id-revoke_rows ks)

  keep_email-revoke_rows :
      (ks : List ApiKey)
      → length (keep (has_email x) (revoke_rows now hash ks)) ≤ length (keep (has_email x) ks)
  unfolding revoke_rows
  keep_email-revoke_rows [] = omega arith
  keep_email-revoke_rows (k ∷ ks) = ground (arith, keep_email-revoke_rows ks)

-- A revocation keeps the digests and the ids, and activates no key.
revoke_rows-HasUniqueKeys :
    (now : Time) (hash : String) (ks : List ApiKey)
    → HasUniqueKeys ks
    → HasUniqueKeys (revoke_rows now hash ks)
revoke_rows-HasUniqueKeys now hash ks h = record {
  hashes = λ x. omega (arith, keep_hash-revoke_rows now hash x ks, h.hashes x);
  ids = λ x. omega (arith, keep_id-revoke_rows now hash x ks, h.ids x);
  emails = λ x. omega (arith, keep_email-revoke_rows now hash x ks, h.emails x);
}

abbrev pub KeepsKeys : {A : Type 0} → Action Db A → Type 0
KeepsKeys m = (db : Db) → HasUniqueKeys db.api_keys → HasUniqueKeys (m db).1.api_keys

statement-KeepsKeys :
    {A : Type 0} (body : Action Db A) → KeepsKeys body → KeepsKeys (statement body)
statement-KeepsKeys body keeps db h =
    let (s, rows, cases) = statement-cases body db in
    let before = subst HasUniqueKeys (sym rows.api_keys) h in
    elim cases [
      | inl e ↦ subst HasUniqueKeys (ap (λ r. r.1.api_keys) (sym e)) (keeps s before)
      | inr (x, e) ↦ subst HasUniqueKeys (ap (λ r. r.1.api_keys) (sym e)) before
    ]

pub insert_key-KeepsKeys : (pg : Postgres) (e hash : String) → KeepsKeys (insert_key pg e hash)
insert_key-KeepsKeys pg e hash db h =
    elim (Bool-cases (any (collides (key_row pg e hash db)) db.api_keys)) [
      | inl y ↦ rw y h
      | inr n ↦ rw n (key_row-HasUniqueKeys (key_row pg e hash db) db.api_keys n h)
    ]

pub revoke_body-KeepsKeys : (hash : String) → KeepsKeys (revoke_body hash)
revoke_body-KeepsKeys hash db h = elim (Bool-cases (any (has_hash hash) db.api_keys)) [
  | inl y ↦ rw y (revoke_rows-HasUniqueKeys db.clock hash db.api_keys h)
  | inr n ↦ rw n h
]

module _ (sha256_hex : String → String) (pg : Postgres) (e : String) where
  unless_taken-KeepsKeys :
      (random : Option String) (r : Result (Option ApiKey))
      → KeepsKeys (unless_taken sha256_hex pg e random r)
  unless_taken-KeepsKeys random (err x) db h = h
  unless_taken-KeepsKeys random (ok (some k)) db h = h
  unless_taken-KeepsKeys none (ok none) db h = h
  unless_taken-KeepsKeys (some raw) (ok none) db h =
      statement-KeepsKeys (insert_key pg e (sha256_hex raw))
        (insert_key-KeepsKeys pg e (sha256_hex raw)) db h

  register_valid-KeepsKeys :
      (random : Option String) (es : List FieldError)
      → KeepsKeys (register_valid sha256_hex pg e random es)
  register_valid-KeepsKeys random (x ∷ xs) db h = h
  register_valid-KeepsKeys random [] db h =
      let found = statement (find_body (has_email e)) db in
      unless_taken-KeepsKeys random found.0 found.1
        (statement-KeepsKeys (find_body (has_email e)) (λ s k. k) db h)

-- A registration and a revocation, whatever they answer, leave every digest and every id with one key
-- at most, and every address with one active key at most, if it was so before.
pub register-HasUniqueKeys :
    (sha256_hex : String → String) (pg : Postgres) (email_regex : String → Bool) (allowed : Bool)
    (e raw : String) (random : Option String) (db : Db)
    → HasUniqueKeys db.api_keys
    → HasUniqueKeys (register sha256_hex pg email_regex allowed e random db).1.api_keys
      × HasUniqueKeys (revoke_key sha256_hex raw db).1.api_keys
unfolding register revoke_key
register-HasUniqueKeys sha256_hex pg email_regex allowed e raw random db h = (
  elim (Bool-cases allowed) [
    | inl y ↦ rw y (register_valid-KeepsKeys sha256_hex pg e random (email email_regex e) db h)
    | inr n ↦ rw n h
  ],
  statement-KeepsKeys (revoke_body (sha256_hex raw)) (revoke_body-KeepsKeys (sha256_hex raw)) db h,
)
