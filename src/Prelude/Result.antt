-- ===== src/Prelude/Result.antt =====
-- Go's `(T, error)`: an error is a package-level value, one with a text, one of the database driver,
-- or one wrapped by `fmt.Errorf` with `%w`.
use Prim.Native.Nat.{ℕ}
use Prim.Native.String.{String}
use mathlib.Core.Bool.{Bool, true, false}
use text.Mathlib.Text.{◌==◌}

pub data Error : Type 0 where
  sentinel : String → Error
  message : String → Error
  pg_error : String → Error
  panic : Error
  wrap : String → Error → Error

-- errors.Is against a package-level error value.
unfoldable pub is_sentinel : String → Error → Bool
is_sentinel name (sentinel n) = n == name
is_sentinel name (wrap context e) = is_sentinel name e
is_sentinel name (message _) = false
is_sentinel name (pg_error _) = false
is_sentinel name panic = false

-- errors.As to a driver error, and its code.
unfoldable pub has_pg_code : String → Error → Bool
has_pg_code code (pg_error c) = c == code
has_pg_code code (wrap context e) = has_pg_code code e
has_pg_code code (message _) = false
has_pg_code code (sentinel _) = false
has_pg_code code panic = false

-- A Go panic, which goes up through every caller.
unfoldable pub is_panic : Error → Bool
is_panic panic = true
is_panic (wrap context e) = is_panic e
is_panic (message _) = false
is_panic (sentinel _) = false
is_panic (pg_error _) = false

pub data Result {ℓ} (A : Type ℓ) : Type ℓ where
  ok : A → Result A
  err : Error → Result A

abbrev pub wrap_err {ℓ} : {A : Type ℓ} → String → Result A → Result A
wrap_err context (ok a) = ok a
wrap_err context (err e) = err (wrap context e)

-- 1 for a success, 0 for an error.
abbrev pub successes {ℓ} : {A : Type ℓ} → Result A → ℕ
successes (ok a) = 1
successes (err e) = 0

-- Stateful code that may fail: what was changed before an error stays changed.
abbrev pub Action {ℓ κ} : Type ℓ → Type κ → Type (ℓ ⊔ κ)
Action S A = S → Result A × S

infixl 5 ◌>>=◌ ◌>>◌
abbrev pub continue {ℓ κ μ} :
    {S : Type ℓ} {A : Type κ} {B : Type μ} → Result A → (A → Action S B) → Action S B
continue (ok a) f s = f a s
continue (err e) f s = (err e, s)

abbrev pub ◌>>=◌ {ℓ κ μ} :
    {S : Type ℓ} {A : Type κ} {B : Type μ} → Action S A → (A → Action S B) → Action S B
◌>>=◌ m f s = let (r, s') = m s in continue r f s'

abbrev pub ◌>>◌ {ℓ κ} : {S : Type ℓ} {B : Type κ} → Action S (Unit {0}) → Action S B → Action S B
m >> n = m >>= λ _. n

abbrev pub pure {ℓ κ} : {S : Type ℓ} {A : Type κ} → A → Action S A
pure a s = (ok a, s)

abbrev pub fail {ℓ κ} : {S : Type ℓ} {A : Type κ} → Error → Action S A
fail e s = (err e, s)

abbrev pub annotate {ℓ κ} : {S : Type ℓ} {A : Type κ} → String → Action S A → Action S A
annotate context m s = let (r, s') = m s in (wrap_err context r, s')
