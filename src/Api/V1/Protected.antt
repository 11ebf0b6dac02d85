-- ===== src/Api/V1/Protected.antt =====
-- buildV1Handler of cmd/api/main.go on an operation with the security ApiKeyAuth.
use inwheel_server.Prelude.{
  String, true, Option, none, some, ◌≡◌, refl, sym, ap, ◌∙◌, ◌⊎◌, inl, inr, Option-cases, subst,
}
use inwheel_server.Prelude.Result.{Result, ok, err}
use inwheel_server.Models.Profile.{Time}
use inwheel_server.Db.{Db}
use inwheel_server.Middleware.Http.{Request, Exchange, Handler}
use inwheel_server.Middleware.RateLimiter.{RateLimiter}
use inwheel_server.Middleware.PublicLimit.{public_rate_limit}
use inwheel_server.Middleware.Cors.{cors}
use inwheel_server.Middleware.Logging.{set_log_api_key_id}
use inwheel_server.Middleware.Guarded.{
  IsGuarded, IsGuarded-compose, IsPassedOn, cors-IsGuarded, public_rate_limit-IsGuarded,
}
use inwheel_server.Api.Errors.{Chain}
use inwheel_server.Api.V1.{
  ServerState, Environment, spend, authentication, refused, unless_refused, authenticated,
  request_validator, v1_handler,
}

module _ {Bucket S : Type 0} (env : Environment Bucket) (now : Time) (r : Request) (w : Exchange)
    (l k : RateLimiter Bucket) (db : Db) (s : S) where
  -- A request that carries the id of the key in its header.
  abbrev pub IsKeyed : Request → Type 0
  IsKeyed r' =
      (id : String) × ((authentication env now r k db).0 ≡ ok id)
      × (r' ≡ record r { api_key_id = id })

  unless_refused-IsGuarded :
      (e : Option Chain) (r' : Request) (x : Exchange × ServerState Bucket S)
      → IsGuarded (λ q x'. q ≡ r') (λ next. unless_refused env now e next r' x)
  unless_refused-IsGuarded none r' x = inr (r', x, refl, λ next. refl)
  unless_refused-IsGuarded (some e) r' x = inl (refused env now e x, λ next. refl)

  authenticated-IsGuarded :
      (a : Result String) (x : Exchange × ServerState Bucket S)
      → (authentication env now r k db).0 ≡ a
      → IsGuarded (λ r' x'. IsKeyed r') (λ next. authenticated env now a next r x)
  authenticated-IsGuarded (err e) x h =
      inl (authenticated env now (err e) (λ q y. y) r x, λ next. refl)
  authenticated-IsGuarded (ok id) (w', s') h =
      let r' = record r { api_key_id = id } in
      elim (unless_refused-IsGuarded (env.open_api.validate r') r' (set_log_api_key_id id w', s')) [
        | inl (y, e) ↦ inl (y, e)
        | inr (q, x, same, e) ↦ inr (q, x, (id, h, same), e)
      ]

  validator-IsGuarded :
      (w' : Exchange)
      → env.open_api.requires_key r ≡ true
      → IsGuarded
          (λ r' x'. IsKeyed r')
          (λ (next : Handler (ServerState Bucket S)).
            request_validator env now next r (w', (l, (k, (db, s)))))
  unfolding request_validator
  validator-IsGuarded w' key = elim (Option-cases (env.open_api.find_route r)) [
    | inr (e, lost) ↦ inl (refused env now e (w', (l, (k, (db, s)))), λ next. rw lost refl)
    | inl found ↦
        rw (found, key)
          (authenticated-IsGuarded (authentication env now r k db).0
            (
              w',
              (
                l,
                (spend env now (r.headers "X-API-Key") k, ((authentication env now r k db).1, s)),
              ),
            )
            refl)
  ]

  limited-IsGuarded :
      (q : Request) (x : Exchange × ServerState Bucket S)
      → IsKeyed q
      → IsGuarded
          (λ r' x'. IsKeyed r')
          (λ next. public_rate_limit env.lib env.fl env.net now next q x)
  limited-IsGuarded q (w', (l', s')) keyed =
      elim (public_rate_limit-IsGuarded env.lib env.fl env.net now q w' l' s') [
        | inl (y, e) ↦ inl (y, e)
        | inr (q', x, same, e) ↦ inr (q', x, subst IsKeyed (sym same) keyed, e)
      ]

  inner-IsGuarded :
      (r' : Request) (x : Exchange × ServerState Bucket S)
      → env.open_api.requires_key r ≡ true
      → r' ≡ r
      → x.1 ≡ (l, (k, (db, s)))
      → IsGuarded
          (λ q x'. IsKeyed q)
          (λ next.
            request_validator env now (public_rate_limit env.lib env.fl env.net now next) r' x)
  inner-IsGuarded r' (w', s') key same-request same-state =
      let here =
        IsGuarded-compose (λ q x'. IsKeyed q) (λ q x'. IsKeyed q)
          (λ next. request_validator env now next r (w', (l, (k, (db, s)))))
          (public_rate_limit env.lib env.fl env.net now) (validator-IsGuarded w' key)
          limited-IsGuarded in
      let moved =
        subst
          (λ q.
            IsGuarded (λ q' x'. IsKeyed q')
              (λ next.
                request_validator env now (public_rate_limit env.lib env.fl env.net now next) q
                  (w', (l, (k, (db, s))))))
          (sym same-request) here in
      subst
        (λ t.
          IsGuarded (λ q' x'. IsKeyed q')
            (λ next.
              request_validator env now (public_rate_limit env.lib env.fl env.net now next) r'
                (w', t)))
        (sym same-state) moved

-- On an operation that requires a key, the composed handler either answers by itself, whatever the
-- handlers behind it are, or runs them once, as the last thing it does, on the request with the id that
-- authentication has given for the key in its header.
pub v1_handler-protected :
    {Bucket S : Type 0} (env : Environment Bucket) (now : Time) (r : Request) (w : Exchange)
    (l k : RateLimiter Bucket) (db : Db) (s : S)
    → env.open_api.requires_key r ≡ true
    → ((y : Exchange × ServerState Bucket S) × ((v1_mux : Handler (ServerState Bucket S))
          → v1_handler env now v1_mux r (w, (l, (k, (db, s)))) ≡ y))
      ⊎ ((id : String) × (x : Exchange × ServerState Bucket S) × ((authentication env now r k db).0
            ≡ ok id)
          × ((v1_mux : Handler (ServerState Bucket S))
              → v1_handler env now v1_mux r (w, (l, (k, (db, s))))
                ≡ v1_mux (record r { api_key_id = id }) x))
unfolding v1_handler
v1_handler-protected {Bucket} {S} env now r w l k db s key =
    let origin = env.cors_allowed_origin in
    let state : ServerState Bucket S = (l, (k, (db, s))) in
    let whole =
      IsGuarded-compose (IsPassedOn r (w, state)) (λ q x'. IsKeyed env now r w l k db s q)
        (λ next. cors origin next r (w, state))
        (λ next. request_validator env now (public_rate_limit env.lib env.fl env.net now next))
        (cors-IsGuarded origin r w state)
        (λ r' x (same-request, same-state).
          inner-IsGuarded env now r w l k db s r' x key same-request same-state) in
    elim whole [
      | inl (y, e) ↦ inl (y, e)
      | inr (q, x, (id, ok', same), e) ↦ inr (id, x, ok', λ next. e next ∙ ap (λ p. next p x) same)
    ]
