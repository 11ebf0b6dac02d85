-- ===== src/Middleware/Guarded.antt =====
-- What a middleware of net/http does with the handler it guards.
use inwheel_server.Prelude.{String, ◌≡◌, refl, ◌∙◌, ◌⊎◌, inl, inr, Bool-cases, ◌==◌}
use inwheel_server.Float64.{Arithmetic}
use inwheel_server.Models.Profile.{Time}
use inwheel_server.Middleware.Http.{Request, Exchange, Handler, set_header}
use inwheel_server.Middleware.RateLimiter.{RateLibrary, RateLimiter, allow, client_ip}
use inwheel_server.Middleware.PublicLimit.{Network, too_many, public_rate_limit}
use inwheel_server.Middleware.Cors.{allow_origin, preflight, cors}

-- Either it answers by itself, whatever the handler is, or the handler's run is the rest of it, on a
-- request and an exchange with `P`.
abbrev pub IsGuarded :
    {S : Type 0} → (Request → Exchange × S → Type 0) → (Handler S → Exchange × S) → Type 0
IsGuarded {S} P f =
    ((y : Exchange × S) × ((next : Handler S) → f next ≡ y))
    ⊎ ((r : Request) × (x : Exchange × S) × P r x × ((next : Handler S) → f next ≡ next r x))

pub IsGuarded-compose :
    {S : Type 0} (P Q : Request → Exchange × S → Type 0) (f : Handler S → Exchange × S)
    (g : Handler S → Handler S)
    → IsGuarded P f
    → ((r : Request) (x : Exchange × S) → P r x → IsGuarded Q (λ next. g next r x))
    → IsGuarded Q (λ next. f (g next))
IsGuarded-compose P Q f g (inl (y, h)) k = inl (y, λ next. h (g next))
IsGuarded-compose P Q f g (inr (r, x, p, h)) k = elim (k r x p) [
  | inl (y, e) ↦ inl (y, λ next. h (g next) ∙ e next)
  | inr (r', x', q, e) ↦ inr (r', x', q, λ next. h (g next) ∙ e next)
]

-- CORS passes the request on as it is, and the state.
abbrev pub IsPassedOn : {S : Type 0} → Request → Exchange × S → Request → Exchange × S → Type 0
IsPassedOn r x r' x' = (r' ≡ r) × (x'.1 ≡ x.1)

pub cors-IsGuarded :
    {S : Type 0} (origin : String) (r : Request) (w : Exchange) (s : S)
    → IsGuarded (IsPassedOn r (w, s)) (λ next. cors origin next r (w, s))
unfolding cors
cors-IsGuarded origin r w s =
    let varied = set_header "Vary" "Origin" w in
    let from = r.headers "Origin" in
    elim (Bool-cases (origin == "")) [
      | inl off ↦ inr (r, (w, s), (refl, refl), λ next. rw off refl)
      | inr on ↦ elim (Bool-cases (from == origin)) [
        | inr other ↦ inr (r, (varied, s), (refl, refl), λ next. rw (on, other) refl)
        | inl same ↦ elim (Bool-cases (r.method == "OPTIONS")) [
          | inl options ↦
              inl ((preflight (allow_origin from varied), s), λ next. rw (on, same, options) refl)
          | inr else' ↦
              inr
                (r, (allow_origin from varied, s), (refl, refl), λ next. rw (on, same, else') refl)
        ]
      ]
    ]

-- The limiter of readers passes the request on, or answers 429.
pub public_rate_limit-IsGuarded :
    {Bucket S : Type 0} (lib : RateLibrary Bucket) (fl : Arithmetic) (net : Network) (now : Time)
    (r : Request) (w : Exchange) (l : RateLimiter Bucket) (s : S)
    → IsGuarded (λ r' x'. r' ≡ r) (λ next. public_rate_limit lib fl net now next r (w, (l, s)))
unfolding public_rate_limit
public_rate_limit-IsGuarded lib fl net now r w l s =
    let (allowed, l') = allow lib now (client_ip net.split_host_port r.remote_addr) l in
    elim (Bool-cases (r.api_key_id == "")) [
      | inr keyed ↦ inr (r, (w, (l, s)), refl, λ next. rw keyed refl)
      | inl public' ↦ elim (Bool-cases allowed) [
        | inl y ↦ inr (r, (w, (l', s)), refl, λ next. rw (public', y) refl)
        | inr n ↦ inl ((too_many net fl l'.r w, (l', s)), λ next. rw (public', n) refl)
      ]
    ]
