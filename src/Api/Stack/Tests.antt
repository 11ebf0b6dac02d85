-- ===== src/Api/Stack/Tests.antt =====
-- Requests through the whole handler of cmd/api, and witnesses.
use mathlib.Core.List.{Memᴰ}
use inwheel_server.Prelude.{
  ℕ, String, true, none, some, List, [], ◌∷◌, ◌≡◌, refl, ◌==◌, ◌||◌, if◌then◌else◌, inl, inr,
  Bool-cases, arith,
}
use inwheel_server.Prelude.Result.{ok}
use inwheel_server.Models.Profile.{Time, empty_profile}
use inwheel_server.Db.{statement}
use inwheel_server.Middleware.Http.{Request, Handler, http_error, set_header, write_header, write}
use inwheel_server.Middleware.RateLimiter.{allow}
use inwheel_server.Middleware.PublicLimit.{public_rate_limit}
use inwheel_server.Middleware.Cors.{cors}
use inwheel_server.Middleware.Logging.{request_logger}
use inwheel_server.PlaceRepo.Profiles.{upsert_profile, upsert_profile_attempt}
use inwheel_server.PlaceRepo.Profiles.Patched.{IsVerified}
use inwheel_server.Validation.{accessibility_profile, report_errors}
use inwheel_server.A11y.{with_audit_flags}
use inwheel_server.Audit.{log}
use inwheel_server.Pagination.Tests.{plain_codecs}
use inwheel_server.Api.Keys.{authenticate}
use inwheel_server.Api.Places.{patch_place_accessibility}
use inwheel_server.Api.Places.Tests.{same_profile, unverified_city}
use inwheel_server.Api.V1.{request_validator, v1_handler}
use inwheel_server.Api.V1.Tests.{alice, env, limiter, patch_with, start}
use inwheel_server.Api.Bodies.{capture_raw_body, body_size_limiter, inject_request, read_all}
use inwheel_server.Api.Bodies.Limited.{fits, around-bodies}
use inwheel_server.Api.Server.{State}
use inwheel_server.Api.Stack.{Program, Moment, wrapper, final_handler}
use inwheel_server.Api.Stack.Patched.{patch_operation, patch-wrapped}
use inwheel_server.Api.Stack.Verified.{patch_200-IsVerified}
use inwheel_server.Api.Stack.Constrained.{IsConstrained}
use inwheel_server.Api.Stack.Always.{IsMux, final_handler-IsConstrained}
use inwheel_server.Bindings.Params.{bound, path_id}
use inwheel_server.Bindings.Responses.{visit_patch}
use inwheel_server.Bindings.Wrapper
use inwheel_server.Bindings.Wrapper.{around, routes}
use inwheel_server.Bindings.Strict.{strictly, strict_patch_place_accessibility}
use inwheel_server.Samples.{server, cafe}

-- A mux for requests to patch the place p1.
abbrev patch_mux : {S : Type 0} → List (String × Handler S) → Handler S
patch_mux [] r x = x
patch_mux ((pattern, h) ∷ rest) r x =
    let others = patch_mux rest r x in
    if pattern == "/v1/" || pattern == "PATCH /v1/places/{id}/accessibility"
    then h (record r { path_value = λ name. "p1" }) x
    else others

abbrev program : Program (ℕ × Time)
program = record {
  env = env;
  lib = record {
    pg = server;
    codecs = plain_codecs;
    json = same_profile;
    email_regex = λ e. true;
    hex = λ b. b;
  };
  encoder = record {
    error_response = λ e. ok e;
    validation_error = λ e. ok e.error;
    registered = λ k. ok k.api_key;
    place_page = λ page. ok "page";
    place = λ p. ok p.id;
    profile = λ p. ok p.place_id;
    write_error = λ w. none;
  };
  decoder = record {
    email = λ b. bound b.content;
    place = λ b. bound cafe;
    profile = λ b. bound empty_profile;
  };
  runtime = record {
    query_integer = λ n r. bound none;
    query_string = λ n r. bound none;
    query_number = λ n r. bound none;
    path_uuid = λ n v. bound v;
  };
  serve_mux = patch_mux;
  spec_yaml = "openapi: 3.0.3";
  scalar_html = "<!doctype html>";
}

abbrev moment : Moment
moment = record { now = 5; random = some "00"; request_id = "q1"; generic = none; ping = none }

abbrev patch_of : ℕ → Request
patch_of size = record (patch_with "k1") {
  body = record { content = "{}"; size = size; broken = none; max_bytes = none };
}

abbrev keyed : State (ℕ × Time)
keyed = (limiter, (limiter, (record unverified_city { api_keys = alice ∷ [] }, limiter)))

final_patch : (final_handler program moment (patch_of 2) keyed).1.sent ≡ some 200
unfolding final_handler request_logger v1_handler cors set_header request_validator authenticate
    allow statement public_rate_limit write write_header routes around capture_raw_body
    body_size_limiter read_all strict_patch_place_accessibility strictly inject_request visit_patch
    patch_place_accessibility upsert_profile upsert_profile_attempt accessibility_profile
    report_errors with_audit_flags log path_id
final_patch = refl

-- The request as the mux passes it on, with the id of the key.
abbrev passed : ℕ → Request
passed size = record (patch_of size) { api_key_id = "u0"; path_value = λ name. "p1" }

around-bodies_example :
    around (capture_raw_body ∷ body_size_limiter 16 ∷ []) (λ r x. x) (passed 17) (start, keyed) ≡ (
      if fits 16 (passed 17).body
      then (start, keyed)
      else (http_error "failed to read request body\n" 400 start, keyed))
around-bodies_example = around-bodies 16 (λ r x. x) (passed 17) start keyed refl

patch-wrapped_example :
    Wrapper.patch_place_accessibility program.runtime
      (wrapper program moment)
      (passed 2)
      (start, keyed)
    ≡ patch_operation program moment (passed 2) (path_id program.runtime (passed 2)) (start, keyed)
patch-wrapped_example = patch-wrapped program moment (passed 2) start keyed refl

patch_200-IsVerified_example :
    IsVerified "p1"
      (Wrapper.patch_place_accessibility program.runtime
        (wrapper program moment)
        (passed 2)
        (start, keyed)).1.1.1.0
unfolding write write_header set_header around capture_raw_body body_size_limiter read_all
    strict_patch_place_accessibility strictly inject_request visit_patch patch_place_accessibility
    upsert_profile upsert_profile_attempt accessibility_profile report_errors with_audit_flags log
    path_id statement
patch_200-IsVerified_example =
    patch_200-IsVerified program moment (passed 2) start keyed "p1" refl refl tt refl refl refl

patch_mux-IsMux : {S : Type 0} → IsMux (patch_mux {S = S})
patch_mux-IsMux [] r w s = inl (w, refl)
patch_mux-IsMux ((pattern, h) ∷ rest) r w s =
    let r' = record r { path_value = λ name. "p1" } in
    elim (Bool-cases (pattern == "/v1/" || pattern == "PATCH /v1/places/{id}/accessibility")) [
      | inl y ↦ inr (pattern, h, Memᴰ.head refl, r', rw y refl)
      | inr n ↦ elim (patch_mux-IsMux rest r w s) [
        | inl (w', e) ↦ inl (w', rw n e)
        | inr (pattern', h', there, q, e) ↦ inr (pattern', h', Memᴰ.tail there, q, rw n e)
      ]
    ]

keyed-IsConstrained : IsConstrained keyed
keyed-IsConstrained = record {
  hashes = λ h. ground arith;
  ids = λ id. ground arith;
  emails = λ e. ground arith;
}

final_handler-IsConstrained_example :
    IsConstrained (final_handler program moment (patch_of 2) keyed).2
final_handler-IsConstrained_example =
    final_handler-IsConstrained program moment (patch_of 2) keyed patch_mux-IsMux
      keyed-IsConstrained
