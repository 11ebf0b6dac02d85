-- ===== src/Api/Stack.antt =====
-- buildV1Handler and the handler that main serves, in cmd/api/main.go, with the generated bindings in
-- them. What is third-party stands in `Program`: http.ServeMux among it, as the handler that it makes of
-- the patterns. `Moment` is what a request meets besides the state: the time, the randomness, the
-- new UUID of the logger, and the errors of the pool.
pub mod Patched
pub mod Statuses
pub mod Verified
pub mod Constrained
pub mod Always
mod Tests
use inwheel_server.Prelude.{ℕ, String, Option, some, List, [], ◌∷◌, ◌^◌}
use inwheel_server.Prelude.Result.{Error}
use inwheel_server.Models.Profile.{Time}
use inwheel_server.Middleware.Http.{Request, Exchange, Handler, write_json}
use inwheel_server.Middleware.Logging.{LogLine, request_logger}
use inwheel_server.Api.Errors.{Chain, validation_error_handler}
use inwheel_server.Api.Main.{handle_docs, handle_healthz, handle_readyz, handle_open_api_spec}
use inwheel_server.Api.V1.{Environment, v1_handler}
use inwheel_server.Api.Bodies.{capture_raw_body, body_size_limiter, inject_request}
use inwheel_server.Api.Server.{Libraries, State, server}
use inwheel_server.Bindings.Params.{Runtime}
use inwheel_server.Bindings.Responses.{Encoder}
use inwheel_server.Bindings.Wrapper.{
  Middleware, ServerInterface, ServerInterfaceWrapper, wrapper_of, handler_with_options,
}
use inwheel_server.Bindings.Strict.{Decoder, StrictOptions, strict_handler}

pub record Program (Bucket : Type 0) : Type 0 where
  pub env : Environment Bucket
  pub lib : Libraries
  pub encoder : Encoder
  pub decoder : Decoder
  pub runtime : Runtime
  pub serve_mux : List (String × Handler (State Bucket)) → Handler (State Bucket)
  pub spec_yaml : String
  pub scalar_html : String

pub record Moment : Type 0 where
  pub now : Time
  pub random : Option String
  pub request_id : String
  pub generic : Option Error
  pub ping : Option Error

abbrev pub max_body : ℕ
max_body = 2 ^ 20

-- captureRawBody, then bodySizeLimiter.
abbrev pub body_middlewares : {S : Type 0} → List (Middleware S)
body_middlewares = capture_raw_body ∷ body_size_limiter max_body ∷ []

module _ {Bucket : Type 0} (p : Program Bucket) (m : Moment) where
  -- srv.validationErrorHandler
  abbrev pub on_refused : Chain → Handler (State Bucket)
  on_refused e r (w, (l, (k, s))) =
      (validation_error_handler p.env.net p.env.fl p.env.marshal k.r e w, (l, (k, s)))

  abbrev pub on_failed : Error → Handler (State Bucket)
  on_failed e r (w, s) = (write_json "{\"error\":\"internal server error\"}\n" 500 w, s)

  abbrev pub options : StrictOptions (State Bucket)
  options = record { request_error_handler = on_refused; response_error_handler = on_failed }

  abbrev pub operations : ServerInterface (State Bucket)
  operations =
      strict_handler p.encoder options (server p.env p.lib m.now m.random) (inject_request ∷ [])
        p.decoder

  abbrev pub wrapper : ServerInterfaceWrapper (State Bucket)
  wrapper = wrapper_of operations body_middlewares (some on_refused)

  abbrev pub v1_mux : Handler (State Bucket)
  v1_mux =
      handler_with_options p.serve_mux p.runtime operations "/v1" body_middlewares (some on_refused)

  -- buildV1Handler, once the embedded specification has been read.
  abbrev pub built_v1 : Handler (State Bucket)
  built_v1 = v1_handler p.env m.now v1_mux

  abbrev pub main_routes : List (String × Handler (State Bucket))
  main_routes =
      ("GET /{$}", handle_docs p.scalar_html)
      ∷ ("GET /healthz", handle_healthz)
      ∷ ("GET /readyz", handle_readyz m.generic m.ping)
      ∷ ("GET /openapi.yaml", handle_open_api_spec p.spec_yaml)
      ∷ ("/v1/", built_v1)
      ∷ []

  -- The handler of the HTTP server.
  unfoldable pub final_handler : Request → State Bucket → LogLine × Exchange × State Bucket
  final_handler = request_logger p.env.net.split_host_port m.request_id (p.serve_mux main_routes)
