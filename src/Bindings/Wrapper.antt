-- ===== src/Bindings/Wrapper.antt =====
-- ServerInterfaceWrapper and HandlerWithOptions of internal/api/v1/server.gen.go. http.ServeMux is a
-- parameter, from the patterns with their handlers. The scopes that the wrapper puts into the context are
-- left out, since nothing reads them.
use inwheel_server.Prelude.{String, Option, none, some, List, [], ◌∷◌}
use inwheel_server.Prelude.Texts.{append}
use inwheel_server.Middleware.Http.{Handler, http_error}
use inwheel_server.Api.Errors.{Chain}
use inwheel_server.Api.List.{ListParams}
use inwheel_server.Bindings.Params.{Bound, bound, unbound, Runtime, list_places_params, path_id}

pub record ServerInterface (S : Type 0) : Type 0 where
  pub revoke_key : Handler S
  pub register : Handler S
  pub list_places : ListParams → Handler S
  pub create_place : Handler S
  pub get_place : String → Handler S
  pub patch_place_accessibility : String → Handler S

abbrev pub Middleware : Type 0 → Type 0
Middleware S = Handler S → Handler S

pub record ServerInterfaceWrapper (S : Type 0) : Type 0 where
  pub handler : ServerInterface S
  pub handler_middlewares : List (Middleware S)
  pub error_handler : Chain → Handler S

-- `for _, middleware := range … { handler = middleware(handler) }`
unfoldable pub around : {S : Type 0} → List (Middleware S) → Handler S → Handler S
around [] h = h
around (m ∷ ms) h = around ms (m h)

module _ {S : Type 0} (rt : Runtime) (w : ServerInterfaceWrapper S) where
  abbrev pub with_param : {A : Type 0} → Bound Chain A → (A → Handler S) → Handler S
  with_param (bound a) h = around w.handler_middlewares (h a)
  with_param (unbound e) h = w.error_handler e

  abbrev pub revoke_key : Handler S
  revoke_key = around w.handler_middlewares w.handler.revoke_key

  abbrev pub register : Handler S
  register = around w.handler_middlewares w.handler.register

  abbrev pub list_places : Handler S
  list_places r = with_param (list_places_params rt r) w.handler.list_places r

  abbrev pub create_place : Handler S
  create_place = around w.handler_middlewares w.handler.create_place

  abbrev pub get_place : Handler S
  get_place r = with_param (path_id rt r) w.handler.get_place r

  abbrev pub patch_place_accessibility : Handler S
  patch_place_accessibility r = with_param (path_id rt r) w.handler.patch_place_accessibility r

  -- The patterns of the mux, in the order of their registration.
  unfoldable pub routes : String → List (String × Handler S)
  routes base =
      (append "DELETE " (append base "/auth/keys"), revoke_key)
      ∷ (append "POST " (append base "/auth/register"), register)
      ∷ (append "GET " (append base "/places"), list_places)
      ∷ (append "POST " (append base "/places"), create_place)
      ∷ (append "GET " (append base "/places/{id}"), get_place)
      ∷ (append "PATCH " (append base "/places/{id}/accessibility"), patch_place_accessibility)
      ∷ []

-- The handler of errors where the options have none.
abbrev default_error_handler : {S : Type 0} → Chain → Handler S
default_error_handler ((k, reason), es) r (w, s) = (http_error (append reason "\n") 400 w, s)

abbrev error_handler_or : {S : Type 0} → Option (Chain → Handler S) → Chain → Handler S
error_handler_or none = default_error_handler
error_handler_or (some h) = h

abbrev pub wrapper_of :
    {S : Type 0}
    → ServerInterface S
    → List (Middleware S)
    → Option (Chain → Handler S)
    → ServerInterfaceWrapper S
wrapper_of si middlewares on_error = record {
  handler = si;
  handler_middlewares = middlewares;
  error_handler = error_handler_or on_error;
}

-- HandlerWithOptions; `serve_mux` is the router with these patterns.
abbrev pub handler_with_options :
    {S : Type 0}
    → (List (String × Handler S) → Handler S)
    → Runtime
    → ServerInterface S
    → String
    → List (Middleware S)
    → Option (Chain → Handler S)
    → Handler S
handler_with_options serve_mux rt si base middlewares on_error =
    serve_mux (routes rt (wrapper_of si middlewares on_error) base)
