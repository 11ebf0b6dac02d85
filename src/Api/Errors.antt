-- ===== src/Api/Errors.antt =====
-- cmd/api/errors.go: how a request that the OpenAPI validator or the generated wrapper refuses is
-- answered. An error is the chain that errors.Unwrap walks, each member with its text; the types are
-- those of kin-openapi and of the wrapper. json.Marshal of the one field is a parameter. Logging is left
-- out.
use Prim.Native.Char.{Char, code}
use inwheel_server.Prelude.{
  String, Bool, Option, none, some, List, [], ◌∷◌, ◌&&◌, eqb, any, if◌then◌else◌,
}
use inwheel_server.Prelude.Texts.{chars, text}
use inwheel_server.Prelude.Result.{Error, is_sentinel}
use inwheel_server.Float64.{F64, Arithmetic}
use inwheel_server.Middleware.Http.{
  Exchange, set_header, write_header, write, http_error, write_json,
}
use inwheel_server.Middleware.RateLimiter.{retry_after_seconds}
use inwheel_server.Middleware.PublicLimit.{Network}

pub data Kind : Type 0 where
  -- SecurityRequirementsError, with its Errors.
  security_requirements : List Error → Kind
  -- RequestError: the parameter's name, whether it has a RequestBody, and the reason.
  request_error : Option String → Bool → String → Kind
  -- InvalidParamFormatError, with the text of its Err, and the others of the wrapper.
  invalid_param_format : String → String → Kind
  required_param unmarshaling_param too_many_values : String → Kind
  other : Kind

abbrev pub Chain : Type 0
Chain = (Kind × String) × List (Kind × String)

abbrev pub members : Chain → List (Kind × String)
members (e, es) = e ∷ es

-- errors.As, to what one of the types holds.
abbrev pub find_as : {A : Type 0} → (Kind → Option A) → List (Kind × String) → Option A
find_as t [] = none
find_as t ((k, s) ∷ es) = elim (t k) [ some a ↦ some a | none ↦ find_as t es ]

abbrev pub as_security : Kind → Option (List Error)
as_security (security_requirements es) = some es
as_security _ = none

abbrev request_field : Option String → Bool → String
request_field (some name) has_body = name
request_field none has_body = if has_body then "body" else "request"

abbrev pub as_request : Kind → Option (String × String)
as_request (request_error parameter has_body reason) =
    some (request_field parameter has_body, reason)
as_request _ = none

abbrev pub as_format : Kind → Option (String × String)
as_format (invalid_param_format name reason) = some (name, reason)
as_format _ = none

abbrev pub as_required : Kind → Option (String × String)
as_required (required_param name) = some (name, "is required")
as_required _ = none

abbrev pub as_unmarshaling : Kind → Option (String × String)
as_unmarshaling (unmarshaling_param name) = some (name, "invalid format")
as_unmarshaling _ = none

abbrev pub as_too_many : Kind → Option (String × String)
as_too_many (too_many_values name) = some (name, "must have a single value")
as_too_many _ = none

abbrev add_char : Char → Option (List Char × List Char) → Option (List Char × List Char)
add_char c none = none
add_char c (some (a, b)) = some (c ∷ a, b)

-- The text before and after the first ": ".
unfoldable pub cut_colon : List Char → Option (List Char × List Char)
cut_colon [] = none
cut_colon (c ∷ []) = none
cut_colon (c ∷ d ∷ cs) =
    let rest = cut_colon (d ∷ cs) in
    if eqb (code c) b':' && eqb (code d) b' ' then some ([], cs) else add_char c rest

abbrev body_field : String → Option (List Char × List Char) → String × String
body_field msg none = ("body", msg)
body_field msg (some ([], reason)) = ("body", msg)
body_field msg (some (c ∷ cs, reason)) = (text (c ∷ cs), text reason)

abbrev unwrapped : String → List (Kind × String) → String × String
unwrapped s [] = ("request", s)
unwrapped s ((k, msg) ∷ es) = body_field msg (cut_colon (chars msg))

abbrev first_some : Option (String × String) → String × String → String × String
first_some none d = d
first_some (some a) d = a

unfoldable pub extract_field_error : Chain → String × String
extract_field_error ((k, s), es) =
    let all = (k, s) ∷ es in
    first_some (find_as as_request all) (
      first_some (find_as as_format all) (
        first_some (find_as as_required all) (
          first_some (find_as as_unmarshaling all)
            (first_some (find_as as_too_many all) (unwrapped s es)))))

abbrev send_payload : Option String → Exchange → Exchange
send_payload none w = http_error "internal server error\n" 500 w
send_payload (some payload) w =
    write payload (write_header 400 (set_header "Content-Type" "application/json" w))

module _ (net : Network) (fl : Arithmetic) (marshal : String × String → Option String) where
  abbrev pub security_error : F64 → List Error → Exchange → Exchange
  security_error rate es w =
      if any (is_sentinel "rate limit exceeded") es
      then write_json "{\"error\":\"rate limit exceeded\"}\n" 429
          (set_header "Retry-After" (net.itoa (retry_after_seconds fl net.ceil rate)) w)
      else write_json "{\"error\":\"unauthorized\"}\n" 401 w

  abbrev pub refuse : F64 → Option (List Error) → Chain → Exchange → Exchange
  refuse rate (some es) e w = security_error rate es w
  refuse rate none e w = send_payload (marshal (extract_field_error e)) w

  -- `rate` is that of the limiter of the keys.
  unfoldable pub validation_error_handler : F64 → Chain → Exchange → Exchange
  validation_error_handler rate e w = refuse rate (find_as as_security (members e)) e w
