-- ===== src/Middleware/Http.antt =====
-- net/http, as far as internal/middleware and cmd/api use it: a handler reads a request and writes to
-- the exchange. Other headers than those a handler looks at are left out.
use inwheel_server.Prelude.{
  ℕ, String, Bool, Option, none, some, List, [], ◌∷◌, ◌++◌, ◌==◌, not, keep,
}
use inwheel_server.Prelude.Result.{Error}

-- The body of a request: its text and the number of its bytes, what breaks the reading, and the limit
-- of http.MaxBytesReader.
pub record Body : Type 0 where
  pub content : String
  pub size : ℕ
  pub broken : Option Error
  pub max_bytes : Option ℕ

abbrev pub no_body : Body
no_body = record { content = ""; size = 0; broken = none; max_bytes = none }

-- `headers` is Header.Get and `path_value` PathValue. `api_key_id` and `raw_body` are what the context
-- carries, "" and `none` if nothing.
pub record Request : Type 0 where
  pub method : String
  pub path : String
  pub headers : String → String
  pub remote_addr : String
  pub api_key_id : String
  pub body : Body
  pub raw_body : Option String
  pub path_value : String → String

-- What has been written so far: the headers, the status that was sent, the status that the
-- statusRecorder of the logger holds, the body, and the key that the log line will name.
pub record Exchange : Type 0 where
  pub headers : List (String × String)
  pub sent : Option ℕ
  pub recorded : ℕ
  pub body : List String
  pub log_api_key_id : String

abbrev pub Handler : Type 0 → Type 0
Handler S = Request → Exchange × S → Exchange × S

abbrev pub other_header : String → String × String → Bool
other_header key (k, v) = not (k == key)

-- w.Header().Set(key, value)
unfoldable pub set_header : String → String → Exchange → Exchange
set_header key value w = record w { headers = (key, value) ∷ keep (other_header key) w.headers }

abbrev pub first_status : Option ℕ → ℕ → Option ℕ
first_status none code = some code
first_status (some c) code = some c

-- statusRecorder.WriteHeader: only the first status is sent.
unfoldable pub write_header : ℕ → Exchange → Exchange
write_header code w = record w { recorded = code; sent = first_status w.sent code }

-- A write without a status sends 200, past the statusRecorder.
unfoldable pub write : String → Exchange → Exchange
write text w = record w { body = w.body ++ text ∷ []; sent = first_status w.sent 200 }

-- http.Error, which ends the text with a new line.
abbrev pub http_error : String → ℕ → Exchange → Exchange
http_error line code w = write line (
    write_header code (
      set_header "X-Content-Type-Options" "nosniff"
        (set_header "Content-Type" "text/plain; charset=utf-8" w)))

-- writeJSON
abbrev pub write_json : String → ℕ → Exchange → Exchange
write_json text code w =
    write text (write_header code (set_header "Content-Type" "application/json" w))
