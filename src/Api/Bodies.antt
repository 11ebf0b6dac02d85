-- ===== src/Api/Bodies.antt =====
-- captureRawBody, bodySizeLimiter and injectRequest of cmd/api/main.go. io.ReadAll of a body gives its
-- text, unless the reading breaks or the body is longer than http.MaxBytesReader lets through.

pub mod Limited
use inwheel_server.Prelude.{ℕ, String, Bool, true, false, Option, none, some, leb, if◌then◌else◌}
use inwheel_server.Prelude.Result.{Error, message, Result, ok, err}
use inwheel_server.Middleware.Http.{Body, Request, Exchange, Handler, http_error}
use inwheel_server.Bindings.Wrapper.{Middleware}
use inwheel_server.Bindings.Strict.{Context, StrictHandlerFunc}

abbrev within : Option ℕ → ℕ → Bool
within none size = true
within (some limit) size = leb size limit

abbrev unbroken : Option Error → String → Result String
unbroken none content = ok content
unbroken (some e) content = err e

-- io.ReadAll(r.Body)
unfoldable pub read_all : Body → Result String
read_all b =
    if within b.max_bytes b.size
    then unbroken b.broken b.content
    else err (message "http: request body too large")

-- The body is put back as a reader of the bytes, and they are kept in the context.
abbrev pub with_raw_body : Request → String → Request
with_raw_body r content = record r {
  body = record { content = content; size = r.body.size; broken = none; max_bytes = none };
  raw_body = some content;
}

abbrev pub captured : {S : Type 0} → Result String → Handler S → Handler S
captured (err e) next r (w, s) = (http_error "failed to read request body\n" 400 w, s)
captured (ok content) next r x = next (with_raw_body r content) x

unfoldable pub capture_raw_body : {S : Type 0} → Middleware S
capture_raw_body next r x = captured (read_all r.body) next r x

abbrev smallest : Option ℕ → ℕ → ℕ
smallest none n = n
smallest (some m) n = if leb m n then m else n

-- http.MaxBytesReader around the body, which may have a limit already.
abbrev pub limit_body : ℕ → Request → Request
limit_body max_bytes r = record r {
  body = record (r.body) { max_bytes = some (smallest r.body.max_bytes max_bytes) };
}

unfoldable pub body_size_limiter : {S : Type 0} → ℕ → Middleware S
body_size_limiter max_bytes next r x = next (limit_body max_bytes r) x

-- requestFromCtx finds the request that this puts into the context.
unfoldable pub inject_request :
    {S : Type 0} (Q A : Type 0) → StrictHandlerFunc S Q A → String → StrictHandlerFunc S Q A
inject_request Q A f op ctx r q x = f (record ctx { request = some r }) r q x
