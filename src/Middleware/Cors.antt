-- ===== src/Middleware/Cors.antt =====
-- internal/middleware/cors.go.
use inwheel_server.Prelude.{String, not, ◌==◌, if◌then◌else◌}
use inwheel_server.Middleware.Http.{Exchange, Handler, set_header, write_header}

abbrev pub allow_origin : String → Exchange → Exchange
allow_origin origin w = set_header "Access-Control-Allow-Origin" origin w

-- The answer to a preflight request.
abbrev pub preflight : Exchange → Exchange
preflight w = write_header 204 (
    set_header "Access-Control-Allow-Headers" "X-API-Key, Content-Type"
      (set_header "Access-Control-Allow-Methods" "GET, POST, PATCH, DELETE" w))

abbrev pub with_origin : {S : Type 0} → String → Handler S → Handler S
with_origin allowed_origin next r (w, s) =
    let varied = set_header "Vary" "Origin" w in
    let origin = r.headers "Origin" in
    if not (origin == allowed_origin)
    then next r (varied, s)
    else if r.method == "OPTIONS"
    then (preflight (allow_origin origin varied), s)
    else next r (allow_origin origin varied, s)

unfoldable pub cors : {S : Type 0} → String → Handler S → Handler S
cors allowed_origin next r x =
    if allowed_origin == "" then next r x else with_origin allowed_origin next r x
