-- ===== src/Middleware/Logging.antt =====
-- internal/middleware/logging.go. The line's latency is left out; the request's new UUID is an argument.
use inwheel_server.Prelude.{ℕ, String, none, Option, [], leb, if◌then◌else◌}
use inwheel_server.Middleware.Http.{Request, Exchange, Handler, set_header}
use inwheel_server.Middleware.RateLimiter.{client_ip}

pub data Level : Type 0 where
  info warn error : Level

pub record LogLine : Type 0 where
  pub level : Level
  pub method : String
  pub path : String
  pub status : ℕ
  pub ip : String
  pub request_id : String
  pub api_key_id : String

abbrev pub level_of : ℕ → Level
level_of status = if leb 500 status then error else if leb 400 status then warn else info

abbrev fresh : Exchange
fresh = record { headers = []; sent = none; recorded = 200; body = []; log_api_key_id = "" }

abbrev pub log_line : (String → Option String) → String → Request → Exchange → LogLine
log_line split_host_port request_id r w = record {
  level = level_of w.recorded;
  method = r.method;
  path = r.path;
  status = w.recorded;
  ip = client_ip split_host_port r.remote_addr;
  request_id = request_id;
  api_key_id = w.log_api_key_id;
}

unfoldable pub request_logger :
    {S : Type 0}
    → (String → Option String)
    → String
    → Handler S
    → Request
    → S
    → LogLine × Exchange × S
request_logger split_host_port request_id next r s =
    let (w, s') = next r (set_header "X-Request-ID" request_id fresh, s) in
    (log_line split_host_port request_id r w, w, s')

-- SetLogAPIKeyID
abbrev pub set_log_api_key_id : String → Exchange → Exchange
set_log_api_key_id id w = record w { log_api_key_id = id }
