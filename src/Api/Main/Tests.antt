-- ===== src/Api/Main/Tests.antt =====
-- Settings and endpoints of cmd/api/main.go.
use inwheel_server.Prelude.{String, Option, none, some, [], ◌≡◌, refl, ◌==◌, if◌then◌else◌}
use inwheel_server.Prelude.Texts.{pos}
use inwheel_server.Prelude.Result.{message, ok}
use inwheel_server.Db.Connection.{Driver, connect, migrate}
use inwheel_server.Middleware.Http.{no_body, Request, Exchange, set_header, write_header, write}
use inwheel_server.Api.Main.{open_database, database_config, get_env, handle_readyz}

abbrev working : Driver
working = record {
  gorm_open = λ dsn. none;
  generic = none;
  source = none;
  with_instance = none;
  new_with_instance = none;
  up = none;
}

abbrev environ : String → Option String
environ key = if key == "DB_HOST" then some "db" else none

-- A limit that cannot be read is 0, which Connect takes as unset.
open_unreadable :
    open_database working (λ n. "0") environ (λ s. pos 0)
    ≡ ok (record {
      dsn = "host=db user=postgres password=postgres dbname=inwheel port=0 sslmode=disable";
      max_idle = pos 5;
      max_open = pos 25;
      max_lifetime = pos 3600;
    })
unfolding open_database database_config get_env connect migrate
open_unreadable = refl

abbrev probe : Request
probe = record {
  method = "GET";
  path = "/readyz";
  headers = λ h. "";
  remote_addr = "";
  api_key_id = "";
  body = no_body;
  raw_body = none;
  path_value = λ s. "";
}

abbrev start : Exchange
start = record { headers = []; sent = none; recorded = 200; body = []; log_api_key_id = "" }

readyz_degraded :
    (handle_readyz none (some (message "timeout")) probe (start, tt)).0.sent ≡ some 503
unfolding handle_readyz set_header write_header write
readyz_degraded = refl
