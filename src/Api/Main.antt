-- ===== src/Api/Main.antt =====
-- The settings of main, the endpoints of the infrastructure and the JSON of errors in cmd/api/main.go.
-- os.LookupEnv is a function. strconv.Atoi is a parameter where its error is dropped: it gives a number
-- with an error too. Starting and stopping the HTTP server is left out, and so are the limiters'
-- goroutines.
mod Tests
use inwheel_server.Prelude.{
  ℕ, String, Bool, not, Option, none, some, List, map, ◌||◌, if◌then◌else◌,
}
use inwheel_server.Prelude.Texts.{GoInt}
use inwheel_server.Prelude.Result.{Error, Result, ok, err}
use inwheel_server.Float64.{F64, Arithmetic}
use inwheel_server.Db.{Db}
use inwheel_server.Db.Connection.{ConnectionConfig, Driver, Pool, connect, migrate}
use inwheel_server.Validation.{FieldError}
use inwheel_server.Bindings.Responses.{ValidationError}
use inwheel_server.Middleware.Http.{Request, Exchange, Handler, set_header, write, write_json}
use inwheel_server.Middleware.RateLimiter.{RateLimiter, new_rate_limiter}

abbrev env_or : String → Option String → String
env_or fallback none = fallback
env_or fallback (some value) = value

unfoldable pub get_env : (String → Option String) → String → String → String
get_env lookup_env key fallback = env_or fallback (lookup_env key)

-- The configuration of the connection.
unfoldable pub database_config : (String → Option String) → (String → GoInt) → ConnectionConfig
unfolding get_env
database_config lookup_env atoi = record {
  host = get_env lookup_env "DB_HOST" "localhost";
  port = atoi (get_env lookup_env "DB_PORT" "5432");
  user = get_env lookup_env "DB_USER" "postgres";
  password = get_env lookup_env "DB_PASSWORD" "postgres";
  name = get_env lookup_env "DB_NAME" "inwheel";
  ssl_mode = get_env lookup_env "DB_SSLMODE" "disable";
  max_open_conns = atoi (get_env lookup_env "DB_MAX_OPEN_CONNS" "25");
  max_idle_conns = atoi (get_env lookup_env "DB_MAX_IDLE_CONNS" "5");
}

abbrev migrated : Driver → Result Pool → Result Pool
migrated driver (err e) = err e
migrated driver (ok pool) = elim (migrate driver (some pool)) [ none ↦ ok pool | some e ↦ err e ]

-- Any error makes main exit with 1 before it serves.
unfoldable pub open_database :
    Driver → (GoInt → String) → (String → Option String) → (String → GoInt) → Result Pool
open_database driver itoa lookup_env atoi =
    migrated driver (connect driver itoa (database_config lookup_env atoi))

-- The limiters of registrations, of keys and of readers.
pub record Limiters (Bucket : Type 0) : Type 0 where
  pub reg_limiter : RateLimiter Bucket
  pub key_limiter : RateLimiter Bucket
  pub read_limiter : RateLimiter Bucket

-- `every` is rate.Every, of a number of seconds.
abbrev pub limiters : {Bucket : Type 0} → Arithmetic → (ℕ → F64) → Limiters Bucket
limiters fl every = record {
  reg_limiter = new_rate_limiter (every 1200) 3;
  key_limiter = new_rate_limiter (every 1) 60;
  read_limiter = new_rate_limiter (fl.lit 20 0) 20;
}

unfoldable pub handle_healthz : {S : Type 0} → Handler S
handle_healthz r (w, s) = (write_json "{\"status\":\"ok\"}\n" 200 w, s)

-- The errors are those of db.DB() and of the ping, which has two seconds.
abbrev readiness : Option Error → Option Error → Exchange → Exchange
readiness none none w = write_json "{\"status\":\"ok\"}\n" 200 w
readiness _ _ w = write_json "{\"status\":\"degraded\"}\n" 503 w

unfoldable pub handle_readyz : {S : Type 0} → Option Error → Option Error → Handler S
handle_readyz generic ping r (w, s) = (readiness generic ping w, s)

-- `spec_yaml` is the embedded api/openapi.yaml, `scalar_html` the page that shows it.
unfoldable pub handle_open_api_spec : {S : Type 0} → String → Handler S
handle_open_api_spec spec_yaml r (w, s) =
    (write spec_yaml (set_header "Content-Type" "application/yaml" w), s)

unfoldable pub handle_docs : {S : Type 0} → String → Handler S
handle_docs scalar_html r (w, s) = (write scalar_html (set_header "Content-Type" "text/html" w), s)

unfoldable pub validation_error : List FieldError → ValidationError
validation_error errs = record { error = "validation failed"; fields = errs }
