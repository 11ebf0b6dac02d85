-- ===== src/Ingestion/Config.antt =====
-- cmd/ingestion/config.go and registry.go. Other errors than those of loadConfig's list are texts
-- without their arguments.
pub mod Laws
mod Tests
use inwheel_server.Prelude.{
  ℕ, String, Bool, true, false, Option, none, some, List, [], ◌∷◌, ◌++◌, ◌==◌, if◌then◌else◌,
}
use inwheel_server.Prelude.Texts.{GoInt, pos, atoi, trim_space}
use inwheel_server.Prelude.Dict.{lookup, at}
use inwheel_server.Prelude.Result.{message, Result, ok, err}

abbrev pub default_db_port : GoInt
default_db_port = pos 5432

pub record Config : Type 0 where
  pub db_host : String
  pub db_port : GoInt
  pub db_user : String
  pub db_password : String
  pub db_name : String
  pub db_ssl_mode : String
  pub osm_pbf_path : String

abbrev pub Env : Type 0
Env = List (String × String)

-- `v, ok := env[key]; ok && v != ""`
abbrev or_fallback : String → Option String → String
or_fallback fallback none = fallback
or_fallback fallback (some v) = if v == "" then fallback else v

unfoldable pub value_or : Env → String → String → String
unfolding lookup
value_or env key fallback = or_fallback fallback (lookup key env)

pub data Problem : Type 0 where
  path_missing : Problem
  port_malformed : String → Problem

abbrev path_problems : String → List Problem
path_problems path = if trim_space path == "" then path_missing ∷ [] else []

-- The port, and the problem that its text makes.
abbrev read_port : String → GoInt × List Problem
read_port raw = elim (atoi raw) [
  | none ↦ (default_db_port, port_malformed raw ∷ [])
  | some n ↦ (n, [])
]

abbrev port_of : Option String → GoInt × List Problem
port_of none = (default_db_port, [])
port_of (some raw) = if raw == "" then (default_db_port, []) else read_port raw

-- The single error lists every problem.
pub data Loaded : Type 0 where
  loaded : Config → Loaded
  invalid : List Problem → Loaded

abbrev checked : List Problem → Config → Loaded
checked [] c = loaded c
checked (e ∷ es) c = invalid (e ∷ es)

unfoldable pub load_config : Env → Loaded
unfolding at lookup value_or
load_config env =
    let path = at env "OSM_PBF_PATH" in
    let (port, problems) = port_of (lookup "DB_PORT" env) in
    checked (path_problems path ++ problems) (record {
      db_host = value_or env "DB_HOST" "localhost";
      db_port = port;
      db_user = value_or env "DB_USER" "postgres";
      db_password = value_or env "DB_PASSWORD" "postgres";
      db_name = value_or env "DB_NAME" "inwheel";
      db_ssl_mode = value_or env "DB_SSLMODE" "disable";
      osm_pbf_path = path;
    })

-- A source is known by its path; OSM is the only one.
unfoldable pub build_source : String → Config → Result String
build_source name cfg =
    if name == "osm"
    then (if cfg.osm_pbf_path == ""
        then err (message "source requires OSM_PBF_PATH")
        else ok cfg.osm_pbf_path)
    else err (message "unknown source")
