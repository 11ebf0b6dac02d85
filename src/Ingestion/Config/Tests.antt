-- ===== src/Ingestion/Config/Tests.antt =====
-- Runs of cmd/ingestion/config.go .
use inwheel_server.Prelude.{[], ◌∷◌, ◌≡◌, refl}
use inwheel_server.Prelude.Texts.{pos, trim_space, atoi}
use inwheel_server.Ingestion.Config.{
  Env, Config, loaded, invalid, path_missing, port_malformed, load_config,
}

abbrev env : Env
env = ("OSM_PBF_PATH", "city.pbf") ∷ ("DB_PORT", "6000") ∷ []

abbrev cfg : Config
cfg = record {
  db_host = "localhost";
  db_port = pos 6000;
  db_user = "postgres";
  db_password = "postgres";
  db_name = "inwheel";
  db_ssl_mode = "disable";
  osm_pbf_path = "city.pbf";
}

load_env : load_config env ≡ loaded cfg
unfolding load_config trim_space atoi
load_env = refl

-- Both problems are reported.
load_bad :
    load_config (("DB_PORT", "http") ∷ []) ≡ invalid (path_missing ∷ port_malformed "http" ∷ [])
unfolding load_config trim_space atoi
load_bad = refl
