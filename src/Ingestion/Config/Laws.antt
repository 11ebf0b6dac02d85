-- ===== src/Ingestion/Config/Laws.antt =====
-- loadConfig and buildSource of cmd/ingestion together.
use inwheel_server.Prelude.{◌≡◌, ◌≢◌, refl, arith, eq_iff}
use inwheel_server.Prelude.Texts.{trim_space}
use inwheel_server.Prelude.Dict.{at}
use inwheel_server.Prelude.Result.{ok}
use inwheel_server.Ingestion.Config.{Env, Config, loaded, load_config, build_source}

trim_space-empty : trim_space "" ≡ ""
unfolding trim_space
trim_space-empty = refl

-- If the configuration loads, the source "osm" is built, with a path that is not blank.
pub build_source-load_config :
    (env : Env) (cfg : Config)
    → load_config env ≡ loaded cfg
    → (build_source "osm" cfg ≡ ok cfg.osm_pbf_path) × (trim_space cfg.osm_pbf_path ≢ "")
unfolding load_config build_source
build_source-load_config env cfg h =
    let path = at env "OSM_PBF_PATH" in
    let same : cfg.osm_pbf_path ≡ path = ground (arith, h) in
    (
      ground (arith, eq_iff (trim_space path) "", eq_iff path "", trim_space-empty),
      ground (arith, eq_iff (trim_space path) ""),
    )
