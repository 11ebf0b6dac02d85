-- ===== src/Ingestion/Main/Tests.antt =====
-- Runs of cmd/ingestion: without its arguments, without a path, without a database, and of a source that
-- has nothing to import.
use inwheel_server.Prelude.{String, none, some, List, [], ◌∷◌, ◌≡◌, refl}
use inwheel_server.Prelude.Texts.{trim_space, atoi}
use inwheel_server.Prelude.Dict.{insert, lookup, at}
use inwheel_server.Prelude.Result.{sentinel, message, is_sentinel, pure}
use inwheel_server.Db.Connection.{Driver, connect, migrate}
use inwheel_server.Ingestion.Config.{load_config, build_source, value_or}
use inwheel_server.Ingestion.Pipeline.{canonical, run_pipeline}
use inwheel_server.Ingestion.Batcher.{flush_now}
use inwheel_server.Identity.Sweep.{sweep}
use inwheel_server.Ingestion.Main.{BuiltSource, environ_as_map, environ_from, cut_equals, main, run}
use inwheel_server.Samples.{thousandths, latin, server, city}

-- The schema is up to date already.
abbrev working : Driver
working = record {
  gorm_open = λ dsn. none;
  generic = none;
  source = none;
  with_instance = none;
  new_with_instance = none;
  up = some (sentinel "no change");
}

abbrev unreachable : Driver
unreachable = record working { gorm_open = λ dsn. some (message "refused") }

abbrev empty_source : String → BuiltSource
empty_source path = record {
  kind = canonical;
  places = record { name = "osm"; full_import = some (λ out. pure tt); diff_sync = none };
  records = record { name = "osm"; full_import = none; diff_sync = none };
}

abbrev environ : List String
environ = "OSM_PBF_PATH=a=b.pbf" ∷ "broken" ∷ "DB_HOST=db" ∷ "DB_HOST=db2" ∷ []

environ_split : environ_as_map environ ≡ ("OSM_PBF_PATH", "a=b.pbf") ∷ ("DB_HOST", "db2") ∷ []
unfolding environ_from cut_equals insert
environ_split = refl

migrate_nil : migrate working none ≡ some (message "database connection not initialized")
unfolding migrate
migrate_nil = refl

main_usage :
    (main thousandths latin server working
      (λ n. "5432")
      empty_source
      ("ingestion" ∷ [])
      environ
      city).0
    ≡ 1
unfolding main
main_usage = refl

main-unreachable :
    (main thousandths latin server unreachable
      (λ n. "5432")
      empty_source
      ("ingestion" ∷ "osm" ∷ "full-import" ∷ [])
      environ
      city).0
    ≡ 1
unfolding main environ_from cut_equals insert load_config value_or lookup at trim_space atoi run
    build_source connect
main-unreachable = refl

abbrev osm : String
osm = "osm"

abbrev arguments : List String
arguments = "ingestion" ∷ osm ∷ "full-import" ∷ []

main_osm :
    main thousandths latin server working (λ n. "5432") empty_source arguments environ city
    ≡ (0, city)
unfolding main environ_from cut_equals insert load_config value_or lookup at trim_space atoi run
    build_source connect migrate is_sentinel run_pipeline flush_now sweep
main_osm = refl
