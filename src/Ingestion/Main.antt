-- ===== src/Ingestion/Main.antt =====
-- main, environAsMap and run of cmd/ingestion/main.go. The process is its arguments, its environment and
-- its exit code; logging is left out. The source that is built reads its file through a parameter.
mod Tests
use Prim.Native.Char.{Char, code}
use inwheel_server.Prelude.{ℕ, String, Option, none, some, List, [], ◌∷◌, eqb, if◌then◌else◌}
use inwheel_server.Prelude.Texts.{GoInt, pos, chars, text}
use inwheel_server.Prelude.Dict.{insert}
use inwheel_server.Prelude.Result.{Error, Result, ok, err, wrap, wrap_err, Action}
use inwheel_server.Float64.{Arithmetic}
use inwheel_server.Db.{Db, Postgres}
use inwheel_server.Db.Connection.{ConnectionConfig, Driver, Pool, connect, migrate}
use inwheel_server.Identity.Normalize.{Unicode}
use inwheel_server.Ingestion.Config.{
  Env, Config, Loaded, loaded, invalid, load_config, build_source,
}
use inwheel_server.Ingestion.Batcher.{Batcher}
use inwheel_server.Ingestion.Pipeline.{
  SourceKind, Source, Sink, RecordSink, ResolveCounters, Report, run_pipeline,
}

abbrev add_char : Char → Option (List Char × List Char) → Option (List Char × List Char)
add_char c none = none
add_char c (some (k, v)) = some (c ∷ k, v)

-- The text before and after the first "=".
unfoldable pub cut_equals : List Char → Option (List Char × List Char)
cut_equals [] = none
cut_equals (c ∷ cs) = if eqb (code c) b'=' then some ([], cs) else add_char c (cut_equals cs)

abbrev insert_entry : Option (List Char × List Char) → Env → Env
insert_entry none out = out
insert_entry (some (k, v)) out = insert (text k) (text v) out

unfoldable pub environ_from : Env → List String → Env
environ_from out [] = out
environ_from out (kv ∷ kvs) = environ_from (insert_entry (cut_equals (chars kv)) out) kvs

abbrev pub environ_as_map : List String → Env
environ_as_map environ = environ_from [] environ

abbrev pub connection_config : Config → ConnectionConfig
connection_config cfg = record {
  host = cfg.db_host;
  port = cfg.db_port;
  user = cfg.db_user;
  password = cfg.db_password;
  name = cfg.db_name;
  ssl_mode = cfg.db_ssl_mode;
  max_open_conns = pos 0;
  max_idle_conns = pos 0;
}

-- What a source does with the file at its path.
pub record BuiltSource : Type 0 where
  pub kind : SourceKind
  pub places : Source (Sink (Batcher × Db)) (Batcher × Db)
  pub records : Source (RecordSink (ResolveCounters × Db)) (ResolveCounters × Db)

module _ (fl : Arithmetic) (uni : Unicode) (pg : Postgres) (driver : Driver) (itoa : GoInt → String)
    (source_at : String → BuiltSource) where
  abbrev pub pipelined : BuiltSource → String → Action Db (Report fl uni pg)
  pipelined src command = run_pipeline fl uni pg src.kind src.places src.records command

  abbrev pub migrated : Option Error → BuiltSource → String → Action Db (Report fl uni pg)
  migrated (some e) src command db = (err (wrap "db migrate" e), db)
  migrated none src command db = pipelined src command db

  abbrev pub connected : Result Pool → BuiltSource → String → Action Db (Report fl uni pg)
  connected (err e) src command db = (err (wrap "db connect" e), db)
  connected (ok pool) src command db = migrated (migrate driver (some pool)) src command db

  abbrev pub built : Result String → Config → String → Action Db (Report fl uni pg)
  built (err e) cfg command db = (err e, db)
  built (ok path) cfg command db =
      connected (connect driver itoa (connection_config cfg)) (source_at path) command db

  unfoldable pub run : String → String → Config → Action Db (Report fl uni pg)
  run source_name command cfg db = built (build_source source_name cfg) cfg command db

  abbrev pub exit_code : Result (Report fl uni pg) × Db → ℕ × Db
  exit_code (ok report, db) = (0, db)
  exit_code (err e, db) = (1, db)

  abbrev pub configured : Loaded → String → String → Db → ℕ × Db
  configured (invalid problems) source_name command db = (1, db)
  configured (loaded cfg) source_name command db = exit_code (run source_name command cfg db)

  -- `args` is os.Args: the program, the source and the command. The exit code and the database.
  unfoldable pub main : List String → List String → Db → ℕ × Db
  main (program ∷ source_name ∷ command ∷ more) environ db =
      configured (load_config (environ_as_map environ)) source_name command db
  main args environ db = (1, db)
