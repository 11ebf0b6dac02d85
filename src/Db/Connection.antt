-- ===== src/Db/Connection.antt =====
-- internal/db/db.go. GORM, database/sql and golang-migrate are a parameter: which of their calls fail,
-- and how.
use inwheel_server.Prelude.{String, Option, none, some, List, [], ◌∷◌, ◌++◌, eqb, if◌then◌else◌}
use inwheel_server.Prelude.Texts.{GoInt, pos, chars, text}
use inwheel_server.Prelude.Result.{Error, message, wrap, is_sentinel, Result, ok, err}

pub record ConnectionConfig : Type 0 where
  pub host : String
  pub port : GoInt
  pub user : String
  pub password : String
  pub name : String
  pub ssl_mode : String
  pub max_open_conns : GoInt
  pub max_idle_conns : GoInt

-- gorm.Open by its data source name, db.DB(), and the calls of golang-migrate.
pub record Driver : Type 0 where
  pub gorm_open : String → Option Error
  pub generic : Option Error
  pub source : Option Error
  pub with_instance : Option Error
  pub new_with_instance : Option Error
  pub up : Option Error

-- A pool with its settings; the lifetime of a connection is in seconds.
pub record Pool : Type 0 where
  pub dsn : String
  pub max_idle : GoInt
  pub max_open : GoInt
  pub max_lifetime : GoInt

abbrev joined : List String → String
joined [] = ""
joined (s ∷ ss) = text (chars s ++ chars (joined ss))

-- `itoa` prints the port.
abbrev pub data_source_name : (GoInt → String) → ConnectionConfig → String
data_source_name itoa cfg = joined (
    "host="
    ∷ cfg.host
    ∷ " user="
    ∷ cfg.user
    ∷ " password="
    ∷ cfg.password
    ∷ " dbname="
    ∷ cfg.name
    ∷ " port="
    ∷ itoa cfg.port
    ∷ " sslmode="
    ∷ cfg.ssl_mode
    ∷ [])

abbrev or_default : GoInt → GoInt → GoInt
or_default default (pos n) = if eqb n 0 then default else pos n
or_default default n = n

abbrev opened : Option Error → Option Error → Pool → Result Pool
opened (some e) generic pool = err (wrap "failed to connect to database" e)
opened none (some e) pool = err (wrap "could not get generic db" e)
opened none none pool = ok pool

unfoldable pub connect : Driver → (GoInt → String) → ConnectionConfig → Result Pool
connect driver itoa cfg =
    let dsn = data_source_name itoa cfg in
    opened (driver.gorm_open dsn) driver.generic (record {
      dsn = dsn;
      max_idle = or_default (pos 5) cfg.max_idle_conns;
      max_open = or_default (pos 25) cfg.max_open_conns;
      max_lifetime = pos 3600;
    })

-- Up's ErrNoChange is no failure.
abbrev upgraded : Option Error → Option Error
upgraded none = none
upgraded (some e) = if is_sentinel "no change" e then none else some (wrap "migration failed" e)

abbrev or_else : String → Option Error → Option Error → Option Error
or_else context none next = next
or_else context (some e) next = some (wrap context e)

-- `none` in place of a pool is the nil database.
unfoldable pub migrate : Driver → Option Pool → Option Error
migrate driver none = some (message "database connection not initialized")
migrate driver (some pool) = or_else "could not get sql.DB from gorm" driver.generic (
    or_else "could not create migration source" driver.source (
      or_else "could not create migration driver" driver.with_instance
        (or_else "could not initialise migrator" driver.new_with_instance (upgraded driver.up))))
