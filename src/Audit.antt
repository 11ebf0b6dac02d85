-- ===== src/Audit.antt =====
-- internal/audit/audit.go. An error of the insert is only logged. The row's own id and time are left
-- out.
use inwheel_server.Prelude.{String, Option, none, some, [], ◌∷◌, ◌++◌, ◌==◌, if◌then◌else◌}
use inwheel_server.Prelude.Result.{ok, Action}
use inwheel_server.Db.{Db, WriteLog, statement}

abbrev non_empty : String → Option String
non_empty s = if s == "" then none else some s

abbrev pub entry : String → String → String → String → WriteLog
entry target_table record_id api_key_id action = record {
  target_table = target_table;
  record_id = record_id;
  api_key_id = non_empty api_key_id;
  action = action;
}

abbrev pub append_log : WriteLog → Action Db (Unit {0})
append_log row db = (ok tt, record db { write_logs = db.write_logs ++ row ∷ [] })

unfoldable pub log : String → String → String → String → Db → Db
log target_table record_id api_key_id action db =
    (statement (append_log (entry target_table record_id api_key_id action)) db).1
