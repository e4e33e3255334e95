-- ===== src/Backup/Capture/Drivers.antt =====
-- `capture_backup_mysql` of src/sql/mysql.rs and `capture_backup_sqlite` of src/backup/mod.rs.
use sequel_ace_mcp.Prelude.{
  ℕ, ◌+◌, Bool, true, false, Option, none, some, or_else, List, [], ◌∷◌, Text, text, if◌then◌else◌,
  length,
}
use sequel_ace_mcp.Policy.Model.{Policy}
use sequel_ace_mcp.Backup.Json.{Json, array, items}
use sequel_ace_mcp.Backup.Extractor.{
  BackupTable, SchemaTable, BackupSpec, nothing, rows, schema, combined, insert_hint,
}
use sequel_ace_mcp.Backup.Extractor.Limits.{with_limit}
use sequel_ace_mcp.Backup.Capture.{
  BackupRow, Store, insert_backup_row, failed, unbounded, Captured, ok, err, Fetched, query_failed,
  no_result_set, streamed, Collected, collected, broke, collect, overflow, Totals, no_totals,
  captured_of, Round, next, stop, Outside, stored_round, store_rows, json_text, text_size,
}

-- A driver: the answer to a query, and the statement that makes a table.
pub record Driver (V : Type 0) : Type 0 where
  pub query : Text → Fetched V
  pub show_create : Option Text → Text → Option Text
  pub to_json : V → Json

-- The loop over the tables.
unfoldable pub each_table :
    {T : Type 0} → (T → Totals → Store → Store × Round) → List T → Totals → Store → Store × Captured
each_table round [] totals s = (s, ok (captured_of totals.first_id totals))
each_table round (t ∷ tables) totals s =
    let (s', r) = round t totals s in
    elim r [ stop e ↦ (s', err e) | next totals' ↦ each_table round tables totals' s' ]

module _ {V : Type 0} (outside : Outside) (driver : Driver V) (policy : Policy) (connection : Text)
    (database : Option Text) where
  unfoldable pub schema_row : Text → Option Text → BackupRow
  schema_row name schema_sql = record {
    id = 0;
    connection = connection;
    database = database;
    table_name = name;
    backup_kind = text "schema";
    rows_json = none;
    schema_sql = schema_sql;
    primary_key = none;
    row_count = 0;
    truncated = false;
    size_bytes = 0;
  }

  -- A table of a `Schema`; `bytes` is what it adds to the total, which counts tables for SQLite.
  unfoldable pub schema_round :
      ℕ → (SchemaTable → Option Text) → SchemaTable → Totals → Store → Store × Round
  unfolding insert_backup_row schema_row
  schema_round bytes show t totals s =
      stored_round s totals 0 false bytes
        (insert_backup_row outside.takes s (schema_row t.table (show t)))

  -- MySQL: the statement that makes the table is asked for in the table's own database, and a row names
  -- the table's database where the call names none.
  abbrev pub mysql_collected : Bool → BackupTable → Totals → Store → Collected → Store × Round
  mysql_collected is_combined t totals s (broke message) = (s, stop (failed message))
  mysql_collected is_combined t totals s (collected out truncated) =
      let json = json_text outside policy connection out in
      let bytes = text_size outside policy connection json in
      let schema_sql = if is_combined then driver.show_create t.db t.table else none in
      store_rows outside policy connection (or_else database t.db) t.table
        (if is_combined then text "combined" else text "rows") json schema_sql (length out)
        truncated bytes totals s (overflow policy truncated bytes)

  abbrev pub mysql_fetched : Bool → BackupTable → Totals → Store → Fetched V → Store × Round
  mysql_fetched is_combined t totals s (query_failed message) = (s, stop (failed message))
  mysql_fetched is_combined t totals s no_result_set = (s, next totals)
  mysql_fetched is_combined t totals s (streamed columns stream) =
      mysql_collected is_combined t totals s
        (collect driver.to_json policy.max_backup_rows columns stream)

  abbrev pub mysql_query : Bool → BackupTable → Totals → Store → Option Text → Store × Round
  mysql_query is_combined t totals s none = (s, stop (unbounded t.select_sql))
  mysql_query is_combined t totals s (some capped) =
      mysql_fetched is_combined t totals s (driver.query capped)

  unfoldable pub mysql_round : Bool → BackupTable → Totals → Store → Store × Round
  unfolding collect overflow insert_backup_row with_limit
  mysql_round is_combined t totals s =
      mysql_query is_combined t totals s (with_limit t.select_sql (policy.max_backup_rows + 1))

  -- SQLite: the length counts the text of no rows too, and there is always a result set.
  abbrev pub sqlite_collected : Bool → BackupTable → Totals → Store → Collected → Store × Round
  sqlite_collected is_combined t totals s (broke message) = (s, stop (failed message))
  sqlite_collected is_combined t totals s (collected out truncated) =
      let bytes = outside.byte_len (outside.print (array (items out))) in
      let schema_sql = if is_combined then driver.show_create database t.table else none in
      store_rows outside policy connection database t.table
        (if is_combined then text "combined" else text "rows")
        (json_text outside policy connection out) schema_sql (length out) truncated bytes totals s
        (overflow policy truncated bytes)

  abbrev pub sqlite_fetched : Bool → BackupTable → Totals → Store → Fetched V → Store × Round
  sqlite_fetched is_combined t totals s (query_failed message) = (s, stop (failed message))
  sqlite_fetched is_combined t totals s no_result_set =
      sqlite_collected is_combined t totals s (collected [] false)
  sqlite_fetched is_combined t totals s (streamed columns stream) =
      sqlite_collected is_combined t totals s
        (collect driver.to_json policy.max_backup_rows columns stream)

  abbrev pub sqlite_query : Bool → BackupTable → Totals → Store → Option Text → Store × Round
  sqlite_query is_combined t totals s none = (s, stop (unbounded t.select_sql))
  sqlite_query is_combined t totals s (some capped) =
      sqlite_fetched is_combined t totals s (driver.query capped)

  unfoldable pub sqlite_round : Bool → BackupTable → Totals → Store → Store × Round
  unfolding collect overflow insert_backup_row with_limit
  sqlite_round is_combined t totals s =
      sqlite_query is_combined t totals s (with_limit t.select_sql (policy.max_backup_rows + 1))

  unfoldable pub capture_backup_mysql : BackupSpec → Store → Store × Captured
  unfolding mysql_round each_table schema_round
  capture_backup_mysql (nothing reason) s = (s, ok none)
  capture_backup_mysql (insert_hint t columns values) s = (s, ok none)
  capture_backup_mysql (schema tables) s =
      each_table (schema_round 0 (λ t. driver.show_create t.db t.table)) tables no_totals s
  capture_backup_mysql (rows tables) s = each_table (mysql_round false) tables no_totals s
  capture_backup_mysql (combined tables) s = each_table (mysql_round true) tables no_totals s

  unfoldable pub capture_backup_sqlite : BackupSpec → Store → Store × Captured
  unfolding sqlite_round each_table schema_round
  capture_backup_sqlite (nothing reason) s = (s, ok none)
  capture_backup_sqlite (insert_hint t columns values) s = (s, ok none)
  capture_backup_sqlite (schema tables) s =
      each_table (schema_round 1 (λ t. driver.show_create database t.table)) tables no_totals s
  capture_backup_sqlite (rows tables) s = each_table (sqlite_round false) tables no_totals s
  capture_backup_sqlite (combined tables) s = each_table (sqlite_round true) tables no_totals s
