-- ===== src/Backup/Capture.antt =====
-- src/backup/mod.rs and `capture_backup_mysql` of src/sql/mysql.rs: the rows that a mutation will change
-- are read, up to the policy's row cap, and stored before it. A query's answer is the driver's, whether the
-- audit database takes a row is the database's, and both are arguments.
pub mod Drivers
pub mod Hint
pub mod Caps
use sequel_ace_mcp.Prelude.{
  ℕ, zero, suc, ◌+◌, ◌-◌, Bool, true, false, ◌&&◌, ◌||◌, Option, none, some, or_else, List, [], ◌∷◌,
  ◌++◌, Text, text, ltb, leb, if◌then◌else◌, length, take,
}
use sequel_ace_mcp.Policy.Model.{Policy, BackupOverflow, abort, truncate}
use sequel_ace_mcp.Backup.Json.{Json, null, object, array, items, Fields, end}
use sequel_ace_mcp.Backup.Extractor.{
  BackupTable, SchemaTable, BackupSpec, nothing, rows, schema, combined, insert_hint,
}
use sequel_ace_mcp.Backup.Extractor.Limits.{with_limit}
use sequel_ace_mcp.Backup.Values.{put}

-- A row of the table `backup`, less its time stamp.
pub record BackupRow : Type 0 where
  pub id : ℕ
  pub connection : Text
  pub database : Option Text
  pub table_name : Text
  pub backup_kind : Text
  pub rows_json : Option Text
  pub schema_sql : Option Text
  pub primary_key : Option Text
  pub row_count : ℕ
  pub truncated : Bool
  pub size_bytes : ℕ

pub record Store : Type 0 where
  pub stored : List BackupRow
  pub last_id : ℕ

-- `insert_backup_row`; `none` is the database's error.
unfoldable pub insert_backup_row : (BackupRow → Bool) → Store → BackupRow → Option (Store × ℕ)
insert_backup_row takes s row =
    let id = suc s.last_id in
    if takes row
    then some (record { stored = s.stored ++ record row { id = id } ∷ []; last_id = id }, id)
    else none

pub record CapturedBackup : Type 0 where
  pub backup_id : ℕ
  pub total_rows : ℕ
  pub truncated : Bool
  pub total_bytes : ℕ

pub data CaptureError : Type 0 where
  failed : (message : Text) → CaptureError
  unbounded : (select_sql : Text) → CaptureError
  row_overflow : (cap : ℕ) → CaptureError
  byte_overflow : (observed cap : ℕ) → CaptureError

pub data Captured : Type 0 where
  ok : Option CapturedBackup → Captured
  err : CaptureError → Captured

-- The driver's answer to a query: an error, no result set, or rows, of which each may be an error.
pub data Row {ℓ} (V : Type ℓ) : Type ℓ where
  row : List V → Row V
  broken : (message : Text) → Row V

pub data Fetched {ℓ} (V : Type ℓ) : Type ℓ where
  query_failed : (message : Text) → Fetched V
  no_result_set : Fetched V
  streamed : (columns : List Text) → List (Row V) → Fetched V

-- What the loop over the rows gives.
pub data Collected : Type 0 where
  collected : List Json → (truncated : Bool) → Collected
  broke : (message : Text) → Collected

abbrev pub with_row : Json → Collected → Collected
with_row v (collected vs truncated) = collected (v ∷ vs) truncated
with_row v (broke message) = broke message

abbrev pub aborts : BackupOverflow → Bool
aborts abort = true
aborts truncate = false

-- The values of a row under the names of its columns; a missing value is NULL.
abbrev pub object_of {ℓ} : {V : Type ℓ} → (V → Json) → List Text → List V → Fields → Fields
object_of to_json [] values o = o
object_of to_json (c ∷ columns) [] o = object_of to_json columns [] (put c null o)
object_of to_json (c ∷ columns) (v ∷ values) o =
    object_of to_json columns values (put c (to_json v) o)

-- The loop over the rows, both drivers'; `room` is what is left of the row cap.
unfoldable pub collect {ℓ} : {V : Type ℓ} → (V → Json) → ℕ → List Text → List (Row V) → Collected
unfolding put
collect to_json room columns [] = collected [] false
collect to_json room columns (broken message ∷ stream) = broke message
collect to_json zero columns (row values ∷ stream) = collected [] true
collect to_json (suc room) columns (row values ∷ stream) =
    with_row (object (object_of to_json columns values end)) (collect to_json room columns stream)

-- The checks of the caps, before a row is stored.
unfoldable pub overflow : Policy → Bool → ℕ → Option CaptureError
overflow policy truncated bytes =
    if truncated && aborts policy.on_backup_overflow
    then some (row_overflow policy.max_backup_rows)
    else if ltb policy.max_backup_bytes bytes && aborts policy.on_backup_overflow
    then some (byte_overflow bytes policy.max_backup_bytes)
    else none

-- The variables of the loop over the tables.
pub record Totals : Type 0 where
  pub first_id : Option ℕ
  pub total_rows : ℕ
  pub total_bytes : ℕ
  pub truncated_any : Bool

abbrev pub no_totals : Totals
no_totals = record { first_id = none; total_rows = 0; total_bytes = 0; truncated_any = false }

abbrev pub add : Totals → ℕ → ℕ → Bool → ℕ → Totals
add totals id count truncated bytes = record {
  first_id = or_else totals.first_id (some id);
  total_rows = totals.total_rows + count;
  total_bytes = totals.total_bytes + bytes;
  truncated_any = totals.truncated_any || truncated;
}

abbrev pub captured_of : Option ℕ → Totals → Option CapturedBackup
captured_of none totals = none
captured_of (some id) totals = some (record {
  backup_id = id;
  total_rows = totals.total_rows;
  truncated = totals.truncated_any;
  total_bytes = totals.total_bytes;
})

-- One table's round: the loop goes on with new totals, passes the table over, or ends in an error.
pub data Round : Type 0 where
  next : Totals → Round
  stop : CaptureError → Round

-- What is as it is for both drivers: the texts of JSON and their length, and the audit database.
pub record Outside : Type 0 where
  pub print : Json → Text
  pub byte_len : Text → ℕ
  pub takes : BackupRow → Bool

abbrev pub stored_round : Store → Totals → ℕ → Bool → ℕ → Option (Store × ℕ) → Store × Round
stored_round s totals count truncated bytes none = (s, stop (failed (text "audit database")))
stored_round s totals count truncated bytes (some (t, id)) =
    (t, next (add totals id count truncated bytes))

module _ (outside : Outside) (policy : Policy) (connection : Text) where
  -- `insert_rows_backup_row` behind the checks.
  abbrev pub store_rows :
      Option Text
      → Text
      → Text
      → Option Text
      → Option Text
      → ℕ
      → Bool
      → ℕ
      → Totals
      → Store
      → Option CaptureError
      → Store × Round
  store_rows database name kind rows_json schema_sql count truncated bytes totals s (some e) =
      (s, stop e)
  store_rows database name kind rows_json schema_sql count truncated bytes totals s none =
      stored_round s totals count truncated bytes (
        insert_backup_row outside.takes s (record {
          id = 0;
          connection = connection;
          database = database;
          table_name = name;
          backup_kind = kind;
          rows_json = rows_json;
          schema_sql = schema_sql;
          primary_key = none;
          row_count = count;
          truncated = truncated;
          size_bytes = bytes;
        }))

  abbrev pub json_text : List Json → Option Text
  json_text [] = none
  json_text (v ∷ vs) = some (outside.print (array (items (v ∷ vs))))

  abbrev pub text_size : Option Text → ℕ
  text_size none = 0
  text_size (some json) = outside.byte_len json
