-- ===== src/Backup/Restore/Plan.antt =====
-- src/backup/restore.rs, `plan_restore`: a stored backup to the statements that replay it. The stored
-- rows are a list; parsing of JSON belongs to another package.
use sequel_ace_mcp.Prelude.{
  ℕ, Bool, true, false, Option, none, some, List, [], ◌∷◌, ◌++◌, map, Text, text, ◌==◌, eqb,
  if◌then◌else◌, unwrap_or,
}
use sequel_ace_mcp.Approval.Canonical.{join}
use sequel_ace_mcp.Backup.Json.{
  Json, null, string, array, Fields, elements, get, keys, index, as_str, as_array, as_object,
}
use sequel_ace_mcp.Backup.Extractor.{quote_ident, table_ref_sql}
use sequel_ace_mcp.Backup.Restore.{RestoreDialect, mysql, sqlite, escape_value}

-- The columns of a row of the table `backup` that the plan reads; `truncated` as it was read.
pub record BackupDetail : Type 0 where
  pub id : ℕ
  pub database : Option Text
  pub table_name : Text
  pub backup_kind : Text
  pub rows_json : Option Text
  pub schema_sql : Option Text
  pub primary_key : Option Text
  pub row_count : ℕ
  pub truncated : Bool

pub record RestorePlan : Type 0 where
  pub backup_id : ℕ
  pub statements : List Text
  pub row_count : ℕ
  pub warnings : List Text
  pub is_insert_hint_delete : Bool

pub data RestoreError : Type 0 where
  not_found : ℕ → RestoreError
  plan : (message : Text) → RestoreError

pub data Planned : Type 0 where
  ok : RestorePlan → Planned
  err : RestoreError → Planned

unfoldable pub get_backup : List BackupDetail → ℕ → Option BackupDetail
get_backup [] id = none
get_backup (b ∷ backups) id = if eqb b.id id then some b else get_backup backups id

-- Result of a JSON text's parsing.
pub data FromText : Type 0 where
  value : Json → FromText
  refused : (message : Text) → FromText

abbrev pub truncated_warning : Text
truncated_warning = text "backup was truncated; restore will not be complete"

abbrev pub warnings_of : BackupDetail → List Text
warnings_of b = if b.truncated then truncated_warning ∷ [] else []

abbrev with_semicolon : Option Text → List Text
with_semicolon none = []
with_semicolon (some sql) = (sql ++ text ";") ∷ []

abbrev schema_warning : Option Text → List Text
schema_warning none = []
schema_warning (some sql) =
    text "schema-only backup; running this will fail unless the table was dropped first" ∷ []

abbrev pub plan_schema : BackupDetail → RestorePlan
plan_schema b = record {
  backup_id = b.id;
  statements = with_semicolon b.schema_sql;
  row_count = 0;
  warnings = warnings_of b ++ schema_warning b.schema_sql;
  is_insert_hint_delete = false;
}

abbrev all_texts : List Json → List Text
all_texts [] = []
all_texts (string s ∷ vs) = quote_ident s ∷ all_texts vs
all_texts (v ∷ vs) = all_texts vs

abbrev pub or_empty : Option (List Json) → List Json
or_empty none = []
or_empty (some vs) = vs

module _ (decode : Text → Option (List ℕ)) (to_string : Json → Text) (from_str : Text → FromText)
    (dialect : RestoreDialect) where
  abbrev pub tuple : List Json → Text
  tuple vs =
      text "("
      ++ join (text ", ") (map (λ v. escape_value decode to_string v dialect) vs)
      ++ text ")"

  abbrev in_rows : Text → List Text → Option (List Json) → List Text
  in_rows tref [] all_rows = []
  in_rows tref (c ∷ columns) none = []
  in_rows tref (c ∷ columns) (some []) = []
  in_rows tref (c ∷ columns) (some (row ∷ all_rows)) =
      (text "DELETE FROM "
        ++ tref
        ++ text " WHERE ("
        ++ join (text ", ") (c ∷ columns)
        ++ text ") IN ("
        ++ join (text ", ") (map (λ r. tuple (or_empty (as_array r))) (row ∷ all_rows))
        ++ text ");")
      ∷ []

  abbrev delete_range : Text → Json → List Text
  delete_range tref pk =
      (text "DELETE FROM "
        ++ tref
        ++ text " WHERE "
        ++ quote_ident (unwrap_or (as_str (index pk (text "column"))) [])
        ++ text " BETWEEN "
        ++ escape_value decode to_string (index pk (text "start")) dialect
        ++ text " AND "
        ++ escape_value decode to_string (index pk (text "end")) dialect
        ++ text ";")
      ∷ []

  abbrev delete_explicit : Text → Json → List Text
  delete_explicit tref pk =
      in_rows tref (all_texts (or_empty (as_array (index pk (text "columns")))))
        (as_array (index pk (text "values")))

  abbrev hint_statements : Text → Json → Option Text → List Text
  hint_statements tref pk none = []
  hint_statements tref pk (some kind) =
      if kind == text "range"
      then delete_range tref pk
      else if kind == text "explicit"
      then delete_explicit tref pk
      else []

  abbrev hint_plan : BackupDetail → FromText → Planned
  hint_plan b (refused message) = err (RestoreError.plan (text "bad PK metadata: " ++ message))
  hint_plan b (value pk) = ok (record {
    backup_id = b.id;
    statements =
        hint_statements (table_ref_sql b.database b.table_name) pk
          (as_str (index pk (text "kind")));
    row_count = b.row_count;
    warnings =
        warnings_of b
        ++ text "insert-hint restore deletes the rows the INSERT created — verify before running"
          ∷ [];
    is_insert_hint_delete = true;
  })

  abbrev plan_hint : BackupDetail → Option Text → Planned
  plan_hint b none = ok (record {
    backup_id = b.id;
    statements = [];
    row_count = 0;
    warnings =
        warnings_of b
        ++ text "insert-hint backup has no recoverable PK metadata; nothing to restore" ∷ [];
    is_insert_hint_delete = false;
  })
  plan_hint b (some pk_json) = hint_plan b (from_str pk_json)

  abbrev conflict_arm : Text → Text
  conflict_arm c = elim dialect [
    | sqlite ↦ quote_ident c ++ text " = excluded." ++ quote_ident c
    | mysql ↦ quote_ident c ++ text " = VALUES(" ++ quote_ident c ++ text ")"
  ]

  abbrev on_conflict : Text
  on_conflict = elim dialect [
    | sqlite ↦ text " ON CONFLICT DO UPDATE SET "
    | mysql ↦ text " ON DUPLICATE KEY UPDATE "
  ]

  abbrev upsert : Text → List Text → Fields → Text
  upsert tref cols obj =
      text "INSERT INTO "
      ++ tref
      ++ text " ("
      ++ join (text ", ") (map quote_ident cols)
      ++ text ") VALUES ("
      ++ join (text ", ")
          (map (λ c. escape_value decode to_string (unwrap_or (get c obj) null) dialect) cols)
      ++ text ")"
      ++ on_conflict
      ++ join (text ", ") (map conflict_arm cols)
      ++ text ";"

  -- The loop over the rows; what is no object is passed over.
  abbrev upserts : Text → List Text → List Json → List Text
  upserts tref cols [] = []
  upserts tref cols (row ∷ rows) = elim (as_object row) [
    | none ↦ upserts tref cols rows
    | some obj ↦ upsert tref cols obj ∷ upserts tref cols rows
  ]

  abbrev upserts_of : Text → List Json → List Text
  upserts_of tref [] = []
  upserts_of tref (row ∷ rows) = elim (as_object row) [
    | none ↦ []
    | some first ↦ upserts tref (keys first) (row ∷ rows)
  ]

  abbrev rows_plan : BackupDetail → List Text → List Text → Planned
  rows_plan b schema_first row_statements = ok (record {
    backup_id = b.id;
    statements = schema_first ++ row_statements;
    row_count = b.row_count;
    warnings = warnings_of b;
    is_insert_hint_delete = false;
  })

  -- The payload is a JSON array.
  abbrev parsed_rows : BackupDetail → List Text → FromText → Planned
  parsed_rows b schema_first (refused message) =
      err (RestoreError.plan (text "bad rows payload: " ++ message))
  parsed_rows b schema_first (value (array vs)) =
      rows_plan b schema_first (upserts_of (table_ref_sql b.database b.table_name) (elements vs))
  parsed_rows b schema_first (value v) =
      err (RestoreError.plan (text "bad rows payload: " ++ text "invalid type"))

  abbrev plan_rows : BackupDetail → List Text → Option Text → Planned
  plan_rows b schema_first none = rows_plan b schema_first []
  plan_rows b schema_first (some rows_json) = parsed_rows b schema_first (from_str rows_json)

  abbrev plan_of : BackupDetail → Planned
  plan_of b =
      if b.backup_kind == text "schema"
      then ok (plan_schema b)
      else if b.backup_kind == text "insert-hint"
      then plan_hint b b.primary_key
      else if b.backup_kind == text "combined"
      then plan_rows b (with_semicolon b.schema_sql) b.rows_json
      else plan_rows b [] b.rows_json

  abbrev found : ℕ → Option BackupDetail → Planned
  found id none = err (not_found id)
  found id (some b) = plan_of b

  unfoldable pub plan_restore : List BackupDetail → ℕ → Planned
  unfolding escape_value get_backup quote_ident table_ref_sql join
  plan_restore audit id = found id (get_backup audit id)
