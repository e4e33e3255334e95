-- ===== src/Backup/Extractor/Specs.antt =====
-- src/backup/extractor.rs, continued: REPLACE, INSERT, TRUNCATE, DROP, ALTER and RENAME, and the choice
-- by the statement's kind.
use sequel_ace_mcp.Prelude.{
  ℕ, zero, suc, Bool, ◌||◌, Option, none, some, List, [], ◌∷◌, ◌++◌, map, Text, text, ◌==◌, eqb,
  if◌then◌else◌, unwrap_or, or_else,
}
use sequel_ace_mcp.Policy.Classifier.{Dialect}
use sequel_ace_mcp.Approval.Canonical.{join}
use sequel_ace_mcp.Backup.Json.{Json}
use sequel_ace_mcp.Backup.Extractor.{
  SchemaTable, BackupSpec, nothing, rows, schema, combined, insert_hint, ObjectName,
  UpdateStatement, DeleteStatement, quote_ident, table_ref_sql, identifiers, object_parts,
  lock_suffix, locking_of, eq_ignore_ascii_case, Named, update_spec, delete_spec,
}

-- A value in VALUES: sqlparser's literals that the code tells apart.
pub data Literal : Type 0 where
  number : Text → Literal
  single_quoted double_quoted national hex_string placeholder escaped : Text → Literal
  single_quoted_bytes double_quoted_bytes : Text → Literal
  null : Literal
  other : Literal

-- `table` is `none` where the target is no name; `values` where the source is no VALUES.
pub record InsertStatement : Type 0 where
  pub replace_into : Bool
  pub table : Option ObjectName
  pub columns : List ObjectName
  pub values : Option (List (List Literal))

pub data ParsedStatement : Type 0 where
  update : UpdateStatement → ParsedStatement
  delete : DeleteStatement → ParsedStatement
  insert : InsertStatement → ParsedStatement
  truncate : (table_names : List ObjectName) → ParsedStatement
  drop : (names : List ObjectName) → ParsedStatement
  alter_table : (name : ObjectName) → ParsedStatement
  rename_table : List (ObjectName × ObjectName) → ParsedStatement
  other : ParsedStatement

-- `columns.iter().position(|c| c.eq_ignore_ascii_case(guess))`, counted from `i`.
abbrev pub position : ℕ → Text → List Text → Option ℕ
position i guess [] = none
position i guess (c ∷ columns) =
    let rest = position (suc i) guess columns in
    if eq_ignore_ascii_case c guess then some i else rest

unfoldable pub guess_pk_column : List Text → Option ℕ
unfolding eq_ignore_ascii_case
guess_pk_column columns =
    or_else (position 0 (text "id") columns)
      (or_else (position 0 (text "uuid") columns) (position 0 (text "pk") columns))

abbrev first_or_empty : List Text → Text
first_or_empty [] = []
first_or_empty (x ∷ xs) = x

unfoldable pub column_names : List ObjectName → List Text
column_names columns = map (λ c. first_or_empty (identifiers c)) columns

-- `row[i]`, which panics out of range.
abbrev pub row_at {ℓ} : {A : Type ℓ} → ℕ → List A → Option A
row_at i [] = none
row_at zero (v ∷ vs) = some v
row_at (suc i) (v ∷ vs) = row_at i vs

abbrev pub prepend {ℓ} : {A : Type ℓ} → Option A → Option (List A) → Option (List A)
prepend none vs = none
prepend (some v) none = none
prepend (some v) (some vs) = some (v ∷ vs)

-- The values of that column, in all rows.
unfoldable pub column_values {ℓ} : {A : Type ℓ} → ℕ → List (List A) → Option (List A)
column_values i [] = some []
column_values i (row ∷ all_rows) = prepend (row_at i row) (column_values i all_rows)

-- `s.replace('\'', "''")`.
unfoldable pub double_quotes : Text → Text
double_quotes [] = []
double_quotes (c ∷ s) = if eqb c b'\'' then b'\'' ∷ b'\'' ∷ double_quotes s else c ∷ double_quotes s

-- `serde_json::from_str(n)` on a number's text, as the text that it prints; printing of other values.
module _ (parse_number : Text → Option Text) (to_string : Json → Text) where
  abbrev number_json : Text → Option Text → Json
  number_json n none = Json.string n
  number_json n (some m) = Json.number m

  unfoldable pub literal_json : Literal → Json
  literal_json (number n) = number_json n (parse_number n)
  literal_json (single_quoted s) = Json.string s
  literal_json (double_quoted s) = Json.string s
  literal_json (national s) = Json.string s
  literal_json (hex_string s) = Json.string s
  literal_json (placeholder s) = Json.string s
  literal_json (escaped s) = Json.string s
  literal_json (single_quoted_bytes s) = Json.string s
  literal_json (double_quoted_bytes s) = Json.string s
  literal_json null = Json.null
  literal_json other = Json.null

  unfoldable pub literal_rows : InsertStatement → Option (List (List Json))
  unfolding literal_json
  literal_rows ins = elim ins.values [
    | none ↦ none
    | some all_rows ↦ some (map (λ row. map literal_json row) all_rows)
  ]

  unfoldable pub sql_literal : Json → Text
  unfolding double_quotes
  sql_literal Json.null = text "NULL"
  sql_literal (Json.bool b) = if b then text "1" else text "0"
  sql_literal (Json.number n) = n
  sql_literal (Json.string s) = b'\'' ∷ (double_quotes s ++ b'\'' ∷ [])
  sql_literal v = b'\'' ∷ (double_quotes (to_string v) ++ b'\'' ∷ [])

  abbrev pub select_where_in : Option Text → Text → Text → List Text → Dialect → Text
  select_where_in db name column values dialect =
      text "SELECT * FROM "
      ++ table_ref_sql db name
      ++ text " WHERE "
      ++ quote_ident column
      ++ text " IN ("
      ++ join (text ", ") values
      ++ text ")"
      ++ lock_suffix dialect

  abbrev pub no_column : BackupSpec
  no_column = nothing (text "REPLACE without identifiable PK column; no backup taken")

  abbrev pub replace_rows : Named → Text → Dialect → Option (List Json) → Option BackupSpec
  replace_rows (db, name) column dialect none = none
  replace_rows (db, name) column dialect (some values) = some (
      rows (
        record {
          db = db;
          table = name;
          select_sql = select_where_in db name column (map sql_literal values) dialect;
          locking = locking_of dialect;
        }
        ∷ []))

  abbrev pub replace_with :
      Named → List Text → Dialect → Option ℕ → Option (List (List Json)) → Option BackupSpec
  replace_with t columns dialect none all_rows = some no_column
  replace_with t columns dialect (some i) none = some no_column
  replace_with t columns dialect (some i) (some []) = some no_column
  replace_with t columns dialect (some i) (some (row ∷ all_rows)) =
      replace_rows t (unwrap_or (row_at i columns) []) dialect (column_values i (row ∷ all_rows))

  abbrev pub replace_into_table : InsertStatement → Dialect → Option ObjectName → Option BackupSpec
  replace_into_table ins dialect none = some (nothing (text "REPLACE target unclear"))
  replace_into_table ins dialect (some name) =
      let columns = column_names ins.columns in
      replace_with (object_parts name) columns dialect (guess_pk_column columns) (literal_rows ins)

  -- `none` where an index into a row panics.
  unfoldable pub replace_spec : ParsedStatement → Dialect → Option BackupSpec
  unfolding column_names guess_pk_column literal_rows sql_literal column_values quote_ident
      table_ref_sql lock_suffix object_parts
  replace_spec (insert ins) dialect =
      if ins.replace_into
      then replace_into_table ins dialect ins.table
      else some (nothing (text "not a REPLACE"))
  replace_spec stmt dialect = some (nothing (text "not a REPLACE"))

  abbrev pub hint : Named → List Text → Option (List (List Json)) → BackupSpec
  hint (db, name) columns explicit = insert_hint (record { db = db; table = name }) columns explicit

  abbrev pub hint_values : Named → List Text → Option (List Json) → Option BackupSpec
  hint_values t columns none = none
  hint_values t columns (some values) = some (hint t columns (some (map (λ v. v ∷ []) values)))

  abbrev pub hint_with :
      Named → List Text → Option ℕ → Option (List (List Json)) → Option BackupSpec
  hint_with t columns none all_rows = some (hint t columns none)
  hint_with t columns (some i) none = some (hint t columns none)
  hint_with t columns (some i) (some []) = some (hint t columns none)
  hint_with t columns (some i) (some (row ∷ all_rows)) =
      hint_values t columns (column_values i (row ∷ all_rows))

  abbrev pub insert_into_table : InsertStatement → Option ObjectName → Option BackupSpec
  insert_into_table ins none = some (nothing (text "INSERT target unclear"))
  insert_into_table ins (some name) =
      let columns = column_names ins.columns in
      hint_with (object_parts name) columns (guess_pk_column columns) (literal_rows ins)

  unfoldable pub insert_spec : ParsedStatement → Option BackupSpec
  unfolding column_names guess_pk_column literal_rows column_values object_parts
  insert_spec (insert ins) = insert_into_table ins ins.table
  insert_spec stmt = some (nothing (text "not an INSERT"))

abbrev combined_of : Named → BackupSpec
combined_of (db, name) = combined (
    record {
      db = db;
      table = name;
      select_sql = text "SELECT * FROM " ++ table_ref_sql db name;
      locking = text "NONE";
    }
    ∷ [])

unfoldable pub truncate_spec : ParsedStatement → BackupSpec
unfolding object_parts table_ref_sql
truncate_spec (truncate []) = nothing (text "TRUNCATE target unclear")
truncate_spec (truncate (name ∷ names)) = combined_of (object_parts name)
truncate_spec stmt = nothing (text "not a TRUNCATE")

unfoldable pub drop_spec : ParsedStatement → BackupSpec
unfolding object_parts table_ref_sql
drop_spec (drop []) = nothing (text "DROP target unclear")
drop_spec (drop (name ∷ names)) = combined_of (object_parts name)
drop_spec stmt = nothing (text "not a DROP")

abbrev schema_of : Named → SchemaTable
schema_of (db, name) = record { db = db; table = name }

unfoldable pub schema_spec : ParsedStatement → BackupSpec
unfolding object_parts
schema_spec (alter_table name) = schema (schema_of (object_parts name) ∷ [])
schema_spec (rename_table renames) = schema (map (λ r. schema_of (object_parts r.0)) renames)
schema_spec stmt = nothing (text "not ALTER/RENAME")

abbrev update_only : ParsedStatement → Dialect → BackupSpec
update_only (update u) dialect = update_spec u dialect
update_only stmt dialect = nothing (text "not an UPDATE")

abbrev delete_only : ParsedStatement → Dialect → BackupSpec
delete_only (delete d) dialect = delete_spec d dialect
delete_only stmt dialect = nothing (text "not a DELETE")

pub data Extracted : Type 0 where
  ok : BackupSpec → Extracted
  parse_error : (message : Text) → Extracted
  panicked : Extracted

pub data Parse : Type 0 where
  parsed : List ParsedStatement → Parse
  refused : (message : Text) → Parse

abbrev or_panic : Option BackupSpec → Extracted
or_panic none = panicked
or_panic (some spec) = ok spec

module _ (parse_sql : Dialect → Text → Parse) (parse_number : Text → Option Text)
    (to_string : Json → Text) where
  unfoldable pub spec_of : ParsedStatement → Text → Dialect → Extracted
  unfolding update_spec delete_spec replace_spec insert_spec truncate_spec drop_spec schema_spec
  spec_of stmt ast_type dialect =
      if ast_type == text "update"
      then ok (update_only stmt dialect)
      else if ast_type == text "delete"
      then ok (delete_only stmt dialect)
      else if ast_type == text "replace"
      then or_panic (replace_spec parse_number to_string stmt dialect)
      else if ast_type == text "insert"
      then or_panic (insert_spec parse_number to_string stmt)
      else if ast_type == text "truncate"
      then ok (truncate_spec stmt)
      else if ast_type == text "drop"
      then ok (drop_spec stmt)
      else if (ast_type == text "alter") || (ast_type == text "rename")
      then ok (schema_spec stmt)
      else ok (nothing (text "no backup strategy for AST type \"" ++ ast_type ++ text "\""))

  abbrev first_spec : Parse → Text → Dialect → Extracted
  first_spec (refused message) ast_type dialect = parse_error message
  first_spec (parsed []) ast_type dialect = ok (nothing (text "no statement"))
  first_spec (parsed (stmt ∷ stmts)) ast_type dialect = spec_of stmt ast_type dialect

  unfoldable pub extract_backup_spec : Text → Text → Dialect → Extracted
  unfolding spec_of
  extract_backup_spec sql ast_type dialect = first_spec (parse_sql dialect sql) ast_type dialect
