-- ===== src/Backup/Tests.antt =====
-- The journal on a small input.
use sequel_ace_mcp.Prelude.{
  ℕ, ◌<◌, ◌≤◌, ◌≡◌, ◌↔◌, inl, refl, true, false, Option, none, some, List, [], ◌∷◌, ◌++◌, map, Text,
  text, if◌then◌else◌, eqb, length, contains, Any, Lacks, arith,
}
use sequel_ace_mcp.Backup.Journal.{
  JournalState, mutation_executing, mutation_committed, as_str, Row, state_of, transition,
  is_allowed, update, is_listed,
}
use sequel_ace_mcp.Backup.Journal.Recovery.{phase, transition-ok}
use sequel_ace_mcp.Policy.Lexical.{to_ascii_lowercase}
use sequel_ace_mcp.Policy.Classifier.{Dialect}
use sequel_ace_mcp.Backup.Json.{Json, string}
use sequel_ace_mcp.Backup.Values.{Value, bytes, uint, value_to_json}
use sequel_ace_mcp.Backup.Quoting.{mysql_string, sqlite_string}
use sequel_ace_mcp.Backup.Restore.{RestoreDialect, escape_value}
use sequel_ace_mcp.Backup.Restore.Strings.{doubled, sqlite_string-escape_value}
use sequel_ace_mcp.Backup.Restore.Bytes.{mysql_string-escape_value_bytes}
use sequel_ace_mcp.Backup.Extractor.{
  BackupSpec, rows, nothing, table_ref_sql, SchemaTable, UpdateStatement, TableFactor, update_spec,
  collect_tables_with_aliases, eq_ignore_ascii_case,
}
use sequel_ace_mcp.Backup.Extractor.Specs.{
  Literal, InsertStatement, ParsedStatement, sql_literal, double_quotes, replace_spec,
  guess_pk_column, column_names,
}
use sequel_ace_mcp.Backup.Extractor.Literals.{mysql_string-sql_literal_backslash}
use sequel_ace_mcp.Backup.Extractor.Limits.{with_limit}
use sequel_ace_mcp.Backup.Extractor.Limited.{IsLimited, with_limit-IsLimited}
use sequel_ace_mcp.Backup.Extractor.Aliases.{update_spec-aliased}
use sequel_ace_mcp.Backup.Extractor.Panics.{replace_spec-none}
use sequel_ace_mcp.Backup.Restore.Plan.{FromText, value, plan_restore}
use sequel_ace_mcp.Backup.Capture.Hint.{
  explicit_pk, after_hint, detail_of, statements_of, plan_restore-capture_insert_hint,
}
use sequel_ace_mcp.Backup.Capture.{Store, Outside, streamed, row}
use sequel_ace_mcp.Backup.Capture.Drivers.{Driver}

-- A row in the given state.
abbrev row_in : JournalState → Row
row_in s = record {
  id = 1;
  request_id = text "r";
  connection = text "c";
  databases = text "[]";
  category = text "write";
  state = as_str s;
  detail = none;
  backup_id = none;
  audit_id = none;
}

transition-ok_example :
    (from : JournalState) × (state_of (row_in mutation_executing ∷ []) 1 ≡ some (as_str from))
    × (phase from < phase mutation_committed)
    × (state_of (row_in mutation_committed ∷ []) 1 ≡ (
        if eqb 1 1
        then some (as_str mutation_committed)
        else state_of (row_in mutation_executing ∷ []) 1))
unfolding transition state_of is_allowed update is_listed as_str
transition-ok_example =
    transition-ok (row_in mutation_executing ∷ []) (row_in mutation_committed ∷ []) 1
      mutation_committed none 1 ((mutation_executing, refl), tt) refl

-- Stand-ins for the other packages.
abbrev no_base64 : Text → Option (List ℕ)
no_base64 s = none

abbrev blank : Json → Text
blank j = []

abbrev outside : Outside
outside = record { print = blank; byte_len = length; takes = λ r. true }

sqlite_string-escape_value_example :
    (sqlite_string
        (escape_value no_base64 blank (string (text "C:\\n")) RestoreDialect.sqlite ++ text ", 1")
      ≡ some (doubled (text "C:\\n"), text ", 1"))
    × ((doubled (text "C:\\n") ≡ text "C:\\n") ↔ Lacks b'\\' (text "C:\\n"))
sqlite_string-escape_value_example =
    sqlite_string-escape_value no_base64 blank (text "C:\\n") (text ", 1") refl

-- Every byte is an ASCII letter, or there is no text.
abbrev ascii : List ℕ → Option Text
ascii [] = some []
ascii (b ∷ bs) = none

mysql_string-escape_value_bytes_example :
    ((s : Text)
      → ascii (255 ∷ []) ≡ some s
      → mysql_string (
          escape_value no_base64 blank
            (value_to_json {F = ℕ} (λ f. Json.null) ascii (λ b. text "/w==") (bytes (255 ∷ [])))
            RestoreDialect.mysql
          ++ text ")")
        ≡ some (s, text ")"))
    × (ascii (255 ∷ []) ≡ none
        → mysql_string (
            escape_value no_base64 blank
              (value_to_json {F = ℕ} (λ f. Json.null) ascii (λ b. text "/w==") (bytes (255 ∷ [])))
              RestoreDialect.mysql
            ++ text ")")
          ≡ some (text "/w==", text ")"))
mysql_string-escape_value_bytes_example =
    mysql_string-escape_value_bytes {F = ℕ} (λ f. Json.null) ascii (λ b. text "/w==") no_base64
      blank (255 ∷ []) (text ")") refl

mysql_string-sql_literal_backslash_example :
    mysql_string (
      sql_literal (λ n. some n) blank (string (b'\\' ∷ b'\'' ∷ b')' ∷ text " OR (1=1 -- "))
      ++ text ")")
    ≡ some (b'\'' ∷ [], b')' ∷ (double_quotes (text " OR (1=1 -- ") ++ b'\'' ∷ text ")"))
mysql_string-sql_literal_backslash_example =
    mysql_string-sql_literal_backslash (λ n. some n) blank b')' (text " OR (1=1 -- ") (text ")")
      (omega arith)

with_limit-IsLimited_example :
    IsLimited (text "SELECT * FROM `t` FOR UPDATE") 3 (text "SELECT * FROM `t` LIMIT 3 FOR UPDATE")
    × (contains (text "SELECT * FROM `t` FOR UPDATE") (text ";") ≡ false)
    × (contains (to_ascii_lowercase (text "SELECT * FROM `t` FOR UPDATE")) (text " limit ") ≡ false)
unfolding with_limit
with_limit-IsLimited_example =
    with_limit-IsLimited (text "SELECT * FROM `t` FOR UPDATE") 3
      (text "SELECT * FROM `t` LIMIT 3 FOR UPDATE") refl

-- `UPDATE users u SET u.name = 'x' WHERE u.id = 1`.
abbrev aliased : UpdateStatement
aliased = record {
  table = record {
    relation = TableFactor.table (some (text "users") ∷ []) (some (text "u"));
    joins = [];
    rendered = text "users u";
  };
  targets = some (some (text "u") ∷ some (text "name") ∷ []) ∷ [];
  selection = some (text "u.id = 1");
}

update_spec-aliased_example :
    update_spec aliased Dialect.mysql
    ≡ nothing (text "no mutated tables identified in multi-table UPDATE")
unfolding collect_tables_with_aliases eq_ignore_ascii_case to_ascii_lowercase
update_spec-aliased_example =
    update_spec-aliased aliased Dialect.mysql (some (some (text "u") ∷ some (text "name") ∷ [])) []
      refl ((text "u", some (text "name"), refl, inl refl, (refl, tt)), tt)

-- `REPLACE INTO users (name, id) VALUES ('x')`.
abbrev short_row : InsertStatement
short_row = record {
  replace_into = true;
  table = some (some (text "users") ∷ []);
  columns = (some (text "name") ∷ []) ∷ (some (text "id") ∷ []) ∷ [];
  values = some ((Literal.single_quoted (text "x") ∷ []) ∷ []);
}

replace_spec-none_example :
    (replace_spec (λ n. some n) blank (ParsedStatement.insert short_row) Dialect.mysql ≡ none)
    ↔ Any (λ r. length r ≤ 1) ((Literal.single_quoted (text "x") ∷ []) ∷ [])
unfolding guess_pk_column column_names to_ascii_lowercase
replace_spec-none_example =
    replace_spec-none (λ n. some n) blank short_row (some (text "users") ∷ []) 1
      (Literal.single_quoted (text "x") ∷ []) [] refl refl refl Dialect.mysql refl

-- A table of one column and two rows.
abbrev two_rows : Driver (Value ℕ)
two_rows = record {
  query = λ q. streamed (text "id" ∷ []) (row (uint 1 ∷ []) ∷ row (uint 2 ∷ []) ∷ []);
  show_create = λ db name. none;
  to_json = value_to_json (λ f. Json.null) ascii (λ b. []);
}

abbrev users_rows : BackupSpec
users_rows = rows (
    record {
      db = none;
      table = text "users";
      select_sql = text "SELECT * FROM `users`";
      locking = text "NONE";
    }
    ∷ [])

abbrev empty_store : Store
empty_store = record { stored = []; last_id = 0 }

abbrev users : SchemaTable
users = record { db = none; table = text "users" }

-- The key's JSON text is read back.
abbrev read_back : Text → FromText
read_back t = value (explicit_pk ((string (text "a") ∷ []) ∷ []))

-- `INSERT INTO users (uuid) VALUES ('a')`, noted behind four other backups.
abbrev by_uuid : Store × Option ℕ
by_uuid =
    after_hint outside (text "shop") none no_base64 blank read_back RestoreDialect.mysql users
      (text "uuid" ∷ []) (string (text "a") ∷ []) [] none 1 4 (λ r. refl) refl

plan_restore-capture_insert_hint_example :
    (by_uuid.1 ≡ some 5)
    × ((rest : Text) × (statements_of (
            plan_restore no_base64 blank read_back RestoreDialect.mysql
              (map detail_of by_uuid.0.stored)
              5)
          ≡ (text "DELETE FROM "
              ++ table_ref_sql none (text "users")
              ++ text " WHERE (`id`) IN ("
              ++ rest)
            ∷ []))
plan_restore-capture_insert_hint_example =
    plan_restore-capture_insert_hint outside (text "shop") none no_base64 blank read_back
      RestoreDialect.mysql users (text "uuid" ∷ []) (string (text "a") ∷ []) [] none 1 4 (λ r. refl)
      refl
