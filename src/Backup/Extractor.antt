-- ===== src/Backup/Extractor.antt =====
-- src/backup/extractor.rs: which rows or schemas to capture before a statement. The parser and its
-- printing belong to another package: a parsed statement is a record of what the code reads of it.
pub mod Specs
pub mod Limits
pub mod Limited
pub mod Literals
pub mod Aliases
pub mod Panics
use sequel_ace_mcp.Prelude.{
  ℕ, Bool, true, false, ◌&&◌, ◌||◌, not, Option, none, some, List, [], ◌∷◌, ◌++◌, map, Text, text,
  ◌==◌, eqb, if◌then◌else◌, any, retain, length, unwrap_or,
}
use sequel_ace_mcp.Policy.Lexical.{to_ascii_lowercase}
use sequel_ace_mcp.Policy.Classifier.{Dialect, mysql, sqlite}
use sequel_ace_mcp.Approval.Canonical.{join}
use sequel_ace_mcp.Ddl.Rewrite.{escape}
use sequel_ace_mcp.Backup.Json.{Json}

pub record BackupTable : Type 0 where
  pub db : Option Text
  pub table : Text
  pub select_sql : Text
  pub locking : Text

pub record SchemaTable : Type 0 where
  pub db : Option Text
  pub table : Text

pub data BackupSpec : Type 0 where
  nothing : (reason : Text) → BackupSpec
  rows : List BackupTable → BackupSpec
  schema : List SchemaTable → BackupSpec
  combined : List BackupTable → BackupSpec
  insert_hint :
      (table : SchemaTable) (columns : List Text) (explicit_pk_values : Option (List (List Json)))
      → BackupSpec

-- The parts of an `ObjectName`; a part that is no identifier is `none`.
abbrev pub ObjectName : Type 0
ObjectName = List (Option Text)

pub data TableFactor : Type 0 where
  table : (name : ObjectName) (alias : Option Text) → TableFactor
  other : TableFactor

-- `rendered` is `to_string()`.
pub record TableWithJoins : Type 0 where
  pub relation : TableFactor
  pub joins : List TableFactor
  pub rendered : Text

-- `selection` is the condition's `to_string()`; a target is `none` if it is no column's name.
pub record UpdateStatement : Type 0 where
  pub table : TableWithJoins
  pub targets : List (Option ObjectName)
  pub selection : Option Text

pub record DeleteStatement : Type 0 where
  pub tables : List ObjectName
  pub from_tables : List TableWithJoins
  pub using_tables : Option (List TableWithJoins)
  pub selection : Option Text

-- A database, a table, and the alias or the table.
pub record Source : Type 0 where
  pub db : Option Text
  pub table : Text
  pub rendered : Text

unfoldable pub quote_ident : Text → Text
unfolding escape
quote_ident id = b'`' ∷ (escape id ++ b'`' ∷ [])

unfoldable pub table_ref_sql : Option Text → Text → Text
unfolding quote_ident
table_ref_sql (some db) name = quote_ident db ++ b'.' ∷ quote_ident name
table_ref_sql none name = quote_ident name

abbrev pub identifiers : ObjectName → List Text
identifiers [] = []
identifiers (none ∷ parts) = identifiers parts
identifiers (some i ∷ parts) = i ∷ identifiers parts

-- The last part and the one before it.
abbrev pub last_two : List Text → Option Text × Text
last_two [] = (none, [])
last_two (t ∷ []) = (none, t)
last_two (d ∷ t ∷ []) = (some d, t)
last_two (c ∷ d ∷ t ∷ parts) = last_two (d ∷ t ∷ parts)

unfoldable pub object_parts : ObjectName → Option Text × Text
object_parts name = last_two (identifiers name)

unfoldable pub lock_suffix : Dialect → Text
lock_suffix mysql = text " FOR UPDATE"
lock_suffix sqlite = []

-- `if lock.is_empty() { "NONE" } else { "FOR UPDATE" }`.
abbrev pub locking_of : Dialect → Text
locking_of mysql = text "FOR UPDATE"
locking_of sqlite = text "NONE"

unfoldable pub is_backup_required : Text → Bool
is_backup_required ast_type =
    any (λ t. ast_type == t)
      (text "update"
        ∷ text "delete"
        ∷ text "replace"
        ∷ text "insert"
        ∷ text "truncate"
        ∷ text "drop"
        ∷ text "alter"
        ∷ text "rename"
        ∷ [])

unfoldable pub where_suffix : Option Text → Text
where_suffix none = []
where_suffix (some e) = text " WHERE " ++ e

unfoldable pub eq_ignore_ascii_case : Text → Text → Bool
eq_ignore_ascii_case a b = to_ascii_lowercase a == to_ascii_lowercase b

unfoldable pub visit : TableFactor → List Source
unfolding object_parts
visit other = []
visit (table name alias) =
    let parts = object_parts name in
    record { db = parts.0; table = parts.1; rendered = unwrap_or alias parts.1 } ∷ []

abbrev pub visit_all : List TableFactor → List Source
visit_all [] = []
visit_all (f ∷ fs) = visit f ++ visit_all fs

unfoldable pub collect_tables_with_aliases : TableWithJoins → List Source
unfolding visit
collect_tables_with_aliases twj = visit twj.relation ++ visit_all twj.joins

-- The loop over the targets of SET: the names before a column's, each once.
unfoldable pub qualified_from : List Text → List (Option ObjectName) → List Text
qualified_from seen [] = seen
qualified_from seen (some (some name ∷ column ∷ []) ∷ targets) =
    let next = if any (λ q. q == name) seen then seen else seen ++ name ∷ [] in
    qualified_from next targets
qualified_from seen (target ∷ targets) = qualified_from seen targets

abbrev pub first_source : List Source → Source
first_source [] = record { db = none; table = []; rendered = [] }
first_source (s ∷ sources) = s

abbrev pub targets_of : List Text → List Source → List Source
targets_of [] all_tables = first_source all_tables ∷ []
targets_of (q ∷ qs) all_tables =
    retain (λ s. any (λ name. eq_ignore_ascii_case s.table name) (q ∷ qs)) all_tables

abbrev pub is_empty : Text → Bool
is_empty [] = true
is_empty (c ∷ s) = false

abbrev pub rows_or : Text → List BackupTable → BackupSpec
rows_or reason [] = nothing reason
rows_or reason (t ∷ ts) = rows (t ∷ ts)

abbrev pub select_all : Source → Text → Text
select_all s lock = text "SELECT * FROM " ++ table_ref_sql s.db s.table ++ lock

unfoldable pub update_table : UpdateStatement → Dialect → List Source → Source → BackupTable
unfolding where_suffix lock_suffix table_ref_sql
update_table u dialect all_tables s =
    let where_sql = where_suffix u.selection in
    let lock = lock_suffix dialect in
    record {
      db = s.db;
      table = s.table;
      select_sql =
          if eqb (length all_tables) 1 && is_empty where_sql
          then select_all s lock
          else text "SELECT "
            ++ quote_ident s.table
            ++ text ".* FROM "
            ++ u.table.rendered
            ++ where_sql
            ++ lock;
      locking = locking_of dialect;
    }

unfoldable pub update_spec : UpdateStatement → Dialect → BackupSpec
unfolding qualified_from collect_tables_with_aliases update_table
update_spec u dialect =
    let all_tables = collect_tables_with_aliases u.table in
    let targets = targets_of (qualified_from [] u.targets) all_tables in
    rows_or (text "no mutated tables identified in multi-table UPDATE")
      (map (update_table u dialect all_tables) targets)

abbrev pub sources_of : List TableWithJoins → List Source
sources_of [] = []
sources_of (twj ∷ twjs) = collect_tables_with_aliases twj ++ sources_of twjs

abbrev pub find_table : Text → List Source → Option Source
find_table name [] = none
find_table name (s ∷ sources) =
    if eq_ignore_ascii_case s.table name then some s else find_table name sources

abbrev pub database_in : Option Source → Option Text → Option Text
database_in none db = db
database_in (some s) db = s.db

abbrev pub rendered_in : Option Source → Text → Text
rendered_in none name = name
rendered_in (some s) name = s.rendered

-- A table to capture: its database and name.
abbrev pub Named : Type 0
Named = Option Text × Text

abbrev pub explicit_target : List Source → ObjectName → Named
explicit_target sources name =
    let parts = object_parts name in (database_in (find_table parts.1 sources) parts.0, parts.1)

abbrev pub delete_targets : List ObjectName → List Source → List Named
delete_targets [] sources = map (λ s. (s.db, s.table)) sources
delete_targets (name ∷ names) sources = map (explicit_target sources) (name ∷ names)

unfoldable pub delete_table : DeleteStatement → Dialect → List Source → Named → BackupTable
unfolding where_suffix lock_suffix table_ref_sql
delete_table d dialect sources (db, name) =
    let where_sql = where_suffix d.selection in
    let lock = lock_suffix dialect in
    record {
      db = db;
      table = name;
      select_sql =
          if eqb (length sources) 1 && is_empty where_sql
          then text "SELECT * FROM " ++ table_ref_sql db name ++ lock
          else text "SELECT "
            ++ quote_ident (rendered_in (find_table name sources) name)
            ++ text ".* FROM "
            ++ join (text ", ") (map (λ s. table_ref_sql s.db s.table) sources)
            ++ where_sql
            ++ lock;
      locking = locking_of dialect;
    }

abbrev pub delete_rows_spec : DeleteStatement → Dialect → List Source → BackupSpec
delete_rows_spec d dialect [] = nothing (text "DELETE has no source table")
delete_rows_spec d dialect (s ∷ sources) =
    rows (map (delete_table d dialect (s ∷ sources)) (delete_targets d.tables (s ∷ sources)))

unfoldable pub delete_spec : DeleteStatement → Dialect → BackupSpec
unfolding collect_tables_with_aliases delete_table object_parts
delete_spec d dialect =
    delete_rows_spec d dialect
      (sources_of d.from_tables ++ sources_of (unwrap_or d.using_tables []))
