-- ===== src/Backup/Capture/Hint.antt =====
-- src/backup/mod.rs, `capture_insert_hint`: which rows an INSERT made, noted for a restore that deletes
-- them. Ids are below 2^63, where the code's sums do not overflow.
use sequel_ace_mcp.Prelude.{
  suc, eqb_iff, ℕ, ◌+◌, ◌-◌, ◌≡◌, refl, ap, true, false, Option, none, some, or_else, List, [], ◌∷◌,
  ◌++◌, map, append_assoc, Text, text, ltb, if◌then◌else◌, length,
}
use sequel_ace_mcp.Ssh.Splitting.{display}
use sequel_ace_mcp.Backup.Json.{
  Json, number, string, array, object, items, end, field, as_array, elements,
}
use sequel_ace_mcp.Approval.Canonical.{join}
use sequel_ace_mcp.Backup.Extractor.{
  BackupSpec, SchemaTable, nothing, rows, schema, combined, insert_hint, table_ref_sql, quote_ident,
}
use sequel_ace_mcp.Backup.Capture.{BackupRow, Store, insert_backup_row, Outside}
use sequel_ace_mcp.Backup.Restore.{RestoreDialect}
use sequel_ace_mcp.Backup.Restore.Plan.{
  BackupDetail, Planned, FromText, value, get_backup, plan_restore, tuple, or_empty,
}

abbrev pub arrays : List (List Json) → Json
arrays values = array (items (map (λ row. array (items row)) values))

-- `json!` with the keys in their order.
abbrev pub explicit_pk : List (List Json) → Json
explicit_pk values = object (
    field (text "columns") (array (items (string (text "id") ∷ [])))
      (field (text "kind") (string (text "explicit")) (field (text "values") (arrays values) end)))

abbrev range_pk : ℕ → ℕ → Json
range_pk first last = object (
    field (text "column") (string (text "id")) (
      field (text "end") (number (display last)) (
        field (text "kind") (string (text "range"))
          (field (text "start") (number (display first)) end))))

module _ (outside : Outside) (connection : Text) (database : Option Text) where
  hint_row : SchemaTable → Option Text → Json → ℕ → BackupRow
  hint_row t rows_json pk count = record {
    id = 0;
    connection = connection;
    database = or_else database t.db;
    table_name = t.table;
    backup_kind = text "insert-hint";
    rows_json = rows_json;
    schema_sql = none;
    primary_key = some (outside.print pk);
    row_count = count;
    truncated = false;
    size_bytes = elim rows_json [ none ↦ 0 | some json ↦ outside.byte_len json ];
  }

  -- A failed insertion is no hint.
  abbrev stored : Store → Option (Store × ℕ) → Store × Option ℕ
  stored s none = (s, none)
  stored s (some (t, id)) = (t, some id)

  abbrev ranged : SchemaTable → Option ℕ → ℕ → Store → Store × Option ℕ
  ranged t none affected s = (s, none)
  ranged t (some first) affected s =
      if ltb 0 affected
      then stored s (
          insert_backup_row outside.takes s
            (hint_row t none (range_pk first (first + affected - 1)) affected))
      else (s, none)

  unfoldable pub capture_insert_hint : BackupSpec → Option ℕ → ℕ → Store → Store × Option ℕ
  unfolding hint_row insert_backup_row display
  capture_insert_hint (insert_hint t columns (some [])) insert_id affected s = (s, none)
  capture_insert_hint (insert_hint t columns (some (v ∷ values))) insert_id affected s = stored s (
      insert_backup_row outside.takes s (
        hint_row t (some (outside.print (arrays (v ∷ values)))) (explicit_pk (v ∷ values))
          (length (v ∷ values))))
  capture_insert_hint (insert_hint t columns none) insert_id affected s =
      ranged t insert_id affected s
  capture_insert_hint (nothing reason) insert_id affected s = (s, none)
  capture_insert_hint (rows tables) insert_id affected s = (s, none)
  capture_insert_hint (schema tables) insert_id affected s = (s, none)
  capture_insert_hint (combined tables) insert_id affected s = (s, none)

-- `get_backup` reads these columns.
abbrev pub detail_of : BackupRow → BackupDetail
detail_of r = record {
  id = r.id;
  database = r.database;
  table_name = r.table_name;
  backup_kind = r.backup_kind;
  rows_json = r.rows_json;
  schema_sql = r.schema_sql;
  primary_key = r.primary_key;
  row_count = r.row_count;
  truncated = r.truncated;
}

abbrev pub statements_of : Planned → List Text
statements_of (Planned.ok p) = p.statements
statements_of (Planned.err e) = []

regroup :
    (d y w q i x e : Text) → d ++ y ++ w ++ q ++ i ++ x ++ e ≡ d ++ y ++ (w ++ q ++ i) ++ (x ++ e)
regroup d y w q i x e = simp append_assoc

get_backup-first : (b : BackupDetail) (bs : List BackupDetail) → get_backup (b ∷ bs) b.id ≡ some b
unfolding get_backup
get_backup-first b bs = rw ((eqb_iff b.id b.id).1 refl) refl

module _ (outside : Outside) (connection : Text) (database : Option Text)
    (decode : Text → Option (List ℕ)) (to_string : Json → Text) (from_str : Text → FromText)
    (dialect : RestoreDialect) (t : SchemaTable) (columns : List Text) (v : List Json)
    (values : List (List Json)) (insert_id : Option ℕ) (affected n : ℕ)
    (takes : (r : BackupRow) → outside.takes r ≡ true)
    (parses : from_str (outside.print (explicit_pk (v ∷ values)))
      ≡ value (explicit_pk (v ∷ values))) where
  noted : BackupRow
  noted =
      record (hint_row outside connection database t (some (outside.print (arrays (v ∷ values))))
        (explicit_pk (v ∷ values)) (length (v ∷ values))) { id = suc n }

  abbrev pub after_hint : Store × Option ℕ
  after_hint =
      capture_insert_hint outside connection database (insert_hint t columns (some (v ∷ values)))
        insert_id affected (record { stored = []; last_id = n })

  after_hint_eq : after_hint ≡ (record { stored = noted ∷ []; last_id = suc n }, some (suc n))
  unfolding capture_insert_hint noted
  after_hint_eq = rw (takes _) refl

  plan_noted :
      (rest : Text) × (statements_of
          (plan_restore decode to_string from_str dialect (detail_of noted ∷ []) (suc n))
        ≡ (text "DELETE FROM "
            ++ table_ref_sql (or_else database t.db) t.table
            ++ text " WHERE (`id`) IN ("
            ++ rest)
          ∷ [])
  unfolding plan_restore noted hint_row quote_ident
  plan_noted =
      rw (get_backup-first (detail_of noted) [], parses)
        (
          joined ++ text ");",
          ap (λ s. s ∷ [])
              (regroup (text "DELETE FROM ") (table_ref_sql (or_else database t.db) t.table)
                (text " WHERE (") (quote_ident (text "id")) (text ") IN (") joined (text ");")),
        )
    where
      joined : Text
      joined = join (text ", ") (
          map (λ r. tuple decode to_string from_str dialect (or_empty (as_array r)))
            (elements (items (map (λ row. array (items row)) (v ∷ values)))))

  -- The hint of an INSERT with listed keys restores by the column `id`, whatever columns the INSERT has
  -- and whichever of them holds the keys.
  pub plan_restore-capture_insert_hint :
      (after_hint.1 ≡ some (suc n))
      × ((rest : Text) × (statements_of (
              plan_restore decode to_string from_str dialect
                (map detail_of after_hint.0.stored)
                (suc n))
            ≡ (text "DELETE FROM "
                ++ table_ref_sql (or_else database t.db) t.table
                ++ text " WHERE (`id`) IN ("
                ++ rest)
              ∷ []))
  plan_restore-capture_insert_hint = rw after_hint_eq (refl, plan_noted)
