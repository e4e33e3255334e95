-- ===== src/Backup/Capture/Caps.antt =====
-- Which of the policy's caps hold of the rows that a capture stores.
use sequel_ace_mcp.Prelude.{
  ℕ, zero, suc, ◌+◌, ◌≤◌, ◌≡◌, inl, inr, refl, Bool, true, false, Option, none, some, List, [], ◌∷◌,
  Text, length, All, All-append, Bool-cases, arith,
}
use sequel_ace_mcp.Policy.Model.{Policy, abort}
use sequel_ace_mcp.Backup.Json.{Json, object, end}
use sequel_ace_mcp.Backup.Extractor.{
  BackupTable, SchemaTable, BackupSpec, nothing, rows, schema, combined, insert_hint,
}
use sequel_ace_mcp.Backup.Extractor.Limits.{with_limit}
use sequel_ace_mcp.Backup.Capture.{
  BackupRow, Store, insert_backup_row, CaptureError, Captured, err, Row, row, broken, Fetched,
  query_failed, no_result_set, streamed, Collected, collected, broke, with_row, object_of, collect,
  overflow, Totals, no_totals, Round, next, stop, Outside, store_rows, stored_round, json_text,
}
use sequel_ace_mcp.Backup.Capture.Drivers.{
  Driver, sqlite_round, sqlite_query, sqlite_fetched, sqlite_collected, each_table, schema_row,
  schema_round, capture_backup_sqlite,
}

-- A row of backups: no more rows of the table than the cap, and just as many if it is truncated; and,
-- where an overflow aborts, it is not truncated and has no more bytes than the cap.
pub record IsWithin (policy : Policy) (r : BackupRow) : Type 0 where
  pub few : r.row_count ≤ policy.max_backup_rows
  pub full : r.truncated ≡ true → r.row_count ≡ policy.max_backup_rows
  pub whole : policy.on_backup_overflow ≡ abort → r.truncated ≡ false
  pub small : policy.on_backup_overflow ≡ abort → r.size_bytes ≤ policy.max_backup_bytes

-- What was collected has room, and fills it if it is cut off.
abbrev Fits : ℕ → Collected → Type 0
Fits n (collected vs truncated) = (length vs ≤ n) × (truncated ≡ true → length vs ≡ n)
Fits n (broke message) = Unit

with_row-Fits : (v : Json) (c : Collected) (n : ℕ) → Fits n c → Fits (suc n) (with_row v c)
with_row-Fits v (collected vs truncated) n (few, full) = (omega arith, λ e. omega (arith, full e))
with_row-Fits v (broke message) n h = tt

collect-Fits :
    {V : Type 0} (to_json : V → Json) (room : ℕ) (columns : List Text) (stream : List (Row V))
    → Fits room (collect to_json room columns stream)
unfolding collect
collect-Fits to_json room columns [] = (omega arith, λ e. cc)
collect-Fits to_json room columns (broken message ∷ stream) = tt
collect-Fits to_json zero columns (row values ∷ stream) = (omega arith, λ e. refl)
collect-Fits to_json (suc room) columns (row values ∷ stream) =
    with_row-Fits (object (object_of to_json columns values end))
      (collect to_json room columns stream) room (collect-Fits to_json room columns stream)

-- Where no check stopped it, a row whose overflow aborts is whole and small.
overflow-none :
    (policy : Policy) (truncated : Bool) (bytes : ℕ)
    → overflow policy truncated bytes ≡ none
    → policy.on_backup_overflow ≡ abort
    → (truncated ≡ false) × (bytes ≤ policy.max_backup_bytes)
unfolding overflow
overflow-none policy truncated bytes h a = ground arith

module _ (outside : Outside) (policy : Policy) (connection : Text) where
  insert-IsWithin :
      (s : Store) (r : BackupRow) (totals : Totals) (count : ℕ) (truncated : Bool) (bytes : ℕ)
      → IsWithin policy r
      → All (IsWithin policy) s.stored
      → All
          (IsWithin policy)
          (stored_round s totals count truncated bytes
            (insert_backup_row outside.takes s r)).0.stored
  unfolding insert_backup_row
  insert-IsWithin s r totals count truncated bytes h a = elim (Bool-cases (outside.takes r)) [
    | inl t ↦ rw t (
        All-append (IsWithin policy) s.stored _ a
          (record { few = h.few; full = h.full; whole = h.whole; small = h.small }, tt))
    | inr f ↦ rw f a
  ]

  store_rows-IsWithin :
      (database : Option Text) (name kind : Text) (rows_json schema_sql : Option Text) (count : ℕ)
      (truncated : Bool) (bytes : ℕ) (totals : Totals) (s : Store) (o : Option CaptureError)
      → (count ≤ policy.max_backup_rows) × (truncated ≡ true → count ≡ policy.max_backup_rows)
      → overflow policy truncated bytes ≡ o
      → All (IsWithin policy) s.stored
      → All
          (IsWithin policy)
          (store_rows outside policy connection database name kind rows_json schema_sql count
            truncated bytes totals s o).0.stored
  store_rows-IsWithin database name kind rows_json schema_sql count truncated bytes totals s
        (some e) fits h a =
      a
  store_rows-IsWithin database name kind rows_json schema_sql count truncated bytes totals s none
        fits h a =
      insert-IsWithin s _ totals count truncated bytes
        (record {
          few = fits.0;
          full = fits.1;
          whole = λ e. (overflow-none policy truncated bytes h e).0;
          small = λ e. (overflow-none policy truncated bytes h e).1;
        })
        a

  sqlite_collected-IsWithin :
      {V : Type 0} (driver : Driver V) (database : Option Text) (is_combined : Bool)
      (t : BackupTable) (totals : Totals) (s : Store) (c : Collected)
      → Fits policy.max_backup_rows c
      → All (IsWithin policy) s.stored
      → All
          (IsWithin policy)
          (sqlite_collected outside driver policy connection database is_combined t totals s
            c).0.stored
  sqlite_collected-IsWithin driver database is_combined t totals s (broke message) fits a = a
  sqlite_collected-IsWithin driver database is_combined t totals s (collected out truncated) fits
        a =
      store_rows-IsWithin database t.table _ (json_text outside policy connection out) _
        (length out) truncated _ totals s _ fits refl a

  sqlite_round-IsWithin :
      {V : Type 0} (driver : Driver V) (database : Option Text) (is_combined : Bool)
      (t : BackupTable) (totals : Totals) (s : Store)
      → All (IsWithin policy) s.stored
      → All
          (IsWithin policy)
          (sqlite_round outside driver policy connection database is_combined t totals s).0.stored
  unfolding sqlite_round
  sqlite_round-IsWithin {V} driver database is_combined t totals s a =
      queried (with_limit t.select_sql (policy.max_backup_rows + 1))
    where
      fetched :
          (f : Fetched V)
          → All
              (IsWithin policy)
              (sqlite_fetched outside driver policy connection database is_combined t totals s
                f).0.stored
      fetched (query_failed message) = a
      fetched no_result_set =
          sqlite_collected-IsWithin driver database is_combined t totals s (collected [] false)
            (omega arith, λ e. cc) a
      fetched (streamed columns stream) =
          sqlite_collected-IsWithin driver database is_combined t totals s _
            (collect-Fits driver.to_json policy.max_backup_rows columns stream) a

      queried :
          (o : Option Text)
          → All
              (IsWithin policy)
              (sqlite_query outside driver policy connection database is_combined t totals s
                o).0.stored
      queried none = a
      queried (some capped) = fetched (driver.query capped)

  -- What is left of the loop behind a round.
  abbrev rest_of : (Totals → Store → Store × Captured) → Store × Round → Store × Captured
  rest_of go_on (s, r) = elim r [ stop e ↦ (s, err e) | next totals ↦ go_on totals s ]

  rest_of-IsWithin :
      (go_on : Totals → Store → Store × Captured) (r : Store × Round)
      → ((totals : Totals) (s : Store)
          → All (IsWithin policy) s.stored
          → All (IsWithin policy) (go_on totals s).0.stored)
      → All (IsWithin policy) r.0.stored
      → All (IsWithin policy) (rest_of go_on r).0.stored
  rest_of-IsWithin go_on (s, stop e) f a = a
  rest_of-IsWithin go_on (s, next totals) f a = f totals s a

  each_table-IsWithin :
      {T : Type 0} (round : T → Totals → Store → Store × Round)
      → ((t : T) (totals : Totals) (s : Store)
          → All (IsWithin policy) s.stored
          → All (IsWithin policy) (round t totals s).0.stored)
      → (tables : List T) (totals : Totals) (s : Store) → All (IsWithin policy) s.stored
      → All (IsWithin policy) (each_table round tables totals s).0.stored
  unfolding each_table
  each_table-IsWithin round keep [] totals s a = a
  each_table-IsWithin round keep (t ∷ tables) totals s a =
      rest_of-IsWithin (each_table round tables) (round t totals s)
        (each_table-IsWithin round keep tables) (keep t totals s a)

  schema_row-IsWithin :
      {V : Type 0} (driver : Driver V) (database : Option Text) (name : Text) (sql : Option Text)
      → IsWithin policy (schema_row outside driver policy connection database name sql)
  unfolding schema_row
  schema_row-IsWithin driver database name sql = record {
    few = omega arith;
    full = λ e. cc;
    whole = λ e. refl;
    small = λ e. omega arith;
  }

  schema_round-IsWithin :
      {V : Type 0} (driver : Driver V) (database : Option Text) (bytes : ℕ)
      (show : SchemaTable → Option Text) (t : SchemaTable) (totals : Totals) (s : Store)
      → All (IsWithin policy) s.stored
      → All
          (IsWithin policy)
          (schema_round outside driver policy connection database bytes show t totals s).0.stored
  unfolding schema_round
  schema_round-IsWithin driver database bytes show t totals s a =
      insert-IsWithin s _ totals 0 false bytes
        (schema_row-IsWithin driver database t.table (show t)) a

  -- Every row that an SQLite capture stores holds at most `max_backup_rows` rows of its table, and just that
  -- many if it is truncated; and where the policy aborts on an overflow, it is not truncated and has
  -- at most `max_backup_bytes` bytes. Where the policy truncates, nothing is said of its bytes. This
  -- holds whether the capture succeeds or not, and the rows stored before stay as they were within it.
  pub capture_backup_sqlite-IsWithin :
      {V : Type 0} (driver : Driver V) (database : Option Text) (spec : BackupSpec) (s : Store)
      → All (IsWithin policy) s.stored
      → All
          (IsWithin policy)
          (capture_backup_sqlite outside driver policy connection database spec s).0.stored
  unfolding capture_backup_sqlite
  capture_backup_sqlite-IsWithin driver database (nothing reason) s a = a
  capture_backup_sqlite-IsWithin driver database (insert_hint t columns values) s a = a
  capture_backup_sqlite-IsWithin driver database (schema tables) s a =
      each_table-IsWithin _ (schema_round-IsWithin driver database _ _) tables no_totals s a
  capture_backup_sqlite-IsWithin driver database (rows tables) s a =
      each_table-IsWithin _ (sqlite_round-IsWithin driver database false) tables no_totals s a
  capture_backup_sqlite-IsWithin driver database (combined tables) s a =
      each_table-IsWithin _ (sqlite_round-IsWithin driver database true) tables no_totals s a
