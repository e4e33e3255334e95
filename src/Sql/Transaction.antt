-- ===== src/Sql/Transaction.antt =====
-- src/sql/mysql.rs, `run_in_transaction` and what `execute_mysql_statement` does around it: the backup,
-- the statement, COMMIT or ROLLBACK, and the journal's row. What the server answers, and what a
-- capture does, are arguments.
pub mod Session
pub mod Backing
pub mod States
pub mod Order
pub mod Sending
use sequel_ace_mcp.Prelude.{
  ℕ, Bool, true, false, ◌&&◌, Option, none, some, List, [], ◌∷◌, ◌++◌, Text, text, if◌then◌else◌,
  unwrap_or,
}
use sequel_ace_mcp.Backup.Journal.{
  Journal, JournalState, backup_capturing, backup_durable, mutation_executing, mutation_committed,
  uncertain, failed, transition, link_backup,
}
use sequel_ace_mcp.Backup.Journal
use sequel_ace_mcp.Backup.Capture.{Store, CapturedBackup, CaptureError, Captured}
use sequel_ace_mcp.Backup.Capture
use sequel_ace_mcp.Backup.Extractor.{
  BackupSpec, nothing, rows, schema, combined, insert_hint, is_backup_required,
}
use sequel_ace_mcp.Backup.Extractor.Specs.{Extracted, parse_error, panicked}
use sequel_ace_mcp.Backup.Extractor.Specs

-- What goes to the server: `SET SESSION` with the time limit, and, as one, the queries of a capture.
pub data Sent : Type 0 where
  start_transaction : (read_only : Bool) → Sent
  limit_time : Sent
  queries : BackupSpec → Sent
  statement : Text → Sent
  commit : Sent
  rollback : Sent

pub record Work : Type 0 where
  pub journal : Journal
  pub store : Store
  pub sent : List Sent

-- What `collect_result` gives within the deadline, or that the deadline passed.
pub data Answer : Type 0 where
  answered : (affected : ℕ) → (insert_id : Option ℕ) → Answer
  refused : (message : Text) → Answer
  timed_out : Answer

pub data MysqlError : Type 0 where
  backup_failed : MysqlError
  driver : (message : Text) → MysqlError
  timeout : MysqlError
  commit_failed : MysqlError
  panic : MysqlError

-- Of the result, its rows and texts are left out.
pub record ExecuteResult : Type 0 where
  pub affected_rows : ℕ
  pub backup_id : Option ℕ
  pub backup_row_count : ℕ

pub data Ran : Type 0 where
  ok : ExecuteResult → Ran
  err : MysqlError → Ran

abbrev pub journal_or : Journal.Result → Journal → Journal
journal_or (Journal.ok after) before = after
journal_or (Journal.err e) before = before

-- `let _ = j.transition(…)`, where there is a journal.
unfoldable pub note : Option ℕ → JournalState → Option Text → Work → Work
note none to detail w = w
note (some id) to detail w = record w {
  journal = journal_or (transition w.journal id to detail) w.journal;
}

abbrev pub send : Sent → Work → Work
send e w = record w { sent = w.sent ++ e ∷ [] }

abbrev pub link : Option ℕ → ℕ → Work → Work
link none backup w = w
link (some id) backup w = record w { journal = link_backup w.journal id backup }

-- What is outside: whether START TRANSACTION succeeds, the query's own answer, whether COMMIT
-- succeeds, the extraction of the effective statement, the two captures, and the time hint.
pub record Server : Type 0 where
  pub starts : Bool
  pub answer : Text → Answer
  pub commits : Bool
  pub extract : Text → Extracted
  pub capture : BackupSpec → Store → Store × Captured
  pub hint : BackupSpec → Option ℕ → ℕ → Store → Store × Option ℕ
  pub hinted : Text → Text

-- `effective_sql` is the rewritten DROP or the statement as it came; `limits_time` says whether
-- `stmt_timeout_ms` is positive, and `in_tx` whether a transaction was started.
pub record Params : Type 0 where
  pub effective_sql : Text
  pub ast_type : Text
  pub is_tx_ctrl : Bool
  pub is_read : Bool
  pub limits_time : Bool
  pub journal : Option ℕ
  pub ddl_detail : Option Text
  pub in_tx : Bool

-- The backup in hand: its id and rows, and the hint that waits for the INSERT.
pub record Prepared : Type 0 where
  pub backup_id : Option ℕ
  pub backup_row_count : ℕ
  pub pending_insert : Option BackupSpec

abbrev pub unprepared : Prepared
unprepared = record { backup_id = none; backup_row_count = 0; pending_insert = none }

pub data Preparation : Type 0 where
  ready : Prepared → Preparation
  stopped : MysqlError → Preparation

module _ (server : Server) (p : Params) where
  abbrev pub captured : Store × Captured → Work → Work × Preparation
  captured (store, Capture.err e) w = (record w { store = store }, stopped backup_failed)
  captured (store, Capture.ok none) w = (record w { store = store }, ready unprepared)
  captured (store, Capture.ok (some c)) w = (
    note p.journal backup_durable none (link p.journal c.backup_id (record w { store = store })),
    ready (record {
      backup_id = some c.backup_id;
      backup_row_count = c.total_rows;
      pending_insert = none;
    }),
  )

  abbrev pub with_spec : BackupSpec → Work → Work × Preparation
  with_spec (nothing reason) w = (w, ready unprepared)
  with_spec (insert_hint t columns values) w =
      (w, ready (record unprepared { pending_insert = some (insert_hint t columns values) }))
  with_spec (rows tables) w =
      captured (server.capture (rows tables) w.store) (send (queries (rows tables)) w)
  with_spec (schema tables) w =
      captured (server.capture (schema tables) w.store) (send (queries (schema tables)) w)
  with_spec (combined tables) w =
      captured (server.capture (combined tables) w.store) (send (queries (combined tables)) w)

  abbrev pub extracted : Extracted → Work → Work × Preparation
  extracted (Specs.ok spec) w = with_spec spec w
  extracted (parse_error message) w = (w, stopped backup_failed)
  extracted panicked w = (w, stopped panic)

  -- The backup before the mutation.
  unfoldable pub prepare : Work → Work × Preparation
  unfolding is_backup_required
  prepare w =
      if is_backup_required p.ast_type
      then extracted (server.extract p.effective_sql) w
      else (w, ready unprepared)

  abbrev pub with_hint : ℕ → Work → Prepared → Store × Option ℕ → Work × Ran
  with_hint affected w b (store, none) = (
    record w { store = store },
    ok (record {
      affected_rows = affected;
      backup_id = b.backup_id;
      backup_row_count = b.backup_row_count;
    }),
  )
  with_hint affected w b (store, some id) = (
    record w { store = store },
    ok (record { affected_rows = affected; backup_id = some id; backup_row_count = affected }),
  )

  abbrev pub finished : Answer → Prepared → Work → Work × Ran
  finished (refused message) b w = (w, err (driver message))
  finished timed_out b w = (w, err timeout)
  finished (answered affected insert_id) b w = elim b.pending_insert [
    | none ↦ with_hint affected w b (w.store, none)
    | some spec ↦ with_hint affected w b (server.hint spec insert_id affected w.store)
  ]

  abbrev pub sql : Text
  sql = if p.is_read && p.limits_time then server.hinted p.effective_sql else p.effective_sql

  abbrev pub executed : Work × Preparation → Work × Ran
  executed (w, stopped e) = (w, err e)
  executed (w, ready b) =
      finished (server.answer sql) b
        (send (statement sql) (note p.journal mutation_executing none w))

  unfoldable pub run_in_transaction : Work → Work × Ran
  unfolding prepare note
  run_in_transaction w = executed (prepare (note p.journal backup_capturing p.ddl_detail w))

  abbrev pub in_transaction : Sent → Work → Work
  in_transaction e w = if p.in_tx then send e w else w

  -- The end of the work: a panic unwinds past it.
  abbrev pub closed : Work × Ran → Work × Ran
  closed (w, ok value) =
      if p.in_tx
      then if server.commits
        then (note p.journal mutation_committed none (send commit w), ok value)
        else (
          note p.journal uncertain (some (text "COMMIT failed")) (send rollback (send commit w)),
          err commit_failed,
        )
      else (note p.journal mutation_committed none w, ok value)
  closed (w, err panic) = (w, err panic)
  closed (w, err e) =
      (note p.journal failed (some (text "error")) (in_transaction rollback w), err e)

  unfoldable pub work : Work → Work × Ran
  unfolding run_in_transaction
  work w = closed (run_in_transaction w)
