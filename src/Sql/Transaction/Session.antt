-- ===== src/Sql/Transaction/Session.antt =====
-- src/sql/mysql.rs, `execute_mysql_statement` from START TRANSACTION on: the transaction and the time
-- limit of the session, and then the work. The check for several statements, the checkout of the
-- connection, the new row of the journal and the preflight of a DDL statement are not part of it.
use sequel_ace_mcp.Prelude.{Bool, true, false, if◌then◌else◌}
use sequel_ace_mcp.Backup.Extractor.{is_backup_required}
use sequel_ace_mcp.Sql.Transaction.{
  start_transaction, limit_time, Work, Ran, send, Server, Params, work,
}

-- `MySqlError::ReadOnlyTx`, and `Uncertain` of a write that would be backed up in autocommit.
pub data StartError : Type 0 where
  read_only_tx : StartError
  no_autocommit : StartError

-- Whether the session has a transaction.
pub data Begun : Type 0 where
  begun : (in_tx : Bool) → Begun
  not_begun : StartError → Begun

pub data Ended : Type 0 where
  ended : Ran → Ended
  not_started : StartError → Ended

module _ (server : Server) (p : Params) where
  abbrev pub timed : Work → Work
  timed w = if p.limits_time then send limit_time w else w

  abbrev pub started : Work → Work
  started w = send (start_transaction p.is_read) w

  -- START TRANSACTION, and what follows where it fails.
  unfoldable pub begin : Work → Work × Begun
  begin w =
      if p.is_tx_ctrl
      then (w, begun false)
      else if server.starts
      then (timed (started w), begun true)
      else if p.is_read
      then (started w, not_begun read_only_tx)
      else if is_backup_required p.ast_type
      then (started w, not_begun no_autocommit)
      else (timed (started w), begun false)

  -- The result of the work.
  abbrev pub with_result : Work × Ran → Work × Ended
  with_result (w, r) = (w, ended r)

  abbrev pub after_begin : Work × Begun → Work × Ended
  after_begin (w, not_begun e) = (w, not_started e)
  after_begin (w, begun in_tx) = with_result (work server (record p { in_tx = in_tx }) w)

  unfoldable pub execute_mysql_statement : Work → Work × Ended
  execute_mysql_statement w = after_begin (begin w)
