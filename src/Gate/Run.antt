-- ===== src/Gate/Run.antt =====
-- src/app/gate.rs, `run_sql`: after the approval, and the whole.
use sequel_ace_mcp.Prelude.{
  ℕ, Bool, Option, none, some, List, [], ◌∷◌, ◌++◌, Text, text, eqb, if◌then◌else◌,
}
use sequel_ace_mcp.Policy.Model.{confirm, action_eq}
use sequel_ace_mcp.Policy.Resolver.{resolve}
use sequel_ace_mcp.Approval.Engine
use sequel_ace_mcp.Approval.Engine.{
  Consumption, grant_once, consume_once, grant_session, session_covers,
}
use sequel_ace_mcp.Gate.{
  Ssh, sqlite, mysql, Connection, Config, resolve_connection, ApprovalOutcome, ExecuteResult,
  Executed, World, Gate, RunSqlArgs, GateError, Outcome, ran, refused,
}
use sequel_ace_mcp.Gate.Stages.{
  Prepared, Preparation, prepared, Note, plain_note, Grant, Authorization, granted, panicked,
  Dialled, ready, missing_password, tunnel_failed,
}
use sequel_ace_mcp.Gate.Approving.{prepare, entry, audit, authorize}
use sequel_ace_mcp.Gate.Stages.{stopped}

module _ (w : World) (args : RunSqlArgs) where
  module _ (p : Prepared) where
    -- A later audit call carries the grant and a revision.
    abbrev pub granted_note : Grant → ApprovalOutcome → ℕ → Note
    granted_note g outcome revision = record (plain_note outcome) {
      scope = g.scope;
      digest = g.digest;
      revision = some revision;
    }

    -- The check on the connection of the second read, where the revision has changed.
    unfoldable pub revalidate_on : Grant → Config → Connection → Gate → Gate × Option GateError
    revalidate_on g cfg2 conn2 s =
        if action_eq (resolve conn2.rules p.classified p.fallback).action p.resolution.action
        then (s, none)
        else (
          audit w args p (granted_note g ApprovalOutcome.denied cfg2.revision) s,
          some GateError.policy_changed,
        )

    -- The policy may have changed since the resolution.
    unfoldable pub revalidate : Grant → Gate → Gate × Option GateError
    unfolding revalidate_on audit
    revalidate g s = elim w.reload [
      | none ↦ (s, some GateError.config)
      | some cfg2 ↦
          if eqb cfg2.revision p.cfg.revision
          then (s, none)
          else elim (resolve_connection cfg2 args.connection) [
            | none ↦ (s, some GateError.no_connection)
            | some conn2 ↦ revalidate_on g cfg2 conn2 s
          ]
    ]

    abbrev pub consumption_error : Consumption → Option GateError
    consumption_error (Engine.ok _) = none
    consumption_error (Engine.err _) = some GateError.expired

    -- The one-time approval is used up before execution.
    unfoldable pub consume : Grant → Gate → Gate × Option GateError
    unfolding consume_once
    consume g s = elim g.digest [
      | none ↦ (s, none)
      | some d ↦
          let (approvals, c) = consume_once s.approvals d w.consume_at in
          (record s { approvals = approvals }, consumption_error c)
    ]

    -- The password, the SSH secret and the tunnel of a MySQL connection.
    dial_ssh : Text → Option Ssh → Dialled
    dial_ssh name none = ready
    dial_ssh name (some ssh) = elim (w.get_password (name ++ text "::ssh") ssh.user) [
      | some _ ↦ elim w.tunnel [ none ↦ ready | some e ↦ tunnel_failed (text "ssh tunnel: " ++ e) ]
      | none ↦
          if ssh.key_auth
          then elim w.tunnel [ none ↦ ready | some e ↦ tunnel_failed (text "ssh tunnel: " ++ e) ]
          else missing_password (name ++ text "::ssh")
    ]

    unfoldable pub dial : Dialled
    unfolding dial_ssh
    dial = elim p.conn.driver [
      | sqlite ↦ ready
      | mysql user ssh ↦ elim (w.get_password p.conn.name user) [
        | none ↦ missing_password p.conn.name
        | some _ ↦ dial_ssh p.conn.name ssh
      ]
    ]

    is_confirmed : Bool
    is_confirmed = action_eq p.resolution.action confirm

    abbrev audit_warning : Option ℕ → List Text
    audit_warning none = text "audit-write-failed" ∷ []
    audit_warning (some _) = []

    -- A journal is closed only over an audit row that was written.
    abbrev closed_journal : Option ℕ → Option ℕ → List (ℕ × ℕ)
    closed_journal (some row) (some journal) = (journal, row) ∷ []
    closed_journal _ _ = []

    success_note : Grant → ExecuteResult → Note
    unfolding is_confirmed
    success_note g r = record (granted_note g ApprovalOutcome.approved p.cfg.revision) {
      confirmed = is_confirmed;
      affected_rows = some r.affected_rows;
      backup_id = r.backup_id;
    }

    -- After the executor: the audit entry, and on success the journal.
    unfoldable pub finish : Grant → Executed → Gate → Gate × Outcome
    unfolding audit success_note
    finish g (Executed.ok r) s =
        let row = w.write_audit (entry w args p (success_note g r)) in
        (
          record (audit w args p (success_note g r) s) {
            finalized = s.finalized ++ closed_journal row r.journal_id;
          },
          ran (record {
            category = p.classified.category;
            resolution = p.resolution;
            affected_rows = r.affected_rows;
            backup_id = r.backup_id;
            warnings = r.warnings ++ audit_warning row;
          }),
        )
    finish g (Executed.err message) s = (
      audit w args p
          (record (granted_note g ApprovalOutcome.execution_error p.cfg.revision) {
            confirmed = action_eq p.resolution.action confirm;
            error = some message;
          })
          s,
      refused (GateError.execution message),
    )

    -- Execution, with the limits of the first resolution.
    unfoldable pub perform : Grant → Dialled → Gate → Gate × Outcome
    unfolding finish
    perform g (missing_password name) s = (
      audit w args p (granted_note g ApprovalOutcome.denied p.cfg.revision) s,
      refused (GateError.no_password name),
    )
    perform g (tunnel_failed message) s = (
      audit w args p
          (record (granted_note g ApprovalOutcome.execution_error p.cfg.revision) {
            error = some message;
          })
          s,
      refused (GateError.execution message),
    )
    perform g ready s =
        let effective = p.resolution.effective in
        finish g (w.execute args.sql effective)
          (record s { executed = s.executed ++ (args.sql, effective) ∷ [] })

    -- An error ends the pipeline.
    abbrev pub unless : Option GateError → Gate × Outcome → Gate → Gate × Outcome
    unless none next s = next
    unless (some e) next s = (s, refused e)

    unfoldable pub proceed : Grant → Gate → Gate × Outcome
    unfolding revalidate consume perform dial
    proceed g s =
        let (s1, changed) = revalidate g s in
        unless changed (let (s2, lapsed) = consume g s1 in unless lapsed (perform g dial s2) s2) s1

    abbrev pub continue : Gate × Authorization → Gate × Outcome
    unfolding proceed
    continue (s, granted g) = proceed g s
    continue (s, stopped e) = (s, refused e)
    continue (s, panicked) = (s, Outcome.panicked)

  unfoldable pub run_prepared : Preparation → Gate → Gate × Outcome
  unfolding authorize proceed
  run_prepared (stopped e) s = (s, refused e)
  run_prepared (prepared p) s = continue p (authorize w args p p.resolution.action s)

  unfoldable pub run_sql : Bool → Gate → Gate × Outcome
  unfolding prepare run_prepared
  run_sql expect_read_only s = run_prepared (prepare w args expect_read_only) s
