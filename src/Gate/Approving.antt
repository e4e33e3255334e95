-- ===== src/Gate/Approving.antt =====
-- src/app/gate.rs, `run_sql`: up to the approval.
use sequel_ace_mcp.Prelude.{
  Bool, ◌&&◌, not, Option, none, some, or_else, List, [], ◌∷◌, ◌++◌, Text, if◌then◌else◌,
}
use sequel_ace_mcp.Policy.Model.{SqlCategory, category_eq, PolicyAction, allow, confirm, deny}
use sequel_ace_mcp.Policy.Resolver.{resolve, option_list}
use sequel_ace_mcp.Policy.Classifier
use sequel_ace_mcp.Approval.Canonical.{SessionGrantKey}
use sequel_ace_mcp.Approval.Engine.{grant_once, grant_session, session_covers}
use sequel_ace_mcp.Gate.{
  Connection, Config, resolve_connection, dialect_for, GrantChoice, ConfirmOutcome, chosen,
  ApprovalRequest, ApprovalOutcome, Scope, AuditEntry, World, Gate, RunSqlArgs, GateError,
}
use sequel_ace_mcp.Gate.Snippet.{snippet}
use sequel_ace_mcp.Gate.Stages.{
  resolve_table_ids, Prepared, Preparation, prepared, Note, plain_note, Authorization, granted,
  panicked,
}
use sequel_ace_mcp.Gate.Stages.{stopped}

module _ (w : World) (args : RunSqlArgs) where
  unfoldable pub prepare_on : Config → Connection → Bool → Classifier.Classification → Preparation
  prepare_on cfg conn expect_read_only (Classifier.err e) = stopped (GateError.classify e)
  prepare_on cfg conn expect_read_only (Classifier.ok classified) =
      let fallback = or_else args.database conn.rules.database in
      if expect_read_only && not (category_eq classified.category SqlCategory.read)
      then stopped (GateError.not_read_only classified.category)
      else prepared (record {
        cfg = cfg;
        conn = conn;
        classified = classified;
        fallback = fallback;
        resolution = resolve conn.rules classified fallback;
      })

  -- Load, connection, classification, the read-only test and the resolution.
  unfoldable pub prepare : Bool → Preparation
  unfolding prepare_on
  prepare expect_read_only = elim w.load [
    | none ↦ stopped GateError.config
    | some cfg ↦ elim (resolve_connection cfg args.connection) [
      | none ↦ stopped GateError.no_connection
      | some conn ↦ prepare_on cfg conn expect_read_only (w.classify args.sql (dialect_for conn))
    ]
  ]

  module _ (p : Prepared) where
    abbrev databases_for_log : List Text
    databases_for_log = elim p.classified.target_databases [
      | [] ↦ option_list p.fallback
      | d ∷ ds ↦ d ∷ ds
    ]

    unfoldable pub entry : Note → AuditEntry
    entry n = record {
      connection = p.conn.name;
      databases = databases_for_log;
      category = p.classified.category;
      sql = args.sql;
      decision = p.resolution.action;
      confirmed = n.confirmed;
      outcome = n.outcome;
      approval_scope = n.scope;
      approval_digest = n.digest;
      policy_revision = n.revision;
      error = n.error;
      affected_rows = n.affected_rows;
      backup_id = n.backup_id;
    }

    -- A call of `audit` whose result is only printed.
    unfoldable pub audit : Note → Gate → Gate
    unfolding entry
    audit n s = record s { audited = s.audited ++ entry n ∷ [] }

    abbrev pub session_key : SessionGrantKey
    session_key = record {
      connection = p.conn.name;
      category = p.classified.category;
      tables =
          resolve_table_ids p.fallback [] (p.classified.read_tables ++ p.classified.mutated_tables);
    }

    abbrev first_database : List Text → Option Text
    first_database [] = none
    first_database (d ∷ ds) = some d

    abbrev pub request_for : Text → ApprovalRequest
    request_for shown = record {
      category = p.classified.category;
      statement_snippet = shown;
      connection_name = p.conn.name;
      database = first_database databases_for_log;
      tables = session_key.tables;
    }

    -- The match on the sink's answer.
    unfoldable pub answer : ConfirmOutcome → Gate → Gate × Authorization
    unfolding audit grant_once grant_session
    answer (ConfirmOutcome.unavailable reason) s = (
      audit (record (plain_note ApprovalOutcome.unavailable) { error = some reason }) s,
      stopped (GateError.unavailable p.classified.category reason),
    )
    answer (chosen GrantChoice.decline) s = (
      audit (plain_note ApprovalOutcome.declined) s,
      stopped (GateError.declined p.classified.category),
    )
    answer (chosen GrantChoice.session) s = (
      record s { approvals = (grant_session s.approvals session_key w.grant_at).0 },
      granted (record { scope = some Scope.session; digest = none }),
    )
    answer (chosen GrantChoice.once) s = (
      record s { approvals = (grant_once s.approvals w.digest w.grant_at).0 },
      granted (record { scope = some Scope.once; digest = some w.digest }),
    )

    -- The session grant, else the sink.
    unfoldable pub approve : Gate → Gate × Authorization
    unfolding answer session_covers
    approve s =
        let (approvals, covered) = session_covers s.approvals session_key w.covers_at in
        let s1 : Gate = record s { approvals = approvals } in
        if covered
        then (s1, granted (record { scope = some Scope.session; digest = none }))
        else elim (snippet args.sql) [
          | none ↦ (s1, panicked)
          | some shown ↦ answer (w.confirm (request_for shown)) s1
        ]

    -- The match on the resolved action.
    unfoldable pub authorize : PolicyAction → Gate → Gate × Authorization
    unfolding approve audit
    authorize deny s = (audit (plain_note ApprovalOutcome.denied) s, stopped GateError.denied)
    authorize allow s = (s, granted (record { scope = none; digest = none }))
    authorize confirm s =
        if p.resolution.effective.require_touch_id && not w.touch_id
        then (audit (plain_note ApprovalOutcome.denied) s, stopped GateError.touch_id_failed)
        else approve s
