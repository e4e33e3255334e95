-- ===== src/Gate/Audited.antt =====
-- What a run adds to the audit log, by its outcome.
use sequel_ace_mcp.Prelude.{◌≡◌, Option, none, some, [], ◌∷◌, ◌++◌}
use sequel_ace_mcp.Policy.Classifier
use sequel_ace_mcp.Approval.Engine
use sequel_ace_mcp.Gate.{
  World, Gate, AuditEntry, ApprovalOutcome, RunSqlArgs, GateError, Outcome, ran, refused,
}
use sequel_ace_mcp.Gate.Stages.{prepared, Preparation, granted, Authorization}
use sequel_ace_mcp.Gate.Stages

-- The approval outcome that is recorded of an error.
abbrev pub recorded_error : GateError → Option ApprovalOutcome
recorded_error GateError.denied = some ApprovalOutcome.denied
recorded_error GateError.policy_changed = some ApprovalOutcome.denied
recorded_error GateError.touch_id_failed = some ApprovalOutcome.denied
recorded_error (GateError.no_password n) = some ApprovalOutcome.denied
recorded_error (GateError.declined c) = some ApprovalOutcome.declined
recorded_error (GateError.unavailable c r) = some ApprovalOutcome.unavailable
recorded_error (GateError.execution m) = some ApprovalOutcome.execution_error
recorded_error _ = none

abbrev pub recorded : Outcome → Option ApprovalOutcome
recorded (ran r) = some ApprovalOutcome.approved
recorded (refused e) = recorded_error e
recorded Outcome.panicked = none

abbrev recorded_authorization : Authorization → Option ApprovalOutcome
recorded_authorization (granted g) = none
recorded_authorization (Stages.Authorization.stopped e) = recorded_error e
recorded_authorization Stages.panicked = none

abbrev recorded_check : Option GateError → Option ApprovalOutcome
recorded_check none = none
recorded_check (some e) = recorded_error e

module _ (w : World) (args : RunSqlArgs) where
  -- No entry is added, or one with the statement and this outcome.
  abbrev pub Adds : Gate → Gate → Option ApprovalOutcome → Type 0
  Adds s s' none = s'.audited ≡ s.audited
  Adds s s' (some o) =
      (e : AuditEntry) × (s'.audited ≡ s.audited ++ e ∷ []) × (e.outcome ≡ o) × (e.sql ≡ args.sql)

abbrev recorded_preparation : Preparation → Option ApprovalOutcome
recorded_preparation (prepared p) = none
recorded_preparation (Stages.Preparation.stopped e) = recorded_error e
