-- ===== src/Gate.antt =====
-- src/app/gate.rs: the one pipeline that every statement goes through, and what it reads and does.
pub mod Stages
pub mod Approving
pub mod Run
pub mod Authorized
pub mod Permitted
pub mod Audited
pub mod Snippet
mod Tests
use sequel_ace_mcp.Prelude.{
  ℕ, Bool, true, false, Option, none, some, List, [], ◌∷◌, ◌++◌, Text, text, ◌==◌, if◌then◌else◌,
}
use sequel_ace_mcp.Policy.Model.{SqlCategory, PolicyAction, Policy}
use sequel_ace_mcp.Policy.RuleKey.{TableId}
use sequel_ace_mcp.Policy.Resolver
use sequel_ace_mcp.Policy.Resolver.{Resolution}
use sequel_ace_mcp.Policy.Classifier.{Classification, ClassifyError, Dialect}
use sequel_ace_mcp.Approval.Engine.{ApprovalEngine}

-- What the gate reads of an SSH configuration.
pub record Ssh : Type 0 where
  pub user : Text
  pub key_auth : Bool

pub data Driver : Type 0 where
  sqlite : Driver
  mysql : (user : Text) → Option Ssh → Driver

pub record Connection : Type 0 where
  pub name : Text
  pub driver : Driver
  pub rules : Resolver.Connection

pub record Config : Type 0 where
  pub revision : ℕ
  pub connections : List Connection
  pub default_connection : Option Text

-- `Config::get`.
unfoldable pub get : List Connection → Text → Option Connection
get [] name = none
get (c ∷ cs) name = if c.name == name then some c else get cs name

-- `Config::resolve`.
unfoldable pub resolve_connection : Config → Option Text → Option Connection
unfolding get
resolve_connection cfg (some name) = get cfg.connections name
resolve_connection cfg none = elim cfg.default_connection [
  | none ↦ none
  | some name ↦ get cfg.connections name
]

abbrev pub dialect_for : Connection → Dialect
dialect_for conn = elim conn.driver [ sqlite ↦ Dialect.sqlite | mysql _ _ ↦ Dialect.mysql ]

pub data GrantChoice : Type 0 where
  once session decline : GrantChoice

pub data ConfirmOutcome : Type 0 where
  chosen : GrantChoice → ConfirmOutcome
  unavailable : (reason : Text) → ConfirmOutcome

pub record ApprovalRequest : Type 0 where
  pub category : SqlCategory
  pub statement_snippet : Text
  pub connection_name : Text
  pub database : Option Text
  pub tables : List TableId

-- src/approval/outcomes.rs.
pub data ApprovalOutcome : Type 0 where
  approved declined cancelled unavailable expired denied execution_error : ApprovalOutcome

pub data Scope : Type 0 where
  once session : Scope

-- An audit entry, less the request's id, the syntax type and the duration, which are only copied.
pub record AuditEntry : Type 0 where
  pub connection : Text
  pub databases : List Text
  pub category : SqlCategory
  pub sql : Text
  pub decision : PolicyAction
  pub confirmed : Bool
  pub outcome : ApprovalOutcome
  pub approval_scope : Option Scope
  pub approval_digest : Option Text
  pub policy_revision : Option ℕ
  pub error : Option Text
  pub affected_rows : Option ℕ
  pub backup_id : Option ℕ

-- What the gate reads of an executor's result.
pub record ExecuteResult : Type 0 where
  pub affected_rows : ℕ
  pub backup_id : Option ℕ
  pub journal_id : Option ℕ
  pub warnings : List Text

pub data Executed : Type 0 where
  ok : ExecuteResult → Executed
  err : (message : Text) → Executed

-- What lies outside: the two reads of the configuration (`none` is an error), the classifier, Touch
-- ID, the approval sink, the operation digest with its fresh nonce, the clock at three calls, the
-- audit database (`none` is a failed write), the secret store, the tunnel (`some` is its error) and
-- the executors.
pub record World : Type 0 where
  pub load : Option Config
  pub reload : Option Config
  pub classify : Text → Dialect → Classification
  pub touch_id : Bool
  pub confirm : ApprovalRequest → ConfirmOutcome
  pub digest : Text
  pub covers_at : ℕ
  pub grant_at : ℕ
  pub consume_at : ℕ
  pub write_audit : AuditEntry → Option ℕ
  pub get_password : Text → Text → Option Text
  pub tunnel : Option Text
  pub execute : Text → Policy → Executed

-- What the gate changes: the approvals, and the record of its audit writes (failed ones too), of
-- the statements that it hands to an executor, and of the journals that it closes.
pub record Gate : Type 0 where
  pub approvals : ApprovalEngine
  pub audited : List AuditEntry
  pub executed : List (Text × Policy)
  pub finalized : List (ℕ × ℕ)

pub record RunSqlArgs : Type 0 where
  pub connection : Option Text
  pub sql : Text
  pub database : Option Text

pub data GateError : Type 0 where
  no_connection : GateError
  classify : ClassifyError → GateError
  not_read_only : SqlCategory → GateError
  denied policy_changed touch_id_failed : GateError
  declined : SqlCategory → GateError
  unavailable : SqlCategory → (reason : Text) → GateError
  expired : GateError
  execution : (message : Text) → GateError
  no_password : (name : Text) → GateError
  config : GateError

-- The outcome, less the rows and the other fields that are only copied from the executor's result.
pub record RunOutcome : Type 0 where
  pub category : SqlCategory
  pub resolution : Resolution
  pub affected_rows : ℕ
  pub backup_id : Option ℕ
  pub warnings : List Text

pub data Outcome : Type 0 where
  ran : RunOutcome → Outcome
  refused : GateError → Outcome
  panicked : Outcome
