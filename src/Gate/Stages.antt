-- ===== src/Gate/Stages.antt =====
-- src/app/gate.rs: what the stages of `run_sql` hand on to each other.
use sequel_ace_mcp.Prelude.{
  ℕ, Bool, false, Option, none, some, or_else, List, [], ◌∷◌, ◌++◌, Text, if◌then◌else◌, any,
}
use sequel_ace_mcp.Policy.RuleKey.{TableId, table_eq}
use sequel_ace_mcp.Policy.Statement.{TableRef, ClassifiedStatement}
use sequel_ace_mcp.Policy.Resolver.{Resolution}
use sequel_ace_mcp.Gate.{Connection, Config, ApprovalOutcome, Scope, GateError}

-- `resolve_table_ids`: the tables with a known database, each once.
unfoldable pub resolve_table_ids : Option Text → List TableId → List TableRef → List TableId
resolve_table_ids fallback out [] = out
resolve_table_ids fallback out (t ∷ ts) =
    resolve_table_ids fallback
      (elim (or_else t.database fallback) [
        | none ↦ out
        | some db ↦
            let id : TableId = record { database = db; table = t.table } in
            if any (λ u. table_eq u id) out then out else out ++ id ∷ []
      ])
      ts

-- What the first stages establish of a statement.
pub record Prepared : Type 0 where
  pub cfg : Config
  pub conn : Connection
  pub classified : ClassifiedStatement
  pub fallback : Option Text
  pub resolution : Resolution

pub data Preparation : Type 0 where
  prepared : Prepared → Preparation
  stopped : GateError → Preparation

-- The variables of an audit call that differ between the calls.
pub record Note : Type 0 where
  pub confirmed : Bool
  pub outcome : ApprovalOutcome
  pub scope : Option Scope
  pub digest : Option Text
  pub revision : Option ℕ
  pub error : Option Text
  pub affected_rows : Option ℕ
  pub backup_id : Option ℕ

abbrev pub plain_note : ApprovalOutcome → Note
plain_note outcome = record {
  confirmed = false;
  outcome = outcome;
  scope = none;
  digest = none;
  revision = none;
  error = none;
  affected_rows = none;
  backup_id = none;
}

-- A granted statement: how, and under which digest.
pub record Grant : Type 0 where
  pub scope : Option Scope
  pub digest : Option Text

pub data Authorization : Type 0 where
  granted : Grant → Authorization
  stopped : GateError → Authorization
  panicked : Authorization

pub data Dialled : Type 0 where
  ready : Dialled
  missing_password : (name : Text) → Dialled
  tunnel_failed : (message : Text) → Dialled
