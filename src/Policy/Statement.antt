-- ===== src/Policy/Statement.antt =====
-- src/policy/classifier.rs: what a classification says of one statement.
use sequel_ace_mcp.Prelude.{Bool, Option, List, Text}
use sequel_ace_mcp.Policy.Model.{SqlCategory}

pub record TableRef : Type 0 where
  pub database : Option Text
  pub table : Text

pub data DropObject : Type 0 where
  table view index other : DropObject

pub record ClassifiedStatement : Type 0 where
  pub category : SqlCategory
  pub ast_type : Text
  pub target_databases : List Text
  pub read_tables : List TableRef
  pub mutated_tables : List TableRef
  pub locking_read : Bool
  pub file_io : Bool
  pub executes_wrapped : Bool
  pub if_exists : Bool
  pub drop_object_type : Option DropObject
