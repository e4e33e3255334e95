-- ===== src/Policy/SampleStatement.antt =====
-- A connection and a statement that the tests share.
use sequel_ace_mcp.Prelude.{false, none, some, [], ◌∷◌, text}
use sequel_ace_mcp.Policy.Model.{SqlCategory, allow, PartialPolicy, default_policy, default_partial}
use sequel_ace_mcp.Policy.RuleKey.{wildcard}
use sequel_ace_mcp.Policy.Statement.{TableRef, ClassifiedStatement}
use sequel_ace_mcp.Policy.Resolver.{Connection}

-- A rule that allows writes and lowers the row cap.
abbrev pub lenient : PartialPolicy
lenient = record default_partial { write = some allow; row_cap = some 50 }

abbrev pub orders : TableRef
orders = record { database = none; table = text "orders" }

-- An update of `orders` that reads it.
abbrev pub update_orders : ClassifiedStatement
update_orders = record {
  category = SqlCategory.write;
  ast_type = text "update";
  target_databases = [];
  read_tables = orders ∷ [];
  mutated_tables = orders ∷ [];
  locking_read = false;
  file_io = false;
  executes_wrapped = false;
  if_exists = false;
  drop_object_type = none;
}

abbrev pub shop : Connection
shop = record {
  policy = default_policy;
  table_policies = (wildcard (text "app"), lenient) ∷ [];
  database = some (text "app");
}
