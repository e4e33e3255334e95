-- ===== src/Gate/Tests.antt =====
-- The gate on small inputs.
use sequel_ace_mcp.Prelude.{◌≡◌, ◌⊎◌, false, none, some, [], ◌∷◌, text}
use sequel_ace_mcp.Policy.Classifier
use sequel_ace_mcp.Policy.Classifier.{Dialect, Classification}
use sequel_ace_mcp.Approval.Engine.{new}
use sequel_ace_mcp.Policy.SampleStatement.{update_orders, shop}
use sequel_ace_mcp.Gate.{Config, sqlite, World, Gate, RunSqlArgs, chosen, GrantChoice, Executed}
use sequel_ace_mcp.Gate.Stages.{Prepared}
use sequel_ace_mcp.Gate.Run.{run_sql}
use sequel_ace_mcp.Gate.Authorized.{IsPrepared, IsAuthorized, IsRevalidated}
use sequel_ace_mcp.Gate.Permitted.{IsHandedOver, run_sql_executed}

abbrev config : Config
config = record {
  revision = 1;
  connections = (record { name = text "shop"; driver = sqlite; rules = shop }) ∷ [];
  default_connection = some (text "shop");
}

-- A person who says yes once, and an executor that changes one row.
abbrev willing : World
willing = record {
  load = some config;
  reload = some config;
  classify = λ sql d. Classifier.ok update_orders;
  touch_id = false;
  confirm = λ request. chosen GrantChoice.once;
  digest = text "digest";
  covers_at = 1;
  grant_at = 2;
  consume_at = 3;
  write_audit = λ entry. some 1;
  get_password = λ name user. none;
  tunnel = none;
  execute = λ sql policy.
      Executed.ok
        (record { affected_rows = 1; backup_id = none; journal_id = some 1; warnings = [] });
}

abbrev request : RunSqlArgs
request = record { connection = none; sql = text "UPDATE orders SET n = n + 1"; database = none }

abbrev idle : Gate
idle = record { approvals = new; audited = []; executed = []; finalized = [] }

run_sql_executed_example :
    ((run_sql willing request false idle).0.executed ≡ idle.executed)
    ⊎ ((p : Prepared) × IsPrepared willing request false p
        × IsAuthorized willing request p p.resolution.action idle
        × IsRevalidated willing request p
        × IsHandedOver willing request p idle (run_sql willing request false idle).0)
run_sql_executed_example = run_sql_executed willing request false idle
