-- ===== src/Sql/Tests.antt =====
-- A mutation on a small journal, and a cache with one retired pool.
use sequel_ace_mcp.Prelude.{ℕ, Text, List, ◌≡◌, refl, true, false, none, some, [], ◌∷◌, text}
use sequel_ace_mcp.Backup.Journal.{Row, as_str, state_of, transition, is_allowed}
use sequel_ace_mcp.Backup.Capture
use sequel_ace_mcp.Backup.Extractor.{nothing, schema, is_backup_required}
use sequel_ace_mcp.Backup.Extractor.Specs
use sequel_ace_mcp.Sql.Pool.{
  PoolEntry, Call, publishes, evicts, Endpoint, config_key, find_pool, run,
}
use sequel_ace_mcp.Sql.Pool.Served.{IsLive, find_pool-IsLive}
use sequel_ace_mcp.Sql.Transaction.{
  Work, Server, Params, answered, work, start_transaction, limit_time, queries, rollback,
  run_in_transaction, prepare, note,
}
use sequel_ace_mcp.Sql.Transaction.Session.{begin, execute_mysql_statement}
use sequel_ace_mcp.Sql.Transaction.Sending.{Sends, execute_mysql_statement-Sends}
use sequel_ace_mcp.Sql.Transaction.States.{Stands, final, work-Stands}

abbrev planned_row : Row
planned_row = record {
  id = 1;
  request_id = text "r";
  connection = text "shop";
  databases = text "[]";
  category = text "write";
  state = text "planned";
  detail = none;
  backup_id = none;
  audit_id = none;
}

abbrev before : Work
before = record {
  journal = planned_row ∷ [];
  store = record { stored = []; last_id = 0 };
  sent = [];
}

-- A server whose COMMIT fails.
abbrev server : Server
server = record {
  starts = true;
  answer = λ q. answered 1 none;
  commits = false;
  extract = λ q. Specs.ok (nothing (text "no rows"));
  capture = λ spec s. (s, Capture.ok none);
  hint = λ spec i n s. (s, none);
  hinted = λ q. q;
}

abbrev update : Params
update = record {
  effective_sql = text "UPDATE orders SET paid = 1";
  ast_type = text "update";
  is_tx_ctrl = false;
  is_read = false;
  limits_time = true;
  journal = some 1;
  ddl_detail = none;
  in_tx = true;
}

-- A server whose capture of the row fails.
abbrev uncaptured : Server
uncaptured = record server {
  extract = λ q. Specs.ok (schema (record { db = none; table = text "orders" } ∷ []));
  capture = λ spec s. (s, Capture.err (Capture.failed (text "no such table")));
}

execute_mysql_statement-Sends_example :
    Sends uncaptured update before (execute_mysql_statement uncaptured update before)
execute_mysql_statement-Sends_example = execute_mysql_statement-Sends uncaptured update before

work-Stands_example : Stands 1 (work server update before).0 (final (work server update before).1)
unfolding state_of as_str
work-Stands_example = work-Stands server update 1 refl before refl

-- Nothing but the queries of the capture goes out between START TRANSACTION and ROLLBACK.
uncaptured_sent :
    (execute_mysql_statement uncaptured update before).0.sent
    ≡ start_transaction false
      ∷ limit_time
      ∷ queries (schema (record { db = none; table = text "orders" } ∷ []))
      ∷ rollback
      ∷ []
unfolding execute_mysql_statement begin work run_in_transaction prepare note transition is_allowed
    is_backup_required as_str
uncaptured_sent = refl

abbrev shop : Endpoint
shop = record {
  name = text "shop";
  host = text "db";
  port = 3306;
  user = text "app";
  database = none;
  ssl = true;
  ssl_server_name = none;
}

abbrev opened : ℕ → ℕ → PoolEntry
opened p tunnel = record { pool = p; generation = 7 ∷ 9 ∷ []; tunnel_generation = some tunnel }

abbrev through : ℕ → Text
through tunnel = config_key shop none 2 (some (text "localhost")) (some 40000) (some tunnel)

-- The first tunnel retires after both pools are published.
abbrev calls : List Call
calls = publishes (through 1) (opened 1 1) ∷ publishes (through 2) (opened 2 2) ∷ evicts 1 ∷ []

find_pool-IsLive_example :
    (e : PoolEntry) × (e.pool ≡ 2) × (e.generation ≡ 7 ∷ 9 ∷ []) × IsLive (through 2, e) calls
unfolding find_pool run config_key
find_pool-IsLive_example = find_pool-IsLive calls (through 2) (7 ∷ 9 ∷ []) 2 refl
