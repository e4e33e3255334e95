-- ===== src/Approval/Tests.antt =====
-- The approval stores on small inputs.
use sequel_ace_mcp.Prelude.{
  ◌+◌, ◌≤◌, ◌≡◌, ◌↔◌, refl, Option, none, some, List, [], ◌∷◌, Text, text, arith, Any,
}
use mathlib.Core.List.{Perm}
use sequel_ace_mcp.Prelude.Assoc.{lookup, insert}
use sequel_ace_mcp.Policy.Model.{SqlCategory}
use sequel_ace_mcp.Policy.RuleKey.{TableId}
use sequel_ace_mcp.Approval.Canonical.{SessionGrantKey, canonical, dotted}
use sequel_ace_mcp.Approval.Canonical.Injective.{canonical-inj}
use sequel_ace_mcp.Approval.Canonical.Collision.{table_id, canonical_collision}
use sequel_ace_mcp.Approval.Engine
use sequel_ace_mcp.Approval.Engine.{
  ApprovalEngine, new, Call, once, consume, consume_once, session_covers, default_one_shot_ttl,
}
use sequel_ace_mcp.Approval.Engine.OneShots
use sequel_ace_mcp.Approval.Engine.OneShots.{
  IsUsable, consume_once-ok_iff, grants, successes-le-grants, GrantedFor, consume_once-GrantedFor,
}
use sequel_ace_mcp.Approval.Mrtr
use sequel_ace_mcp.Approval.Mrtr.{Token, PendingApproval, Presented, Store, take, remove_first}
use sequel_ace_mcp.Approval.Mrtr.Bounds.{IsBounded, run-IsBounded}
use sequel_ace_mcp.Approval.Mrtr.Taking
use sequel_ace_mcp.Approval.Mrtr.Taking.{
  IsFor, take-ok_iff, copies, take-replay, issues, successes-le-issues,
}

abbrev digest : Text
digest = text "digest"

-- A grant at time 0 and two attempts.
abbrev two_attempts : List Call
two_attempts = once digest 0 ∷ consume digest 5 ∷ consume digest 6 ∷ []

successes-le-grants_example :
    OneShots.successes digest new two_attempts ≤ grants digest two_attempts
successes-le-grants_example = successes-le-grants digest two_attempts

abbrev granted : ApprovalEngine
granted = Engine.run new (once digest 7 ∷ [])

consume_once-GrantedFor_example :
    Any (GrantedFor digest (7 + default_one_shot_ttl)) (once digest 7 ∷ [])
    × (9 ≤ 7 + default_one_shot_ttl)
unfolding Engine.run lookup insert
consume_once-GrantedFor_example =
    consume_once-GrantedFor digest (once digest 7 ∷ []) 9 (7 + default_one_shot_ttl) refl

abbrev key : SessionGrantKey
key = record {
  connection = text "c";
  category = SqlCategory.write;
  tables = table_id (text "app") (text "orders") ∷ [];
}

abbrev users_then_orders : List TableId
users_then_orders =
    table_id (text "app") (text "users") ∷ table_id (text "app") (text "orders") ∷ []

canonical-inj_example :
    (text "c" ≡ text "c") × (SqlCategory.write ≡ SqlCategory.write) × Perm key.tables key.tables
canonical-inj_example =
    canonical-inj key key (ground arith) (ground arith) (ground arith) (ground arith) refl

canonical_collision_example :
    canonical (record {
      connection = text "c";
      category = SqlCategory.write;
      tables = table_id (text "a") (text "t,b.u") ∷ [];
    })
    ≡ canonical (record {
      connection = text "c";
      category = SqlCategory.write;
      tables = table_id (text "a") (text "t") ∷ table_id (text "b") (text "u") ∷ [];
    })
unfolding dotted
canonical_collision_example =
    canonical_collision (text "c") SqlCategory.write (text "a") (text "t") (text "b") (text "u")
      refl

-- Tokens in clear.
abbrev decode : Text → Option Token
decode s = some s

abbrev pending : PendingApproval
pending = record {
  tool = text "execute";
  connection = text "c";
  operation_digest = digest;
  policy_revision = 4;
  approved_ddl_targets = none;
  expires_at = 120;
}

abbrev given : Presented
given = record {
  tool = text "execute";
  connection = text "c";
  digest = digest;
  policy_revision = 4;
}

abbrev one_pending : Store
one_pending = record { pending = (text "k", pending) ∷ []; tombstones = [] }

take-ok_iff_example : ((take decode (some one_pending) (text "k") given 3).1 ≡ Mrtr.ok pending) ↔ (
    (token : Token) × (rest : List (Token × PendingApproval)) × (decode (text "k") ≡ some token)
    × (remove_first token one_pending.pending ≡ some (pending, rest))
    × IsFor pending given 3)
take-ok_iff_example = take-ok_iff decode one_pending (text "k") given 3 pending

abbrev issue_and_take : List Mrtr.Call
issue_and_take = Mrtr.issued (text "k") pending ∷ Mrtr.taken (text "k") given 3 ∷ []

successes-le-issues_example :
    Taking.successes decode (text "k") none issue_and_take ≤ issues decode (text "k") issue_and_take
successes-le-issues_example = successes-le-issues decode (text "k") issue_and_take

run-IsBounded_example : IsBounded (Mrtr.run decode none issue_and_take)
run-IsBounded_example = run-IsBounded decode issue_and_take
