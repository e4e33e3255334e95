-- ===== src/Ddl/Plan.antt =====
-- What an approved DDL statement may do: the targets that src/mcp/tools.rs binds to the approval, and
-- the decision of src/sql/mysql.rs on the statement that is sent.
pub mod Targets
pub mod Gap
use sequel_ace_mcp.Prelude.{
  ℕ, ◌≡◌, Bool, true, false, ◌||◌, Option, none, some, List, [], ◌∷◌, Text, text, if◌then◌else◌,
  ◌==◌, or_else, unwrap_or, any,
}
use sequel_ace_mcp.Policy.Statement.{TableRef, DropObject, other, ClassifiedStatement}
use sequel_ace_mcp.Ddl.Rewrite.{Target, rewrite_drop_subset}
use sequel_ace_mcp.Ddl.Preflight.{
  DdlPreflightError, DdlPreflight, present, missing_no_op, mixed, Result, ok, err, panicked,
  target_eq, preflight_ddl,
}

abbrev pub push_scoped : Text → Option Text → List Target → List Target
push_scoped name none rest = rest
push_scoped name (some schema) rest = (schema, name) ∷ rest

-- The targets that have a database in scope.
unfoldable pub scoped : Option Text → List TableRef → List Target
scoped fallback [] = []
scoped fallback (r ∷ refs) =
    push_scoped r.table (or_else r.database fallback) (scoped fallback refs)

-- What the approval is bound to; a failed preflight gives no approval.
unfoldable pub approved_ddl :
    Option Text → ClassifiedStatement → Result DdlPreflight → Option (List Target)
unfolding scoped
approved_ddl fallback c (ok present) = some (scoped fallback c.mutated_tables)
approved_ddl fallback c (ok (mixed existing missing)) = some existing
approved_ddl fallback c (ok (missing_no_op missing)) = some []
approved_ddl fallback c (err e) = none
approved_ddl fallback c panicked = none

-- What the executor does: it goes on with the given text, or the statement's own for `none`, and
-- reports what is executed and what is absent; or it ends with nothing sent, and the journal's entry
-- marked as failed.
pub data DdlDecision : Type 0 where
  send : Option Text → List Target → List Target → DdlDecision
  no_op : List Target → DdlDecision
  changed : Target → DdlDecision
  not_rewritable : List Target → List Target → DdlDecision
  not_found : DdlPreflightError → DdlDecision
  crashed : DdlDecision

abbrev pub member : Target → List Target → Bool
member t expected = any (λ u. target_eq u t) expected

-- The first target that was not approved.
unfoldable pub unexpected : List Target → List Target → Option Target
unexpected expected [] = none
unexpected expected (t ∷ ts) =
    let rest = unexpected expected ts in if member t expected then rest else some t

abbrev pub unless_changed : Option Target → DdlDecision → DdlDecision
unless_changed none next = next
unless_changed (some t) next = changed t

abbrev pub expect : Option (List Target) → List Target → DdlDecision → DdlDecision
expect none targets next = next
expect (some expected) targets next = unless_changed (unexpected expected targets) next

abbrev pub send_rewritten : Option Text → List Target → List Target → DdlDecision
send_rewritten none existing missing = not_rewritable existing missing
send_rewritten (some s) existing missing = send (some s) existing missing

unfoldable pub decide_ddl :
    Option (List Target) → Option Text → ClassifiedStatement → Result DdlPreflight → DdlDecision
unfolding scoped unexpected rewrite_drop_subset
decide_ddl expected fallback c (ok present) =
    if c.ast_type == text "drop"
    then expect expected (scoped fallback c.mutated_tables) (send none [] [])
    else send none [] []
decide_ddl expected fallback c (ok (mixed existing missing)) = expect expected existing (
    send_rewritten (rewrite_drop_subset (unwrap_or c.drop_object_type other) existing) existing
      missing)
decide_ddl expected fallback c (ok (missing_no_op missing)) = no_op missing
decide_ddl expected fallback c (err e) = not_found e
decide_ddl expected fallback c panicked = crashed

-- The decision on a statement, as the tables are.
unfoldable pub run_ddl :
    (Target → Result Bool) → Option (List Target) → Option Text → ClassifiedStatement → DdlDecision
unfolding decide_ddl preflight_ddl
run_ddl table_exists expected fallback c =
    decide_ddl expected fallback c (preflight_ddl table_exists fallback c)
