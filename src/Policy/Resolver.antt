-- ===== src/Policy/Resolver.antt =====
-- src/policy/resolver.rs: two-layer resolution of a classified statement. The connection is what the
-- resolver reads of it: its baseline, its table rules and its database.
pub mod Rules
pub mod Loops
pub mod Refinement
pub mod Safety
pub mod Legacy
use sequel_ace_mcp.Prelude.{
  Bool, true, false, ◌||◌, Option, none, some, List, [], ◌∷◌, ◌++◌, Text, ◌==◌, any, ltb,
  if◌then◌else◌, or_else,
}
use sequel_ace_mcp.Prelude.Assoc.{lookup}
use sequel_ace_mcp.Policy.Model.{
  SqlCategory, category_eq, PolicyAction, allow, confirm, deny, rank, action_eq, Policy,
  PartialPolicy, action_for, rule_action_for, merged_with,
}
use sequel_ace_mcp.Policy.RuleKey.{TableId, exact, wildcard, key_has_eq, TablePolicies, render}
use sequel_ace_mcp.Policy.Statement.{TableRef, ClassifiedStatement}

pub data DenyReason : Type 0 where
  file_io : DenyReason
  unresolved_target : (table : Text) → DenyReason
  no_targets_established : DenyReason
  policy : DenyReason

-- The texts "read", "mutated", "locking-read" and "database".
pub data Kind : Type 0 where
  read mutated locking_read database : Kind

pub record TableContribution : Type 0 where
  pub table : TableId
  pub kind : Kind
  pub category : SqlCategory
  pub action : PolicyAction
  pub baseline_action : PolicyAction
  pub rule : Option Text
  pub elevated : Bool

pub record Resolution : Type 0 where
  pub action : PolicyAction
  pub effective : Policy
  pub contributions : List TableContribution
  pub elevated : Bool
  pub deny_reason : Option DenyReason
  pub contributing_databases : List Text

-- `conn.policy()`, `conn.table_policies()` and `conn.database()`.
pub record Connection : Type 0 where
  pub policy : Policy
  pub table_policies : TablePolicies
  pub database : Option Text

unfoldable pub resolve_table_action : PolicyAction → Option PolicyAction → PolicyAction × Bool
resolve_table_action baseline none = (baseline, false)
resolve_table_action baseline (some allow) =
    if action_eq baseline allow then (allow, false) else (confirm, true)
resolve_table_action baseline (some a) = (a, false)

-- Exact beats wildcard.
unfoldable pub governing_rule : TablePolicies → TableId → Option (PartialPolicy × Text)
governing_rule table_policies table = elim (lookup (exact table) table_policies) [
  | some p ↦ some (p, render (exact table))
  | none ↦ elim (lookup (wildcard table.database) table_policies) [
    | some p ↦ some (p, render (wildcard table.database))
    | none ↦ none
  ]
]

abbrev pub rule_name : Option (PartialPolicy × Text) → Option Text
rule_name none = none
rule_name (some r) = some r.1

abbrev pub rule_action : Option (PartialPolicy × Text) → SqlCategory → Option PolicyAction
rule_action none category = none
rule_action (some r) category = rule_action_for r.0 category

abbrev pub effective_policy : Policy → Option (PartialPolicy × Text) → Policy
effective_policy baseline none = baseline
effective_policy baseline (some r) = merged_with baseline r.0

-- The contribution of one resolved object, and its effective limits.
unfoldable pub contribution :
    Policy → TablePolicies → SqlCategory → Kind → TableId → TableContribution
contribution baseline table_policies category kind id =
    let governing = governing_rule table_policies id in
    let base_action = action_for baseline category in
    let (action, elevated) = resolve_table_action base_action (rule_action governing category) in
    record {
      table = id;
      kind = kind;
      category = category;
      action = action;
      baseline_action = base_action;
      rule = rule_name governing;
      elevated = elevated;
    }

-- `dbs.contains` and `push`.
abbrev pub push_new : List Text → Text → List Text
push_new dbs db = if any (λ d. d == db) dbs then dbs else dbs ++ db ∷ []

-- The variables of `resolve` that its loops update. The contribution kept beside the strictest
-- action is never read, and is left out.
pub record Progress : Type 0 where
  pub contributions : List TableContribution
  pub strictest : Option (PolicyAction × Policy)
  pub elevated_any : Bool
  pub dbs : List Text
  pub denied : Option DenyReason

abbrev pub start : Progress
start = record {
  contributions = [];
  strictest = none;
  elevated_any = false;
  dbs = [];
  denied = none;
}

abbrev pub stricter :
    Option (PolicyAction × Policy) → PolicyAction → Policy → Option (PolicyAction × Policy)
stricter none action effective = some (action, effective)
stricter (some (a, p)) action effective =
    if ltb (rank a) (rank action) then some (action, effective) else some (a, p)

abbrev pub option_list : Option Text → List Text
option_list none = []
option_list (some d) = d ∷ []

-- The databases reported for a statement that names no table.
abbrev table_free_databases : List Text → Option Text → List Text
table_free_databases [] fallback = option_list fallback
table_free_databases (d ∷ ds) fallback = d ∷ ds

module _ (conn : Connection) where
  -- `resolve_object` and `consider` where the database is known.
  unfoldable pub consider_table : SqlCategory → Kind → TableId → Progress → Progress
  unfolding contribution
  consider_table category kind id s =
      let c = contribution conn.policy conn.table_policies category kind id in
      let effective = effective_policy conn.policy (governing_rule conn.table_policies id) in
      record {
        contributions = s.contributions ++ c ∷ [];
        strictest = stricter s.strictest c.action effective;
        elevated_any = c.elevated || s.elevated_any;
        dbs = push_new s.dbs id.database;
        denied = s.denied;
      }

  -- `consider`, and `denied = denied.or(Some(e))` on its error.
  unfoldable pub consider : Option Text → SqlCategory → Kind → TableRef → Progress → Progress
  consider fallback category kind t s = elim (or_else t.database fallback) [
    | none ↦ record s { denied = or_else s.denied (some (unresolved_target t.table)) }
    | some db ↦ consider_table category kind (record { database = db; table = t.table }) s
  ]

  -- The loop over `read_tables`.
  unfoldable pub consider_reads : Option Text → Bool → List TableRef → Progress → Progress
  consider_reads fallback locking [] s = s
  consider_reads fallback locking (t ∷ ts) s =
      let s1 = consider fallback SqlCategory.read Kind.read t s in
      let s2 = if locking then consider fallback SqlCategory.write locking_read t s1 else s1 in
      consider_reads fallback locking ts s2

  -- The loop over `mutated_tables`; under a read classification each of them denies.
  unfoldable pub consider_mutations :
      Option Text → SqlCategory → List TableRef → Progress → Progress
  consider_mutations fallback category [] s = s
  consider_mutations fallback category (t ∷ ts) s = consider_mutations fallback category ts (
      if category_eq category SqlCategory.read
      then record s { denied = or_else s.denied (some DenyReason.policy) }
      else consider fallback category mutated t s)

  -- What `resolve` returns after its loops.
  unfoldable pub conclude : ClassifiedStatement → Option Text → Progress → Resolution
  conclude classified fallback s = elim s.denied [
    | some reason ↦ record {
      action = deny;
      effective = conn.policy;
      contributions = s.contributions;
      elevated = s.elevated_any;
      deny_reason = some reason;
      contributing_databases = s.dbs;
    }
    | none ↦ elim s.strictest [
      | some (action, effective) ↦ record {
        action = action;
        effective = effective;
        contributions = s.contributions;
        elevated = s.elevated_any;
        deny_reason = none;
        contributing_databases = s.dbs;
      }
      | none ↦ record {
        action = action_for conn.policy classified.category;
        effective = conn.policy;
        contributions = [];
        elevated = false;
        deny_reason = none;
        contributing_databases = table_free_databases classified.target_databases fallback;
      }
    ]
  ]

  unfoldable pub progress : ClassifiedStatement → Option Text → Progress
  progress classified fallback =
      consider_mutations fallback classified.category classified.mutated_tables
        (consider_reads fallback classified.locking_read classified.read_tables start)

  unfoldable pub resolve : ClassifiedStatement → Option Text → Resolution
  resolve classified fallback_database =
      let fallback = or_else fallback_database conn.database in
      if classified.file_io
      then record {
        action = deny;
        effective = conn.policy;
        contributions = [];
        elevated = false;
        deny_reason = some DenyReason.file_io;
        contributing_databases = [];
      }
      else conclude classified fallback (progress classified fallback)
