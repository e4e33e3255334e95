-- ===== src/Policy/Resolver/Rules.antt =====
-- Which table rule governs a table, and what it does to the baseline's action.
use sequel_ace_mcp.Prelude.{
  ◌≡◌, ◌≢◌, ◌↔◌, ◌⊎◌, inl, inr, refl, true, false, Option, none, some, arith, Text, Option-cases,
  eq_iff, eq_refl,
}
use sequel_ace_mcp.Prelude.Assoc.{lookup}
use sequel_ace_mcp.Policy.Model.{PolicyAction, PartialPolicy, allow, confirm}
use sequel_ace_mcp.Policy.RuleKey.{
  TableId, TableRuleKey, exact, wildcard, key_has_eq, TablePolicies, render, governs, table_eq_iff,
}
use sequel_ace_mcp.Policy.Resolver.{resolve_table_action, governing_rule}

-- A table is allowed silently exactly when the baseline allows and the rule, if any, does too; and it
-- is marked as an elevation exactly when a rule's `allow` stands over a stricter baseline, which is
-- then confirmed.
pub resolve_table_action_allow :
    (baseline : PolicyAction) (rule : Option PolicyAction)
    → (((resolve_table_action baseline rule).0 ≡ allow)
        ↔ ((baseline ≡ allow) × ((rule ≡ none) ⊎ (rule ≡ some allow))))
      × (((resolve_table_action baseline rule).1 ≡ true) ↔ (
          (rule ≡ some allow)
          × (baseline ≢ allow)
          × ((resolve_table_action baseline rule).0 ≡ confirm)))
unfolding resolve_table_action
resolve_table_action_allow baseline rule = ground arith

-- The rule that `governing_rule` reports: it is in the map under a key that governs the table, the
-- name is that key rendered, and a wildcard is taken only where no exact rule is.
pub record IsGoverning (m : TablePolicies) (t : TableId) (p : PartialPolicy) (name : Text)
    : Type 0 where
  pub key : TableRuleKey
  pub listed : lookup key m ≡ some p
  pub in_force : governs key t ≡ true
  pub rendered : name ≡ render key
  pub precedence : (key ≡ exact t) ⊎ (lookup (exact t) m ≡ none)

governing_rule-IsGoverning :
    (m : TablePolicies) (t : TableId) (p : PartialPolicy) (name : Text)
    → governing_rule m t ≡ some (p, name)
    → IsGoverning m t p name
unfolding governing_rule governs
governing_rule-IsGoverning m t p name h = elim (Option-cases (lookup (exact t) m)) [
  | inr (q, found) ↦ record {
    key = exact t;
    listed = ground arith;
    in_force = (table_eq_iff t t).1 refl;
    rendered = ground arith;
    precedence = inl refl;
  }
  | inl missing ↦ record {
    key = wildcard t.database;
    listed = ground arith;
    in_force = eq_refl t.database;
    rendered = ground arith;
    precedence = inr missing;
  }
]

governing_rule-none :
    (m : TablePolicies) (t : TableId)
    → governing_rule m t ≡ none
    → (key : TableRuleKey) → (governs key t ≡ false) ⊎ (lookup key m ≡ none)
unfolding governing_rule governs
governing_rule-none m t h (exact s) = ground (arith, table_eq_iff s t)
governing_rule-none m t h (wildcard d) = ground (arith, eq_iff d t.database)

-- What `governing_rule` may answer for a table.
abbrev pub Answers : TablePolicies → TableId → Option (PartialPolicy × Text) → Type 0
Answers m t none = (key : TableRuleKey) → (governs key t ≡ false) ⊎ (lookup key m ≡ none)
Answers m t (some r) = IsGoverning m t r.0 r.1

-- The rule found for a table stands in the map under a key that governs the table, is named by
-- that key, and is the exact rule if there is one; no rule is found only if no key of the map
-- governs the table.
pub governing_rule_lem : (m : TablePolicies) (t : TableId) → Answers m t (governing_rule m t)
governing_rule_lem m t = elim (Option-cases (governing_rule m t)) [
  | inl missing ↦ rw missing (governing_rule-none m t missing)
  | inr (r, found) ↦ rw found (governing_rule-IsGoverning m t r.0 r.1 found)
]
