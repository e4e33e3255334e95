-- ===== src/Policy/Model/Merge.antt =====
-- How a partial override acts on a baseline (`Policy::merged_with`).
use sequel_ace_mcp.Prelude.{◌≡◌, refl, Option, none, some, or_else, unwrap_or}
use sequel_ace_mcp.Policy.Model.{
  SqlCategory, Policy, PartialPolicy, action_for, rule_action_for, merged_with,
}

-- The action of a merged policy is the override's action where it has one, and otherwise the
-- baseline's, for every category.
pub action_for-merged_with :
    (p : Policy) (over : PartialPolicy) (c : SqlCategory)
    → action_for (merged_with p over) c ≡ unwrap_or (rule_action_for over c) (action_for p c)
unfolding merged_with
action_for-merged_with p over SqlCategory.read = refl
action_for-merged_with p over _ = refl

-- One override that acts as two in turn: the later one's fields win.
abbrev pub compose : PartialPolicy → PartialPolicy → PartialPolicy
compose a b = record {
  read = or_else b.read a.read;
  write = or_else b.write a.write;
  ddl = or_else b.ddl a.ddl;
  admin = or_else b.admin a.admin;
  tx_ctrl = or_else b.tx_ctrl a.tx_ctrl;
  row_cap = or_else b.row_cap a.row_cap;
  stmt_timeout_ms = or_else b.stmt_timeout_ms a.stmt_timeout_ms;
  require_touch_id = or_else b.require_touch_id a.require_touch_id;
  max_backup_rows = or_else b.max_backup_rows a.max_backup_rows;
  max_backup_bytes = or_else b.max_backup_bytes a.max_backup_bytes;
  on_backup_overflow = or_else b.on_backup_overflow a.on_backup_overflow;
}

unwrap_or-or_else {ℓ} :
    {A : Type ℓ} (x y : Option A) (v : A) → unwrap_or (or_else y x) v ≡ unwrap_or y (unwrap_or x v)
unwrap_or-or_else x none v = refl
unwrap_or-or_else x (some y) v = refl

-- Two overrides merged in turn are one merge by the composed override, in every field.
pub merged_with-merged_with :
    (p : Policy) (a b : PartialPolicy)
    → merged_with (merged_with p a) b ≡ merged_with p (compose a b)
unfolding merged_with
merged_with-merged_with p a b = simp unwrap_or-or_else
