-- ===== src/Policy/Model/Bounds.antt =====
-- The bounds of `validate`, and that a valid rule never takes a valid baseline out of them.
use sequel_ace_mcp.Prelude.{◌≤◌, ◌≡◌, ◌↔◌, refl, none, arith}
use sequel_ace_mcp.Policy.Model.{
  Policy, PartialPolicy, merged_with, validate, validate_partial, PolicyPresetName, read_only,
  policy_from_preset,
}

-- The documented ranges of the four limits.
pub record IsInBounds (p : Policy) : Type 0 where
  pub rows : (1 ≤ p.row_cap) × (p.row_cap ≤ 100000)
  pub timeout : (1 ≤ p.stmt_timeout_ms) × (p.stmt_timeout_ms ≤ 600000)
  pub backup_rows : (1 ≤ p.max_backup_rows) × (p.max_backup_rows ≤ 1000000)
  pub backup_bytes : 1 ≤ p.max_backup_bytes

-- A policy validates exactly when its four limits lie in their ranges.
pub validate_iff : (p : Policy) → (validate p ≡ none) ↔ IsInBounds p
unfolding validate
validate_iff p = ground arith

-- If a baseline validates and a rule validates, the merged policy validates.
pub validate-merged_with :
    (p : Policy) (over : PartialPolicy)
    → validate p ≡ none
    → validate_partial over ≡ none
    → validate (merged_with p over) ≡ none
unfolding validate validate_partial merged_with
validate-merged_with p over h k = ground arith

-- Every preset is a policy that validates.
pub validate-policy_from_preset : (n : PolicyPresetName) → validate (policy_from_preset n) ≡ none
unfolding validate policy_from_preset
validate-policy_from_preset read_only = refl
validate-policy_from_preset _ = refl
