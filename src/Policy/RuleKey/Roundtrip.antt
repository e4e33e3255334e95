-- ===== src/Policy/RuleKey/Roundtrip.antt =====
-- Rule keys as text: what `parse` accepts, and that `render` undoes it.
use sequel_ace_mcp.Prelude.{
  ℕ, ◌≡◌, ◌≢◌, ◌↔◌, sym, ◌∙◌, subst, some, [], ◌∷◌, ◌++◌, arith, Text, text, eq_iff, eqb,
  Bool-cases, Option-cases, inl, inr, Lacks,
}
use sequel_ace_mcp.Policy.RuleKey.{
  TableRuleKey, exact, wildcard, split_once, parse_parts, parse_key, render,
}

pub split_once-append : (c : ℕ) (a b : Text) → Lacks c a → split_once c (a ++ c ∷ b) ≡ some (a, b)
unfolding split_once
split_once-append c [] b h = ground arith
split_once-append c (x ∷ a) b h = ground (arith, split_once-append c a b h.1, h.0)

split_once_sound :
    (c : ℕ) (s a b : Text) → split_once c s ≡ some (a, b) → (s ≡ a ++ c ∷ b) × Lacks c a
unfolding split_once
split_once_sound c [] a b h = cc
split_once_sound c (x ∷ s) a b h = elim (Bool-cases (eqb x c)) [
  | inl same ↦ ground arith
  | inr other ↦ elim (Option-cases (split_once c s)) [
    | inl missing ↦ ground arith
    | inr (p, found) ↦ ground (arith, split_once_sound c s p.0 p.1)
  ]
]

-- A key that `parse` can return: the database is not empty and has no dot; an exact key's table
-- is neither empty nor the wildcard sign.
abbrev pub IsWellFormed : TableRuleKey → Type 0
IsWellFormed (exact t) =
    (t.database ≢ []) × Lacks b'.' t.database × (t.table ≢ []) × (t.table ≢ text "*")
IsWellFormed (wildcard d) = (d ≢ []) × Lacks b'.' d

parse_key-render : (k : TableRuleKey) → IsWellFormed k → parse_key (render k) ≡ some k
unfolding parse_key render
parse_key-render (exact t) h = ground (
  arith,
  split_once-append b'.' t.database t.table h.1,
  eq_iff t.database [],
  eq_iff t.table [],
  eq_iff t.table (text "*"),
)
parse_key-render (wildcard d) h =
    ground (arith, split_once-append b'.' d (text "*") h.1, eq_iff d [])

render-parse_parts :
    (db table : Text) (k : TableRuleKey)
    → parse_parts db table ≡ some k
    → Lacks b'.' db
    → (render k ≡ db ++ b'.' ∷ table) × IsWellFormed k
unfolding render
render-parse_parts db table k h lacks =
    ground (arith, eq_iff db [], eq_iff table [], eq_iff table (text "*"))

render-parse_key :
    (s : Text) (k : TableRuleKey) → parse_key s ≡ some k → (render k ≡ s) × IsWellFormed k
unfolding parse_key
render-parse_key s k h = elim (Option-cases (split_once b'.' s)) [
  | inl missing ↦ absurd (ground arith)
  | inr (p, found) ↦
      let (split, lacks) = split_once_sound b'.' s p.0 p.1 found in
      let (same, formed) = render-parse_parts p.0 p.1 k (ground arith) lacks in
      (same ∙ sym split, formed)
]

-- A text parses to a key exactly when the key is well formed (its database is not empty and has
-- no dot, and an exact key's table is neither empty nor "*") and renders to that text.
pub parse_key_iff :
    (s : Text) (k : TableRuleKey) → (parse_key s ≡ some k) ↔ ((render k ≡ s) × IsWellFormed k)
parse_key_iff s k =
    (render-parse_key s k, λ h. subst (λ t. parse_key t ≡ some k) h.0 (parse_key-render k h.1))
