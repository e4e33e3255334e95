-- ===== src/Policy/RuleKey.antt =====
-- src/policy/model.rs: qualified tables and the keys of the table rules (layer two).
pub mod Roundtrip
use sequel_ace_mcp.Prelude.{
  ℕ, Bool, true, false, ◌&&◌, Option, none, some, [], ◌∷◌, ◌++◌, ◌≡◌, ◌↔◌, refl, arith, Text, text,
  ◌==◌, eq_iff, eq_refl, eqb, if◌then◌else◌,
}
use sequel_ace_mcp.Prelude.Assoc.{Eq, Assoc}
use sequel_ace_mcp.Policy.Model.{PartialPolicy}

pub record TableId : Type 0 where
  pub database : Text
  pub table : Text

abbrev pub table_eq : TableId → TableId → Bool
table_eq s t = s.database == t.database && s.table == t.table

pub table_eq_iff : (s t : TableId) → (table_eq s t ≡ true) ↔ (s ≡ t)
table_eq_iff s t = ground (arith, eq_iff s.database t.database, eq_iff s.table t.table)

pub data TableRuleKey : Type 0 where
  exact : TableId → TableRuleKey
  wildcard : (database : Text) → TableRuleKey

abbrev pub key_eq : TableRuleKey → TableRuleKey → Bool
key_eq (exact s) (exact t) = table_eq s t
key_eq (wildcard d) (wildcard e) = d == e
key_eq _ _ = false

pub key_eq_iff : (j k : TableRuleKey) → (key_eq j k ≡ true) ↔ (j ≡ k)
key_eq_iff (exact s) (exact t) = ground (arith, table_eq_iff s t)
key_eq_iff (wildcard d) (wildcard e) = ground (arith, eq_iff d e)
key_eq_iff (exact s) (wildcard e) = ground arith
key_eq_iff (wildcard d) (exact t) = ground arith

instance abbrev pub key_has_eq : Eq TableRuleKey
key_has_eq = record { beq = key_eq; beq_iff = key_eq_iff }

-- `BTreeMap<TableRuleKey, PartialPolicy>`.
abbrev pub TablePolicies : Type 0
TablePolicies = Assoc TableRuleKey PartialPolicy

abbrev cons_first : ℕ → Option (Text × Text) → Option (Text × Text)
cons_first x none = none
cons_first x (some (a, b)) = some (x ∷ a, b)

-- `s.split_once(c)`.
unfoldable pub split_once : ℕ → Text → Option (Text × Text)
split_once c [] = none
split_once c (x ∷ s) =
    let rest = split_once c s in if eqb x c then some ([], s) else cons_first x rest

-- The tests of `TableRuleKey::parse` on the two parts.
abbrev parse_parts : Text → Text → Option TableRuleKey
parse_parts db table =
    if db == []
    then none
    else if table == text "*"
    then some (wildcard db)
    else if table == []
    then none
    else some (exact (record { database = db; table = table }))

unfoldable pub parse_key : Text → Option TableRuleKey
unfolding split_once
parse_key s = elim (split_once b'.' s) [ none ↦ none | some (db, table) ↦ parse_parts db table ]

unfoldable pub render : TableRuleKey → Text
render (exact t) = t.database ++ b'.' ∷ t.table
render (wildcard database) = database ++ text ".*"

-- Does the rule govern the table?
unfoldable pub governs : TableRuleKey → TableId → Bool
governs (exact t) table = table_eq t table
governs (wildcard database) table = database == table.database
