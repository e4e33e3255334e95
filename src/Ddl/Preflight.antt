-- ===== src/Ddl/Preflight.antt =====
-- `preflight_ddl` of src/sql/ddl.rs. What the server answers about a table is an argument.
use sequel_ace_mcp.Prelude.{
  Bool, true, false, ◌&&◌, Option, none, some, List, [], ◌∷◌, ◌++◌, Text, text, if◌then◌else◌, ◌==◌,
  not, or_else, retain,
}
use sequel_ace_mcp.Policy.Model.{ddl, category_eq}
use sequel_ace_mcp.Policy.Statement.{TableRef, ClassifiedStatement}
use sequel_ace_mcp.Ddl.Rewrite.{Target}

-- `no_schema` has no database in scope, `no_source` and `no_target` do not exist, `in_the_way` does.
pub data DdlPreflightError : Type 0 where
  no_schema : Text → DdlPreflightError
  no_source : Target → DdlPreflightError
  no_target : Target → DdlPreflightError
  in_the_way : Target → DdlPreflightError
  query_failed : Text → DdlPreflightError

pub data DdlPreflight : Type 0 where
  present : DdlPreflight
  missing_no_op : List Target → DdlPreflight
  mixed : List Target → List Target → DdlPreflight

-- What a step gives: a value, an error, or the panic of an index out of range.
pub data Result {ℓ} (A : Type ℓ) : Type ℓ where
  ok : A → Result A
  err : DdlPreflightError → Result A
  panicked : Result A

infixl 5 ◌>>=◌
abbrev pub ◌>>=◌ {κ ℓ} : {X : Type κ} {Y : Type ℓ} → Result X → (X → Result Y) → Result Y
panicked >>= next = panicked
err problem >>= next = err problem
ok x >>= next = next x

abbrev pub target_eq : Target → Target → Bool
target_eq (s, t) (s', t') = s == s' && t == t'

abbrev pub schema_or : Text → Option Text → Result Text
schema_or name (some schema) = ok schema
schema_or name none = err (no_schema name)

-- The table, in its own schema or in that of the connection.
abbrev pub resolve_target : Option Text → TableRef → Result Target
resolve_target fallback_db r =
    schema_or r.table (or_else r.database fallback_db) >>= λ schema. ok (schema, r.table)

-- `chunks(2)`, with an index past the end of the last chunk of an odd list.
unfoldable pub chunks : List TableRef → Result (List (TableRef × TableRef))
chunks [] = ok []
chunks (src ∷ []) = panicked
chunks (src ∷ dst ∷ refs) = chunks refs >>= λ pairs. ok ((src, dst) ∷ pairs)

-- The list `known`, and the search of it for its first entry of a table.
abbrev pub Known : Type 0
Known = List (Target × Bool)

abbrev pub find : Target → Known → Option Bool
find t [] = none
find t ((u, p) ∷ known) = if target_eq u t then some p else find t known

abbrev pub is_other : Target → Target × Bool → Bool
is_other t (u, p) = not (target_eq u t)

abbrev pub drop_outcome : Bool → List Target × List Target → Result DdlPreflight
drop_outcome if_exists (existing, []) = ok present
drop_outcome false (existing, t ∷ missing) = err (no_target t)
drop_outcome true ([], t ∷ missing) = ok (missing_no_op (t ∷ missing))
drop_outcome true (e ∷ existing, t ∷ missing) = ok (mixed (e ∷ existing) (t ∷ missing))

abbrev pub is_nil : List TableRef → Bool
is_nil [] = true
is_nil (r ∷ refs) = false

module _ (table_exists : Target → Result Bool) where
  abbrev pub known_or : Target → Option Bool → Result Bool
  known_or t (some p) = ok p
  known_or t none = table_exists t

  -- The check of one renaming, and what is known after it.
  unfoldable pub rename_step : Known → Target → Target → Result Known
  rename_step known src dst = known_or src (find src known) >>= λ src_present. elim src_present [
    | false ↦ err (no_source src)
    | true ↦ known_or dst (find dst known) >>= λ dst_present. elim dst_present [
      | true ↦ err (in_the_way dst)
      | false ↦ ok (retain (is_other src) known ++ (src, false) ∷ (dst, true) ∷ [])
    ]
  ]

  module _ (fallback_db : Option Text) where
    unfoldable pub renames : Known → List (TableRef × TableRef) → Result DdlPreflight
    unfolding rename_step
    renames known [] = ok present
    renames known ((src, dst) ∷ pairs) = resolve_target fallback_db src >>= λ src_id.
        resolve_target fallback_db dst >>= λ dst_id.
        rename_step known src_id dst_id >>= λ known'. renames known' pairs

    -- The loop over the targets of a DROP or TRUNCATE: the existing ones and the missing ones.
    unfoldable pub sort_targets : List TableRef → Result (List Target × List Target)
    sort_targets [] = ok ([], [])
    sort_targets (r ∷ refs) = resolve_target fallback_db r >>= λ t. table_exists t >>= λ found.
        sort_targets refs >>= λ rest.
        ok (if found then (t ∷ rest.0, rest.1) else (rest.0, t ∷ rest.1))

    unfoldable pub preflight_ddl : ClassifiedStatement → Result DdlPreflight
    unfolding chunks renames sort_targets
    preflight_ddl c =
        if not (category_eq c.category ddl)
        then ok present
        else if is_nil c.mutated_tables
        then ok present
        else if c.ast_type == text "create"
        then ok present
        else if c.ast_type == text "rename"
        then (chunks c.mutated_tables >>= λ pairs. renames [] pairs)
        else sort_targets c.mutated_tables >>= λ sorted. drop_outcome c.if_exists sorted
