-- ===== src/Ddl/Plan/Targets.antt =====
-- The targets of a DROP, when the server answers by what exists.
use sequel_ace_mcp.Prelude.{
  ◌≡◌, ◌≢◌, inl, inr, refl, Bool, not, Option, none, List, [], ◌∷◌, Text, text, if◌then◌else◌,
  or_else, retain, All, Bool-cases, Option-cases,
}
use sequel_ace_mcp.Policy.Model.{ddl}
use sequel_ace_mcp.Policy.Statement.{TableRef, ClassifiedStatement}
use sequel_ace_mcp.Ddl.Rewrite.{Target}
use sequel_ace_mcp.Ddl.Preflight.{
  present, Result, ok, ◌>>=◌, sort_targets, drop_outcome, is_nil, preflight_ddl,
}
use sequel_ace_mcp.Ddl.Plan.{scoped}

-- Each target's schema and name, where every target has a database in scope.
abbrev pub AllInScope : Option Text → List TableRef → Type 0
AllInScope fallback refs = All (λ r. or_else r.database fallback ≢ none) refs

module _ (exists : Target → Bool) (fallback : Option Text) where
  abbrev pub existing : List TableRef → List Target
  existing refs = retain exists (scoped fallback refs)

  abbrev pub missing : List TableRef → List Target
  missing refs = retain (λ t. not (exists t)) (scoped fallback refs)

  sort_targets_lem :
      (table_exists : Target → Result Bool)
      → ((t : Target) → table_exists t ≡ ok (exists t))
      → (refs : List TableRef) → AllInScope fallback refs
      → sort_targets table_exists fallback refs ≡ ok (existing refs, missing refs)
  unfolding sort_targets scoped
  sort_targets_lem table_exists answers [] h = refl
  sort_targets_lem table_exists answers (r ∷ refs) h =
      elim (Option-cases (or_else r.database fallback)) [
        | inl out ↦ absurd (h.0 out)
        | inr (schema, found) ↦
            (let ih = sort_targets_lem table_exists answers refs h.1 in
              elim (Bool-cases (exists (schema, r.table))) [
                | inl e ↦ rw (found) (rw (answers (schema, r.table)) (rw (ih, e) refl))
                | inr e ↦ rw (found) (rw (answers (schema, r.table)) (rw (ih, e) refl))
              ])
      ]

  no_targets :
      (table_exists : Target → Result Bool) (if_exists : Bool) (refs : List TableRef)
      → sort_targets table_exists fallback refs ≡ ok (existing refs, missing refs)
      → (if is_nil refs
          then ok present
          else (sort_targets table_exists fallback refs >>= λ sorted.
              drop_outcome if_exists sorted))
        ≡ drop_outcome if_exists (existing refs, missing refs)
  unfolding scoped
  no_targets table_exists if_exists [] e = refl
  no_targets table_exists if_exists (r ∷ refs) e = rw e refl

  -- The preflight of a DROP with targets.
  pub preflight_ddl-drop :
      (table_exists : Target → Result Bool)
      → ((t : Target) → table_exists t ≡ ok (exists t))
      → (c : ClassifiedStatement) → c.category ≡ ddl
      → c.ast_type ≡ text "drop"
      → AllInScope fallback c.mutated_tables
      → preflight_ddl table_exists fallback c
        ≡ drop_outcome c.if_exists (existing c.mutated_tables, missing c.mutated_tables)
  unfolding preflight_ddl
  preflight_ddl-drop table_exists answers c category ast h =
      rw (category, ast)
        (no_targets table_exists c.if_exists c.mutated_tables
          (sort_targets_lem table_exists answers c.mutated_tables h))
