-- ===== src/Ddl/Plan/Gap.antt =====
-- The time between the plan of a DROP, which is approved, and its execution.
use sequel_ace_mcp.Prelude.{
  ◌≡◌, inl, inr, refl, ap, sym, ◌∙◌, subst, Bool, true, false, not, Option, none, some, List, [],
  ◌∷◌, Text, text, unwrap_or, retain, All, Bool-cases, Option-cases,
}
use sequel_ace_mcp.Policy.Model.{ddl}
use sequel_ace_mcp.Policy.Statement.{other, ClassifiedStatement}
use sequel_ace_mcp.Ddl.Rewrite.{
  Target, rewrite_drop_subset, read_statement, read_statement-rewrite_drop_subset,
}
use sequel_ace_mcp.Ddl.Preflight.{Result, ok, target_eq, drop_outcome, preflight_ddl}
use sequel_ace_mcp.Ddl.Chain.{target_eq_iff}
use sequel_ace_mcp.Ddl.Plan.{scoped, approved_ddl, send, member, unexpected, decide_ddl, run_ddl}
use sequel_ace_mcp.Ddl.Plan.Targets.{AllInScope, existing, missing, preflight_ddl-drop}

-- The targets that a sent statement drops: those of the text that replaces it, or its own.
abbrev pub Drops : ClassifiedStatement → Option Text → Option Text → List Target → Type 0
Drops c fallback none targets = targets ≡ scoped fallback c.mutated_tables
Drops c fallback (some s) targets =
    read_statement s ≡ some (unwrap_or c.drop_object_type other, targets)

module _ (exists : Target → Bool) where
  abbrev pub Exists : List Target → Type 0
  Exists ts = All (λ t. exists t ≡ true) ts

  Exists-retain : (ts : List Target) → Exists (retain exists ts)
  Exists-retain [] = tt
  Exists-retain (t ∷ ts) = elim (Bool-cases (exists t)) [
    | inl e ↦ rw e (e, Exists-retain ts)
    | inr e ↦ rw e (Exists-retain ts)
  ]

  none_missing-Exists : (ts : List Target) → retain (λ t. not (exists t)) ts ≡ [] → Exists ts
  none_missing-Exists [] h = tt
  none_missing-Exists (t ∷ ts) h = elim (Bool-cases (exists t)) [
    | inl e ↦ (e, none_missing-Exists ts (rw e at h))
    | inr e ↦ absurd (cc (rw e at h))
  ]

  Exists-member : (ts : List Target) (t : Target) → Exists ts → member t ts ≡ true → exists t ≡ true
  Exists-member [] t h m = absurd (cc)
  Exists-member (u ∷ ts) t h m = elim (Bool-cases (target_eq u t)) [
    | inl e ↦ subst (λ (x : Target). exists x ≡ true) ((target_eq_iff u t).0 e) (h.0)
    | inr e ↦ Exists-member ts t h.1 (rw e at m)
  ]

  -- What was not found to be unexpected was approved, and existed.
  Exists-unexpected :
      (expected ts : List Target) → Exists expected → unexpected expected ts ≡ none → Exists ts
  unfolding unexpected
  Exists-unexpected expected [] h u = tt
  Exists-unexpected expected (t ∷ ts) h u = elim (Bool-cases (member t expected)) [
    | inl m ↦ (Exists-member expected t h m, Exists-unexpected expected ts h (rw m at u))
    | inr m ↦ absurd (cc (rw m at u))
  ]

module _ (fallback : Option Text) (c : ClassifiedStatement) where
  approved-Exists_outcome :
      (exists : Target → Bool) (flag : Bool) (here gone approved : List Target)
      → here ≡ existing exists fallback c.mutated_tables
      → gone ≡ missing exists fallback c.mutated_tables
      → approved_ddl fallback c (drop_outcome flag (here, gone)) ≡ some approved
      → Exists exists approved
  unfolding approved_ddl
  approved-Exists_outcome exists flag here [] approved p q e =
      let all = none_missing-Exists exists (scoped fallback c.mutated_tables) (sym q) in
      let same : scoped fallback c.mutated_tables ≡ approved = cc in subst (Exists exists) same all
  approved-Exists_outcome exists false here (t ∷ gone) approved p q e = absurd (cc)
  approved-Exists_outcome exists true [] (t ∷ gone) approved p q e =
      let same : [] ≡ approved = cc in subst (Exists exists) same (tt)
  approved-Exists_outcome exists true (u ∷ here) (t ∷ gone) approved p q e =
      let same : u ∷ here ≡ approved = cc in
      subst (Exists exists) (sym p ∙ same) (Exists-retain exists (scoped fallback c.mutated_tables))

  -- What is sent of a DROP names approved targets that exist.
  sent_outcome :
      (exists now : Target → Bool) (flag : Bool) (here gone approved : List Target)
      → here ≡ existing now fallback c.mutated_tables
      → gone ≡ missing now fallback c.mutated_tables
      → c.ast_type ≡ text "drop"
      → Exists exists approved
      → (replaced : Option Text) (executed absent : List Target)
      → decide_ddl (some approved) fallback c (drop_outcome flag (here, gone))
        ≡ send replaced executed absent
      → (targets : List Target) × Drops c fallback replaced targets
        × Exists exists targets
        × Exists now targets
  unfolding decide_ddl
  sent_outcome exists now flag here [] approved p q ast ex replaced executed absent e =
      elim (Option-cases (unexpected approved (scoped fallback c.mutated_tables))) [
        | inl fine ↦
            (let k : send none [] [] ≡ send replaced executed absent = rw (ast, fine) at e in
              let r : none ≡ replaced = cc in
              (
                scoped fallback c.mutated_tables,
                subst (λ o. Drops c fallback o (scoped fallback c.mutated_tables)) r refl,
                Exists-unexpected exists approved (scoped fallback c.mutated_tables) ex fine,
                none_missing-Exists now (scoped fallback c.mutated_tables) (sym q),
              ))
        | inr (t, bad) ↦ absurd (cc (rw (ast, bad) at e))
      ]
  sent_outcome exists now false here (t ∷ gone) approved p q ast ex replaced executed absent e =
      absurd (cc)
  sent_outcome exists now true [] (t ∷ gone) approved p q ast ex replaced executed absent e =
      absurd (cc)
  sent_outcome exists now true (u ∷ here) (t ∷ gone) approved p q ast ex replaced executed absent
        e =
      elim (Option-cases (unexpected approved (u ∷ here))) [
        | inl fine ↦
            elim (Option-cases
              (rewrite_drop_subset (unwrap_or c.drop_object_type other) (u ∷ here))) [
                | inl never ↦ absurd (cc (rw (fine, never) at e))
                | inr (s, written) ↦
                    (let k : send (some s) (u ∷ here) (t ∷ gone) ≡ send replaced executed absent =
                        rw (fine, written) at e in
                      let r : some s ≡ replaced = cc in
                      (
                        u ∷ here,
                        subst (λ o. Drops c fallback o (u ∷ here)) r
                            (read_statement-rewrite_drop_subset (unwrap_or c.drop_object_type other)
                              (u ∷ here) s written),
                        Exists-unexpected exists approved (u ∷ here) ex fine,
                        subst (Exists now) (sym p)
                            (Exists-retain now (scoped fallback c.mutated_tables)),
                      ))
              ]
        | inr (v, bad) ↦ absurd (cc (rw bad at e))
      ]

-- A DROP that is sent after the approval of its plan, as it stands or replaced by another text, drops
-- only tables that existed when it was planned and exist when it is sent, if the server answers by a
-- table's existence both times and each target has a database in scope.
pub run_ddl-approved :
    (planned now : Target → Bool) (planned_exists now_exists : Target → Result Bool)
    → ((t : Target) → planned_exists t ≡ ok (planned t))
    → ((t : Target) → now_exists t ≡ ok (now t))
    → (fallback : Option Text) (c : ClassifiedStatement) (approved : List Target) → c.category ≡ ddl
    → c.ast_type ≡ text "drop"
    → AllInScope fallback c.mutated_tables
    → approved_ddl fallback c (preflight_ddl planned_exists fallback c) ≡ some approved
    → (replaced : Option Text) (executed absent : List Target)
    → run_ddl now_exists (some approved) fallback c ≡ send replaced executed absent
    → (targets : List Target) × Drops c fallback replaced targets
      × Exists planned targets
      × Exists now targets
unfolding run_ddl
run_ddl-approved planned now planned_exists now_exists pa na fallback c approved category ast h plan
      replaced executed absent sent =
    let before = preflight_ddl-drop planned fallback planned_exists pa c category ast h in
    let after = preflight_ddl-drop now fallback now_exists na c category ast h in
    let ex =
      approved-Exists_outcome fallback c planned c.if_exists
        (existing planned fallback c.mutated_tables) (missing planned fallback c.mutated_tables)
        approved refl refl (sym (ap (approved_ddl fallback c) before) ∙ plan) in
    sent_outcome fallback c planned now c.if_exists (existing now fallback c.mutated_tables)
      (missing now fallback c.mutated_tables) approved refl refl ast ex replaced executed absent
      (sym (ap (decide_ddl (some approved) fallback c) after) ∙ sent)
