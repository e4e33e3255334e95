-- ===== src/Policy/Resolver/Refinement.antt =====
-- `resolve` against an independent description: the contributions that the statement's tables call
-- for, the strictest of their actions, and the limits of a table that has that action.
use sequel_ace_mcp.Prelude.{
  ◌≡◌, ◌≢◌, ◌≤◌, refl, sym, ◌∙◌, ap, ◌⊎◌, inl, inr, false, Option, none, some, or_else, List, [],
  ◌∷◌, ◌++◌, arith, Text, Option-cases, Bool-cases, ltb, All, All-append, Any, Any-append_left,
  Any-append_right, subst, append-nil,
}
use sequel_ace_mcp.Policy.Model.{SqlCategory, PolicyAction, Policy, category_eq, rank, action_for}
use sequel_ace_mcp.Policy.RuleKey.{TableId}
use sequel_ace_mcp.Policy.Statement.{ClassifiedStatement}
use sequel_ace_mcp.Policy.Resolver.{
  TableContribution, Connection, Progress, Resolution, start, stricter, contribution,
  effective_policy, governing_rule, consider, consider_table, consider_mutations, conclude,
  progress, resolve,
}
use sequel_ace_mcp.Policy.Resolver.Loops.{
  Need, needs, read_needs, consider_all, consider_all-append, consider_reads_lem,
  consider_mutations_lem, contributions_of, first_unresolved, contributions-consider_all,
  denied-consider_all, needs-eq-nil,
}

module _ (conn : Connection) where
  -- The baseline merged with the rule that governs the table.
  abbrev pub limits : TableId → Policy
  limits id = effective_policy conn.policy (governing_rule conn.table_policies id)

  -- No contribution is stricter than the action, and one has it and sets the limits.
  pub record IsStrictest (cs : List TableContribution) (a : PolicyAction) (p : Policy)
      : Type 0 where
    pub bound : All (λ c. rank c.action ≤ rank a) cs
    pub attained : Any (λ c. (c.action ≡ a) × (limits c.table ≡ p)) cs

  abbrev pub StrictestOf : List TableContribution → Option (PolicyAction × Policy) → Type 0
  StrictestOf cs none = cs ≡ []
  StrictestOf cs (some r) = IsStrictest cs r.0 r.1

  All-le :
      (cs : List TableContribution) (a b : PolicyAction)
      → rank a ≤ rank b
      → All (λ c. rank c.action ≤ rank a) cs
      → All (λ c. rank c.action ≤ rank b) cs
  All-le [] a b h k = tt
  All-le (c ∷ cs) a b h k = (omega (arith, k.0), All-le cs a b h k.1)

  pub StrictestOf-stricter :
      (cs : List TableContribution) (o : Option (PolicyAction × Policy)) (c : TableContribution)
      → StrictestOf cs o
      → StrictestOf (cs ++ c ∷ []) (stricter o c.action (limits c.table))
  StrictestOf-stricter cs none c h =
      rw h (record { bound = (omega arith, tt); attained = inl (refl, refl) })
  StrictestOf-stricter cs (some (a, p)) c h = elim (Bool-cases (ltb (rank a) (rank c.action))) [
    | inl more ↦ rw more (record {
      bound = All-append _ cs _ (All-le cs a c.action (ground arith) h.bound) (omega arith, tt);
      attained = Any-append_right _ cs _ (inl (refl, refl));
    })
    | inr less ↦ rw less (record {
      bound = All-append _ cs _ h.bound (ground arith, tt);
      attained = Any-append_left _ cs _ h.attained;
    })
  ]

  module _ (fallback : Option Text) where
    StrictestOf-consider :
        (n : Need) (s : Progress)
        → StrictestOf s.contributions s.strictest
        → StrictestOf
            (consider conn fallback n.category n.kind n.table s).contributions
            (consider conn fallback n.category n.kind n.table s).strictest
    unfolding consider consider_table contribution
    StrictestOf-consider n s h = elim (Option-cases (or_else n.table.database fallback)) [
      | inl missing ↦ rw (missing, consider) h
      | inr (db, known) ↦
          rw (known, consider) (StrictestOf-stricter s.contributions s.strictest _ h)
    ]

    StrictestOf-consider_all :
        (ns : List Need) (s : Progress)
        → StrictestOf s.contributions s.strictest
        → StrictestOf
            (consider_all conn fallback ns s).contributions
            (consider_all conn fallback ns s).strictest
    unfolding consider_all
    StrictestOf-consider_all [] s h = h
    StrictestOf-consider_all (n ∷ ns) s h =
        StrictestOf-consider_all ns _ (StrictestOf-consider n s h)

  -- A mutated table comes with a mutating category, as the classifier has it.
  abbrev pub IsConsistent : ClassifiedStatement → Type 0
  IsConsistent c = (category_eq c.category SqlCategory.read ≡ false) ⊎ (c.mutated_tables ≡ [])

  module _ (c : ClassifiedStatement) (fallback : Option Text) where
    pub progress_lem :
        IsConsistent c → progress conn c fallback ≡ consider_all conn fallback (needs c) start
    unfolding progress consider_mutations
    progress_lem (inl mutating) =
        ap (consider_mutations conn fallback c.category c.mutated_tables)
          (consider_reads_lem conn fallback c.locking_read c.read_tables start)
        ∙ consider_mutations_lem conn fallback c.category c.mutated_tables _ mutating
        ∙ sym (consider_all-append conn fallback (read_needs c.locking_read c.read_tables) _ start)
    progress_lem (inr nothing) =
        rw (nothing, append-nil)
          (consider_reads_lem conn fallback c.locking_read c.read_tables start)

    -- Denied for a reason, under the baseline's limits.
    abbrev pub IsRefused : Resolution → Type 0
    IsRefused r =
        (r.deny_reason ≢ none) × (r.action ≡ PolicyAction.deny) × (r.effective ≡ conn.policy)

    -- The strictest contribution, or the baseline where the statement needs no table.
    abbrev pub IsDecided : Resolution → Type 0
    IsDecided r =
        (r.deny_reason ≡ none)
        × (((needs c ≡ [])
              × (r.action ≡ action_for conn.policy c.category)
              × (r.effective ≡ conn.policy))
            ⊎ IsStrictest r.contributions r.action r.effective)

    pub record IsResolved (r : Resolution) : Type 0 where
      pub contributions : r.contributions ≡ contributions_of conn fallback (needs c)
      pub reason : r.deny_reason ≡ first_unresolved conn fallback (needs c)
      pub outcome : IsRefused r ⊎ IsDecided r

    conclude-IsResolved :
        (s : Progress)
        → s.contributions ≡ contributions_of conn fallback (needs c)
        → s.denied ≡ first_unresolved conn fallback (needs c)
        → StrictestOf s.contributions s.strictest
        → IsResolved (conclude conn c fallback s)
    unfolding conclude
    conclude-IsResolved s e d h = elim (Option-cases s.denied) [
      | inr (reason, refused) ↦
          rw (refused, conclude)
            (record {
              contributions = e;
              reason = sym refused ∙ d;
              outcome = inl (λ open_. cc, refl, refl);
            })
      | inl granted ↦ elim (Option-cases s.strictest) [
        | inr (r, decided) ↦
            rw (granted, decided, conclude)
              (record {
                contributions = e;
                reason = sym granted ∙ d;
                outcome = inr (refl, inr (subst (StrictestOf s.contributions) decided h));
              })
        | inl nothing ↦
            let empty = subst (StrictestOf s.contributions) nothing h in
            rw (granted, nothing, conclude)
              (record {
                contributions = sym empty ∙ e;
                reason = sym granted ∙ d;
                outcome = inr (
                  refl,
                  inl (
                    needs-eq-nil conn fallback (needs c) (sym e ∙ empty) (sym d ∙ granted),
                    refl,
                    refl,
                  ),
                );
              })
      ]
    ]

  -- For a statement without file access that is no read or mutates no table, `resolve` yields
  -- exactly the contributions that the statement's tables call for, in order; it denies with a reason exactly when some table has no
  -- database, naming the first one; and otherwise its action is the strictest of the contributions'
  -- actions with the limits of a table that has it, or, for a statement that names no table, the
  -- baseline's action and limits.
  pub resolve-IsResolved :
      (c : ClassifiedStatement) (fallback : Option Text)
      → c.file_io ≡ false
      → IsConsistent c
      → IsResolved c (or_else fallback conn.database) (resolve conn c fallback)
  unfolding resolve
  resolve-IsResolved c fallback harmless consistent =
      let db = or_else fallback conn.database in
      let s = consider_all conn db (needs c) start in
      simp (harmless, progress_lem c db consistent)
        (conclude-IsResolved c db s (contributions-consider_all conn db (needs c) start)
          (denied-consider_all conn db (needs c) start)
          (StrictestOf-consider_all db (needs c) start refl))
