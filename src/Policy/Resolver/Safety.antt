-- ===== src/Policy/Resolver/Safety.antt =====
-- When a statement runs without any question: exactly when the baseline itself allows everything
-- that the statement does.
use sequel_ace_mcp.Prelude.{
  ◌≡◌, ◌≢◌, ◌≤◌, ◌↔◌, refl, sym, ◌∙◌, ap, ◌⊎◌, inl, inr, false, Option, none, some, or_else, List,
  [], ◌∷◌, arith, Text, Option-cases, Bool-cases, All, Any, subst,
}
use sequel_ace_mcp.Policy.Model.{SqlCategory, PolicyAction, allow, category_eq, rank, action_for}
use sequel_ace_mcp.Policy.RuleKey.{TableId}
use sequel_ace_mcp.Policy.Statement.{TableRef, ClassifiedStatement}
use sequel_ace_mcp.Policy.Resolver.{
  TableContribution, Connection, Progress, Resolution, contribution, governing_rule, rule_action,
  resolve_table_action, consider_mutations, conclude, progress, resolve,
}
use sequel_ace_mcp.Policy.Resolver.Loops.{
  Need, needs, established, contribution_list, contributions_of, first_unresolved,
}
use sequel_ace_mcp.Policy.Resolver.Refinement.{
  IsStrictest, IsConsistent, IsResolved, IsDecided, resolve-IsResolved,
}

module _ (conn : Connection) (fallback : Option Text) where
  -- The need's database is known, the baseline allows its category, and the rule that governs the
  -- table says nothing of the category or allows it.
  abbrev pub IsSilent : Need → Type 0
  IsSilent n =
      (id : TableId) × (established conn fallback n ≡ some id)
      × (action_for conn.policy n.category ≡ allow)
      × ((rule_action (governing_rule conn.table_policies id) n.category ≡ none)
          ⊎ (rule_action (governing_rule conn.table_policies id) n.category ≡ some allow))

  action-eq-allow :
      (n : Need) (id : TableId)
      → ((contribution conn.policy conn.table_policies n.category n.kind id).action ≡ allow) ↔ (
          (action_for conn.policy n.category ≡ allow)
          × ((rule_action (governing_rule conn.table_policies id) n.category ≡ none)
              ⊎ (rule_action (governing_rule conn.table_policies id) n.category ≡ some allow)))
  unfolding contribution resolve_table_action
  action-eq-allow n id = ground arith

  All-IsSilent :
      (ns : List Need)
      → first_unresolved conn fallback ns ≡ none
      → All (λ c. rank c.action ≤ 0) (contributions_of conn fallback ns)
      → All IsSilent ns
  unfolding first_unresolved contributions_of
  All-IsSilent [] d h = tt
  All-IsSilent (n ∷ ns) d h = elim (Option-cases (or_else n.table.database fallback)) [
    | inl missing ↦ absurd (ground arith)
    | inr (db, known) ↦
        let id : TableId = record { database = db; table = n.table.table } in
        let rest = rw (known, first_unresolved) at d in
        let parts = rw (known, contributions_of, contribution_list) at h in
        let silent = (action-eq-allow n id).0 (ground (arith, parts.0)) in
        ((id, rw (known, established) refl, silent.0, silent.1), All-IsSilent ns rest parts.1)
  ]

  All-allowed :
      (ns : List Need)
      → All IsSilent ns
      → (first_unresolved conn fallback ns ≡ none)
        × All (λ c. c.action ≡ allow) (contributions_of conn fallback ns)
  unfolding first_unresolved contributions_of
  All-allowed [] h = (refl, tt)
  All-allowed (n ∷ ns) ((id, known, permitted, rule), h) =
      let (resolved, rest) = All-allowed ns h in
      (ground arith, ground (arith, (action-eq-allow n id).1 (permitted, rule)))

  Any-elim :
      (cs : List TableContribution) (a : PolicyAction) (P : TableContribution → Type 0)
      → All (λ c. c.action ≡ allow) cs
      → Any (λ c. (c.action ≡ a) × P c) cs
      → a ≡ allow
  Any-elim [] a P h k = absurd k
  Any-elim (c ∷ cs) a P h (inl k) = sym k.0 ∙ h.0
  Any-elim (c ∷ cs) a P h (inr k) = Any-elim cs a P h.1 k

  -- Under a read classification a mutated table leaves a reason to deny.
  denied-consider_mutations :
      (ts : List TableRef) (s : Progress)
      → s.denied ≢ none
      → (consider_mutations conn fallback SqlCategory.read ts s).denied ≢ none
  unfolding consider_mutations
  denied-consider_mutations [] s k = k
  denied-consider_mutations (t ∷ ts) s k = denied-consider_mutations ts _ (ground arith)

  read_needs_no_mutation :
      (ts : List TableRef) (s : Progress)
      → (consider_mutations conn fallback SqlCategory.read ts s).denied ≡ none
      → ts ≡ []
  unfolding consider_mutations
  read_needs_no_mutation [] s h = refl
  read_needs_no_mutation (t ∷ ts) s h = absurd (denied-consider_mutations ts _ (ground arith) h)

  IsConsistent_of_progress :
      (category : SqlCategory) (ts : List TableRef) (s : Progress)
      → (consider_mutations conn fallback category ts s).denied ≡ none
      → (category_eq category SqlCategory.read ≡ false) ⊎ (ts ≡ [])
  IsConsistent_of_progress SqlCategory.read ts s h = inr (read_needs_no_mutation ts s h)
  IsConsistent_of_progress _ ts s h = inl refl

module _ (conn : Connection) where
  -- A denied progress is concluded with `deny`.
  conclude-allow :
      (c : ClassifiedStatement) (fallback : Option Text) (s : Progress)
      → (conclude conn c fallback s).action ≡ allow
      → s.denied ≡ none
  unfolding conclude
  conclude-allow c fallback s h = ground arith

  sound_of_allow :
      (c : ClassifiedStatement) (fallback : Option Text)
      → (resolve conn c fallback).action ≡ allow
      → (c.file_io ≡ false) × IsConsistent conn c
  unfolding resolve progress
  sound_of_allow c fallback h = elim (Bool-cases c.file_io) [
    | inl harmful ↦ absurd (ground arith)
    | inr harmless ↦
        let db = or_else fallback conn.database in
        let s = progress conn c db in
        let open_ : s.denied ≡ none = conclude-allow c db s (ground arith) in
        (harmless, IsConsistent_of_progress conn db c.category c.mutated_tables _ open_)
  ]

  -- All that must hold for a statement to run with no question asked.
  pub record RunsSilently (c : ClassifiedStatement) (fallback : Option Text) : Type 0 where
    pub no_file_io : c.file_io ≡ false
    pub consistent : IsConsistent conn c
    pub tables : All (IsSilent conn (or_else fallback conn.database)) (needs c)
    pub table_free : (needs c ≢ []) ⊎ (action_for conn.policy c.category ≡ allow)

  module _ (c : ClassifiedStatement) (db : Option Text) (r : Resolution) where
    IsDecided-of_allow : IsResolved conn c db r → r.action ≡ allow → IsDecided conn c db r
    IsDecided-of_allow spec h = elim spec.outcome [
      | inl (_, denied, _) ↦ cc (denied, h)
      | inr decided ↦ decided
    ]

    nothing_attained :
        IsResolved conn c db r
        → needs c ≡ []
        → IsStrictest conn r.contributions r.action r.effective
        → ⊥
    unfolding contributions_of
    nothing_attained spec none_needed st =
        subst (Any _) (spec.contributions ∙ ap (contributions_of conn db) none_needed) st.attained

    IsSilent-of_allow :
        IsResolved conn c db r
        → r.action ≡ allow
        → All (IsSilent conn db) (needs c)
          × ((needs c ≢ []) ⊎ (action_for conn.policy c.category ≡ allow))
    IsSilent-of_allow spec h =
        let (known, how) = IsDecided-of_allow spec h in
        elim how [
          | inl (none_needed, a, _) ↦
              (subst (All (IsSilent conn db)) (sym none_needed) tt, inr (sym a ∙ h))
          | inr st ↦ (
            All-IsSilent conn db (needs c) (sym spec.reason ∙ known) (
                subst (All (λ k. rank k.action ≤ 0)) spec.contributions
                  (subst (λ a. All (λ k. rank k.action ≤ rank a) r.contributions) h st.bound)),
            inl (λ none_needed. absurd (nothing_attained spec none_needed st)),
          )
        ]

    allow_of_silent :
        IsResolved conn c db r
        → All (IsSilent conn db) (needs c)
        → ((needs c ≢ []) ⊎ (action_for conn.policy c.category ≡ allow))
        → r.action ≡ allow
    allow_of_silent spec silent free =
        let (resolved, allowed) = All-allowed conn db (needs c) silent in
        elim spec.outcome [
          | inl (refused, _, _) ↦ absurd (refused (spec.reason ∙ resolved))
          | inr (_, how) ↦ elim how [
            | inl (none_needed, a, _) ↦ elim free [
              | inl some_needed ↦ absurd (some_needed none_needed)
              | inr allowed_here ↦ a ∙ allowed_here
            ]
            | inr st ↦
                Any-elim conn db r.contributions r.action _
                  (subst (All (λ k. k.action ≡ allow)) (sym spec.contributions) allowed) st.attained
          ]
        ]

  -- A statement is allowed without confirmation exactly when it touches no file, its category fits
  -- the tables it mutates, and for every table it reads (`read`, and `write` too under a lock) or
  -- mutates (its own category) the database is known, the baseline allows the category and no
  -- governing rule is stricter; a statement that names no table needs the baseline's allowance for
  -- its category. So no table rule lifts a stricter baseline silently.
  pub resolve-allow_iff :
      (c : ClassifiedStatement) (fallback : Option Text)
      → ((resolve conn c fallback).action ≡ allow) ↔ RunsSilently c fallback
  resolve-allow_iff c fallback = (
    λ h.
        let (harmless, consistent) = sound_of_allow c fallback h in
        let (tables, free) =
          IsSilent-of_allow c (or_else fallback conn.database) (resolve conn c fallback)
            (resolve-IsResolved conn c fallback harmless consistent) h in
        record {
          no_file_io = harmless;
          consistent = consistent;
          tables = tables;
          table_free = free;
        },
    λ s.
        allow_of_silent c (or_else fallback conn.database) (resolve conn c fallback)
          (resolve-IsResolved conn c fallback s.no_file_io s.consistent) s.tables s.table_free,
  )
