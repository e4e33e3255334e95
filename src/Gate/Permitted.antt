-- ===== src/Gate/Permitted.antt =====
-- What every statement that reaches an executor went through first.
use sequel_ace_mcp.Prelude.{
  ◌≡◌, ◌⊎◌, inl, inr, refl, ◌∙◌, ap, Bool, Option, none, some, [], ◌∷◌, ◌++◌, Option-cases,
}
use sequel_ace_mcp.Gate.{World, Gate, RunSqlArgs, GateError}
use sequel_ace_mcp.Gate.Stages.{Prepared, prepared, Preparation, Grant, granted, Authorization}
use sequel_ace_mcp.Gate.Approving.{prepare, authorize}
use sequel_ace_mcp.Gate.Run.{
  revalidate, consume, dial, perform, proceed, unless, continue, run_prepared, run_sql,
}
use sequel_ace_mcp.Gate.Stages
use sequel_ace_mcp.Gate.Authorized.{
  IsPrepared, IsRevalidated, IsAuthorized, executed-authorize, authorize-granted,
  executed-revalidate, revalidate-none, executed-consume, executed-perform, prepare-IsPrepared,
}

module _ (w : World) (args : RunSqlArgs) where
  -- The statement is handed to the executor, once, with the limits of its resolution.
  abbrev pub IsHandedOver : Prepared → Gate → Gate → Type 0
  IsHandedOver p s s2 = s2.executed ≡ s.executed ++ (args.sql, p.resolution.effective) ∷ []

  executed-unless_consumed :
      (p : Prepared) (g : Grant) (s1 s2 : Gate) (lapsed : Option GateError)
      → s2.executed ≡ s1.executed
      → ((unless w args p lapsed (perform w args p g (dial w args p) s2) s2).0.executed
          ≡ s1.executed)
        ⊎ IsHandedOver p s1 (unless w args p lapsed (perform w args p g (dial w args p) s2) s2).0
  executed-unless_consumed p g s1 s2 (some e) h = inl h
  executed-unless_consumed p g s1 s2 none h =
      elim (executed-perform w args p g (dial w args p) s2) [
        | inl same ↦ inl (same ∙ h)
        | inr once ↦ inr (once ∙ ap (λ l. l ++ (args.sql, p.resolution.effective) ∷ []) h)
      ]

  executed-proceed :
      (p : Prepared) (g : Grant) (s : Gate)
      → ((proceed w args p g s).0.executed ≡ s.executed)
        ⊎ (IsHandedOver p s (proceed w args p g s).0 × IsRevalidated w args p)
  unfolding proceed
  executed-proceed p g s =
      let s1 = (revalidate w args p g s).0 in
      let same1 = executed-revalidate w args p g s in
      elim (Option-cases (revalidate w args p g s).1) [
        | inr (e, changed) ↦ inl (rw (changed, revalidate) same1)
        | inl fresh ↦
            elim (executed-unless_consumed p g s1 (consume w args p g s1).0
              (consume w args p g s1).1 (executed-consume w args p g s1)) [
                | inl same ↦ inl (rw (fresh, revalidate) (same ∙ same1))
                | inr once ↦ inr (
                  rw (fresh, revalidate)
                      (once ∙ ap (λ l. l ++ (args.sql, p.resolution.effective) ∷ []) same1),
                  revalidate-none w args p g s fresh,
                )
              ]
      ]

  executed-continue :
      (p : Prepared) (s0 s1 : Gate) (x : Authorization)
      → s1.executed ≡ s0.executed
      → ((g : Grant) → x ≡ granted g → IsAuthorized w args p p.resolution.action s0)
      → ((continue w args p (s1, x)).0.executed ≡ s0.executed)
        ⊎ (IsAuthorized w args p p.resolution.action s0
            × IsRevalidated w args p
            × IsHandedOver p s0 (continue w args p (s1, x)).0)
  unfolding proceed
  executed-continue p s0 s1 (Stages.Authorization.stopped e) h f = inl h
  executed-continue p s0 s1 Stages.panicked h f = inl h
  executed-continue p s0 s1 (granted g) h f = elim (executed-proceed p g s1) [
    | inl same ↦ inl (same ∙ h)
    | inr (once, again) ↦
        inr (f g refl, again, once ∙ ap (λ l. l ++ (args.sql, p.resolution.effective) ∷ []) h)
  ]

  executed-run_prepared :
      (expect : Bool) (x : Preparation) (s : Gate)
      → prepare w args expect ≡ x
      → ((run_prepared w args x s).0.executed ≡ s.executed)
        ⊎ ((p : Prepared) × IsPrepared w args expect p
            × IsAuthorized w args p p.resolution.action s
            × IsRevalidated w args p
            × IsHandedOver p s (run_prepared w args x s).0)
  unfolding run_prepared
  executed-run_prepared expect (Stages.Preparation.stopped e) s h = inl refl
  executed-run_prepared expect (prepared p) s h =
      let (s1, x) = authorize w args p p.resolution.action s in
      elim (executed-continue p s s1 x (executed-authorize w args p p.resolution.action s)
        (authorize-granted w args p p.resolution.action s)) [
          | inl same ↦ inl same
          | inr (yes_to, again, once) ↦
              inr (p, prepare-IsPrepared w args expect p h, yes_to, again, once)
        ]

  -- Whether a read-only pipeline or the general one: a run hands at most one statement to an
  -- executor, namely its own, unchanged and under the limits of its resolution; and where it does,
  -- the statement was classified (as a read, where the tool is read-only) and resolved against the
  -- loaded configuration, the resolved action is `allow`, or it is `confirm` with Touch ID where the
  -- policy requires it and with a live session grant or a person's yes to the request that shows
  -- the statement, and a second read of the configuration has the same revision or resolves the
  -- statement to the same action.
  pub run_sql_executed :
      (expect_read_only : Bool) (s : Gate)
      → ((run_sql w args expect_read_only s).0.executed ≡ s.executed)
        ⊎ ((p : Prepared) × IsPrepared w args expect_read_only p
            × IsAuthorized w args p p.resolution.action s
            × IsRevalidated w args p
            × IsHandedOver p s (run_sql w args expect_read_only s).0)
  unfolding run_sql
  run_sql_executed expect s = executed-run_prepared expect (prepare w args expect) s refl
