-- ===== src/Gate/Authorized.antt =====
-- Nothing reaches an executor unless the policy and, where it asks for one, a person allowed it.
use sequel_ace_mcp.Prelude.{
  ◌≡◌, ◌⊎◌, inl, inr, refl, Bool, true, false, ◌&&◌, not, none, some, or_else, [], ◌∷◌, ◌++◌, arith,
  Text, eqb, eqb_iff, Bool-cases, Option-cases, subst,
}
use sequel_ace_mcp.Policy.Model.{
  SqlCategory, category_eq, PolicyAction, allow, confirm, deny, action_eq,
}
use sequel_ace_mcp.Policy.Resolver.{resolve}
use sequel_ace_mcp.Policy.Classifier
use sequel_ace_mcp.Approval.Engine.{session_covers}
use sequel_ace_mcp.Gate.{
  Connection, Config, resolve_connection, dialect_for, GrantChoice, ConfirmOutcome, chosen, World,
  Gate, RunSqlArgs, Executed,
}
use sequel_ace_mcp.Gate.Snippet.{snippet}
use sequel_ace_mcp.Gate.Stages.{
  Prepared, prepared, Grant, granted, Dialled, ready, missing_password, tunnel_failed,
}
use sequel_ace_mcp.Gate.Approving.{
  prepare, prepare_on, session_key, request_for, answer, approve, authorize, audit,
}
use sequel_ace_mcp.Gate.Run.{revalidate, revalidate_on, consume, finish, perform}

action_eq-true : (a b : PolicyAction) → action_eq a b ≡ true → a ≡ b
action_eq-true allow allow h = refl
action_eq-true confirm confirm h = refl
action_eq-true deny deny h = refl
action_eq-true allow confirm h = cc
action_eq-true allow deny h = cc
action_eq-true confirm allow h = cc
action_eq-true confirm deny h = cc
action_eq-true deny allow h = cc
action_eq-true deny confirm h = cc

module _ (w : World) (args : RunSqlArgs) where
  -- What the first stages have established.
  pub record IsPrepared (expect_read_only : Bool) (p : Prepared) : Type 0 where
    pub loaded : w.load ≡ some p.cfg
    pub connected : resolve_connection p.cfg args.connection ≡ some p.conn
    pub classified : w.classify args.sql (dialect_for p.conn) ≡ Classifier.ok p.classified
    pub read_only :
        (expect_read_only && not (category_eq p.classified.category SqlCategory.read)) ≡ false
    pub defaulted : p.fallback ≡ or_else args.database p.conn.rules.database
    pub resolved : p.resolution ≡ resolve p.conn.rules p.classified p.fallback

  module _ (p : Prepared) where
    -- A live session grant, or a person's yes to the request that shows the statement.
    abbrev pub IsApproved : Gate → Type 0
    IsApproved s =
        ((session_covers s.approvals (session_key w args p) w.covers_at).1 ≡ true)
        ⊎ ((shown : Text) × (snippet args.sql ≡ some shown)
            × ((w.confirm (request_for w args p shown) ≡ chosen GrantChoice.session)
                ⊎ (w.confirm (request_for w args p shown) ≡ chosen GrantChoice.once)))

    -- The configuration read before execution has the same revision, or resolves the statement to
    -- the same action.
    abbrev pub IsRevalidated : Type 0
    IsRevalidated =
        (cfg2 : Config) × (w.reload ≡ some cfg2)
        × ((cfg2.revision ≡ p.cfg.revision)
            ⊎ ((conn2 : Connection) × (resolve_connection cfg2 args.connection ≡ some conn2)
                × ((resolve conn2.rules p.classified p.fallback).action ≡ p.resolution.action)))

    executed-answer :
        (o : ConfirmOutcome) (s : Gate) → (answer w args p o s).0.executed ≡ s.executed
    unfolding answer
    executed-answer (ConfirmOutcome.unavailable r) s = refl
    executed-answer (chosen GrantChoice.once) s = refl
    executed-answer (chosen _) s = refl

    executed-approve : (s : Gate) → (approve w args p s).0.executed ≡ s.executed
    unfolding approve
    executed-approve s =
        let s1 : Gate = record s {
          approvals = (session_covers s.approvals (session_key w args p) w.covers_at).0;
        } in
        elim (Bool-cases (session_covers s.approvals (session_key w args p) w.covers_at).1) [
          | inl holds ↦ ground arith
          | inr fails ↦ elim (Option-cases (snippet args.sql)) [
            | inl missing ↦ ground arith
            | inr (shown, found) ↦
                ground (arith, executed-answer (w.confirm (request_for w args p shown)) s1)
          ]
        ]

    pub executed-authorize :
        (a : PolicyAction) (s : Gate) → (authorize w args p a s).0.executed ≡ s.executed
    unfolding authorize
    executed-authorize deny s = refl
    executed-authorize allow s = refl
    executed-authorize confirm s = ground (arith, executed-approve s)

    answer-granted :
        (o : ConfirmOutcome) (s : Gate) (g : Grant)
        → (answer w args p o s).1 ≡ granted g
        → (o ≡ chosen GrantChoice.session) ⊎ (o ≡ chosen GrantChoice.once)
    unfolding answer
    answer-granted (ConfirmOutcome.unavailable r) s g h = cc
    answer-granted (chosen GrantChoice.once) s g h = inr refl
    answer-granted (chosen GrantChoice.session) s g h = inl refl
    answer-granted (chosen GrantChoice.decline) s g h = cc

    approve-granted : (s : Gate) (g : Grant) → (approve w args p s).1 ≡ granted g → IsApproved s
    unfolding approve
    approve-granted s g h =
        let s1 : Gate = record s {
          approvals = (session_covers s.approvals (session_key w args p) w.covers_at).0;
        } in
        elim (Bool-cases (session_covers s.approvals (session_key w args p) w.covers_at).1) [
          | inl holds ↦ inl holds
          | inr fails ↦ elim (Option-cases (snippet args.sql)) [
            | inl missing ↦ absurd (ground arith)
            | inr (shown, found) ↦ inr (
              shown,
              found,
              answer-granted (w.confirm (request_for w args p shown)) s1 g (ground arith),
            )
          ]
        ]

    -- Allowed outright, or confirmed with Touch ID where the policy wants it.
    abbrev pub IsAuthorized : PolicyAction → Gate → Type 0
    IsAuthorized a s =
        (a ≡ allow)
        ⊎ ((a ≡ confirm)
            × ((p.resolution.effective.require_touch_id && not w.touch_id) ≡ false)
            × IsApproved s)

    pub authorize-granted :
        (a : PolicyAction) (s : Gate) (g : Grant)
        → (authorize w args p a s).1 ≡ granted g
        → IsAuthorized a s
    unfolding authorize
    authorize-granted deny s g h = absurd (cc)
    authorize-granted allow s g h = inl refl
    authorize-granted confirm s g h =
        elim (Bool-cases (p.resolution.effective.require_touch_id && not w.touch_id)) [
          | inl holds ↦ absurd (ground arith)
          | inr fails ↦ inr (refl, fails, approve-granted s g (ground arith))
        ]

    pub executed-revalidate :
        (g : Grant) (s : Gate) → (revalidate w args p g s).0.executed ≡ s.executed
    unfolding revalidate revalidate_on audit
    executed-revalidate g s = elim (Option-cases w.reload) [
      | inl missing ↦ ground arith
      | inr (cfg2, found) ↦ elim (Bool-cases (eqb cfg2.revision p.cfg.revision)) [
        | inl same ↦ ground arith
        | inr other ↦ elim (Option-cases (resolve_connection cfg2 args.connection)) [
          | inl none_there ↦ ground arith
          | inr (conn2, there) ↦ ground arith
        ]
      ]
    ]

    pub revalidate-none :
        (g : Grant) (s : Gate) → (revalidate w args p g s).1 ≡ none → IsRevalidated
    unfolding revalidate revalidate_on audit
    revalidate-none g s h = elim (Option-cases w.reload) [
      | inl missing ↦ absurd (ground arith)
      | inr (cfg2, found) ↦ elim (Bool-cases (eqb cfg2.revision p.cfg.revision)) [
        | inl same ↦ (cfg2, found, inl ((eqb_iff cfg2.revision p.cfg.revision).0 same))
        | inr other ↦ elim (Option-cases (resolve_connection cfg2 args.connection)) [
          | inl none_there ↦ absurd (ground arith)
          | inr (conn2, there) ↦
              (cfg2, found, inr (conn2, there, action_eq-true _ _ (ground arith)))
        ]
      ]
    ]

    pub executed-consume : (g : Grant) (s : Gate) → (consume w args p g s).0.executed ≡ s.executed
    unfolding consume
    executed-consume g s = elim (Option-cases g.digest) [
      | inl missing ↦ ground arith
      | inr (d, found) ↦ ground arith
    ]

    executed-finish :
        (g : Grant) (r : Executed) (s : Gate) → (finish w args p g r s).0.executed ≡ s.executed
    unfolding finish audit
    executed-finish g (Executed.ok r) s = refl
    executed-finish g (Executed.err e) s = refl

    pub executed-perform :
        (g : Grant) (d : Dialled) (s : Gate)
        → ((perform w args p g d s).0.executed ≡ s.executed)
          ⊎ ((perform w args p g d s).0.executed
              ≡ s.executed ++ (args.sql, p.resolution.effective) ∷ [])
    unfolding perform audit
    executed-perform g (missing_password name) s = inl refl
    executed-perform g (tunnel_failed message) s = inl refl
    executed-perform g ready s =
        inr (executed-finish g (w.execute args.sql p.resolution.effective) _)

  prepared-inj : (p q : Prepared) → prepared p ≡ prepared q → p ≡ q
  prepared-inj p q h = cc

  prepare_on-prepared :
      (cfg : Config) (conn : Connection) (expect : Bool) (c : Classifier.Classification)
      (p : Prepared)
      → w.load ≡ some cfg
      → resolve_connection cfg args.connection ≡ some conn
      → w.classify args.sql (dialect_for conn) ≡ c
      → prepare_on w args cfg conn expect c ≡ prepared p
      → IsPrepared expect p
  unfolding prepare_on
  prepare_on-prepared cfg conn expect (Classifier.err e) p l r k h = absurd (cc)
  prepare_on-prepared cfg conn expect (Classifier.ok c) p l r k h =
      elim (Bool-cases (expect && not (category_eq c.category SqlCategory.read))) [
        | inl holds ↦ absurd (ground arith)
        | inr fails ↦
            let fallback = or_else args.database conn.rules.database in
            let q : Prepared = record {
              cfg = cfg;
              conn = conn;
              classified = c;
              fallback = fallback;
              resolution = resolve conn.rules c fallback;
            } in
            subst (IsPrepared expect) (prepared-inj q p (ground arith)) (record {
              loaded = l;
              connected = r;
              classified = k;
              read_only = fails;
              defaulted = refl;
              resolved = refl;
            })
      ]

  pub prepare-IsPrepared :
      (expect : Bool) (p : Prepared) → prepare w args expect ≡ prepared p → IsPrepared expect p
  unfolding prepare
  prepare-IsPrepared expect p h = elim (Option-cases w.load) [
    | inl missing ↦ absurd (ground arith)
    | inr (cfg, found) ↦ elim (Option-cases (resolve_connection cfg args.connection)) [
      | inl none_there ↦ absurd (ground arith)
      | inr (conn, there) ↦ prepare_on-prepared cfg conn expect _ p found there refl (ground arith)
    ]
  ]
