-- ===== src/Sql/Transaction/Order.antt =====
-- What the work sends to the server, in which order, for each result, and how its backup went.
use sequel_ace_mcp.Prelude.{
  ℕ, ◌≡◌, inl, inr, refl, sym, ap, subst, ◌∙◌, append-nil, append_assoc, Option, none, some, List,
  [], ◌∷◌, ◌++◌, text, if◌then◌else◌, Bool-cases, Option-cases,
}
use sequel_ace_mcp.Backup.Journal.{
  mutation_committed, uncertain, failed, backup_capturing, mutation_executing,
}
use sequel_ace_mcp.Backup.Capture.{Store}
use sequel_ace_mcp.Sql.Transaction.{
  Sent, statement, commit, rollback, Work, Answer, answered, refused, timed_out, backup_failed,
  driver, timeout, commit_failed, panic, Ran, ok, err, note, send, Server, Params, Prepared,
  Preparation, ready, stopped, prepare, with_hint, finished, sql, executed, run_in_transaction,
  in_transaction, closed, work,
}
use sequel_ace_mcp.Sql.Transaction.Backing.{
  note-sent, note-store, captures, IsBackedUp, BackedUp, Saved, prepare_lem,
}

module _ (server : Server) (p : Params) where
  -- What a run sends, by its result.
  abbrev pub in_run : Ran → List Sent
  in_run (ok value) = statement (sql server p) ∷ []
  in_run (err backup_failed) = []
  in_run (err panic) = []
  in_run (err e) = statement (sql server p) ∷ []

  abbrev pub in_work : Ran → List Sent
  in_work (ok value) = statement (sql server p) ∷ (if p.in_tx then commit ∷ [] else [])
  in_work (err backup_failed) = if p.in_tx then rollback ∷ [] else []
  in_work (err panic) = []
  in_work (err commit_failed) = statement (sql server p) ∷ commit ∷ rollback ∷ []
  in_work (err e) = statement (sql server p) ∷ (if p.in_tx then rollback ∷ [] else [])

  abbrev NotCommit : Ran → Type 0
  NotCommit (ok value) = Unit
  NotCommit (err e) = e ≡ commit_failed → ⊥

  abbrev IsRun : List Sent → Store → Work × Ran → Type 0
  IsRun before s r = (r.0.sent ≡ before ++ in_run r.1) × NotCommit r.1 × BackedUp server p s r.1

  module _ (store : Store) (saved : IsBackedUp server p store) where
    with_hint_lem :
        (n : ℕ) (w : Work) (b : Prepared) (h : Store × Option ℕ) (before : List Sent)
        → w.sent ≡ before ++ statement (sql server p) ∷ []
        → IsRun before store (with_hint server p n w b h)
    with_hint_lem n w b (s, none) before h = (h, tt, saved)
    with_hint_lem n w b (s, some id) before h = (h, tt, saved)

    finished_lem :
        (a : Answer) (b : Prepared) (w : Work) (before : List Sent)
        → w.sent ≡ before ++ statement (sql server p) ∷ []
        → IsRun before store (finished server p a b w)
    finished_lem (refused message) b w before h = (h, λ e. cc, saved)
    finished_lem timed_out b w before h = (h, λ e. cc, saved)
    finished_lem (answered n insert_id) b w before h = elim (Option-cases b.pending_insert) [
      | inl e ↦ rw e (with_hint_lem n w b (w.store, none) before h)
      | inr (spec, e) ↦ rw e (with_hint_lem n w b (server.hint spec insert_id n w.store) before h)
    ]

  executed_lem :
      (r : Work × Preparation) (before : List Sent) (s : Store)
      → r.0.sent ≡ before
      → Saved server p s r.1
      → IsRun before s (executed server p r)
  executed_lem (w, stopped backup_failed) before s h saved =
      (h ∙ sym (append-nil before), λ e. cc, saved)
  executed_lem (w, stopped panic) before s h saved = (h ∙ sym (append-nil before), λ e. cc, saved)
  executed_lem (w, stopped (driver message)) before s h saved = absurd saved
  executed_lem (w, stopped timeout) before s h saved = absurd saved
  executed_lem (w, stopped commit_failed) before s h saved = absurd saved
  executed_lem (w, ready b) before s h saved =
      finished_lem s saved (server.answer (sql server p)) b _ before (
        ap (λ l. l ++ statement (sql server p) ∷ [])
          (note-sent p.journal mutation_executing none w ∙ h))

  run_lem : (w : Work) → IsRun (w.sent ++ captures server p) w.store (run_in_transaction server p w)
  unfolding run_in_transaction
  run_lem w =
      let noted = note p.journal backup_capturing p.ddl_detail w in
      let (same, saved) = prepare_lem server p noted in
      executed_lem (prepare server p noted) (w.sent ++ captures server p) w.store
        (same
          ∙ ap (λ l. l ++ captures server p) (note-sent p.journal backup_capturing p.ddl_detail w))
        (subst (λ s. Saved server p s (prepare server p noted).1)
          (note-store p.journal backup_capturing p.ddl_detail w) saved)

  sent_next :
      (w : Work) (before xs : List Sent) (e : Sent)
      → w.sent ≡ before ++ xs
      → (send e w).sent ≡ before ++ (xs ++ e ∷ [])
  sent_next w before xs e h = ap (λ l. l ++ e ∷ []) h ∙ append_assoc before xs (e ∷ [])

  rolled_back :
      (w : Work) (before xs : List Sent)
      → w.sent ≡ before ++ xs
      → (note p.journal failed (some (text "error")) (in_transaction server p rollback w)).sent
        ≡ before ++ (xs ++ (if p.in_tx then rollback ∷ [] else []))
  rolled_back w before xs h = elim (Bool-cases p.in_tx) [
    | inl t ↦
        rw t (note-sent p.journal failed _ (send rollback w) ∙ sent_next w before xs rollback h)
    | inr f ↦ rw (f, append-nil xs) (note-sent p.journal failed _ w ∙ h)
  ]

  abbrev IsWork : List Sent → Store → Work × Ran → Type 0
  IsWork before s r = (r.0.sent ≡ before ++ in_work r.1) × BackedUp server p s r.1

  closed_lem :
      (r : Work × Ran) (before : List Sent) (s : Store)
      → IsRun before s r
      → IsWork before s (closed server p r)
  closed_lem (w, ok value) before s (h, n, saved) = elim (Bool-cases p.in_tx) [
    | inl t ↦ elim (Bool-cases server.commits) [
      | inl c ↦
          rw (t, c)
            ((
              note-sent p.journal mutation_committed none (send commit w)
                  ∙ sent_next w before (statement (sql server p) ∷ []) commit h,
              saved,
            ))
      | inr c ↦
          rw (t, c)
            ((
              note-sent p.journal uncertain _ (send rollback (send commit w))
                  ∙ sent_next (send commit w) before (statement (sql server p) ∷ commit ∷ [])
                      rollback (sent_next w before (statement (sql server p) ∷ []) commit h),
              saved,
            ))
    ]
    | inr f ↦ rw f ((note-sent p.journal mutation_committed none w ∙ h, saved))
  ]
  closed_lem (w, err backup_failed) before s (h, n, saved) = (rolled_back w before [] h, saved)
  closed_lem (w, err panic) before s (h, n, saved) = (h, saved)
  closed_lem (w, err (driver message)) before s (h, n, saved) =
      (rolled_back w before (statement (sql server p) ∷ []) h, saved)
  closed_lem (w, err timeout) before s (h, n, saved) =
      (rolled_back w before (statement (sql server p) ∷ []) h, saved)
  closed_lem (w, err commit_failed) before s (h, n, saved) = absurd (n refl)

  pub work_lem : (w : Work) → IsWork (w.sent ++ captures server p) w.store (work server p w)
  unfolding work
  work_lem w = closed_lem (run_in_transaction server p w) _ w.store (run_lem w)
