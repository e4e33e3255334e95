-- ===== src/Sql/Transaction/States.antt =====
-- Where the journal's row stands when the work is over.
use sequel_ace_mcp.Prelude.{
  ℕ, ◌≡◌, ◌⊎◌, inl, inr, refl, ◌∙◌, true, Option, none, some, [], ◌∷◌, Text, text, or_else, eqb,
  eqb_iff, Bool-cases, Option-cases,
}
use sequel_ace_mcp.Backup.Journal.{
  Journal, Row, JournalState, as_str, planned, backup_capturing, backup_durable, mutation_executing,
  mutation_committed, uncertain, failed, is_allowed, state_of, update, transition, link_backup,
}
use sequel_ace_mcp.Backup.Journal
use sequel_ace_mcp.Backup.Journal.Recovery.{state_of-update}
use sequel_ace_mcp.Backup.Capture.{Store, Captured}
use sequel_ace_mcp.Backup.Capture
use sequel_ace_mcp.Backup.Extractor.{
  BackupSpec, nothing, rows, schema, combined, insert_hint, is_backup_required,
}
use sequel_ace_mcp.Backup.Extractor.Specs.{Extracted, parse_error, panicked}
use sequel_ace_mcp.Backup.Extractor.Specs
use sequel_ace_mcp.Sql.Transaction.{
  Work, Answer, answered, refused, timed_out, MysqlError, backup_failed, driver, timeout,
  commit_failed, panic, Ran, ok, err, note, send, rollback, Server, Params, Prepared, Preparation,
  ready, stopped, captured, with_spec, extracted, prepare, with_hint, finished, executed,
  run_in_transaction, in_transaction, closed, work,
}

-- The row's state.
abbrev pub Stands : ℕ → Work → JournalState → Type 0
Stands id w st = state_of w.journal id ≡ some (as_str st)

-- The row behind a transition.
moved : JournalState → Option Text → Row → Row
moved to detail r = record r { state = as_str to; detail = or_else detail r.detail }

transition-allowed :
    (j : Journal) (id : ℕ) (from to : JournalState) (d : Option Text)
    → state_of j id ≡ some (as_str from)
    → is_allowed (as_str from) to ≡ true
    → transition j id to d ≡ Journal.ok (update (moved to d) j id)
unfolding transition moved
transition-allowed j id from to d h allowed = rw (transition, h) (rw allowed refl)

note-Stands :
    (id : ℕ) (w : Work) (from to : JournalState) (d : Option Text)
    → is_allowed (as_str from) to ≡ true
    → Stands id w from
    → Stands id (note (some id) to d w) to
unfolding note moved
note-Stands id w from to d allowed h = rw (transition-allowed w.journal id from to d h allowed) (
    state_of-update (moved to d) (as_str to) w.journal id id (λ r. (refl, refl))
    ∙ rw ((eqb_iff id id).1 refl, h) refl)

state_of-link : (j : Journal) (id b : ℕ) → state_of (link_backup j id b) id ≡ state_of j id
unfolding state_of link_backup update
state_of-link [] id b = refl
state_of-link (r ∷ rs) id b = elim (Bool-cases (eqb r.id id)) [
  | inl e ↦ rw e (rw e refl)
  | inr n ↦ rw n (rw n (state_of-link rs id b))
]

-- The error ends a preparation.
abbrev IsEarly : MysqlError → Type 0
IsEarly e = (e ≡ backup_failed) ⊎ (e ≡ panic)

-- A preparation leaves the row before or behind the backup; one that stops leaves it before.
abbrev IsPrepared : ℕ → Work × Preparation → Type 0
IsPrepared id (w, ready b) = Stands id w backup_capturing ⊎ Stands id w backup_durable
IsPrepared id (w, stopped e) = Stands id w backup_capturing × IsEarly e

-- The states in which the work ends, by its result: after a panic the row stays where recovery finds it.
abbrev pub final : Ran → JournalState
final (ok value) = mutation_committed
final (err commit_failed) = uncertain
final (err panic) = backup_capturing
final (err e) = failed

-- The states in which a run ends.
abbrev EndsIn : ℕ → Work × Ran → Type 0
EndsIn id (w, ok value) = Stands id w mutation_executing
EndsIn id (w, err backup_failed) = Stands id w backup_capturing
EndsIn id (w, err panic) = Stands id w backup_capturing
EndsIn id (w, err commit_failed) = ⊥
EndsIn id (w, err e) = Stands id w mutation_executing

module _ (server : Server) (p : Params) (id : ℕ) (journaled : p.journal ≡ some id) where
  captured_lem :
      (c : Store × Captured) (w : Work)
      → Stands id w backup_capturing
      → IsPrepared id (captured server p c w)
  unfolding is_allowed
  captured_lem (store, Capture.err e) w h = (h, inl refl)
  captured_lem (store, Capture.ok none) w h = inl h
  captured_lem (store, Capture.ok (some c)) w h = rw journaled (
      inr (
        note-Stands id _ backup_capturing backup_durable none refl
          (state_of-link w.journal id c.backup_id ∙ h)))

  with_spec_lem :
      (spec : BackupSpec) (w : Work)
      → Stands id w backup_capturing
      → IsPrepared id (with_spec server p spec w)
  with_spec_lem (nothing reason) w h = inl h
  with_spec_lem (insert_hint t columns values) w h = inl h
  with_spec_lem (rows tables) w h = captured_lem (server.capture (rows tables) w.store) _ h
  with_spec_lem (schema tables) w h = captured_lem (server.capture (schema tables) w.store) _ h
  with_spec_lem (combined tables) w h = captured_lem (server.capture (combined tables) w.store) _ h

  extracted_lem :
      (e : Extracted) (w : Work)
      → Stands id w backup_capturing
      → IsPrepared id (extracted server p e w)
  extracted_lem (Specs.ok spec) w h = with_spec_lem spec w h
  extracted_lem (parse_error message) w h = (h, inl refl)
  extracted_lem panicked w h = (h, inr refl)

  prepare_lem : (w : Work) → Stands id w backup_capturing → IsPrepared id (prepare server p w)
  unfolding prepare
  prepare_lem w h = elim (Bool-cases (is_backup_required p.ast_type)) [
    | inl e ↦ rw (prepare, e) (extracted_lem (server.extract p.effective_sql) w h)
    | inr e ↦ rw (prepare, e) (inl h)
  ]

  with_hint_lem :
      (n : ℕ) (w : Work) (b : Prepared) (h : Store × Option ℕ)
      → Stands id w mutation_executing
      → EndsIn id (with_hint server p n w b h)
  with_hint_lem n w b (store, none) h = h
  with_hint_lem n w b (store, some i) h = h

  finished_lem :
      (a : Answer) (b : Prepared) (w : Work)
      → Stands id w mutation_executing
      → EndsIn id (finished server p a b w)
  finished_lem (refused message) b w h = h
  finished_lem timed_out b w h = h
  finished_lem (answered n insert_id) b w h = elim (Option-cases b.pending_insert) [
    | inl e ↦ rw e (with_hint_lem n w b (w.store, none) h)
    | inr (spec, e) ↦ rw e (with_hint_lem n w b (server.hint spec insert_id n w.store) h)
  ]

  executed_lem : (r : Work × Preparation) → IsPrepared id r → EndsIn id (executed server p r)
  unfolding is_allowed
  executed_lem (w, stopped e) (h, inl fails) = rw fails h
  executed_lem (w, stopped e) (h, inr panics) = rw panics h
  executed_lem (w, ready b) (inl h) = rw journaled (
      finished_lem (server.answer _) b _
        (note-Stands id w backup_capturing mutation_executing none refl h))
  executed_lem (w, ready b) (inr h) = rw journaled (
      finished_lem (server.answer _) b _
        (note-Stands id w backup_durable mutation_executing none refl h))

  rolled_back :
      (w : Work) (from : JournalState)
      → is_allowed (as_str from) failed ≡ true
      → Stands id w from
      → Stands id
          (note p.journal failed (some (text "error")) (in_transaction server p rollback w))
          failed
  rolled_back w from allowed h = elim (Bool-cases p.in_tx) [
    | inl t ↦ rw (journaled, t) (note-Stands id (send rollback w) from failed _ allowed h)
    | inr f ↦ rw (journaled, f) (note-Stands id w from failed _ allowed h)
  ]

  closed_lem :
      (r : Work × Ran) → EndsIn id r → Stands id (closed server p r).0 (final (closed server p r).1)
  unfolding is_allowed
  closed_lem (w, ok value) h = elim (Bool-cases p.in_tx) [
    | inl t ↦ elim (Bool-cases server.commits) [
      | inl c ↦
          rw (journaled, t, c) (note-Stands id _ mutation_executing mutation_committed none refl h)
      | inr c ↦ rw (journaled, t, c) (note-Stands id _ mutation_executing uncertain _ refl h)
    ]
    | inr f ↦ rw (journaled, f) (note-Stands id w mutation_executing mutation_committed none refl h)
  ]
  closed_lem (w, err backup_failed) h = rolled_back w backup_capturing refl h
  closed_lem (w, err panic) h = h
  closed_lem (w, err (driver message)) h = rolled_back w mutation_executing refl h
  closed_lem (w, err timeout) h = rolled_back w mutation_executing refl h
  closed_lem (w, err commit_failed) h = absurd h

  -- A mutation whose row was planned leaves it committed exactly after a success, uncertain after a
  -- COMMIT that failed, and failed after any other error; a panic leaves it before the backup, where
  -- recovery finds it.
  pub work-Stands :
      (w : Work) → Stands id w planned → Stands id (work server p w).0 (final (work server p w).1)
  unfolding work run_in_transaction is_allowed
  work-Stands w h = closed_lem (run_in_transaction server p w) (
      executed_lem (prepare server p (note p.journal backup_capturing p.ddl_detail w)) (
        prepare_lem (note p.journal backup_capturing p.ddl_detail w)
          (rw journaled (note-Stands id w planned backup_capturing p.ddl_detail refl h))))
