-- ===== src/Sql/Transaction/Backing.antt =====
-- src/sql/mysql.rs, `run_in_transaction`: what the backup before the statement sends to the server, and
-- what it means that it succeeded or failed.
use sequel_ace_mcp.Prelude.{
  ℕ, Bool, true, false, ◌≡◌, ◌⊎◌, inl, inr, refl, sym, ap, ◌∙◌, append-nil, Option, none, some,
  List, [], ◌∷◌, ◌++◌, Text, if◌then◌else◌, Bool-cases,
}
use sequel_ace_mcp.Backup.Journal.{JournalState, backup_durable}
use sequel_ace_mcp.Backup.Capture.{Store, Captured, CapturedBackup, CaptureError}
use sequel_ace_mcp.Backup.Capture
use sequel_ace_mcp.Backup.Extractor.{
  BackupSpec, nothing, rows, schema, combined, insert_hint, is_backup_required,
}
use sequel_ace_mcp.Backup.Extractor.Specs.{Extracted, parse_error, panicked}
use sequel_ace_mcp.Backup.Extractor.Specs
use sequel_ace_mcp.Sql.Transaction.{
  Sent, queries, unprepared, Work, backup_failed, panic, Ran, ok, err, note, send, link, Server,
  Params, Preparation, ready, stopped, captured, with_spec, extracted, prepare,
}

-- Rows or schemas are captured before the statement; an INSERT's hint is not.
abbrev pub needs_capture : BackupSpec → Bool
needs_capture (nothing reason) = false
needs_capture (insert_hint t columns values) = false
needs_capture (rows tables) = true
needs_capture (schema tables) = true
needs_capture (combined tables) = true

abbrev pub queries_for : Extracted → List Sent
queries_for (Specs.ok spec) = if needs_capture spec then queries spec ∷ [] else []
queries_for e = []

pub note-sent :
    (j : Option ℕ) (to : JournalState) (d : Option Text) (w : Work) → (note j to d w).sent ≡ w.sent
unfolding note
note-sent none to d w = refl
note-sent (some id) to d w = refl

link-sent : (j : Option ℕ) (b : ℕ) (w : Work) → (link j b w).sent ≡ w.sent
link-sent none b w = refl
link-sent (some id) b w = refl

pub note-store :
    (j : Option ℕ) (to : JournalState) (d : Option Text) (w : Work)
    → (note j to d w).store ≡ w.store
unfolding note
note-store none to d w = refl
note-store (some id) to d w = refl

module _ (server : Server) (p : Params) where
  -- The queries of the backup that the statement calls for.
  unfoldable pub captures : List Sent
  captures =
      if is_backup_required p.ast_type then queries_for (server.extract p.effective_sql) else []

  -- The statement needs no backup, or what the extraction names is captured.
  abbrev pub IsBackedUp : Store → Type 0
  IsBackedUp s =
      (is_backup_required p.ast_type ≡ false)
      ⊎ ((spec : BackupSpec) × (server.extract p.effective_sql ≡ Specs.ok spec)
          × ((needs_capture spec ≡ false)
              ⊎ ((c : Option CapturedBackup) × ((server.capture spec s).1 ≡ Capture.ok c))))

  -- The extraction or the capture fails.
  abbrev pub IsUnsaved : Store → Type 0
  IsUnsaved s =
      ((message : Text) × (server.extract p.effective_sql ≡ parse_error message))
      ⊎ ((spec : BackupSpec) × (server.extract p.effective_sql ≡ Specs.ok spec)
          × (needs_capture spec ≡ true)
          × (e : CaptureError) × ((server.capture spec s).1 ≡ Capture.err e))

  -- How the backup went, by the result.
  abbrev pub BackedUp : Store → Ran → Type 0
  BackedUp s (ok value) = IsBackedUp s
  BackedUp s (err backup_failed) = (is_backup_required p.ast_type ≡ true) × IsUnsaved s
  BackedUp s (err panic) =
      (is_backup_required p.ast_type ≡ true) × (server.extract p.effective_sql ≡ panicked)
  BackedUp s (err e) = IsBackedUp s

  abbrev pub Saved : Store → Preparation → Type 0
  Saved s (ready b) = IsBackedUp s
  Saved s (stopped backup_failed) = BackedUp s (err backup_failed)
  Saved s (stopped panic) = BackedUp s (err panic)
  Saved s (stopped e) = ⊥

  abbrev pub IsPreparing : List Sent → Work → Work × Preparation → Type 0
  IsPreparing xs w r = (r.0.sent ≡ w.sent ++ xs) × Saved w.store r.1

  module _ (required : is_backup_required p.ast_type ≡ true) where
    captured_lem :
        (spec : BackupSpec) (c : Store × Captured) (w : Work)
        → server.extract p.effective_sql ≡ Specs.ok spec
        → needs_capture spec ≡ true
        → server.capture spec w.store ≡ c
        → IsPreparing (queries spec ∷ []) w (captured server p c (send (queries spec) w))
    captured_lem spec (store, Capture.err e) w x n h =
        (refl, (required, inr (spec, x, n, e, ap (λ r. r.1) h)))
    captured_lem spec (store, Capture.ok none) w x n h =
        (refl, inr (spec, x, inr (none, ap (λ r. r.1) h)))
    captured_lem spec (store, Capture.ok (some c)) w x n h = (
      note-sent p.journal backup_durable none _ ∙ link-sent p.journal c.backup_id _,
      inr (spec, x, inr (some c, ap (λ r. r.1) h)),
    )

    with_spec_lem :
        (spec : BackupSpec) (w : Work)
        → server.extract p.effective_sql ≡ Specs.ok spec
        → IsPreparing (queries_for (Specs.ok spec)) w (with_spec server p spec w)
    with_spec_lem (nothing reason) w x = (sym (append-nil w.sent), inr (_, x, inl refl))
    with_spec_lem (insert_hint t columns values) w x =
        (sym (append-nil w.sent), inr (_, x, inl refl))
    with_spec_lem (rows tables) w x = captured_lem (rows tables) _ w x refl refl
    with_spec_lem (schema tables) w x = captured_lem (schema tables) _ w x refl refl
    with_spec_lem (combined tables) w x = captured_lem (combined tables) _ w x refl refl

    extracted_lem :
        (e : Extracted) (w : Work)
        → server.extract p.effective_sql ≡ e
        → IsPreparing (queries_for e) w (extracted server p e w)
    extracted_lem (Specs.ok spec) w x = with_spec_lem spec w x
    extracted_lem (parse_error message) w x =
        (sym (append-nil w.sent), (required, inl (message, x)))
    extracted_lem panicked w x = (sym (append-nil w.sent), (required, x))

    prepare-required :
        (w : Work) → prepare server p w ≡ extracted server p (server.extract p.effective_sql) w
    unfolding prepare
    prepare-required w = rw required refl

    captures-required : captures ≡ queries_for (server.extract p.effective_sql)
    unfolding captures
    captures-required = rw required refl

  module _ (free : is_backup_required p.ast_type ≡ false) where
    prepare-free : (w : Work) → prepare server p w ≡ (w, ready unprepared)
    unfolding prepare
    prepare-free w = rw free refl

    captures-free : captures ≡ []
    unfolding captures
    captures-free = rw free refl

  pub prepare_lem : (w : Work) → IsPreparing captures w (prepare server p w)
  prepare_lem w = elim (Bool-cases (is_backup_required p.ast_type)) [
    | inl e ↦
        rw (prepare-required e w, captures-required e)
          (extracted_lem e (server.extract p.effective_sql) w refl)
    | inr e ↦ rw (prepare-free e w, captures-free e) ((sym (append-nil w.sent), inl e))
  ]
