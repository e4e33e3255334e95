-- ===== src/Sql/Transaction/Sending.antt =====
-- What is sent to the server from START TRANSACTION on, and under which conditions.
use sequel_ace_mcp.Prelude.{
  Bool, true, false, ◌≡◌, ◌⊎◌, inl, inr, refl, sym, subst, ◌∙◌, append-nil, append_assoc, List, [],
  ◌∷◌, ◌++◌, if◌then◌else◌, Bool-cases,
}
use sequel_ace_mcp.Backup.Extractor.{is_backup_required}
use sequel_ace_mcp.Sql.Transaction.{Sent, start_transaction, limit_time, Work, Server, Params, work}
use sequel_ace_mcp.Sql.Transaction.Session.{
  read_only_tx, no_autocommit, Begun, begun, not_begun, Ended, ended, not_started, begin, timed,
  started, after_begin, execute_mysql_statement,
}
use sequel_ace_mcp.Sql.Transaction.Backing.{captures, BackedUp}
use sequel_ace_mcp.Sql.Transaction.Order.{in_work, work_lem}

regroup :
    (before xs ys zs : List Sent) {from made : List Sent}
    → from ≡ before ++ xs
    → made ≡ ys
    → (from ++ made) ++ zs ≡ before ++ (xs ++ (ys ++ zs))
regroup before xs ys zs e k =
    rw (e, k) (append_assoc (before ++ xs) ys zs ∙ append_assoc before xs (ys ++ zs))

module _ (server : Server) (p : Params) where
  -- The parameters of the work.
  abbrev pub within : Bool → Params
  within in_tx = record p { in_tx = in_tx }

  abbrev pub opening : List Sent
  opening =
      if p.is_tx_ctrl
      then []
      else start_transaction p.is_read ∷ (if p.limits_time then limit_time ∷ [] else [])

  -- A transaction is open exactly where START TRANSACTION was sent and succeeded; there is none only
  -- for a statement that controls transactions, or for one that is no read and needs no backup.
  abbrev pub IsIsolated : Bool → Type 0
  IsIsolated true = (p.is_tx_ctrl ≡ false) × (server.starts ≡ true)
  IsIsolated false =
      (p.is_tx_ctrl ≡ true)
      ⊎ ((server.starts ≡ false) × (p.is_read ≡ false) × (is_backup_required p.ast_type ≡ false))

  -- What was sent, by the way the call ended.
  abbrev pub Sends : Work → Work × Ended → Type 0
  Sends w (w', not_started e) =
      (w'.sent ≡ w.sent ++ start_transaction p.is_read ∷ [])
      × (server.starts ≡ false)
      × ((p.is_read ≡ true) ⊎ (is_backup_required p.ast_type ≡ true))
  Sends w (w', ended r) =
      (in_tx : Bool) × (w'.sent
        ≡ w.sent ++ (opening ++ (captures server p ++ in_work server (within in_tx) r)))
      × IsIsolated in_tx
      × BackedUp server p w.store r

  abbrev Begins : Work → Work × Begun → Type 0
  Begins w (w', not_begun e) = Sends w (w', not_started e)
  Begins w (w', begun in_tx) =
      (w'.sent ≡ w.sent ++ opening) × (w'.store ≡ w.store) × IsIsolated in_tx

  timed_lem :
      (w : Work)
      → (timed server p (started server p w)).sent
        ≡ w.sent ++ start_transaction p.is_read ∷ (if p.limits_time then limit_time ∷ [] else [])
  timed_lem w = elim (Bool-cases p.limits_time) [
    | inl t ↦ rw t (append_assoc w.sent (start_transaction p.is_read ∷ []) (limit_time ∷ []))
    | inr f ↦ rw f refl
  ]

  timed-store : (w : Work) → (timed server p w).store ≡ w.store
  timed-store w = elim (Bool-cases p.limits_time) [ inl t ↦ rw t refl | inr f ↦ rw f refl ]

  -- What the tests of `begin` lead to.
  begin-tx_ctrl : (w : Work) → p.is_tx_ctrl ≡ true → begin server p w ≡ (w, begun false)
  unfolding begin
  begin-tx_ctrl w c = rw c refl

  module _ (w : Work) (c : p.is_tx_ctrl ≡ false) where
    begin-starts :
        server.starts ≡ true → begin server p w ≡ (timed server p (started server p w), begun true)
    unfolding begin
    begin-starts s = rw (c, s) refl

    begin-read :
        server.starts ≡ false
        → p.is_read ≡ true
        → begin server p w ≡ (started server p w, not_begun read_only_tx)
    unfolding begin
    begin-read s r = rw (c, s) (rw r refl)

    begin-unsafe :
        server.starts ≡ false
        → p.is_read ≡ false
        → is_backup_required p.ast_type ≡ true
        → begin server p w ≡ (started server p w, not_begun no_autocommit)
    unfolding begin
    begin-unsafe s r b = rw (c, s) (rw (r, b) refl)

    begin-plain :
        server.starts ≡ false
        → p.is_read ≡ false
        → is_backup_required p.ast_type ≡ false
        → begin server p w ≡ (timed server p (started server p w), begun false)
    unfolding begin
    begin-plain s r b = rw (c, s) (rw (r, b) refl)

    opening-sent : (timed server p (started server p w)).sent ≡ w.sent ++ opening
    opening-sent = rw c (timed_lem w)

  begin_lem : (w : Work) → Begins w (begin server p w)
  begin_lem w = elim (Bool-cases p.is_tx_ctrl) [
    | inl c ↦ rw (begin-tx_ctrl w c) ((rw c (sym (append-nil w.sent)), refl, inl c))
    | inr c ↦ elim (Bool-cases server.starts) [
      | inl s ↦
          rw (begin-starts w c s) ((opening-sent w c, timed-store (started server p w), (c, s)))
      | inr s ↦ elim (Bool-cases p.is_read) [
        | inl r ↦ rw (begin-read w c s r) ((refl, s, inl r))
        | inr r ↦ elim (Bool-cases (is_backup_required p.ast_type)) [
          | inl b ↦ rw (begin-unsafe w c s r b) ((refl, s, inr b))
          | inr b ↦
              rw (begin-plain w c s r b)
                ((opening-sent w c, timed-store (started server p w), inr (s, r, b)))
        ]
      ]
    ]
  ]

  captures-within : (in_tx : Bool) → captures server (within in_tx) ≡ captures server p
  unfolding captures
  captures-within in_tx = refl

  after_begin_lem : (w : Work) (r : Work × Begun) → Begins w r → Sends w (after_begin server p r)
  after_begin_lem w (w', not_begun e) h = h
  after_begin_lem w (w', begun in_tx) (same, stored, isolated) =
      let (sent, saved) = work_lem server (within in_tx) w' in
      (
        in_tx,
        sent ∙ regroup w.sent opening (captures server p) _ same (captures-within in_tx),
        isolated,
        subst (λ s. BackedUp server p s (work server (within in_tx) w').1) stored saved,
      )

  -- From START TRANSACTION on, the lookups of a DDL statement's preflight and what the outer
  -- deadline causes aside, the server is sent nothing but this on the statement's connection, in
  -- this order: START TRANSACTION and the time limit, unless the statement controls transactions,
  -- then the queries of the backup that the statement calls for, and then what `in_work` says of
  -- the result: the statement, with COMMIT behind it in a transaction that succeeds, COMMIT and
  -- ROLLBACK where the COMMIT fails, and ROLLBACK in a transaction of which the statement fails;
  -- after a failed backup only the ROLLBACK of a transaction, and after a panic nothing. The
  -- statement is sent only if it needs no backup, or the extraction succeeded and so did the
  -- capture, where it asks for one; the backup fails only if one of these did not, and a panic is
  -- the extraction's. A read, or a statement that needs a backup, is sent only in a transaction
  -- that was started, unless it controls transactions; where none can be started for it, nothing
  -- follows START TRANSACTION.
  pub execute_mysql_statement-Sends : (w : Work) → Sends w (execute_mysql_statement server p w)
  unfolding execute_mysql_statement
  execute_mysql_statement-Sends w = after_begin_lem w (begin server p w) (begin_lem w)
