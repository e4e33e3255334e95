-- ===== src/Backup/Journal/Recovery.antt =====
-- What a journal row goes through, and what is left for recovery.
use sequel_ace_mcp.Prelude.{
  ℕ, ◌≡◌, ◌||◌, ◌&&◌, ◌∙◌, ap, not, any, ◌==◌, eq_iff, ◌<◌, sym, if◌then◌else◌, or_else, eqb, inl,
  inr, refl, Bool, true, false, Option, none, some, [], ◌∷◌, arith, Text, text, Option-cases,
  Bool-cases, All,
}
use sequel_ace_mcp.Backup.Journal.{
  JournalState, planned, backup_capturing, backup_durable, mutation_executing, mutation_committed,
  audit_finalized, failed, uncertain, as_str, is_allowed, Row, Journal, state_of, update, ok,
  transition, is_recoverable, recoverable, closed_states, is_none, link_audit, link_backup,
}

-- The order of an operation's phases.
abbrev pub phase : JournalState → ℕ
phase planned = 0
phase backup_capturing = 1
phase backup_durable = 2
phase mutation_executing = 3
phase mutation_committed = 4
phase _ = 5

is_allowed-phase :
    (from to : JournalState) → is_allowed (as_str from) to ≡ true → phase from < phase to
unfolding is_allowed
is_allowed-phase planned backup_capturing h = omega arith
is_allowed-phase planned failed h = omega arith
is_allowed-phase backup_capturing backup_durable h = omega arith
is_allowed-phase backup_capturing mutation_executing h = omega arith
is_allowed-phase backup_capturing failed h = omega arith
is_allowed-phase backup_durable mutation_executing h = omega arith
is_allowed-phase backup_durable failed h = omega arith
is_allowed-phase mutation_executing mutation_committed h = omega arith
is_allowed-phase mutation_executing failed h = omega arith
is_allowed-phase mutation_executing uncertain h = omega arith
is_allowed-phase mutation_committed audit_finalized h = omega arith
is_allowed-phase mutation_committed uncertain h = omega arith
is_allowed-phase from to h = cc

-- Every row is in some journal state.
abbrev pub HasState : Row → Type 0
HasState r = (st : JournalState) × (r.state ≡ as_str st)

state_of-HasState :
    (rows : Journal) (id : ℕ) (s : Text)
    → All HasState rows
    → state_of rows id ≡ some s
    → (st : JournalState) × (s ≡ as_str st)
unfolding state_of
state_of-HasState [] id s w h = cc
state_of-HasState (r ∷ rs) id s w h = elim (Bool-cases (eqb r.id id)) [
  | inl here ↦ (w.0.0, ground (arith, w.0.1))
  | inr there ↦ state_of-HasState rs id s w.1 (ground arith)
]

-- The states of the rows after a transition of one of them.
pub state_of-update :
    (f : Row → Row) (t : Text) (rows : Journal) (id j : ℕ)
    → ((r : Row) → ((f r).id ≡ r.id) × ((f r).state ≡ t))
    → state_of (update f rows id) j ≡ (
        if eqb j id
        then elim (state_of rows id) [ none ↦ none | some _ ↦ some t ]
        else state_of rows j)
unfolding state_of update
state_of-update f t [] id j h = ground arith
state_of-update f t (r ∷ rs) id j h = ground (arith, h r, state_of-update f t rs id j h)

-- In a journal whose rows are all in one of the states, a transition succeeds only from a state that
-- precedes the new one in the order of the phases (planned, capturing, durable, executing,
-- committed, closed), and then the row is in the new state and every other row in the state it was
-- in.
pub transition-ok :
    (rows rows2 : Journal) (id : ℕ) (to : JournalState) (detail : Option Text) (j : ℕ)
    → All HasState rows
    → transition rows id to detail ≡ ok rows2
    → (from : JournalState) × (state_of rows id ≡ some (as_str from))
      × (phase from < phase to)
      × (state_of rows2 j ≡ (if eqb j id then some (as_str to) else state_of rows j))
unfolding transition
transition-ok rows rows2 id to detail j w h = elim (Option-cases (state_of rows id)) [
  | inl missing ↦ absurd (ground arith)
  | inr (s, found) ↦
      let (from, named) = state_of-HasState rows id s w found in
      elim (Bool-cases (is_allowed s to)) [
        | inr refused ↦ absurd (ground arith)
        | inl allowed ↦ (
          from,
          ground arith,
          is_allowed-phase from to (rw (sym named) allowed),
          ground (
            arith,
            state_of-update (λ r. record r { state = as_str to; detail = or_else detail r.detail })
                (as_str to) rows id j (λ r. (refl, refl)),
          ),
        )
      ]
]

or_false_and : (x y : Bool) → (x || false && y) ≡ x
or_false_and true y = refl
or_false_and false y = refl

is_recoverable_lem : (r : Row) → is_recoverable r ≡ not (any (λ s. s == r.state) closed_states)
unfolding is_recoverable
is_recoverable_lem r = elim (Bool-cases (r.state == text "mutation_committed")) [
  | inl committed ↦
      let e = (eq_iff r.state (text "mutation_committed")).0 committed in simp (e, is_recoverable)
  | inr other ↦
      rw (other, is_recoverable)
        (or_false_and (not (any (λ s. s == r.state) closed_states)) (is_none r.audit_id))
]

recoverable-cons :
    (x y : Row) (xs ys : Journal)
    → x.id ≡ y.id
    → x.state ≡ y.state
    → x.request_id ≡ y.request_id
    → is_recoverable x ≡ is_recoverable y
    → recoverable xs ≡ recoverable ys
    → recoverable (x ∷ xs) ≡ recoverable (y ∷ ys)
unfolding recoverable
recoverable-cons x y xs ys i s q h k = elim (Bool-cases (is_recoverable y)) [
  | inl kept ↦ rw (h ∙ kept, kept, i, s, q, k) refl
  | inr dropped ↦ rw (h ∙ dropped, dropped) k
]

recoverable-update :
    (f : Row → Row) (rows : Journal) (id : ℕ)
    → ((r : Row)
        → ((f r).id ≡ r.id)
          × ((f r).state ≡ r.state)
          × ((f r).request_id ≡ r.request_id)
          × (is_recoverable (f r) ≡ is_recoverable r))
    → recoverable (update f rows id) ≡ recoverable rows
unfolding update
recoverable-update f [] id h = refl
recoverable-update f (r ∷ rs) id h =
    let (i, s, q, k) = h r in
    let rest = recoverable-update f rs id h in
    elim (Bool-cases (eqb r.id id)) [
      | inl here ↦ rw (here, update) (recoverable-cons (f r) r (update f rs id) rs i s q k rest)
      | inr there ↦
          rw (there, update) (recoverable-cons r r (update f rs id) rs refl refl refl refl rest)
    ]

same_state : (r q : Row) → r.state ≡ q.state → is_recoverable r ≡ is_recoverable q
same_state r q h =
    is_recoverable_lem r
    ∙ ap (λ t. not (any (λ s. s == t) closed_states)) h
    ∙ sym (is_recoverable_lem q)

-- Linking the audit row or a backup to a mutation neither hides a row from recovery nor shows one.
pub recoverable-link :
    (rows : Journal) (id a : ℕ)
    → (recoverable (link_audit rows id a) ≡ recoverable rows)
      × (recoverable (link_backup rows id a) ≡ recoverable rows)
unfolding link_audit link_backup
recoverable-link rows id a = (
  recoverable-update (λ r. record r { audit_id = some a }) rows id
      (λ r. (refl, refl, refl, same_state (record r { audit_id = some a }) r refl)),
  recoverable-update (λ r. record r { backup_id = some a }) rows id
      (λ r. (refl, refl, refl, same_state (record r { backup_id = some a }) r refl)),
)
