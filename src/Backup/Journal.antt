-- ===== src/Backup/Journal.antt =====
-- src/backup/journal.rs: the operation journal, a table of the audit database with a row for each gated
-- mutation. The table is the list of its rows in the order of their ids, which start at 1 as
-- AUTOINCREMENT gives them.
pub mod Recovery
use sequel_ace_mcp.Prelude.{
  ℕ, ◌+◌, ◌≡◌, Bool, true, false, ◌&&◌, ◌||◌, not, Option, none, some, or_else, List, [], ◌∷◌, ◌++◌,
  Text, text, ◌==◌, eqb, any, retain, length, if◌then◌else◌, map,
}

pub data JournalState : Type 0 where
  planned backup_capturing backup_durable mutation_executing mutation_committed audit_finalized :
      JournalState
  failed uncertain : JournalState

-- `JournalState::as_str`.
unfoldable pub as_str : JournalState → Text
as_str planned = text "planned"
as_str backup_capturing = text "backup_capturing"
as_str backup_durable = text "backup_durable"
as_str mutation_executing = text "mutation_executing"
as_str mutation_committed = text "mutation_committed"
as_str audit_finalized = text "audit_finalized"
as_str failed = text "failed"
as_str uncertain = text "uncertain"

-- `TRANSITIONS`.
abbrev pub transitions : List (Text × List Text)
transitions =
    (text "planned", text "backup_capturing" ∷ text "failed" ∷ [])
    ∷ (
      text "backup_capturing",
      text "backup_durable" ∷ text "mutation_executing" ∷ text "failed" ∷ [],
    )
    ∷ (text "backup_durable", text "mutation_executing" ∷ text "failed" ∷ [])
    ∷ (text "mutation_executing", text "mutation_committed" ∷ text "failed" ∷ text "uncertain" ∷ [])
    ∷ (text "mutation_committed", text "audit_finalized" ∷ text "uncertain" ∷ [])
    ∷ (text "audit_finalized", [])
    ∷ (text "failed", [])
    ∷ (text "uncertain", [])
    ∷ []

-- `find`, `map` and `unwrap_or(false)` over the table of transitions.
unfoldable pub is_listed : List (Text × List Text) → Text → Text → Bool
is_listed [] from to = false
is_listed ((f, ts) ∷ rest) from to =
    let later = is_listed rest from to in if f == from then any (λ t. t == to) ts else later

unfoldable pub is_allowed : Text → JournalState → Bool
unfolding is_listed as_str
is_allowed from to = is_listed transitions from (as_str to)

-- A row, less its time stamp.
pub record Row : Type 0 where
  pub id : ℕ
  pub request_id : Text
  pub connection : Text
  pub databases : Text
  pub category : Text
  pub state : Text
  pub detail : Option Text
  pub backup_id : Option ℕ
  pub audit_id : Option ℕ

abbrev pub Journal : Type 0
Journal = List Row

-- `Journal::create`: the new table and the id of the new row.
unfoldable pub create : Journal → Text → Text → Text → Text → Journal × ℕ
unfolding as_str
create rows request_id connection databases category =
    let id = length rows + 1 in
    (
      rows
          ++ (record {
            id = id;
            request_id = request_id;
            connection = connection;
            databases = databases;
            category = category;
            state = as_str planned;
            detail = none;
            backup_id = none;
            audit_id = none;
          })
            ∷ [],
      id,
    )

-- `SELECT state … WHERE id = ?1`, one row; `none` is `QueryReturnedNoRows`.
unfoldable pub state_of : Journal → ℕ → Option Text
state_of [] id = none
state_of (r ∷ rs) id = let later = state_of rs id in if eqb r.id id then some r.state else later

-- `UPDATE … WHERE id = ?1`.
unfoldable pub update : (Row → Row) → Journal → ℕ → Journal
update f rows id = map (λ r. if eqb r.id id then f r else r) rows

pub data JournalError : Type 0 where
  no_row : JournalError
  illegal : (from : Text) (to : JournalState) → JournalError

pub data Result : Type 0 where
  ok : Journal → Result
  err : JournalError → Result

-- `Journal::transition`, one transaction; an error leaves the table as it was.
unfoldable pub transition : Journal → ℕ → JournalState → Option Text → Result
unfolding is_allowed update
transition rows id to detail = elim (state_of rows id) [
  | none ↦ err no_row
  | some from ↦
      if is_allowed from to
      then ok
          (update (λ r. record r { state = as_str to; detail = or_else detail r.detail }) rows id)
      else err (illegal from to)
]

unfoldable pub link_backup : Journal → ℕ → ℕ → Journal
unfolding update
link_backup rows id backup_id = update (λ r. record r { backup_id = some backup_id }) rows id

unfoldable pub link_audit : Journal → ℕ → ℕ → Journal
unfolding update
link_audit rows id audit_id = update (λ r. record r { audit_id = some audit_id }) rows id

abbrev pub is_none : Option ℕ → Bool
is_none none = true
is_none (some _) = false

abbrev pub closed_states : List Text
closed_states = text "audit_finalized" ∷ text "failed" ∷ text "uncertain" ∷ []

-- The `WHERE` clause of `recoverable`.
unfoldable pub is_recoverable : Row → Bool
is_recoverable r =
    not (any (λ s. s == r.state) closed_states)
    || (r.state == text "mutation_committed") && is_none r.audit_id

-- `Journal::recoverable`: the id, the state and the request of each row.
unfoldable pub recoverable : Journal → List (ℕ × Text × Text)
unfolding is_recoverable
recoverable rows = map (λ r. (r.id, r.state, r.request_id)) (retain is_recoverable rows)
