-- ===== src/Approval/Mrtr.antt =====
-- src/mcp/mrtr.rs: the pending store behind opaque `requestState` tokens. The store is one mutex, so an
-- execution is a sequence of calls. The random token, the time and the base64 decoder of the crate
-- base64 are arguments.
pub mod Bounds
pub mod Taking
use sequel_ace_mcp.Prelude.{
  ℕ, Bool, true, false, ◌&&◌, not, Option, none, some, List, [], ◌∷◌, ◌++◌, Text, ◌==◌, eqb, ltb,
  leb, if◌then◌else◌, length, any, retain,
}

-- Its 32 bytes.
abbrev pub Token : Type 0
Token = Text

abbrev pub max_pending : ℕ
max_pending = 32

abbrev pub max_tombstones : ℕ
max_tombstones = 256

pub record PendingApproval : Type 0 where
  pub tool : Text
  pub connection : Text
  pub operation_digest : Text
  pub policy_revision : ℕ
  pub approved_ddl_targets : Option (List (Text × Text))
  pub expires_at : ℕ

-- The details of `InvalidState`.
pub data Detail : Type 0 where
  malformed no_store unknown different_tool different_connection operation_changed : Detail

pub data MrtrError : Type 0 where
  invalid_state : Detail → MrtrError
  expired policy_changed already_consumed : MrtrError

pub record Store : Type 0 where
  pub pending : List (Token × PendingApproval)
  pub tombstones : List Token

-- `while queue.len() > max { queue.pop_front(); }`.
unfoldable pub evict {ℓ} : {A : Type ℓ} → ℕ → List A → List A
evict max [] = []
evict max (x ∷ xs) = let rest = evict max xs in if ltb max (length (x ∷ xs)) then rest else x ∷ xs

-- `STORE` is `None` until the first issue.
abbrev pub or_new : Option Store → Store
or_new none = record { pending = []; tombstones = [] }
or_new (some s) = s

unfoldable pub issue : Option Store → Token → PendingApproval → Option Store
unfolding evict
issue store token p =
    let s = or_new store in
    some (record s { pending = evict max_pending (s.pending ++ (token, p) ∷ []) })

unfoldable pub pending_count : Option Store → ℕ
pending_count none = 0
pending_count (some s) = length s.pending

-- What `position` and `remove` find and leave.
abbrev pub Removal : Type 0
Removal = Option (PendingApproval × List (Token × PendingApproval))

abbrev behind : Token × PendingApproval → Removal → Removal
behind entry none = none
behind entry (some (p, rest)) = some (p, entry ∷ rest)

-- The first entry with the token, and the queue without it.
unfoldable pub remove_first : Token → List (Token × PendingApproval) → Removal
remove_first token [] = none
remove_first token ((t, p) ∷ rest) =
    let later = behind (t, p) (remove_first token rest) in
    if t == token then some (p, rest) else later

pub data Taken : Type 0 where
  ok : PendingApproval → Taken
  err : MrtrError → Taken

-- What the caller presents beside the token.
pub record Presented : Type 0 where
  pub tool : Text
  pub connection : Text
  pub digest : Text
  pub policy_revision : ℕ

-- The checks of `take` once the token is found and consumed, in their order.
unfoldable pub validate : PendingApproval → Presented → ℕ → Taken
validate p given now =
    if leb p.expires_at now
    then err expired
    else if not (p.tool == given.tool)
    then err (invalid_state different_tool)
    else if not (p.connection == given.connection)
    then err (invalid_state different_connection)
    else if not (eqb p.policy_revision given.policy_revision)
    then err policy_changed
    else if not (p.operation_digest == given.digest)
    then err (invalid_state operation_changed)
    else ok p

-- `take` on a token that is in no pending entry: expired entries are reaped, then the answer.
unfoldable pub take_missing : Store → Token → ℕ → Option Store × Taken
take_missing s token now = (
  some (record s { pending = retain (λ e. ltb now e.1.expires_at) s.pending }),
  if any (λ t. t == token) s.tombstones then err already_consumed else err (invalid_state unknown),
)

abbrev pub bury : Store → List (Token × PendingApproval) → Token → Store
bury s pending token = record s {
  pending = pending;
  tombstones = evict max_tombstones (s.tombstones ++ token ∷ []);
}

unfoldable pub take_token : Store → Token → Presented → ℕ → Option Store × Taken
unfolding evict validate take_missing
take_token s token given now = elim (remove_first token s.pending) [
  | none ↦ take_missing s token now
  | some (p, rest) ↦ (some (bury s rest token), validate p given now)
]

-- A call on the store.
pub data Call : Type 0 where
  issued : (token : Token) → PendingApproval → Call
  taken : (state : Text) → Presented → (now : ℕ) → Call

module _ (decode : Text → Option Token) where
  unfoldable pub take : Option Store → Text → Presented → ℕ → Option Store × Taken
  take store state given now = elim (decode state) [
    | none ↦ (store, err (invalid_state malformed))
    | some token ↦ elim store [
      | none ↦ (none, err (invalid_state no_store))
      | some s ↦ take_token s token given now
    ]
  ]

  unfoldable pub step : Option Store → Call → Option Store
  unfolding issue take take_token
  step store (issued token p) = issue store token p
  step store (taken state given now) = (take store state given now).0

  unfoldable pub run : Option Store → List Call → Option Store
  unfolding step
  run store [] = store
  run store (c ∷ cs) = run (step store c) cs
