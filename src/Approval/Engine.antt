-- ===== src/Approval/Engine.antt =====
-- src/approval/mod.rs, `ApprovalEngine`: one-time approvals bound to a digest, and session grants.
-- Each method holds its mutex throughout, so an execution is a sequence of calls; `Instant::now()`
-- is the argument `now`, in nanoseconds.
pub mod OneShots
pub mod Sessions
use sequel_ace_mcp.Prelude.{
  ℕ, ◌+◌, ◌-◌, ◌*◌, ◌^◌, Bool, true, false, Option, none, some, List, [], ◌∷◌, Text, ltb, leb, ◌==◌,
  not, ◌||◌, if◌then◌else◌, length, retain,
}
use sequel_ace_mcp.Prelude.Assoc.{Assoc, lookup, insert, remove, text_eq}
use sequel_ace_mcp.Policy.Model.{SqlCategory, category_eq}
use sequel_ace_mcp.Approval.Canonical.{SessionGrantKey, canonical}

pub data ApprovalError : Type 0 where
  expired digest_mismatch already_consumed : ApprovalError

pub record SessionGrant : Type 0 where
  pub key : SessionGrantKey
  pub expires_at : ℕ

pub record OneTimeApproval : Type 0 where
  pub expires_at : ℕ
  pub consumed : Bool

-- A digest is its 32 bytes.
pub record ApprovalEngine : Type 0 where
  pub default_session_ttl : ℕ
  pub default_one_shot_ttl : ℕ
  pub sessions : Assoc Text SessionGrant
  pub one_shots : Assoc Text OneTimeApproval

abbrev nanoseconds : ℕ → ℕ
nanoseconds seconds = seconds * 1000000000

abbrev pub default_session_ttl : ℕ
default_session_ttl = nanoseconds (30 * 60)

abbrev pub default_one_shot_ttl : ℕ
default_one_shot_ttl = nanoseconds 120

-- `ApprovalEngine::new`.
abbrev pub new : ApprovalEngine
new = record {
  default_session_ttl = default_session_ttl;
  default_one_shot_ttl = default_one_shot_ttl;
  sessions = [];
  one_shots = [];
}

unfoldable pub grant_once : ApprovalEngine → Text → ℕ → ApprovalEngine × ℕ
grant_once e digest now =
    let expires = now + e.default_one_shot_ttl in
    (
      record e {
        one_shots = insert digest (record { expires_at = expires; consumed = false }) e.one_shots;
      },
      expires,
    )

pub data Consumption : Type 0 where
  ok : (expires_at : ℕ) → Consumption
  err : ApprovalError → Consumption

unfoldable pub consume_once : ApprovalEngine → Text → ℕ → ApprovalEngine × Consumption
consume_once e digest now = elim (lookup digest e.one_shots) [
  | none ↦ (e, err already_consumed)
  | some entry ↦
      if entry.consumed
      then (e, err already_consumed)
      else if ltb entry.expires_at now
      then (record e { one_shots = remove digest e.one_shots }, err expired)
      else (record e { one_shots = remove digest e.one_shots }, ok entry.expires_at)
]

unfoldable pub grant_session : ApprovalEngine → SessionGrantKey → ℕ → ApprovalEngine × ℕ
grant_session e key now =
    let expires = now + e.default_session_ttl in
    (
      record e {
        sessions = insert (canonical key) (record { key = key; expires_at = expires }) e.sessions;
      },
      expires,
    )

unfoldable pub session_covers : ApprovalEngine → SessionGrantKey → ℕ → ApprovalEngine × Bool
session_covers e key now = elim (lookup (canonical key) e.sessions) [
  | some g ↦
      if leb now g.expires_at
      then (e, true)
      else (record e { sessions = remove (canonical key) e.sessions }, false)
  | none ↦ (e, false)
]

pub record SessionRevokeFilter : Type 0 where
  pub connection : Option Text
  pub category : Option SqlCategory

-- An empty field of the filter matches every grant.
abbrev text_matches : Option Text → Text → Bool
text_matches none s = true
text_matches (some t) s = s == t

abbrev category_matches : Option SqlCategory → SqlCategory → Bool
category_matches none c = true
category_matches (some d) c = category_eq c d

-- The closure of `retain`.
abbrev pub is_retained : SessionRevokeFilter → Text × SessionGrant → Bool
is_retained filter (_, g) =
    not (text_matches filter.connection g.key.connection)
    || not (category_matches filter.category g.key.category)

unfoldable pub revoke_sessions : ApprovalEngine → SessionRevokeFilter → ApprovalEngine × ℕ
revoke_sessions e filter =
    let kept = retain (is_retained filter) e.sessions in
    (record e { sessions = kept }, length e.sessions - length kept)

unfoldable pub pending_one_shots : ApprovalEngine → ℕ
pending_one_shots e = length e.one_shots

-- A call of a method.
pub data Call : Type 0 where
  once : (digest : Text) (now : ℕ) → Call
  consume : (digest : Text) (now : ℕ) → Call
  session : (key : SessionGrantKey) (now : ℕ) → Call
  covers : (key : SessionGrantKey) (now : ℕ) → Call
  revoke : (filter : SessionRevokeFilter) → Call

unfoldable pub step : ApprovalEngine → Call → ApprovalEngine
unfolding grant_once consume_once grant_session session_covers revoke_sessions
step e (once digest now) = (grant_once e digest now).0
step e (consume digest now) = (consume_once e digest now).0
step e (session key now) = (grant_session e key now).0
step e (covers key now) = (session_covers e key now).0
step e (revoke filter) = (revoke_sessions e filter).0

-- The engine after a sequence of calls.
unfoldable pub run : ApprovalEngine → List Call → ApprovalEngine
unfolding step
run e [] = e
run e (c ∷ cs) = run (step e c) cs
