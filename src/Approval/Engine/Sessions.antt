-- ===== src/Approval/Engine/Sessions.antt =====
-- Session grants: what `session_covers` rests on, and what a revocation leaves.
use sequel_ace_mcp.Prelude.{ℕ, ◌+◌, ◌≤◌, ◌≡◌, true, some, List, [], ◌∷◌, Text, ◌⊎◌, All}
use sequel_ace_mcp.Prelude.Assoc.{lookup, text_eq}
use sequel_ace_mcp.Approval.Canonical.{SessionGrantKey, canonical}
use sequel_ace_mcp.Approval.Engine.{
  ApprovalEngine, SessionGrant, Call, session, revoke, default_session_ttl, is_retained,
}

-- The call made the grant.
abbrev pub Makes : SessionGrant → Call → Type 0
Makes g (session key t) = (g.key ≡ key) × (g.expires_at ≡ t + default_session_ttl)
Makes g _ = ⊥

-- The call does not revoke the grant.
abbrev pub Spares : SessionGrant → Call → Type 0
Spares g (revoke filter) = is_retained filter (canonical g.key, g) ≡ true
Spares g _ = Unit

-- Some call made the grant, and no call after it revoked it.
abbrev pub IsLive : SessionGrant → List Call → Type 0
IsLive g [] = ⊥
IsLive g (c ∷ cs) = (Makes g c × All (Spares g) cs) ⊎ IsLive g cs

-- An entry is filed under its own key's text, and its grant is live.
abbrev IsFiled : List Call → Text × SessionGrant → Type 0
IsFiled history (s, g) = (s ≡ canonical g.key) × IsLive g history

record Files (history : List Call) (e : ApprovalEngine) : Type 0 where
  ttl : e.default_session_ttl ≡ default_session_ttl
  entries : All (IsFiled history) e.sessions

-- The grant of an entry that covers a key at `now`.
Covering : ApprovalEngine → SessionGrantKey → ℕ → SessionGrant → Type 0
Covering e key now g = (lookup (canonical key) e.sessions ≡ some g) × (now ≤ g.expires_at)
