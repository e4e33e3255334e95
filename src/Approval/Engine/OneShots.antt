-- ===== src/Approval/Engine/OneShots.antt =====
-- One-time approvals are used at most once, and never after they expire.
use sequel_ace_mcp.Prelude.{
  ℕ, ◌+◌, ◌≤◌, ◌≡◌, ◌↔◌, refl, Bool, true, false, Option, none, some, List, [], ◌∷◌, arith, Text,
  ◌==◌, eq_iff, ◌++◌, ap, Any, Any-append_left, Any-append_right, All-map, append_assoc, append-nil,
  subst, sym, ◌∙◌, ◌⊎◌, Option-cases, Bool-cases, inl, inr, if◌then◌else◌, All,
}
use sequel_ace_mcp.Prelude.Assoc.{
  lookup, remove, text_eq, lookup-remove, lookup-insert, All-remove, All-insert, All-lookup,
}
use sequel_ace_mcp.Approval.Engine.{
  ApprovalEngine, OneTimeApproval, SessionRevokeFilter, Consumption, ok, err, grant_once,
  consume_once, Call, once, consume, session, covers, revoke, step, grant_session, session_covers,
  revoke_sessions, run, new, default_one_shot_ttl,
}
use sequel_ace_mcp.Approval.Canonical.{SessionGrantKey}

-- An approval that may still be used at `now`.
abbrev pub IsUsable : ApprovalEngine → Text → ℕ → ℕ → Type 0
IsUsable e digest now expires =
    (lookup digest e.one_shots ≡ some (record { expires_at = expires; consumed = false }))
    × (now ≤ expires)

-- A consumption succeeds exactly when an approval is filed for the digest, it is not used and not
-- expired.
pub consume_once-ok_iff :
    (e : ApprovalEngine) (digest : Text) (now expires : ℕ)
    → ((consume_once e digest now).1 ≡ ok expires) ↔ IsUsable e digest now expires
unfolding consume_once
consume_once-ok_iff e digest now expires = ground arith

abbrev pub is_ok : Consumption → Bool
is_ok (ok _) = true
is_ok (err _) = false

-- How often the calls consume the digest with success.
abbrev pub successes : Text → ApprovalEngine → List Call → ℕ
successes d e [] = 0
successes d e (consume digest now ∷ cs) =
    (if digest == d then (if is_ok (consume_once e digest now).1 then 1 else 0) else 0)
    + successes d (step e (consume digest now)) cs
successes d e (c ∷ cs) = successes d (step e c) cs

-- How often they grant it.
abbrev pub grants : Text → List Call → ℕ
grants d [] = 0
grants d (once digest now ∷ cs) = (if digest == d then 1 else 0) + grants d cs
grants d (c ∷ cs) = grants d cs

abbrev present : Option OneTimeApproval → ℕ
present none = 0
present (some _) = 1

abbrev held : Text → ApprovalEngine → ℕ
held d e = present (lookup d e.one_shots)

held-consume :
    (d digest : Text) (now : ℕ) (e : ApprovalEngine)
    → (if digest == d then (if is_ok (consume_once e digest now).1 then 1 else 0) else 0)
        + held d (step e (consume digest now))
      ≤ held d e
unfolding step consume_once
held-consume d digest now e = ground (arith, lookup-remove digest d e.one_shots, eq_iff digest d)

held-once :
    (d digest : Text) (now : ℕ) (e : ApprovalEngine)
    → held d (step e (once digest now)) ≤ (if digest == d then 1 else 0) + held d e
unfolding step grant_once
held-once d digest now e = ground (
  arith,
  lookup-insert digest d (record { expires_at = now + e.default_one_shot_ttl; consumed = false })
      e.one_shots,
)

-- The other calls do not touch the one-time approvals.
held-session :
    (d : Text) (key : SessionGrantKey) (now : ℕ) (e : ApprovalEngine)
    → held d (step e (session key now)) ≡ held d e
unfolding step grant_session
held-session d key now e = refl

held-covers :
    (d : Text) (key : SessionGrantKey) (now : ℕ) (e : ApprovalEngine)
    → held d (step e (covers key now)) ≡ held d e
unfolding step session_covers
held-covers d key now e = ground arith

held-revoke :
    (d : Text) (filter : SessionRevokeFilter) (e : ApprovalEngine)
    → held d (step e (revoke filter)) ≡ held d e
unfolding step revoke_sessions
held-revoke d filter e = refl

successes-le :
    (d : Text) (e : ApprovalEngine) (cs : List Call) → successes d e cs ≤ grants d cs + held d e
successes-le d e [] = omega arith
successes-le d e (consume digest now ∷ cs) =
    omega (arith, held-consume d digest now e, successes-le d (step e (consume digest now)) cs)
successes-le d e (once digest now ∷ cs) =
    omega (arith, held-once d digest now e, successes-le d (step e (once digest now)) cs)
successes-le d e (session key now ∷ cs) =
    omega (arith, held-session d key now e, successes-le d (step e (session key now)) cs)
successes-le d e (covers key now ∷ cs) =
    omega (arith, held-covers d key now e, successes-le d (step e (covers key now)) cs)
successes-le d e (revoke filter ∷ cs) =
    omega (arith, held-revoke d filter e, successes-le d (step e (revoke filter)) cs)

-- From a new engine, whatever the calls and their order, a digest is consumed with success at most
-- as often as it was granted.
pub successes-le-grants : (d : Text) (cs : List Call) → successes d new cs ≤ grants d cs
unfolding lookup
successes-le-grants d cs = omega (arith, successes-le d new cs)

-- The call granted the digest until that time.
abbrev pub GrantedFor : Text → ℕ → Call → Type 0
GrantedFor d expires (once digest t) = (digest ≡ d) × (expires ≡ t + default_one_shot_ttl)
GrantedFor d expires _ = ⊥

abbrev IsRecorded : List Call → Text × OneTimeApproval → Type 0
IsRecorded history (d, entry) = Any (GrantedFor d entry.expires_at) history

record Records (history : List Call) (e : ApprovalEngine) : Type 0 where
  ttl : e.default_one_shot_ttl ≡ default_one_shot_ttl
  entries : All (IsRecorded history) e.one_shots

IsRecorded-snoc :
    (history : List Call) (c : Call) (x : Text × OneTimeApproval)
    → IsRecorded history x
    → IsRecorded (history ++ c ∷ []) x
IsRecorded-snoc history c x h = Any-append_left _ history (c ∷ []) h

-- A later call that keeps the approvals, or drops some, keeps the record.
Records-keep :
    (history : List Call) (c : Call) (e f : ApprovalEngine)
    → f.default_one_shot_ttl ≡ e.default_one_shot_ttl
    → (f.one_shots ≡ e.one_shots) ⊎ ((d : Text) × (f.one_shots ≡ remove d e.one_shots))
    → Records history e
    → Records (history ++ c ∷ []) f
Records-keep history c e f t (inl same) r = record {
  ttl = t ∙ r.ttl;
  entries = rw same (All-map _ _ e.one_shots (IsRecorded-snoc history c) r.entries);
}
Records-keep history c e f t (inr (d, less)) r = record {
  ttl = t ∙ r.ttl;
  entries =
      rw less (
        All-remove _ d e.one_shots (All-map _ _ e.one_shots (IsRecorded-snoc history c) r.entries));
}

one_shots-consume :
    (e : ApprovalEngine) (digest : Text) (t : ℕ)
    → ((step e (consume digest t)).one_shots ≡ e.one_shots)
      ⊎ ((d : Text) × ((step e (consume digest t)).one_shots ≡ remove d e.one_shots))
unfolding step consume_once
one_shots-consume e digest t = elim (Option-cases (lookup digest e.one_shots)) [
  | inl missing ↦ inl (ground arith)
  | inr (entry, found) ↦ elim (Bool-cases entry.consumed) [
    | inl used ↦ inl (ground arith)
    | inr fresh ↦ inr (digest, ground arith)
  ]
]

ttl-consume :
    (e : ApprovalEngine) (digest : Text) (t : ℕ)
    → (step e (consume digest t)).default_one_shot_ttl ≡ e.default_one_shot_ttl
unfolding step consume_once
ttl-consume e digest t = ground arith

Records-step :
    (history : List Call) (e : ApprovalEngine) (c : Call)
    → Records history e
    → Records (history ++ c ∷ []) (step e c)
unfolding step grant_once grant_session session_covers revoke_sessions
Records-step history e (once digest t) r = record {
  ttl = r.ttl;
  entries =
      All-insert _ digest _ e.one_shots
        (Any-append_right _ history _ (inl (refl, ap (λ x. t + x) r.ttl)))
        (All-map _ _ e.one_shots (IsRecorded-snoc history _) r.entries);
}
Records-step history e (consume digest t) r =
    Records-keep history _ e _ (ttl-consume e digest t) (one_shots-consume e digest t) r
Records-step history e (covers key t) r =
    Records-keep history _ e _ (ground arith) (inl (ground arith)) r
Records-step history e c r = Records-keep history c e _ refl (inl refl) r

Records-run :
    (history cs : List Call) (e : ApprovalEngine)
    → Records history e
    → Records (history ++ cs) (run e cs)
unfolding run
Records-run history [] e r = subst (λ h. Records h e) (sym (append-nil history)) r
Records-run history (c ∷ cs) e r =
    subst (λ h. Records h (run e (c ∷ cs))) (append_assoc history (c ∷ []) cs)
      (Records-run (history ++ c ∷ []) cs (step e c) (Records-step history e c r))

-- After any calls to a new engine, a consumption at a time `now` that succeeds was granted by one
-- of those calls for the same digest, and `now` is at most 120 seconds after that call.
pub consume_once-GrantedFor :
    (d : Text) (cs : List Call) (now expires : ℕ)
    → (consume_once (run new cs) d now).1 ≡ ok expires
    → Any (GrantedFor d expires) cs × (now ≤ expires)
consume_once-GrantedFor d cs now expires h =
    let (filed, in_time) = (consume_once-ok_iff (run new cs) d now expires).0 h in
    let r = Records-run [] cs new (record { ttl = refl; entries = tt }) in
    (All-lookup _ d (run new cs).one_shots _ filed r.entries, in_time)
