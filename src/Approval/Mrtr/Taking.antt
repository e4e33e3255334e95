-- ===== src/Approval/Mrtr/Taking.antt =====
-- What a successful `take` has checked, and that a token is good for one attempt.
use sequel_ace_mcp.Prelude.{
  ℕ, ◌+◌, ◌≤◌, ◌<◌, ◌≡◌, ◌↔◌, refl, Bool, true, false, ◌&&◌, Option, none, some, List, [], ◌∷◌,
  ◌++◌, arith, Text, ◌==◌, eq_iff, eq_refl, Option-cases, Bool-cases, inl, inr, if◌then◌else◌, any,
  retain, ltb,
}
use sequel_ace_mcp.Approval.Mrtr.{
  Token, PendingApproval, Presented, Store, Taken, ok, err, already_consumed, max_pending,
  max_tombstones, evict, issue, remove_first, validate, take_missing, take_token, take, Call,
  issued, taken, step, bury,
}

-- The approval is not expired and is for what the caller presents.
pub record IsFor (p : PendingApproval) (given : Presented) (now : ℕ) : Type 0 where
  pub unexpired : now < p.expires_at
  pub tool : p.tool ≡ given.tool
  pub connection : p.connection ≡ given.connection
  pub revision : p.policy_revision ≡ given.policy_revision
  pub operation : p.operation_digest ≡ given.digest

validate-ok_iff :
    (p q : PendingApproval) (given : Presented) (now : ℕ)
    → (validate p given now ≡ ok q) ↔ ((q ≡ p) × IsFor p given now)
unfolding validate
validate-ok_iff p q given now = ground (
  arith,
  eq_iff p.tool given.tool,
  eq_iff p.connection given.connection,
  eq_iff p.operation_digest given.digest,
)

-- `take` hands out an approval exactly when the state decodes to a token under which that approval
-- is the first one pending, it is not expired, and its tool, connection, policy revision and
-- operation digest are those presented.
pub take-ok_iff :
    (decode : Text → Option Token) (s : Store) (state : Text) (given : Presented) (now : ℕ)
    (p : PendingApproval)
    → ((take decode (some s) state given now).1 ≡ ok p) ↔ (
        (token : Token) × (rest : List (Token × PendingApproval)) × (decode state ≡ some token)
        × (remove_first token s.pending ≡ some (p, rest))
        × IsFor p given now)
unfolding take take_token take_missing
take-ok_iff decode s state given now p = (
  λ h. elim (Option-cases (decode state)) [
    | inl malformed ↦ absurd (ground arith)
    | inr (token, decoded) ↦ elim (Option-cases (remove_first token s.pending)) [
      | inl missing ↦ absurd (ground arith)
      | inr (r, found) ↦
          let (same, checked) = (validate-ok_iff r.0 p given now).0 (ground arith) in
          (token, r.1, decoded, rw same found, rw same checked)
    ]
  ],
  λ h.
      let (token, rest, decoded, found, checked) = h in
      rw (decoded, take)
        (rw (found, take_token) ((validate-ok_iff p p given now).1 (refl, checked))),
)

-- How many pending entries have the token.
abbrev pub copies : Token → List (Token × PendingApproval) → ℕ
copies token [] = 0
copies token (e ∷ m) = (if e.0 == token then 1 else 0) + copies token m

copies-remove_first :
    (token : Token) (m : List (Token × PendingApproval)) (p : PendingApproval)
    (rest : List (Token × PendingApproval)) (t : Token)
    → remove_first token m ≡ some (p, rest)
    → copies t m ≡ (if token == t then 1 else 0) + copies t rest
unfolding remove_first
copies-remove_first token [] p rest t h = cc
copies-remove_first token ((u, q) ∷ m) p rest t h = elim (Bool-cases (u == token)) [
  | inl same ↦ ground (arith, eq_iff u token)
  | inr other ↦ elim (Option-cases (remove_first token m)) [
    | inl missing ↦ absurd (ground arith)
    | inr (r, found) ↦ ground (arith, copies-remove_first token m r.0 r.1 t found)
  ]
]

remove_first-none :
    (token : Token) (m : List (Token × PendingApproval))
    → copies token m ≡ 0
    → remove_first token m ≡ none
unfolding remove_first
remove_first-none token [] h = refl
remove_first-none token ((u, q) ∷ m) h = ground (arith, remove_first-none token m)

any-snoc : (t : Token) (xs : List Token) → any (λ u. u == t) (xs ++ t ∷ []) ≡ true
any-snoc t [] = ground (arith, eq_refl t)
any-snoc t (x ∷ xs) = ground (arith, any-snoc t xs)

any-evict :
    (max : ℕ) (t : Token) (xs : List Token)
    → 1 ≤ max
    → any (λ u. u == t) (evict max (xs ++ t ∷ [])) ≡ true
unfolding evict
any-evict max t [] h = ground (arith, eq_refl t)
any-evict max t (x ∷ xs) h = ground (arith, any-evict max t xs h, any-snoc t xs)

copies_of_none :
    (token : Token) (m : List (Token × PendingApproval))
    → remove_first token m ≡ none
    → copies token m ≡ 0
unfolding remove_first
copies_of_none token [] h = refl
copies_of_none token ((u, q) ∷ m) h = ground (arith, copies_of_none token m)

take_buried :
    (s : Store) (token : Token) (given : Presented) (now : ℕ)
    → copies token s.pending ≡ 0
    → (take_token (bury s s.pending token) token given now).1 ≡ err already_consumed
unfolding take_token take_missing
take_buried s token given now h =
    rw (remove_first-none token s.pending h, take_token)
      (rw (any-evict max_tombstones token s.tombstones (omega arith)) refl)

take_token-buried :
    (s : Store) (token : Token) (given : Presented) (now : ℕ)
    → copies token s.pending ≡ 1
    → (rest : List (Token × PendingApproval)) × (copies token rest ≡ 0)
      × ((take_token s token given now).0 ≡ some (bury s rest token))
unfolding take_token
take_token-buried s token given now h = elim (Option-cases (remove_first token s.pending)) [
  | inl missing ↦ absurd (omega (arith, copies_of_none token s.pending missing))
  | inr (r, found) ↦ (
    r.1,
    ground (arith, copies-remove_first token s.pending r.0 r.1 token found, eq_refl token),
    ground arith,
  )
]

-- If a state's token is pending once, then whatever is presented with it the first time, and with
-- whatever answer, the same state presented next is refused as already consumed.
pub take-replay :
    (decode : Text → Option Token) (s : Store) (state : Text) (token : Token)
    (given given' : Presented) (now now' : ℕ)
    → decode state ≡ some token
    → copies token s.pending ≡ 1
    → (take decode (take decode (some s) state given now).0 state given' now').1
      ≡ err already_consumed
unfolding take
take-replay decode s state token given given' now now' decoded once =
    let (rest, gone, next) = take_token-buried s token given now once in
    let first : (take decode (some s) state given now).0 ≡ some (bury s rest token) =
      rw (decoded, take) next in
    rw first (rw (decoded, take) (take_buried (record s { pending = rest }) token given' now' gone))

copies-retain :
    (t : Token) (f : Token × PendingApproval → Bool) (m : List (Token × PendingApproval))
    → copies t (retain f m) ≤ copies t m
copies-retain t f [] = omega arith
copies-retain t f (e ∷ m) = ground (arith, copies-retain t f m)

copies-evict :
    (t : Token) (max : ℕ) (m : List (Token × PendingApproval)) → copies t (evict max m) ≤ copies t m
unfolding evict
copies-evict t max [] = omega arith
copies-evict t max (e ∷ m) = ground (arith, copies-evict t max m)

copies-snoc :
    (t : Token) (m : List (Token × PendingApproval)) (e : Token × PendingApproval)
    → copies t (m ++ e ∷ []) ≡ copies t m + (if e.0 == t then 1 else 0)
copies-snoc t [] e = omega arith
copies-snoc t (d ∷ m) e = omega (arith, copies-snoc t m e)

abbrev is_ok : Taken → Bool
is_ok (ok _) = true
is_ok (err _) = false

abbrev pending_of : Option Store → List (Token × PendingApproval)
pending_of none = []
pending_of (some s) = s.pending

module _ (decode : Text → Option Token) where
  -- The state decodes to the token.
  abbrev names : Text → Token → Bool
  names state t = elim (decode state) [ none ↦ false | some token ↦ token == t ]

  -- How often the calls take the token with success, and how often they issue it.
  abbrev pub successes : Token → Option Store → List Call → ℕ
  successes t s [] = 0
  successes t s (issued token p ∷ cs) = successes t (step decode s (issued token p)) cs
  successes t s (taken state given now ∷ cs) =
      (if names state t && is_ok (take decode s state given now).1 then 1 else 0)
      + successes t (step decode s (taken state given now)) cs

  abbrev pub issues : Token → List Call → ℕ
  issues t [] = 0
  issues t (issued token p ∷ cs) = (if token == t then 1 else 0) + issues t cs
  issues t (taken state given now ∷ cs) = issues t cs

  copies-step-taken :
      (t : Token) (s : Option Store) (state : Text) (given : Presented) (now : ℕ)
      → (if names state t && is_ok (take decode s state given now).1 then 1 else 0)
          + copies t (pending_of (step decode s (taken state given now)))
        ≤ copies t (pending_of s)
  unfolding step take take_token take_missing
  copies-step-taken t none state given now = ground arith
  copies-step-taken t (some s) state given now = elim (Option-cases (decode state)) [
    | inl malformed ↦ ground arith
    | inr (token, decoded) ↦ elim (Option-cases (remove_first token s.pending)) [
      | inl missing ↦ ground (arith, copies-retain t (λ e. ltb now e.1.expires_at) s.pending)
      | inr (r, found) ↦ ground (arith, copies-remove_first token s.pending r.0 r.1 t found)
    ]
  ]

  copies-step_issued :
      (t : Token) (s : Option Store) (token : Token) (p : PendingApproval)
      → copies t (pending_of (step decode s (issued token p)))
        ≤ (if token == t then 1 else 0) + copies t (pending_of s)
  unfolding step issue
  copies-step_issued t none token p = omega (arith, copies-evict t max_pending ((token, p) ∷ []))
  copies-step_issued t (some s) token p = omega (
    arith,
    copies-evict t max_pending (s.pending ++ (token, p) ∷ []),
    copies-snoc t s.pending (token, p),
  )

  successes-le :
      (t : Token) (s : Option Store) (cs : List Call)
      → successes t s cs ≤ issues t cs + copies t (pending_of s)
  successes-le t s [] = omega arith
  successes-le t s (issued token p ∷ cs) =
      omega
        (arith, copies-step_issued t s token p, successes-le t (step decode s (issued token p)) cs)
  successes-le t s (taken state given now ∷ cs) = omega (
    arith,
    copies-step-taken t s state given now,
    successes-le t (step decode s (taken state given now)) cs,
  )

  -- From a fresh process, whatever the calls and their order, a token is taken with success at most
  -- as often as it was issued.
  pub successes-le-issues : (t : Token) (cs : List Call) → successes t none cs ≤ issues t cs
  successes-le-issues t cs = omega (arith, successes-le t none cs)
