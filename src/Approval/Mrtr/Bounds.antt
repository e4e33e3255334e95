-- ===== src/Approval/Mrtr/Bounds.antt =====
-- The store never holds more than 32 pending approvals and 256 tombstones.
use sequel_ace_mcp.Prelude.{
  ℕ, ◌+◌, ◌≤◌, ◌≡◌, Option, none, some, List, [], ◌∷◌, ◌++◌, arith, Text, ◌==◌, length,
  length-retain, Option-cases, Bool-cases, inl, inr,
}
use sequel_ace_mcp.Approval.Mrtr.{
  Token, PendingApproval, Presented, Store, Taken, max_pending, max_tombstones, evict, issue,
  remove_first, take_missing, take_token, take, or_new, err, invalid_state, no_store, Call, issued,
  taken, step, run,
}

length-evict {ℓ} : {A : Type ℓ} (max : ℕ) (xs : List A) → length (evict max xs) ≤ max
unfolding evict
length-evict max [] = omega arith
length-evict max (x ∷ xs) = ground (arith, length-evict max xs)

abbrev pub IsBounded : Option Store → Type 0
IsBounded none = Unit
IsBounded (some s) = (length s.pending ≤ max_pending) × (length s.tombstones ≤ max_tombstones)

length-remove_first :
    (token : Token) (m : List (Token × PendingApproval)) (p : PendingApproval)
    (rest : List (Token × PendingApproval))
    → remove_first token m ≡ some (p, rest)
    → length m ≡ length rest + 1
unfolding remove_first
length-remove_first token [] p rest h = cc
length-remove_first token ((t, q) ∷ m) p rest h = elim (Bool-cases (t == token)) [
  | inl same ↦ ground arith
  | inr other ↦ elim (Option-cases (remove_first token m)) [
    | inl missing ↦ absurd (ground arith)
    | inr (r, found) ↦ ground (arith, length-remove_first token m r.0 r.1 found)
  ]
]

issue-IsBounded :
    (s : Option Store) (token : Token) (p : PendingApproval)
    → IsBounded s
    → IsBounded (issue s token p)
unfolding issue
issue-IsBounded none token p h =
    (length-evict max_pending ((or_new none).pending ++ (token, p) ∷ []), omega arith)
issue-IsBounded (some s) token p h = (length-evict max_pending (s.pending ++ (token, p) ∷ []), h.1)

take_token-IsBounded :
    (s : Store) (token : Token) (given : Presented) (now : ℕ)
    → IsBounded (some s)
    → IsBounded (take_token s token given now).0
unfolding take_token take_missing
take_token-IsBounded s token given now h = elim (Option-cases (remove_first token s.pending)) [
  | inl missing ↦ rw (missing, take_token) (omega (arith, length-retain {0} _ s.pending, h.0), h.1)
  | inr (r, found) ↦
      rw (found, take_token)
        (
          omega (arith, length-remove_first token s.pending r.0 r.1 found, h.0),
          length-evict max_tombstones (s.tombstones ++ token ∷ []),
        )
]

module _ (decode : Text → Option Token) where
  take-IsBounded :
      (s : Option Store) (state : Text) (given : Presented) (now : ℕ)
      → IsBounded s
      → IsBounded (take decode s state given now).0
  unfolding take
  take-IsBounded s state given now h = elim (Option-cases (decode state)) [
    | inl malformed ↦ rw (malformed, take) h
    | inr (token, decoded) ↦ rw (decoded, take) (taken_store s token h)
  ]
    where
      taken_store :
          (s : Option Store) (token : Token)
          → IsBounded s
          → IsBounded
              (elim s as (λ _. Option Store × Taken) [
                | none ↦ (none, err (invalid_state no_store))
                | some s' ↦ take_token s' token given now
              ]).0
      taken_store none token h = tt
      taken_store (some s') token h = take_token-IsBounded s' token given now h

  step-IsBounded : (s : Option Store) (c : Call) → IsBounded s → IsBounded (step decode s c)
  unfolding step
  step-IsBounded s (issued token p) h = issue-IsBounded s token p h
  step-IsBounded s (taken state given now) h = take-IsBounded s state given now h

  run_keeps : (s : Option Store) (cs : List Call) → IsBounded s → IsBounded (run decode s cs)
  unfolding run
  run_keeps s [] h = h
  run_keeps s (c ∷ cs) h = run_keeps (step decode s c) cs (step-IsBounded s c h)

  -- From a fresh process, after any calls the store holds at most 32 pending approvals and at most 256 tombstones.
  pub run-IsBounded : (cs : List Call) → IsBounded (run decode none cs)
  run-IsBounded cs = run_keeps none cs tt
