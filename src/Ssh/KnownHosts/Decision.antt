-- ===== src/Ssh/KnownHosts/Decision.antt =====
-- Which keys are accepted.
use sequel_ace_mcp.Prelude.{
  ℕ, ◌≡◌, ◌↔◌, ◌⊎◌, inl, inr, refl, Bool, true, false, ◌&&◌, ◌||◌, not, Option, none, some, List,
  [], ◌∷◌, Text, any, retain, Any, if◌then◌else◌, arith, Bool-cases, ap, ◌∙◌,
}
use sequel_ace_mcp.Ssh.KnownHosts.{
  KnownHostEntry, VerifyResult, decide_result, SshHostKeyPolicy, lenient, strict, accept, is_match,
  match_host, key_matches_entry, is_revoked, flags, verify_host_key, decide_host_key, is_nonempty,
  holds_key,
}
use sequel_ace_mcp.Ssh.KnownHosts.Bytes.{same_bytes_iff}

module _ {ℓ} {A : Type ℓ} where
  any-retain : (p q : A → Bool) (xs : List A) → any q (retain p xs) ≡ any (λ x. p x && q x) xs
  any-retain p q [] = refl
  any-retain p q (x ∷ xs) = elim (Bool-cases (p x)) [
    | inl e ↦ rw e (ap (λ b. q x || b) (any-retain p q xs))
    | inr e ↦ rw e (any-retain p q xs)
  ]

  is_nonempty-retain : (p : A → Bool) (xs : List A) → is_nonempty (retain p xs) ≡ any p xs
  is_nonempty-retain p [] = refl
  is_nonempty-retain p (x ∷ xs) = elim (Bool-cases (p x)) [
    | inl e ↦ rw e refl
    | inr e ↦ rw e (is_nonempty-retain p xs)
  ]

  any_mono :
      (p q : A → Bool)
      → ((x : A) → p x ≡ true → q x ≡ true)
      → (xs : List A) → any p xs ≡ true
      → any q xs ≡ true
  any_mono p q h [] e = cc
  any_mono p q h (x ∷ xs) e = elim (Bool-cases (p x)) [
    | inl t ↦ rw (h x t) refl
    | inr t ↦ (let rest = any_mono p q h xs (ground arith) in ground arith)
  ]

  module _ (p : A → Bool) (P : A → Type 0) (iff : (x : A) → (p x ≡ true) ↔ P x) where
    any_iff : (xs : List A) → (any p xs ≡ true) ↔ Any P xs
    any_iff [] = (λ h. absurd (cc), λ h. elim h [ ])
    any_iff (x ∷ xs) = (
      λ h. elim (Bool-cases (p x)) [
        | inl e ↦ inl ((iff x).0 e)
        | inr e ↦ inr ((any_iff xs).0 (ground arith))
      ],
      λ h. elim h [
        | inl here ↦ rw ((iff x).1 here) refl
        | inr there ↦
            (let e = (any_iff xs).1 there in
              elim (Bool-cases (p x)) [ inl t ↦ rw t refl | inr t ↦ rw t e ])
      ],
    )

holds_key_iff :
    (raw : Text) (decoded : Option Text) → (holds_key raw decoded ≡ true) ↔ (decoded ≡ some raw)
holds_key_iff raw none = (λ h. absurd (cc), λ h. absurd (cc))
holds_key_iff raw (some key) =
    (λ h. ap some ((same_bytes_iff key raw).0 h), λ h. (same_bytes_iff key raw).1 (cc))

-- The decision on the three flags, with what each stands for.
module _ {M G K : Type 0} where
  decision_iff :
      (policy : SshHostKeyPolicy) (r : VerifyResult) (m g k : Bool)
      → (r.matched ≡ m) × (r.revoked ≡ g) × (r.had_matching_host_entry ≡ k)
      → ((m ≡ true) ↔ M)
      → ((g ≡ true) ↔ G)
      → ((k ≡ true) ↔ K)
      → (m ≡ true → k ≡ true)
      → ((decide_result policy r).1 ≡ accept) ↔ ((¬ G) × (M ⊎ ((policy ≡ lenient) × (¬ K))))
  decision_iff policy r m true k fields mi gi ki known =
      rw (fields.1) (λ h. absurd (cc), λ h. absurd (h.0 (gi.0 refl)))
  decision_iff strict r true false k fields mi gi ki known =
      rw (fields.0, fields.1, fields.2, known refl)
        (λ _. (λ h. absurd (cc (gi.1 h)), inl (mi.0 refl)), λ _. refl)
  decision_iff strict r false false true fields mi gi ki known =
      rw (fields.0, fields.1, fields.2)
        (λ h. absurd (cc), λ h. elim h.1 [ inl x ↦ cc (mi.1 x) | inr x ↦ absurd (cc (x.0)) ])
  decision_iff strict r false false false fields mi gi ki known =
      rw (fields.0, fields.1, fields.2)
        (λ h. absurd (cc), λ h. elim h.1 [ inl x ↦ cc (mi.1 x) | inr x ↦ absurd (cc (x.0)) ])
  decision_iff lenient r true false k fields mi gi ki known =
      rw (fields.0, fields.1, fields.2, known refl)
        (λ _. (λ h. absurd (cc (gi.1 h)), inl (mi.0 refl)), λ _. refl)
  decision_iff lenient r false false true fields mi gi ki known =
      rw (fields.0, fields.1, fields.2)
        (λ h. absurd (cc), λ h. elim h.1 [ inl x ↦ cc (mi.1 x) | inr x ↦ absurd (x.1 (ki.0 refl)) ])
  decision_iff lenient r false false false fields mi gi ki known =
      rw (fields.0, fields.1, fields.2)
        (λ _. (λ h. absurd (cc (gi.1 h)), inr (refl, λ h. absurd (cc (ki.1 h)))), λ _. refl)

module _ (b64_decode : Text → Option Text) (raw : Text) where
  -- The entry holds this key.
  abbrev pub Holds : KnownHostEntry → Type 0
  Holds e = b64_decode e.key_base64 ≡ some raw

  has : KnownHostEntry → Bool
  has e = key_matches_entry b64_decode raw e

  has_iff : (e : KnownHostEntry) → (has e ≡ true) ↔ Holds e
  unfolding key_matches_entry has
  has_iff e = holds_key_iff raw (b64_decode e.key_base64)

  flags-matched :
      (es : List KnownHostEntry) (found : Bool × Bool)
      → (flags b64_decode raw es found).0 ≡ (found.0 || any (λ e. has e && not (is_revoked e)) es)
  unfolding flags has
  flags-matched [] found = elim (Bool-cases found.0) [ inl e ↦ rw e refl | inr e ↦ rw e refl ]
  flags-matched (e ∷ es) found = ground (
    arith,
    flags-matched es
        (if has e then if is_revoked e then (found.0, true) else (true, found.1) else found),
  )

  flags-revoked :
      (es : List KnownHostEntry) (found : Bool × Bool)
      → (flags b64_decode raw es found).1 ≡ (found.1 || any (λ e. has e && is_revoked e) es)
  unfolding flags has
  flags-revoked [] found = elim (Bool-cases found.1) [ inl e ↦ rw e refl | inr e ↦ rw e refl ]
  flags-revoked (e ∷ es) found = ground (
    arith,
    flags-revoked es
        (if has e then if is_revoked e then (found.0, true) else (true, found.1) else found),
  )

module _ (hmac_sha1 : Text → Text → Text) (host : Text) (port : ℕ) where
  -- The entry is one of this host and port.
  abbrev pub IsKnown : KnownHostEntry → Type 0
  IsKnown e = is_match hmac_sha1 host port e ≡ true

  is_match-IsKnown : (e : KnownHostEntry) → (is_match hmac_sha1 host port e ≡ true) ↔ IsKnown e
  is_match-IsKnown e = (λ h. h, λ h. h)

module _ (b64_decode : Text → Option Text) (hmac_sha1 : Text → Text → Text) (host : Text) (port : ℕ)
    (raw : Text) where
  -- It holds the key, and has the given mark of revocation.
  abbrev pub Lists : Bool → KnownHostEntry → Type 0
  Lists gone e = IsKnown hmac_sha1 host port e × Holds b64_decode raw e × (is_revoked e ≡ gone)

  lists : Bool → KnownHostEntry → Bool
  lists gone e =
      is_match hmac_sha1 host port e
      && (has b64_decode raw e && (if gone then is_revoked e else not (is_revoked e)))

  lists_iff : (gone : Bool) (e : KnownHostEntry) → (lists gone e ≡ true) ↔ Lists gone e
  unfolding lists
  lists_iff true e = (
    λ h. (ground arith, (has_iff b64_decode raw e).0 (ground arith), ground arith),
    λ h. let k = (has_iff b64_decode raw e).1 h.1 in ground arith,
  )
  lists_iff false e = (
    λ h. (ground arith, (has_iff b64_decode raw e).0 (ground arith), ground arith),
    λ h. let k = (has_iff b64_decode raw e).1 h.1 in ground arith,
  )

  -- The three fields of the result that the decision reads.
  verify_host_key_lem :
      (fingerprint_sha256 : Text → Text) (entries : List KnownHostEntry)
      → let r = verify_host_key b64_decode hmac_sha1 fingerprint_sha256 raw host port entries in
        (r.matched ≡ any (lists false) entries)
        × (r.revoked ≡ any (lists true) entries)
        × (r.had_matching_host_entry ≡ any (is_match hmac_sha1 host port) entries)
  unfolding verify_host_key match_host lists
  verify_host_key_lem fingerprint_sha256 entries = (
    flags-matched b64_decode raw (retain (is_match hmac_sha1 host port) entries) (false, false)
        ∙ any-retain (is_match hmac_sha1 host port) _ entries,
    flags-revoked b64_decode raw (retain (is_match hmac_sha1 host port) entries) (false, false)
        ∙ any-retain (is_match hmac_sha1 host port) _ entries,
    is_nonempty-retain (is_match hmac_sha1 host port) entries,
  )

  -- A server's key is accepted exactly when no entry of the host and port marks it as revoked and
  -- either such an entry without that mark holds it, or the policy is lenient and the host and port
  -- have no entry at all.
  pub decide_host_key-accept_iff :
      (fingerprint_sha256 : Text → Text) (policy : SshHostKeyPolicy) (entries : List KnownHostEntry)
      → ((decide_host_key b64_decode hmac_sha1 fingerprint_sha256 policy host port entries raw).1
          ≡ accept)
        ↔ ((¬ Any (Lists true) entries)
            × (Any (Lists false) entries
                ⊎ ((policy ≡ lenient) × (¬ Any (IsKnown hmac_sha1 host port) entries))))
  unfolding decide_host_key
  decide_host_key-accept_iff fingerprint_sha256 policy entries =
      let r = verify_host_key_lem fingerprint_sha256 entries in
      let pinned = any_iff (lists false) (Lists false) (lists_iff false) entries in
      let gone = any_iff (lists true) (Lists true) (lists_iff true) entries in
      let known =
        any_iff (is_match hmac_sha1 host port) (IsKnown hmac_sha1 host port)
          (is_match-IsKnown hmac_sha1 host port) entries in
      decision_iff policy
        (verify_host_key b64_decode hmac_sha1 fingerprint_sha256 raw host port entries)
        (any (lists false) entries) (any (lists true) entries)
        (any (is_match hmac_sha1 host port) entries) r pinned gone known
        (any_mono (lists false) (is_match hmac_sha1 host port) (λ e h. ((lists_iff false e).0 h).0)
          entries)
