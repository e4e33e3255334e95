-- ===== src/Audit/Chain/Written.antt =====
-- What is written is found in order.
use sequel_ace_mcp.Prelude.{
  ℕ, suc, ◌≡◌, refl, sym, ap, ◌∙◌, Bool, true, false, Option, none, some, List, [], ◌∷◌, ◌++◌, Text,
  ◌==◌, eq_refl,
}
use sequel_ace_mcp.Audit.Chain.{
  ChainRow, Scan, Step, stop, go, start, last_hash, linked, epochs, unchained, and_then, hash_row,
  write_audit_entry, step, scan, verify_chain,
}

pub last_hash-append :
    {E : Type 0} (rows : List (ChainRow E)) (r : ChainRow E)
    → last_hash (rows ++ r ∷ []) ≡ r.row_hash
unfolding last_hash
last_hash-append [] r = refl
last_hash-append (q ∷ []) r = refl
last_hash-append (q ∷ p ∷ rows) r = last_hash-append (p ∷ rows) r

linked_refl : (h : Option Text) → linked h h ≡ true
linked_refl none = refl
linked_refl (some h) = eq_refl h

module _ {E : Type 0} (sha256 : Text → Text) (canonical : E → Text) where
  scan-append_step :
      (st : Step) (t : Scan) (xs ys : List (ChainRow E))
      → ((u : Scan)
          → scan sha256 canonical u xs ≡ go t
          → scan sha256 canonical u (xs ++ ys) ≡ scan sha256 canonical t ys)
      → and_then st (λ u. scan sha256 canonical u xs) ≡ go t
      → and_then st (λ u. scan sha256 canonical u (xs ++ ys)) ≡ scan sha256 canonical t ys
  scan-append_step (stop u) t xs ys ih h = absurd (cc)
  scan-append_step (go u) t xs ys ih h = ih u h

  pub scan-append :
      (s t : Scan) (xs ys : List (ChainRow E))
      → scan sha256 canonical s xs ≡ go t
      → scan sha256 canonical s (xs ++ ys) ≡ scan sha256 canonical t ys
  unfolding scan
  scan-append s t [] ys h = let e : s ≡ t = cc in ap (λ (u : Scan). scan sha256 canonical u ys) e
  scan-append s t (r ∷ xs) ys h =
      scan-append_step (step sha256 canonical s r r.row_hash) t xs ys
        (λ u k. scan-append u t xs ys k) h

  -- The check goes through the rows, and knows the last one's hash.
  pub record IsSound (rows : List (ChainRow E)) : Type 0 where
    pub at_end : Scan
    pub passed : scan sha256 canonical start rows ≡ go at_end
    pub known : at_end.prev ≡ last_hash rows
    pub unbroken : at_end.broken_at ≡ none

  chained :
      (s : Scan) (r : ChainRow E) (rh : Text)
      → hash_row sha256 canonical r.prev_hash r.entry ≡ rh
      → s.prev ≡ r.prev_hash
      → scan sha256 canonical s (record r { row_hash = some rh } ∷ [])
        ≡ go (record s {
          checked = suc s.checked;
          epoch = epochs s.prev r.prev_hash s.epoch;
          prev = some rh;
        })
  unfolding scan
  chained s r rh h link =
      let covers : (hash_row sha256 canonical r.prev_hash r.entry == rh) ≡ true =
        rw h (eq_refl rh) in
      let links : linked s.prev r.prev_hash ≡ true = rw link (linked_refl r.prev_hash) in
      rw (covers, links) refl

  pub IsSound-write_audit_entry :
      (chaining : Bool) (id : ℕ) (e : E) (rows : List (ChainRow E))
      → IsSound rows
      → IsSound (write_audit_entry sha256 canonical chaining id e rows)
  unfolding write_audit_entry
  IsSound-write_audit_entry true id e rows s =
      let prev = last_hash rows in
      let rh = hash_row sha256 canonical prev e in
      let r : ChainRow E = record { id = id; entry = e; prev_hash = prev; row_hash = some rh } in
      record {
        at_end = record s.at_end {
          checked = suc s.at_end.checked;
          epoch = epochs s.at_end.prev prev s.at_end.epoch;
          prev = some rh;
        };
        passed =
            scan-append start s.at_end rows (r ∷ []) s.passed ∙ chained s.at_end r rh refl s.known;
        known = sym (last_hash-append rows r);
        unbroken = s.unbroken;
      }
  IsSound-write_audit_entry false id e rows s =
      let r : ChainRow E = record { id = id; entry = e; prev_hash = none; row_hash = none } in
      record {
        at_end = unchained none s.at_end;
        passed = scan-append start s.at_end rows (r ∷ []) s.passed ∙ unfold scan in refl;
        known = sym (last_hash-append rows r);
        unbroken = s.unbroken;
      }

  -- A history of entries, each with its setting of the chain and its id.
  abbrev pub written : List (Bool × ℕ × E) → List (ChainRow E) → List (ChainRow E)
  written [] rows = rows
  written ((chaining, id, e) ∷ entries) rows =
      written entries (write_audit_entry sha256 canonical chaining id e rows)

  pub IsSound-written :
      (entries : List (Bool × ℕ × E)) (rows : List (ChainRow E))
      → IsSound rows
      → IsSound (written entries rows)
  IsSound-written [] rows s = s
  IsSound-written ((chaining, id, e) ∷ entries) rows s =
      IsSound-written entries (write_audit_entry sha256 canonical chaining id e rows)
        (IsSound-write_audit_entry chaining id e rows s)

  pub IsSound-nil : IsSound []
  unfolding scan last_hash
  IsSound-nil = record { at_end = start; passed = refl; known = refl; unbroken = refl }

  -- Whatever was written, with the chain on or off for each entry, the check finds nothing broken.
  pub verify_chain-written :
      (entries : List (Bool × ℕ × E))
      → (verify_chain sha256 canonical (written entries [])).ok ≡ true
  unfolding verify_chain
  verify_chain-written entries =
      let s = IsSound-written entries [] IsSound-nil in rw (s.passed) (rw (s.unbroken) refl)
