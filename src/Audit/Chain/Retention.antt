-- ===== src/Audit/Chain/Retention.antt =====
-- What the deletion of rows does to the chain.
use sequel_ace_mcp.Prelude.{
  ℕ, ◌≡◌, ◌≢◌, refl, ap, ◌∙◌, Bool, true, false, Option, some, List, [], ◌∷◌, ◌++◌, append_assoc,
  Text, ◌==◌, eq_refl, eq_iff, Bool-cases, inl, inr, All,
}
use sequel_ace_mcp.Audit.Chain.{
  ChainRow, Scan, stop, start, last_hash, linked, hash_row, write_audit_entry, scan, verify_chain,
  delete_rows,
}
use sequel_ace_mcp.Audit.Chain.Written.{IsSound, last_hash-append, scan-append}

module _ {E : Type 0} (expired : E → Bool) where
  retain-kept :
      (rows more : List (ChainRow E))
      → All (λ r. expired r.entry ≡ false) rows
      → delete_rows expired (rows ++ more) ≡ rows ++ delete_rows expired more
  unfolding delete_rows
  retain-kept [] more h = refl
  retain-kept (r ∷ rows) more h = rw (h.0) (ap (λ l. r ∷ l) (retain-kept rows more h.1))

different : (h g : Text) → h ≢ g → (h == g) ≡ false
different h g ne = elim (Bool-cases (h == g)) [
  | inl same ↦ absurd (ne ((eq_iff h g).0 same))
  | inr other ↦ other
]

module _ {E : Type 0} (sha256 : Text → Text) (canonical : E → Text) where
  row_after : Option Text → ℕ → E → ChainRow E
  row_after prev id e = record {
    id = id;
    entry = e;
    prev_hash = prev;
    row_hash = some (hash_row sha256 canonical prev e);
  }

  two_written :
      (rows : List (ChainRow E)) (i j : ℕ) (x y : E)
      → write_audit_entry sha256 canonical true j y
          (write_audit_entry sha256 canonical true i x rows)
        ≡ rows
          ++ row_after (last_hash rows) i x
            ∷ row_after (some (hash_row sha256 canonical (last_hash rows) x)) j y
            ∷ []
  unfolding write_audit_entry row_after
  two_written rows i j x y =
      let first = row_after (last_hash rows) i x in
      rw (last_hash-append rows first) (append_assoc rows (first ∷ []) _)

  unlinked :
      (s : Scan) (h g : Text) (j : ℕ) (y : E)
      → s.prev ≡ some h
      → h ≢ g
      → scan sha256 canonical s (row_after (some g) j y ∷ [])
        ≡ stop (record s { broken_at = some j })
  unfolding scan row_after
  unlinked s h g j y known ne =
      let covers = eq_refl (hash_row sha256 canonical (some g) y) in
      let differ : linked s.prev (some g) ≡ false = rw known (different h g ne) in
      rw (covers, differ) refl

  deleted :
      (expired : E → Bool) (rows : List (ChainRow E)) (h : Text) (i j : ℕ) (x y : E)
      → last_hash rows ≡ some h
      → All (λ r. expired r.entry ≡ false) rows
      → expired x ≡ true
      → expired y ≡ false
      → delete_rows expired (
          write_audit_entry sha256 canonical true j y
            (write_audit_entry sha256 canonical true i x rows))
        ≡ rows ++ row_after (some (hash_row sha256 canonical (some h) x)) j y ∷ []
  unfolding row_after
  deleted expired rows h i j x y last kept gone stays =
      ap (delete_rows expired) (two_written rows i j x y)
      ∙ retain-kept expired rows _ kept
      ∙ rw last (unfold delete_rows in rw (gone, stays) refl)

  -- Where the last row of a sound log is chained and two more chained entries follow, the deletion of
  -- the first of them alone, as of a category with a shorter time, makes the check report the second
  -- as broken, unless the first entry's hash is the hash of the row before it.
  pub verify_chain-delete_rows :
      (expired : E → Bool) (rows : List (ChainRow E)) (h : Text) (i j : ℕ) (x y : E)
      → IsSound sha256 canonical rows
      → last_hash rows ≡ some h
      → All (λ r. expired r.entry ≡ false) rows
      → expired x ≡ true
      → expired y ≡ false
      → h ≢ hash_row sha256 canonical (some h) x
      → (verify_chain sha256 canonical (
          delete_rows expired (
            write_audit_entry sha256 canonical true j y
              (write_audit_entry sha256 canonical true i x rows)))).broken_at
        ≡ some j
  unfolding verify_chain
  verify_chain-delete_rows expired rows h i j x y sound last kept gone stays ne =
      let g = hash_row sha256 canonical (some h) x in
      let left = deleted expired rows h i j x y last kept gone stays in
      rw left (
        rw
          (scan-append sha256 canonical start sound.at_end rows (row_after (some g) j y ∷ [])
            sound.passed)
          (rw (unlinked sound.at_end h g j y (sound.known ∙ last) ne) refl))
