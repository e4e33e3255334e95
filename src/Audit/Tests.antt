-- ===== src/Audit/Tests.antt =====
-- The chain of the audit log on small inputs.
use sequel_ace_mcp.Prelude.{◌≡◌, refl, Bool, true, false, some, [], ◌∷◌, Text, text, ◌==◌, eq_iff}
use sequel_ace_mcp.Audit.Chain.{hash_row, write_audit_entry, verify_chain, delete_rows}
use sequel_ace_mcp.Audit.Chain.Written.{written, IsSound-written, IsSound-nil, verify_chain-written}
use sequel_ace_mcp.Audit.Chain.Retention.{verify_chain-delete_rows}

-- Stand-ins: an entry is its own text, and a text its own hash.
abbrev same : Text → Text
same s = s

verify_chain-written_example :
    (verify_chain same same (
      written same same
        ((true, 1, text "a") ∷ (false, 2, text "b") ∷ (true, 3, text "c") ∷ [])
        [])).ok
    ≡ true
verify_chain-written_example =
    verify_chain-written same same
      ((true, 1, text "a") ∷ (false, 2, text "b") ∷ (true, 3, text "c") ∷ [])

-- The second of three entries is deleted.
abbrev is_second : Text → Bool
is_second e = e == text "b"

verify_chain-delete_rows_example :
    (verify_chain same same (
      delete_rows is_second (
        write_audit_entry same same true 3 (text "c") (
          write_audit_entry same same true 2
            (text "b")
            (written same same ((true, 1, text "a") ∷ []) []))))).broken_at
    ≡ some 3
unfolding write_audit_entry hash_row
verify_chain-delete_rows_example =
    verify_chain-delete_rows same same is_second (written same same ((true, 1, text "a") ∷ []) [])
      (text "a") 2 3 (text "b") (text "c")
      (IsSound-written same same ((true, 1, text "a") ∷ []) [] (IsSound-nil same same)) refl
      (refl, tt) refl refl (λ e. cc ((eq_iff (text "a") (text "ab")).1 e))
