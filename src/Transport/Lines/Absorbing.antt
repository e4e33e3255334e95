-- ===== src/Transport/Lines/Absorbing.antt =====
-- What a read, of some bytes or of the end, keeps of what is owed.
use sequel_ace_mcp.Prelude.{
  ℕ, suc, ◌-◌, ◌≤◌, ◌≡◌, refl, sym, ap, ◌∙◌, true, [], ◌∷◌, ◌++◌, append-nil, append_assoc, arith,
  Text, ltb, length, length-append, length-drop, take-append_left, take, drop, drop_all, take_all,
  Lacks, inl, inr, Option-cases, subst,
}
use sequel_ace_mcp.Transport.Lines.{
  newline, Phase, filling, draining, discarding, eof, position, absorb, at_end,
}
use sequel_ace_mcp.Transport.Lines.Accepted.{
  accepted, skipped, skipped-append, skipped-newline, accepted_last,
}
use sequel_ace_mcp.Transport.Lines.Search.{position-some, position-none}
use sequel_ace_mcp.Transport.Lines.View.{IsValid, IsReading, Absorbed, Ended, reader}

module _ (rest : Text) where
  -- What is kept by a read of some bytes.
  pub Absorbed-reader :
      (phase : Phase) (buf bs : Text) (scanned total limit dropped : ℕ)
      → IsValid (reader phase buf scanned total limit dropped)
      → IsReading (length bs) (reader phase buf scanned total limit dropped)
      → Absorbed (reader phase buf scanned total limit dropped) bs rest
  unfolding absorb
  Absorbed-reader filling buf bs scanned total limit dropped v r = (
    (
      omega (arith, length-append buf bs, r.1),
      omega (arith, length-append buf bs, v.1),
      subst (Lacks newline) (sym (take-append_left scanned buf bs v.1)) v.2,
    ),
    refl,
    ap (accepted limit []) (sym (append_assoc buf bs rest)),
  )
  Absorbed-reader discarding buf bs scanned total limit dropped v r =
      elim (Option-cases (position bs)) [
        | inl missing ↦
            rw (missing, absorb) (tt, refl, skipped-append limit bs rest (position-none bs missing))
        | inr (i, found) ↦
            let f = position-some bs i found in
            rw (found, absorb)
              (
                (omega (arith, length-drop (suc i) bs, r), omega arith, tt),
                refl,
                ap (λ b. skipped limit (b ++ rest)) f.found
                    ∙ ap (skipped limit) (append_assoc (take i bs) (newline ∷ drop (suc i) bs) rest)
                    ∙ skipped-newline limit (take i bs) (drop (suc i) bs ++ rest) f.free,
              )
      ]
  Absorbed-reader (draining d) buf bs scanned total limit dropped v r = absurd r
  Absorbed-reader eof buf bs scanned total limit dropped v r = absurd r

accepted_nil : (limit : ℕ) → accepted limit [] [] ≡ []
unfolding accepted
accepted_nil limit = ground arith

skipped_nil : (limit : ℕ) → skipped limit [] ≡ []
unfolding skipped
skipped_nil limit = refl

-- The last line, where no newline ends it.
accepted_unended :
    (limit : ℕ) (buf : Text)
    → Lacks newline buf
    → length buf ≤ limit
    → accepted limit [] (buf ++ [])
      ≡ take (length buf - 0) buf ++ accepted limit [] (drop (length buf) buf ++ [])
accepted_unended limit buf free short =
    ap (accepted limit []) (append-nil buf)
    ∙ accepted_last limit buf free short
    ∙ sym (
        ap (λ l. take (length buf - 0) buf ++ l)
          (ap (λ l. accepted limit [] (l ++ [])) (drop_all (length buf) buf (omega arith))
            ∙ accepted_nil limit)
        ∙ append-nil (take (length buf - 0) buf)
        ∙ take_all (length buf - 0) buf (omega arith))

-- What is kept by the end of the input.
pub Ended-reader :
    (phase : Phase) (buf : Text) (scanned total limit dropped space : ℕ)
    → IsValid (reader phase buf scanned total limit dropped)
    → 1 ≤ space
    → IsReading space (reader phase buf scanned total limit dropped)
    → Ended (reader phase buf scanned total limit dropped)
unfolding at_end
Ended-reader filling [] scanned total limit dropped space v k r = (tt, refl, accepted_nil limit)
Ended-reader filling (c ∷ buf) scanned total limit dropped space v k r =
    let some_left : ltb 0 (suc (length buf)) ≡ true = ground arith in
    rw some_left (
      (omega arith, omega arith, v.0),
      refl,
      accepted_unended limit (c ∷ buf) r.0 (omega (arith, r.1)),
    )
Ended-reader discarding buf scanned total limit dropped space v k r = (tt, refl, skipped_nil limit)
Ended-reader (draining d) buf scanned total limit dropped space v k r = absurd r
Ended-reader eof buf scanned total limit dropped space v k r = absurd r
