-- ===== src/Transport/Lines/Accepted.antt =====
-- What a reader of limited lines owes its caller: the lines of at most `limit` bytes, whole and in
-- their order, and nothing of the others.
use sequel_ace_mcp.Prelude.{
  ℕ, ◌≤◌, ◌<◌, ◌≡◌, refl, sym, ap, ◌∙◌, [], ◌∷◌, ◌++◌, append-nil, append_assoc, arith, Text, eqb,
  leb, length, length-append, if◌then◌else◌, Lacks,
}
use sequel_ace_mcp.Transport.Lines.{newline}

-- The lines that pass, `line` being what has come of the first one; what stands after the last newline
-- is a line too.
unfoldable pub accepted : ℕ → Text → Text → Text
accepted limit line [] = if leb (length line) limit then line else []
accepted limit line (c ∷ s) =
    let next = accepted limit [] s in
    let more = accepted limit (line ++ c ∷ []) s in
    if eqb c newline
    then (if leb (length line) limit then line ++ newline ∷ next else next)
    else more

-- What passes after the end of a line that does not.
unfoldable pub skipped : ℕ → Text → Text
unfolding accepted
skipped limit [] = []
skipped limit (c ∷ s) =
    let rest = skipped limit s in if eqb c newline then accepted limit [] s else rest

module _ (limit : ℕ) where
  pub accepted-append :
      (line xs s : Text)
      → Lacks newline xs
      → accepted limit line (xs ++ s) ≡ accepted limit (line ++ xs) s
  unfolding accepted
  accepted-append line [] s h = ap (λ l. accepted limit l s) (sym (append-nil line))
  accepted-append line (x ∷ xs) s h =
      ground (arith, accepted-append (line ++ x ∷ []) xs s h.1)
      ∙ ap (λ l. accepted limit l s) (append_assoc line (x ∷ []) xs)

  -- A line that is too long is dropped whole.
  pub accepted-eq-skipped :
      (line s : Text) → limit < length line → accepted limit line s ≡ skipped limit s
  unfolding accepted skipped
  accepted-eq-skipped line [] h = ground arith
  accepted-eq-skipped line (c ∷ s) h = ground (
    arith,
    length-append line (c ∷ []),
    accepted-eq-skipped (line ++ c ∷ []) s (omega (arith, length-append line (c ∷ []))),
  )

  pub skipped-append : (xs s : Text) → Lacks newline xs → skipped limit (xs ++ s) ≡ skipped limit s
  unfolding skipped
  skipped-append [] s h = refl
  skipped-append (x ∷ xs) s h = ground (arith, skipped-append xs s h.1)

  pub skipped-newline :
      (xs s : Text) → Lacks newline xs → skipped limit (xs ++ newline ∷ s) ≡ accepted limit [] s
  unfolding skipped
  skipped-newline xs s h = skipped-append xs (newline ∷ s) h

  pub accepted-newline :
      (xs s : Text)
      → Lacks newline xs
      → length xs ≤ limit
      → accepted limit [] (xs ++ newline ∷ s) ≡ (xs ++ newline ∷ []) ++ accepted limit [] s
  unfolding accepted
  accepted-newline xs s h k =
      accepted-append [] xs (newline ∷ s) h
      ∙ ground (arith, append_assoc xs (newline ∷ []) (accepted limit [] s))

  pub accepted_last : (xs : Text) → Lacks newline xs → length xs ≤ limit → accepted limit [] xs ≡ xs
  unfolding accepted
  accepted_last xs h k =
      ap (accepted limit []) (sym (append-nil xs)) ∙ accepted-append [] xs [] h ∙ ground arith
