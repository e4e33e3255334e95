-- ===== src/Policy/Lexical/Quotes.antt =====
-- The scan for several statements: what an open quote hides, and what trimming keeps.
use sequel_ace_mcp.Prelude.{
  ℕ, ◌≡◌, refl, ap, false, ◌&&◌, some, [], ◌∷◌, ◌++◌, arith, Text, eqb, eqb_iff, Bool-cases, inl,
  inr, Lacks, ◌==◌,
}
use sequel_ace_mcp.Policy.Lexical.{Depth, scan, is_whitespace, trim_end, drop_semicolon}

-- Inside a quote that no character of the text can close, the scan finds nothing.
pub scan_quoted :
    (q : ℕ) (depth : Depth) (prev : ℕ) (s : Text) → Lacks q s → scan (some q) depth prev s ≡ false
unfolding scan
scan_quoted q depth prev [] h = refl
scan_quoted q depth prev (c ∷ s) h = elim (Bool-cases (eqb c q)) [
  | inl same ↦ absurd (h.0 ((eqb_iff c q).0 same))
  | inr other ↦ rw other (scan_quoted q depth c s h.1)
]

not-nil : (p s : Text) (c : ℕ) → ((p ++ c ∷ s) == []) ≡ false
not-nil [] s c = refl
not-nil (x ∷ p) s c = refl

-- Trimming at the end and dropping a final semicolon act behind a character that is neither.
pub trim_end-append :
    (p s : Text) (c : ℕ) → is_whitespace c ≡ false → trim_end (p ++ c ∷ s) ≡ p ++ c ∷ trim_end s
unfolding trim_end
trim_end-append [] s c h = ground arith
trim_end-append (x ∷ p) s c h = rw (trim_end-append p s c h) (rw (not-nil p (trim_end s) c) refl)

pub drop_semicolon-append :
    (p s : Text) (c : ℕ)
    → eqb c b';' ≡ false
    → drop_semicolon (p ++ c ∷ s) ≡ p ++ c ∷ drop_semicolon s
unfolding drop_semicolon
drop_semicolon-append [] [] c h = rw h
drop_semicolon-append [] (d ∷ s) c h = refl
drop_semicolon-append (x ∷ []) s c h = ap (λ t. x ∷ t) (drop_semicolon-append [] s c h)
drop_semicolon-append (x ∷ y ∷ p) s c h = ap (λ t. x ∷ t) (drop_semicolon-append (y ∷ p) s c h)

pub Lacks-trim_end : (q : ℕ) (s : Text) → Lacks q s → Lacks q (trim_end s)
unfolding trim_end
Lacks-trim_end q [] h = tt
Lacks-trim_end q (c ∷ s) h = elim (Bool-cases (trim_end s == [] && is_whitespace c)) [
  | inl gone ↦ rw gone tt
  | inr kept ↦ rw kept (h.0, Lacks-trim_end q s h.1)
]

pub Lacks-drop_semicolon : (q : ℕ) (s : Text) → Lacks q s → Lacks q (drop_semicolon s)
unfolding drop_semicolon
Lacks-drop_semicolon q [] h = tt
Lacks-drop_semicolon q (c ∷ []) h = elim (Bool-cases (eqb c b';')) [
  | inl gone ↦ rw gone tt
  | inr kept ↦ rw kept h
]
Lacks-drop_semicolon q (c ∷ d ∷ s) h = (h.0, Lacks-drop_semicolon q (d ∷ s) h.1)
