-- ===== src/Policy/Lexical/Comments.antt =====
-- `strip_comments`: its output has no comment left, and what a block comment hides is gone whole.
use sequel_ace_mcp.Prelude.{
  ℕ, ◌≡◌, refl, sym, ap, Bool, false, ◌&&◌, ◌||◌, [], ◌∷◌, ◌++◌, arith, Text, eqb, eqb_iff, subst,
  Bool-cases, inl, inr,
}
use sequel_ace_mcp.Policy.Lexical.{Mode, code, block, line, strip_from, strip_comments}

-- Do two neighbouring characters open a comment?
abbrev pub opens : ℕ → ℕ → Bool
opens c d = (eqb c b'/' && eqb d b'*') || ((eqb c b'-' && eqb d b'-') || eqb c b'#')

-- No comment opens anywhere in the text.
abbrev pub IsPlain : Text → Type 0
IsPlain [] = Unit
IsPlain (c ∷ []) = eqb c b'#' ≡ false
IsPlain (c ∷ d ∷ s) = (opens c d ≡ false) × IsPlain (d ∷ s)

or_false : (a b : Bool) → (a || b) ≡ false → (a ≡ false) × (b ≡ false)
or_false a b h = ground arith

strip_from-IsPlain : (s : Text) → IsPlain s → strip_from code s ≡ s
unfolding strip_from
strip_from-IsPlain [] h = refl
strip_from-IsPlain (c ∷ []) h = ground arith
strip_from-IsPlain (c ∷ d ∷ s) h =
    let (no_block, no_line) =
      or_false (eqb c b'/' && eqb d b'*') ((eqb c b'-' && eqb d b'-') || eqb c b'#') h.0 in
    rw (no_block, no_line) (ap (λ t. c ∷ t) (strip_from-IsPlain (d ∷ s) h.1))

-- The character before, with the text that follows, opens no comment.
abbrev pub Follows : ℕ → Text → Type 0
Follows c [] = eqb c b'#' ≡ false
Follows c (d ∷ s) = opens c d ≡ false

IsPlain-cons : (c : ℕ) (s : Text) → Follows c s → IsPlain s → IsPlain (c ∷ s)
IsPlain-cons c [] f h = f
IsPlain-cons c (d ∷ s) f h = (f, h)

-- The output of the scan starts with a space or with the first character of its input.
Follows-strip_from : (c d : ℕ) (s : Text) → opens c d ≡ false → Follows c (strip_from code (d ∷ s))
unfolding strip_from
Follows-strip_from c d [] h = ground arith
Follows-strip_from c d (e ∷ s) h = ground arith

space-Follows : (s : Text) → Follows b' ' s
space-Follows [] = refl
space-Follows (d ∷ s) = refl

newline-Follows : (s : Text) → Follows 10 s
newline-Follows [] = refl
newline-Follows (d ∷ s) = refl

IsPlain-strip_from : (m : Mode) (s : Text) → IsPlain (strip_from m s)
unfolding strip_from
IsPlain-strip_from code [] = tt
IsPlain-strip_from _ [] = tt
IsPlain-strip_from code (c ∷ []) = ground arith
IsPlain-strip_from code (c ∷ d ∷ s) = elim (Bool-cases (eqb c b'/' && eqb d b'*')) [
  | inl b ↦ rw b (IsPlain-cons b' ' _ (space-Follows _) (IsPlain-strip_from block s))
  | inr nb ↦ elim (Bool-cases ((eqb c b'-' && eqb d b'-') || eqb c b'#')) [
    | inl l ↦ rw (nb, l) (IsPlain-cons b' ' _ (space-Follows _) (IsPlain-strip_from line (d ∷ s)))
    | inr nl ↦
        rw (nb, nl)
          (IsPlain-cons c _ (Follows-strip_from c d s (ground arith))
            (IsPlain-strip_from code (d ∷ s)))
  ]
]
IsPlain-strip_from block (c ∷ []) = tt
IsPlain-strip_from block (c ∷ d ∷ s) = elim (Bool-cases (eqb c b'*' && eqb d b'/')) [
  | inl e ↦ rw e (IsPlain-strip_from code s)
  | inr n ↦ rw n (IsPlain-strip_from block (d ∷ s))
]
IsPlain-strip_from line (c ∷ s) = elim (Bool-cases (eqb c 10)) [
  | inl e ↦ rw e (
      IsPlain-cons c _
        (subst (λ x. Follows x (strip_from code s)) (sym ((eqb_iff c 10).0 e)) (newline-Follows _))
        (IsPlain-strip_from code s))
  | inr n ↦ rw n (IsPlain-strip_from line s)
]

-- Stripping a second time changes nothing: no text that comes out of it holds a comment.
pub strip_comments_idem : (sql : Text) → strip_comments (strip_comments sql) ≡ strip_comments sql
unfolding strip_comments
strip_comments_idem sql = strip_from-IsPlain _ (IsPlain-strip_from code sql)

-- The end sign of a block comment does not stand in the text.
abbrev pub IsOpen : Text → Type 0
IsOpen [] = Unit
IsOpen (c ∷ []) = Unit
IsOpen (c ∷ d ∷ s) = ((eqb c b'*' && eqb d b'/') ≡ false) × IsOpen (d ∷ s)

strip_from-block :
    (body rest : Text)
    → IsOpen body
    → strip_from block (body ++ b'*' ∷ b'/' ∷ rest) ≡ strip_from code rest
unfolding strip_from
strip_from-block [] rest h = refl
strip_from-block (c ∷ []) rest h = ground arith
strip_from-block (c ∷ d ∷ s) rest h = ground (arith, strip_from-block (d ∷ s) rest h.1)

-- After a text that holds no comment sign, whatever stands between the two signs of a block comment,
-- within a string literal or not, is replaced by one space up to the first closing sign, and the
-- text before is kept.
pub strip_comments-block :
    (before body rest : Text)
    → IsPlain before
    → IsOpen body
    → strip_comments (before ++ b'/' ∷ b'*' ∷ (body ++ b'*' ∷ b'/' ∷ rest))
      ≡ before ++ b' ' ∷ strip_comments rest
unfolding strip_comments strip_from
strip_comments-block [] body rest p h = ap (λ s. b' ' ∷ s) (strip_from-block body rest h)
strip_comments-block (c ∷ []) body rest p h = ground (arith, strip_comments-block [] body rest tt h)
strip_comments-block (c ∷ d ∷ s) body rest p h =
    ground (arith, strip_comments-block (d ∷ s) body rest p.1 h)

pub strip_comments-eq : (s : Text) → IsPlain s → strip_comments s ≡ s
unfolding strip_comments
strip_comments-eq s h = strip_from-IsPlain s h

pub IsPlain-append :
    (p s : Text) (c : ℕ) → IsPlain (p ++ c ∷ []) → Follows c s → IsPlain s → IsPlain (p ++ c ∷ s)
IsPlain-append [] s c h f k = IsPlain-cons c s f k
IsPlain-append (x ∷ []) s c h f k = (h.0, IsPlain-cons c s f k)
IsPlain-append (x ∷ y ∷ p) s c h f k = (h.0, IsPlain-append (y ∷ p) s c h.1 f k)

pub backtick-Follows : (s : Text) → Follows b'`' s
backtick-Follows [] = refl
backtick-Follows (d ∷ s) = refl
