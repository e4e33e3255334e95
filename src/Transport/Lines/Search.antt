-- ===== src/Transport/Lines/Search.antt =====
-- What the search for a newline finds.
use sequel_ace_mcp.Prelude.{
  ℕ, zero, suc, ◌+◌, ◌≤◌, ◌≡◌, refl, ap, none, some, [], ◌∷◌, ◌++◌, arith, Text, eqb, length, take,
  drop, Lacks, inl, inr, Bool-cases, Option-cases, eqb_iff,
}
use native.Mathlib.Nat.{suc-add, zero-add}
use sequel_ace_mcp.Transport.Lines.{newline, position}

pub position-none : (s : Text) → position s ≡ none → Lacks newline s
unfolding position
position-none [] h = tt
position-none (c ∷ s) h = elim (Option-cases (position s)) [
  | inl missing ↦ (ground arith, position-none s missing)
  | inr (i, found) ↦ absurd (ground arith)
]

-- The first newline stands at the index found.
pub record IsFirst (i : ℕ) (s : Text) : Type 0 where
  pub free : Lacks newline (take i s)
  pub found : s ≡ take i s ++ newline ∷ drop (suc i) s
  pub line : take (suc i) s ≡ take i s ++ newline ∷ []
  pub inside : suc i ≤ length s
  pub before : length (take i s) ≡ i

pub position-some : (s : Text) (i : ℕ) → position s ≡ some i → IsFirst i s
unfolding position
position-some [] i h = absurd (cc)
position-some (c ∷ s) zero h = elim (Bool-cases (eqb c newline)) [
  | inl here ↦ record {
    free = tt;
    found = ap (λ x. x ∷ s) ((eqb_iff c newline).0 here);
    line = ap (λ x. x ∷ []) ((eqb_iff c newline).0 here);
    inside = omega arith;
    before = refl;
  }
  | inr there ↦ elim (Option-cases (position s)) [
    | inl missing ↦ absurd (ground arith)
    | inr (j, later) ↦ absurd (ground arith)
  ]
]
position-some (c ∷ s) (suc i) h = elim (Bool-cases (eqb c newline)) [
  | inl here ↦ absurd (ground arith)
  | inr there ↦ elim (Option-cases (position s)) [
    | inl missing ↦ absurd (ground arith)
    | inr (j, later) ↦
        let f = position-some s i (ground arith) in
        record {
          free = (ground arith, f.free);
          found = ap (λ l. c ∷ l) f.found;
          line = ap (λ l. c ∷ l) f.line;
          inside = omega (arith, f.inside);
          before = ap suc f.before;
        }
  ]
]

-- A prefix that was searched before, and the part behind it.
pub IsFirst-append :
    (xs s : Text) (i : ℕ) → Lacks newline xs → IsFirst i s → IsFirst (length xs + i) (xs ++ s)
IsFirst-append [] s i h f = rw (zero-add i) f
IsFirst-append (x ∷ xs) s i h f =
    let g = IsFirst-append xs s i h.1 f in
    rw (suc-add (length xs) i) (record {
      free = (h.0, g.free);
      found = ap (λ l. x ∷ l) g.found;
      line = ap (λ l. x ∷ l) g.line;
      inside = omega (arith, g.inside);
      before = ap suc g.before;
    })
