-- ===== src/Prelude/Strings.antt =====
-- Text as a list of Unicode code points (Rust's `chars`); bytes are lists of numbers below 256.
use Prim.Native.Char.{code}
use Prim.Native.String.{String}
use Prim.Native.Nat.{ℕ, zero, suc}
use mathlib.Core.Path.{◌≡◌, refl}
use mathlib.Core.Logic.{◌↔◌}
use mathlib.Core.Bool.{Bool, true, false, ◌&&◌, ◌||◌}
use mathlib.Core.List.{List, [], ◌∷◌}
use native.Mathlib.Omega.{arith}
use sequel_ace_mcp.Prelude.Tests.{eqb, ltb}

abbrev pub Text : Type 0
Text = List ℕ

-- The code points of a literal.
abbrev pub text : String → Text
text String.[] = []
text (String.◌∷◌ c s) = code c ∷ text s

infix 50 ◌==◌
abbrev pub ◌==◌ : Text → Text → Bool
[] == [] = true
[] == (y ∷ ys) = false
(x ∷ xs) == [] = false
(x ∷ xs) == (y ∷ ys) = eqb x y && xs == ys

pub eq_refl : (s : Text) → (s == s) ≡ true
eq_refl [] = refl
eq_refl (x ∷ xs) = ground (arith, eq_refl xs)

pub eq_of_eq_true : (s t : Text) → (s == t) ≡ true → s ≡ t
eq_of_eq_true [] [] h = refl
eq_of_eq_true [] (y ∷ ys) h = cc
eq_of_eq_true (x ∷ xs) [] h = cc
eq_of_eq_true (x ∷ xs) (y ∷ ys) h = ground (arith, eq_of_eq_true xs ys)

pub eq_iff : (s t : Text) → ((s == t) ≡ true) ↔ (s ≡ t)
eq_iff s t = (eq_of_eq_true s t, λ e. ground (arith, eq_refl s))

-- The order of Rust's `str`: by bytes, which for UTF-8 is by code points.
abbrev pub text_leb : Text → Text → Bool
text_leb [] t = true
text_leb (x ∷ xs) [] = false
text_leb (x ∷ xs) (y ∷ ys) = ltb x y || (eqb x y && text_leb xs ys)

abbrev pub starts_with : Text → Text → Bool
starts_with s [] = true
starts_with [] (p ∷ ps) = false
starts_with (c ∷ s) (p ∷ ps) = eqb c p && starts_with s ps

-- `s.contains(p)`.
abbrev pub contains : Text → Text → Bool
contains [] p = starts_with [] p
contains (c ∷ s) p = starts_with (c ∷ s) p || contains s p

-- `"0".repeat(n)`.
abbrev pub replicate_zero : ℕ → Text
replicate_zero zero = []
replicate_zero (suc n) = b'0' ∷ replicate_zero n
