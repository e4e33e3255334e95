-- ===== src/Prelude/Splitting.antt =====
-- Text without a given character, and the one way to split at that character.
use Prim.Native.Nat.{ℕ}
use mathlib.Core.Path.{◌≡◌, refl}
use mathlib.Core.Logic.{◌≢◌}
use mathlib.Core.List.{[], ◌∷◌, ◌++◌}
use native.Mathlib.Omega.{arith}
use sequel_ace_mcp.Prelude.Lists.{All}
use sequel_ace_mcp.Prelude.Strings.{Text}

-- No character of the text is `c`.
abbrev pub Lacks : ℕ → Text → Type 0
Lacks c s = All (λ x. x ≢ c) s

-- What stands before the first `c` and what stands after it are determined by the whole.
pub split_unique :
    (c : ℕ) (a a' b b' : Text)
    → Lacks c a
    → Lacks c a'
    → a ++ c ∷ b ≡ a' ++ c ∷ b'
    → (a ≡ a') × (b ≡ b')
split_unique c [] [] b b' h k e = ground arith
split_unique c [] (y ∷ a') b b' h k e = absurd (ground (arith, k.0))
split_unique c (x ∷ a) [] b b' h k e = absurd (ground (arith, h.0))
split_unique c (x ∷ a) (y ∷ a') b b' h k e = ground (arith, split_unique c a a' b b' h.1 k.1)

pub not-Lacks-append : (c : ℕ) (a b : Text) → Lacks c (a ++ c ∷ b) → ⊥
not-Lacks-append c [] b h = h.0 refl
not-Lacks-append c (x ∷ a) b h = not-Lacks-append c a b h.1
