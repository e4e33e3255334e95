-- ===== src/Prelude/Assoc.antt =====
-- Maps as association lists: Rust's `HashMap` and `BTreeMap`, whose order the program does not read
-- where these are used. A key stands at most once (`HasUniqueKeys`).
use mathlib.Core.Path.{◌≡◌, refl, subst₂}
use mathlib.Core.Logic.{◌↔◌, inl, inr}
use mathlib.Core.Bool.{Bool, true}
use mathlib.Core.Option.{Option, none, some}
use mathlib.Core.List.{List, [], ◌∷◌}
use native.Mathlib.Omega.{arith}
use sequel_ace_mcp.Prelude.Tests.{Bool-cases, if◌then◌else◌}
use sequel_ace_mcp.Prelude.Lists.{All}
use sequel_ace_mcp.Prelude.Strings.{Text, ◌==◌, eq_iff}

-- Rust's `Eq`.
pub record Eq {ℓ} (A : Type ℓ) : Type ℓ where
  pub beq : A → A → Bool
  pub beq_iff : (a b : A) → (beq a b ≡ true) ↔ (a ≡ b)

instance abbrev pub text_eq : Eq Text
text_eq = record { beq = ◌==◌; beq_iff = eq_iff }

abbrev pub Assoc {ℓ κ} : Type ℓ → Type κ → Type (ℓ ⊔ κ)
Assoc K V = List (K × V)

pub beq_refl {ℓ} : {K : Type ℓ} ⦃e : Eq K⦄ (k : K) → e.beq k k ≡ true
beq_refl ⦃e⦄ k = (e.beq_iff k k).1 refl

module _ {ℓ κ} {K : Type ℓ} ⦃eq : Eq K⦄ {V : Type κ} where
  -- `map.get(k)`.
  unfoldable pub lookup : K → Assoc K V → Option V
  lookup k [] = none
  lookup k ((j, v) ∷ m) = if eq.beq j k then some v else lookup k m

  -- `map.remove(k)`.
  unfoldable pub remove : K → Assoc K V → Assoc K V
  remove k [] = []
  remove k ((j, v) ∷ m) = let rest = remove k m in if eq.beq j k then rest else (j, v) ∷ rest

  -- `map.insert(k, v)`.
  unfoldable pub insert : K → V → Assoc K V → Assoc K V
  unfolding remove
  insert k v m = (k, v) ∷ remove k m

  pub lookup-remove :
      (k j : K) (m : Assoc K V) → lookup j (remove k m) ≡ (if eq.beq k j then none else lookup j m)
  unfolding lookup remove
  lookup-remove k j [] = ground arith
  lookup-remove k j ((i, v) ∷ m) =
      ground (arith, lookup-remove k j m, eq.beq_iff i k, eq.beq_iff i j, eq.beq_iff k j)

  pub lookup-insert :
      (k j : K) (v : V) (m : Assoc K V)
      → lookup j (insert k v m) ≡ (if eq.beq k j then some v else lookup j m)
  lookup-insert k j v m = unfold insert lookup in ground (arith, lookup-remove k j m)

  pub lookup-remove_self : (k : K) (m : Assoc K V) → lookup k (remove k m) ≡ none
  lookup-remove_self k m = ground (arith, lookup-remove k k m, beq_refl k)

  pub lookup-insert_self : (k : K) (v : V) (m : Assoc K V) → lookup k (insert k v m) ≡ some v
  lookup-insert_self k v m = ground (arith, lookup-insert k k v m, beq_refl k)

  -- What holds of every entry.
  module _ (P : K × V → Type 0) where
    pub All-remove : (k : K) (m : Assoc K V) → All P m → All P (remove k m)
    unfolding remove
    All-remove k [] h = tt
    All-remove k ((j, v) ∷ m) h = ground (arith, All-remove k m h.1)

    pub All-insert : (k : K) (v : V) (m : Assoc K V) → P (k, v) → All P m → All P (insert k v m)
    unfolding insert
    All-insert k v m p h = (p, All-remove k m h)

    pub All-lookup : (k : K) (m : Assoc K V) (v : V) → lookup k m ≡ some v → All P m → P (k, v)
    unfolding lookup
    All-lookup k [] v e h = cc
    All-lookup k ((j, w) ∷ m) v e h = elim (Bool-cases (eq.beq j k)) [
      | inl same ↦
          let key : j ≡ k = (eq.beq_iff j k).0 same in
          let value : w ≡ v = ground arith in subst₂ (λ a b. P (a, b)) key value h.0
      | inr other ↦ All-lookup k m v (rw (other, lookup) at e) h.1
    ]
