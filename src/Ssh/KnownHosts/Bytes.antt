-- ===== src/Ssh/KnownHosts/Bytes.antt =====
-- The comparison of two keys by the bits in which they differ.
use Prim.Native.Nat.{bit_or, bit_xor, bit_or-bitwise, bit_xor-bitwise, digits, differ, max}
use sequel_ace_mcp.Prelude.{
  ℕ, zero, suc, ◌/◌, ◌%◌, ◌≤◌, ◌≡◌, ◌↔◌, refl, true, [], ◌∷◌, Text, eqb, length, arith, Bool-cases,
  inl, inr, sym, ◌∙◌,
}
use sequel_ace_mcp.Ssh.KnownHosts.{difference, same_bytes}

max-zero : (a b : ℕ) → max a b ≡ 0 → (a ≡ 0) × (b ≡ 0)
max-zero a b h = ground arith

differ-zero : (a b : ℕ) → differ a b ≡ 0 → a ≡ b
differ-zero zero b h = sym h
differ-zero (suc a) zero h = absurd (omega arith)
differ-zero (suc a) (suc b) h = omega (arith, differ-zero a b h)

differ_refl : (a : ℕ) → differ a a ≡ 0
differ_refl zero = refl
differ_refl (suc a) = differ_refl a

or_digits : (n a b : ℕ) → a ≤ n → digits (λ c. c) max n a b ≡ 0 → (a ≡ 0) × (b ≡ 0)
or_digits zero zero b h e = (refl, e)
or_digits zero (suc a) b h e = absurd (omega arith)
or_digits (suc n) zero b h e = (refl, e)
or_digits (suc n) (suc a) b h e =
    let high : digits (λ c. c) max n (suc a / 2) (b / 2) ≡ 0 = omega arith in
    let low = max-zero (suc a % 2) (b % 2) (omega arith) in
    let rest = or_digits n (suc a / 2) (b / 2) (omega arith) high in
    absurd (omega (arith, rest, low))

xor_digits : (n a b : ℕ) → a ≤ n → digits (λ c. c) differ n a b ≡ 0 → a ≡ b
xor_digits zero zero b h e = sym e
xor_digits zero (suc a) b h e = absurd (omega arith)
xor_digits (suc n) zero b h e = sym e
xor_digits (suc n) (suc a) b h e =
    let high : digits (λ c. c) differ n (suc a / 2) (b / 2) ≡ 0 = omega arith in
    let low = differ-zero (suc a % 2) (b % 2) (omega arith) in
    let rest = xor_digits n (suc a / 2) (b / 2) (omega arith) high in omega (arith, rest, low)

xor_digits_refl : (n a : ℕ) → a ≤ n → digits (λ c. c) differ n a a ≡ 0
xor_digits_refl zero zero h = refl
xor_digits_refl zero (suc a) h = absurd (omega arith)
xor_digits_refl (suc n) zero h = refl
xor_digits_refl (suc n) (suc a) h =
    omega (arith, xor_digits_refl n (suc a / 2) (omega arith), differ_refl (suc a % 2))

bit_or-zero : (a b : ℕ) → bit_or a b ≡ 0 → (a ≡ 0) × (b ≡ 0)
bit_or-zero a b h = or_digits a a b (omega arith) (sym (bit_or-bitwise a b) ∙ h)

bit_xor-zero : (a b : ℕ) → bit_xor a b ≡ 0 → a ≡ b
bit_xor-zero a b h = xor_digits a a b (omega arith) (sym (bit_xor-bitwise a b) ∙ h)

bit_xor_self : (a : ℕ) → bit_xor a a ≡ 0
bit_xor_self a = bit_xor-bitwise a a ∙ xor_digits_refl a a (omega arith)

difference-zero :
    (diff : ℕ) (key raw : Text)
    → length key ≡ length raw
    → difference diff key raw ≡ 0
    → (diff ≡ 0) × (key ≡ raw)
unfolding difference
difference-zero diff [] [] l h = (h, refl)
difference-zero diff [] (b ∷ raw) l h = absurd (omega arith)
difference-zero diff (a ∷ key) [] l h = absurd (omega arith)
difference-zero diff (a ∷ key) (b ∷ raw) l h =
    let rest = difference-zero (bit_or diff (bit_xor a b)) key raw (omega arith) h in
    let parts = bit_or-zero diff (bit_xor a b) rest.0 in
    let same = bit_xor-zero a b parts.1 in (parts.0, cc)

difference_refl : (key : Text) → difference 0 key key ≡ 0
unfolding difference
difference_refl [] = refl
difference_refl (a ∷ key) = rw (bit_xor_self a) (difference_refl key)

-- The comparison by bits is equality.
pub same_bytes_iff : (key raw : Text) → (same_bytes key raw ≡ true) ↔ (key ≡ raw)
same_bytes_iff key raw = (
  λ h. elim (Bool-cases (eqb (length key) (length raw))) [
    | inl long ↦ (difference-zero 0 key raw (ground arith) (ground arith)).1
    | inr short ↦ absurd (ground arith)
  ],
  λ e. rw e (ground (arith, difference_refl raw)),
)
