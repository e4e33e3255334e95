-- ===== src/Gate/Snippet.antt =====
-- The statement text shown with an approval request: `&args.sql[..800]`, a slice by bytes, which panics
-- inside a character.
use sequel_ace_mcp.Prelude.{
  ℕ, ◌+◌, ◌-◌, ◌≤◌, ◌<◌, ◌≡◌, refl, Option, none, some, [], ◌∷◌, ◌++◌, arith, Text, ltb, eqb, All,
  length, ◌⊎◌, Option-cases, if◌then◌else◌, Bool-cases, inl, inr, ap, sym, ◌∙◌,
}

-- The bytes of a character in UTF-8.
unfoldable pub width : ℕ → ℕ
width c = if ltb c 0x80 then 1 else if ltb c 0x800 then 2 else if ltb c 0x10000 then 3 else 4

-- `s.len()`.
unfoldable pub byte_len : Text → ℕ
unfolding width
byte_len [] = 0
byte_len (c ∷ s) = width c + byte_len s

abbrev prepend : ℕ → Option Text → Option Text
prepend c none = none
prepend c (some s) = some (c ∷ s)

-- `&s[..n]`; `none` is the panic off a character boundary or past the end.
unfoldable pub byte_prefix : ℕ → Text → Option Text
unfolding width
byte_prefix n [] = if eqb n 0 then some [] else none
byte_prefix n (c ∷ s) =
    let rest = prepend c (byte_prefix (n - width c) s) in
    if eqb n 0 then some [] else if ltb n (width c) then none else rest

unfoldable pub snippet : Text → Option Text
unfolding byte_len byte_prefix
snippet sql =
    if ltb 800 (byte_len sql)
    then elim (byte_prefix 800 sql) [ none ↦ none | some s ↦ some (s ++ 0x2026 ∷ []) ]
    else some sql

abbrev pub IsAscii : ℕ → Type 0
IsAscii c = c < 0x80

byte_prefix-ascii :
    (n : ℕ) (s : Text) (c : ℕ) (rest : Text)
    → All IsAscii s
    → length s + 1 ≡ n
    → 0x80 ≤ c
    → byte_prefix n (s ++ c ∷ rest) ≡ none
unfolding byte_prefix width
byte_prefix-ascii n [] c rest a l k = ground arith
byte_prefix-ascii n (x ∷ s) c rest a l k =
    ground (arith, byte_prefix-ascii (n - 1) s c rest a.1 (omega arith) k)

byte_len-ascii :
    (s : Text) (c : ℕ) (rest : Text) → length s + 2 ≤ byte_len (s ++ c ∷ rest) ⊎ (c < 0x80)
unfolding byte_len width
byte_len-ascii [] c rest = ground arith
byte_len-ascii (x ∷ s) c rest = ground (arith, byte_len-ascii s c rest)

-- A statement whose first 799 characters are ASCII and whose next one is not makes the gate panic
-- where it asks for approval.
pub snippet_panics :
    (s : Text) (c : ℕ) (rest : Text)
    → All IsAscii s
    → length s ≡ 799
    → 0x80 ≤ c
    → snippet (s ++ c ∷ rest) ≡ none
unfolding snippet
snippet_panics s c rest a l k =
    ground (arith, byte_prefix-ascii 800 s c rest a (omega arith) k, byte_len-ascii s c rest)

-- A part of the text from its start, of the given size.
abbrev pub IsPart : ℕ → Text → Text → Type 0
IsPart n s t = (rest : Text) × (s ≡ t ++ rest) × (byte_len t ≡ n)

IsPart-cons :
    (n c : ℕ) (s t t2 : Text)
    → width c ≤ n
    → t2 ≡ c ∷ t
    → IsPart (n - width c) s t
    → IsPart n (c ∷ s) t2
unfolding byte_len
IsPart-cons n c s t t2 w e (rest, h, k) =
    (rest, ap (λ l. c ∷ l) h ∙ ap (λ l. l ++ rest) (sym e), ground arith)

byte_prefix-some : (n : ℕ) (s t : Text) → byte_prefix n s ≡ some t → IsPart n s t
unfolding byte_prefix byte_len
byte_prefix-some n [] [] h = ([], refl, ground arith)
byte_prefix-some n (c ∷ s) [] h = elim (Option-cases (byte_prefix (n - width c) s)) [
  | inl missing ↦ (c ∷ s, refl, ground arith)
  | inr (u, found) ↦ (c ∷ s, refl, ground arith)
]
byte_prefix-some n [] (x ∷ t) h = absurd (ground arith)
byte_prefix-some n (c ∷ s) (x ∷ t) h = elim (Option-cases (byte_prefix (n - width c) s)) [
  | inl missing ↦ absurd (ground arith)
  | inr (u, found) ↦
      IsPart-cons n c s u (x ∷ t) (ground arith) (ground arith)
        (byte_prefix-some (n - width c) s u found)
]

-- What an approval request shows is the whole statement, or an ellipsis after the first 800 bytes of
-- a longer one.
pub snippet-some :
    (sql shown : Text)
    → snippet sql ≡ some shown
    → ((shown ≡ sql) × (byte_len sql ≤ 800))
      ⊎ ((start : Text) × IsPart 800 sql start
          × (shown ≡ start ++ 0x2026 ∷ [])
          × (800 < byte_len sql))
unfolding snippet
snippet-some sql shown h = elim (Option-cases (byte_prefix 800 sql)) [
  | inl missing ↦ inl (ground arith, ground arith)
  | inr (start, found) ↦ elim (Bool-cases (ltb 800 (byte_len sql))) [
    | inl long ↦ inr (start, byte_prefix-some 800 sql start found, ground arith, ground arith)
    | inr short ↦ inl (ground arith, ground arith)
  ]
]
