-- ===== src/Ssh/Splitting.antt =====
-- What src/sql/known_hosts.rs uses of Rust's strings: `split`, `split_whitespace`, `find`,
-- `trim_end_matches`, and `to_string` of a `u16`.
use sequel_ace_mcp.Prelude.{
  ℕ, zero, suc, ◌+◌, ◌/◌, ◌%◌, Bool, true, false, Option, none, some, List, [], ◌∷◌, ◌++◌, Text,
  if◌then◌else◌, eqb, ltb, retain, starts_with, drop, text,
}
use sequel_ace_mcp.Policy.Lexical.{is_whitespace}

-- One more character of the first piece.
unfoldable pub push : ℕ → List Text → List Text
push x [] = (x ∷ []) ∷ []
push x (w ∷ ws) = (x ∷ w) ∷ ws

unfoldable pub split_by : (ℕ → Bool) → Text → List Text
unfolding push
split_by p [] = [] ∷ []
split_by p (x ∷ s) = if p x then [] ∷ split_by p s else push x (split_by p s)

-- `s.split(c)`.
unfoldable pub split : ℕ → Text → List Text
unfolding split_by
split c s = split_by (eqb c) s

abbrev pub is_not_empty : Text → Bool
is_not_empty [] = false
is_not_empty (c ∷ s) = true

unfoldable pub split_whitespace : Text → List Text
unfolding split_by is_whitespace
split_whitespace s = retain is_not_empty (split_by is_whitespace s)

-- `s.trim_end_matches(c)`.
unfoldable pub trim_end_matches : ℕ → Text → Text
trim_end_matches c [] = []
trim_end_matches c (x ∷ s) =
    let rest = trim_end_matches c s in
    if eqb x c then if is_not_empty rest then x ∷ rest else [] else x ∷ rest

-- What stands before and after the first `]:`, which `find` looks for.
unfoldable pub cut_close : Text → Option (Text × Text)
cut_close [] = none
cut_close (c ∷ s) = elim (starts_with (c ∷ s) (text "]:")) [
  | true ↦ some ([], drop 2 (c ∷ s))
  | false ↦ elim (cut_close s) [ none ↦ none | some (a, b) ↦ some (c ∷ a, b) ]
]

decimal_from : ℕ → ℕ → Text
decimal_from zero n = []
decimal_from (suc fuel) n =
    let rest = decimal_from fuel (n / 10) in
    if ltb n 10 then (b'0' + n) ∷ [] else rest ++ (b'0' + n % 10) ∷ []

-- A `u16` has five digits at most.
unfoldable pub decimal : ℕ → Text
unfolding decimal_from
decimal n = decimal_from 5 n

-- `to_string` of an unsigned number; it has no more digits than the number is large.
unfoldable pub display : ℕ → Text
unfolding decimal_from
display n = decimal_from (suc n) n
