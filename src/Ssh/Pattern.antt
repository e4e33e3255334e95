-- ===== src/Ssh/Pattern.antt =====
-- The patterns of a host field: `matches_pattern` and `glob_match` of src/sql/known_hosts.rs.
pub mod Glob
pub mod Single
use sequel_ace_mcp.Prelude.{
  ℕ, Bool, true, false, ◌||◌, ◌&&◌, not, Option, none, some, List, [], ◌∷◌, ◌++◌, Text, text,
  if◌then◌else◌, eqb, any, ◌==◌, starts_with, drop,
}
use sequel_ace_mcp.Ssh.Splitting.{cut_close, decimal}

-- The characters that the translation escapes.
abbrev pub is_escaped : ℕ → Bool
is_escaped c = any (eqb c) (text ".+^$()[]{}\\")

abbrev pub translate_char : ℕ → Text
translate_char c =
    if eqb c b'*'
    then b'.' ∷ b'*' ∷ []
    else if eqb c b'?'
    then b'.' ∷ []
    else if is_escaped c
    then b'\\' ∷ c ∷ []
    else c ∷ []

-- The text between `^` and `$` of the expression that is built from a pattern.
unfoldable pub translate : Text → Text
translate [] = []
translate (c ∷ p) = translate_char c ++ translate p

-- The test of every suffix of a text, the empty one included.
unfoldable pub any_suffix : (Text → Bool) → Text → Bool
any_suffix f [] = f []
any_suffix f (c ∷ t) = f (c ∷ t) || any_suffix f t

abbrev pub is_head : ℕ → Text → Bool
is_head c [] = false
is_head c (d ∷ t) = eqb d c

-- `rec` of `glob_match`.
unfoldable pub glob_rec : Text → Text → Bool
unfolding any_suffix
glob_rec [] t = not (any (λ (c : ℕ). true) t)
glob_rec (c ∷ []) t = is_head c t && not (any (λ (c : ℕ). true) (drop 1 t))
glob_rec (c ∷ d ∷ p) t =
    let here = glob_rec p in
    let next = glob_rec (d ∷ p) in
    elim (eqb c b'.' && eqb d b'*') [
      | true ↦ any_suffix here t
      | false ↦ elim (eqb c b'.' && eqb d b'\\') [
        | true ↦ elim p [ [] ↦ false | e ∷ _ ↦ is_head e t && here (drop 1 t) ]
        | false ↦ elim (eqb c b'\\') [
          | true ↦ is_head d t && here (drop 1 t)
          | false ↦ is_head c t && next (drop 1 t)
        ]
      ]
    ]

unfoldable pub glob_match : Text → Text → Bool
unfolding glob_rec
glob_match p t = glob_rec p t

abbrev pub has_wildcard : Text → Bool
has_wildcard p = any (λ (c : ℕ). eqb c b'*' || eqb c b'?') p

-- The tests that follow the port's.
unfoldable pub matches_name : Text → Text → Bool
unfolding glob_match translate
matches_name p host =
    if p == host then true else if has_wildcard p then glob_match (translate p) host else false

unfoldable pub matches_bracketed : Option (Text × Text) → Text → Text → ℕ → Bool
unfolding matches_name
matches_bracketed (some (before, port_part)) p host port =
    if port_part == decimal port then matches_name (drop 1 before) host else false
matches_bracketed none p host port = matches_name p host

unfoldable pub matches_pattern : Text → Text → ℕ → Bool
unfolding matches_name matches_bracketed
matches_pattern p host port =
    if starts_with p (text "[")
    then matches_bracketed (cut_close p) p host port
    else if eqb port 22
    then matches_name p host
    else false
