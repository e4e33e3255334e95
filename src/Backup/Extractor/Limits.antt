-- ===== src/Backup/Extractor/Limits.antt =====
-- src/backup/extractor.rs, `with_limit`: the bound on a query that reads what a mutation will change.
use sequel_ace_mcp.Prelude.{
  ℕ, Bool, true, false, ◌||◌, Option, none, some, List, [], ◌∷◌, ◌++◌, Text, text, ◌==◌,
  if◌then◌else◌, contains, starts_with,
}
use sequel_ace_mcp.Policy.Lexical.{to_ascii_lowercase}
use sequel_ace_mcp.Ssh.Splitting.{display}

abbrev pub prefixed : ℕ → Option Text → Option Text
prefixed c none = none
prefixed c (some s) = some (c ∷ s)

-- `s.strip_suffix(p)`.
unfoldable pub strip_suffix : Text → Text → Option Text
strip_suffix [] p = if p == [] then some [] else none
strip_suffix (c ∷ s) p =
    let rest = strip_suffix s p in if (c ∷ s) == p then some [] else prefixed c rest

abbrev is_some : Option Text → Bool
is_some none = false
is_some (some s) = true

-- `s.ends_with(p)`.
abbrev pub ends_with : Text → Text → Bool
ends_with s p = is_some (strip_suffix s p)

abbrev pub trailing_lock_suffixes : List Text
trailing_lock_suffixes =
    text " FOR UPDATE NOWAIT"
    ∷ text " FOR UPDATE SKIP LOCKED"
    ∷ text " FOR UPDATE"
    ∷ text " FOR SHARE"
    ∷ text " LOCK IN SHARE MODE"
    ∷ []

abbrev pub limited : Text → ℕ → Text → Text
limited base n lock = base ++ text " LIMIT " ++ display n ++ lock

-- What is behind the loop over the suffixes, where none was found.
abbrev pub unlocked : Text → ℕ → Option Text
unlocked select_sql n =
    let lower = to_ascii_lowercase select_sql in
    if contains lower (text " for update")
      || contains lower (text " for share")
      || contains lower (text " for key share")
      || contains lower (text " lock in share mode")
    then none
    else some (limited select_sql n [])

abbrev pub behind : Text → ℕ → List Text → Option Text
behind select_sql n [] = unlocked select_sql n
behind select_sql n (suffix ∷ suffixes) = elim (strip_suffix select_sql suffix) [
  | some base ↦ some (limited base n suffix)
  | none ↦ behind select_sql n suffixes
]

-- The text is refused.
unfoldable pub is_refused : Text → Bool
unfolding strip_suffix
is_refused select_sql =
    let lower = to_ascii_lowercase select_sql in
    if contains select_sql (text ";")
    then true
    else if contains lower (text " limit ") || ends_with lower (text " limit")
    then true
    else if contains lower (text " offset ")
    then true
    else if starts_with lower (text "with ") || contains lower (text " union ")
    then true
    else if contains select_sql (text "--") || contains select_sql (text "/*")
    then true
    else ends_with select_sql (text ")")

unfoldable pub with_limit : Text → ℕ → Option Text
unfolding strip_suffix is_refused display to_ascii_lowercase
with_limit select_sql n =
    if is_refused select_sql then none else behind select_sql n trailing_lock_suffixes
