-- ===== src/Backup/Restore.antt =====
-- src/backup/restore.rs: the statements that bring a backup back. The base64 decoding, the JSON text
-- and the statements' execution belong to other packages.
pub mod Strings
pub mod Bytes
pub mod Plan
use sequel_ace_mcp.Prelude.{
  ℕ, ◌+◌, ◌-◌, ◌/◌, ◌%◌, Bool, true, false, ◌&&◌, Option, none, some, List, [], ◌∷◌, ◌++◌, map,
  Text, text, ◌==◌, eqb, ltb, if◌then◌else◌, unwrap_or,
}
use sequel_ace_mcp.Backup.Json.{
  Json, Fields, null, bool, number, string, array, object, get, as_str,
}

pub data RestoreDialect : Type 0 where
  mysql sqlite : RestoreDialect

-- `s.replace('\\', "\\\\").replace('\'', "''")`: both replacements look at one character.
unfoldable pub escape_text : Text → Text
escape_text [] = []
escape_text (c ∷ s) =
    let rest = escape_text s in
    if eqb c b'\\'
    then b'\\' ∷ b'\\' ∷ rest
    else if eqb c b'\''
    then b'\'' ∷ b'\'' ∷ rest
    else c ∷ rest

unfoldable pub quoted_text : Text → Text
unfolding escape_text
quoted_text s = b'\'' ∷ (escape_text s ++ b'\'' ∷ [])

-- One of sixteen.
abbrev digit : ℕ → ℕ
digit n = if ltb n 10 then b'0' + n else b'a' - 10 + n

abbrev hex : List ℕ → Text
hex [] = []
hex (b ∷ bytes) = digit (b / 16) ∷ digit (b % 16) ∷ hex bytes

abbrev blob : RestoreDialect → List ℕ → Text
blob sqlite bytes = text "X'" ++ hex bytes ++ text "'"
blob mysql bytes = text "0x" ++ hex bytes

abbrev text_at : Text → Fields → Option Text
text_at key o = elim (get key o) [ none ↦ none | some v ↦ as_str v ]

abbrev is_text : Option Text → Text → Bool
is_text none word = false
is_text (some s) word = s == word

abbrev decoded : RestoreDialect → Option (List ℕ) → Text
decoded dialect none = text "NULL"
decoded dialect (some bytes) = blob dialect bytes

module _ (decode : Text → Option (List ℕ)) (to_string : Json → Text) where
  unfoldable pub escape_value : Json → RestoreDialect → Text
  unfolding quoted_text
  escape_value null dialect = text "NULL"
  escape_value (bool b) dialect = if b then text "1" else text "0"
  escape_value (number n) dialect = n
  escape_value (string s) dialect = quoted_text s
  escape_value (object o) dialect =
      if is_text (text_at (text "type") o) (text "binary")
        && is_text (text_at (text "encoding") o) (text "base64")
      then decoded dialect (decode (unwrap_or (text_at (text "data") o) []))
      else quoted_text (to_string (object o))
  escape_value (array vs) dialect = quoted_text (to_string (array vs))
