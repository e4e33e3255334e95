-- ===== src/Backup/Restore/Bytes.antt =====
-- Which bytes come back from a backup: `value_to_json` and `escape_value` one after the other.
use sequel_ace_mcp.Prelude.{ℕ, ◌≡◌, false, Option, none, some, List, ◌++◌, Text, text, starts_with}
use sequel_ace_mcp.Backup.Json.{Json}
use sequel_ace_mcp.Backup.Quoting.{mysql_string}
use sequel_ace_mcp.Backup.Values.{bytes, value_to_json}
use sequel_ace_mcp.Backup.Restore.{mysql, escape_value}
use sequel_ace_mcp.Backup.Restore.Strings.{mysql_string-escape_value}

-- A column's bytes that are a text come back as that text; other bytes come back as the letters of their
-- base64 encoding.
pub mysql_string-escape_value_bytes :
    {F : Type 0} (json_of : F → Json) (from_utf8 : List ℕ → Option Text) (encode : List ℕ → Text)
    (decode : Text → Option (List ℕ)) (to_string : Json → Text) (b : List ℕ) (rest : Text)
    → starts_with rest (text "'") ≡ false
    → ((s : Text)
        → from_utf8 b ≡ some s
        → mysql_string (
            escape_value decode to_string (value_to_json json_of from_utf8 encode (bytes b)) mysql
            ++ rest)
          ≡ some (s, rest))
      × (from_utf8 b ≡ none
          → mysql_string (
              escape_value decode to_string (value_to_json json_of from_utf8 encode (bytes b)) mysql
              ++ rest)
            ≡ some (encode b, rest))
unfolding value_to_json
mysql_string-escape_value_bytes json_of from_utf8 encode decode to_string b rest h = (
  λ s e. rw e (mysql_string-escape_value decode to_string s rest h),
  λ e. rw e (mysql_string-escape_value decode to_string (encode b) rest h),
)
