-- ===== src/Backup/Extractor/Literals.antt =====
-- What MySQL reads of the literals that the query behind a REPLACE is made of.
use sequel_ace_mcp.Prelude.{
  ℕ, ◌≡◌, ◌≢◌, refl, ap, ◌∙◌, false, Option, some, [], ◌∷◌, ◌++◌, append_assoc, Text, text, eqb,
  eqb_iff, Bool-cases, inl, inr, starts_with, Lacks, arith,
}
use sequel_ace_mcp.Backup.Json.{Json, string}
use sequel_ace_mcp.Backup.Quoting.{
  before, read_mysql, mysql_string, escaped, read_mysql-plain, read_mysql-end,
}
use sequel_ace_mcp.Backup.Extractor.Specs.{double_quotes, sql_literal}

read_mysql-double_quotes :
    (s rest : Text)
    → starts_with rest (text "'") ≡ false
    → Lacks b'\\' s
    → read_mysql (double_quotes s ++ b'\'' ∷ rest) ≡ some (s, rest)
unfolding double_quotes read_mysql
read_mysql-double_quotes [] rest h l = read_mysql-end rest h
read_mysql-double_quotes (c ∷ s) rest h l = elim (Bool-cases (eqb c b'\'')) [
  | inl q ↦
      rw (q, (eqb_iff c b'\'').0 q)
        (ap (before (b'\'' ∷ [])) (read_mysql-double_quotes s rest h l.1))
  | inr p ↦ rw p (
      read_mysql-plain c (double_quotes s ++ b'\'' ∷ rest) p (ground (arith, l.0))
      ∙ ap (before (c ∷ [])) (read_mysql-double_quotes s rest h l.1))
]

module _ (parse_number : Text → Option Text) (to_string : Json → Text) where
  -- A text without a backslash is read as it is.
  pub mysql_string-sql_literal :
      (s rest : Text)
      → starts_with rest (text "'") ≡ false
      → Lacks b'\\' s
      → mysql_string (sql_literal parse_number to_string (string s) ++ rest) ≡ some (s, rest)
  unfolding mysql_string sql_literal
  mysql_string-sql_literal s rest h l =
      rw (append_assoc (double_quotes s) (b'\'' ∷ []) rest) (read_mysql-double_quotes s rest h l)

  -- Of a text that begins with a backslash and a quote MySQL reads the quote alone: what stands behind
  -- these two in the text is outside the literal, as a part of the query, unless it begins with a
  -- quote.
  pub mysql_string-sql_literal_backslash :
      (c : ℕ) (s rest : Text)
      → c ≢ b'\''
      → mysql_string (sql_literal parse_number to_string (string (b'\\' ∷ b'\'' ∷ c ∷ s)) ++ rest)
        ≡ some (b'\'' ∷ [], c ∷ (double_quotes s ++ b'\'' ∷ rest))
  unfolding mysql_string sql_literal double_quotes read_mysql escaped
  mysql_string-sql_literal_backslash c s rest n =
      let p : eqb c b'\'' ≡ false = ground arith in
      rw (p, append_assoc (double_quotes s) (b'\'' ∷ []) rest) (rw p refl)
