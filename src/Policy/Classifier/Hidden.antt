-- ===== src/Policy/Classifier/Hidden.antt =====
-- A second statement that the scan does not see: the scan lets a backslash keep any quote open, also
-- a backtick, where MySQL and SQLite have no escapes.
use sequel_ace_mcp.Prelude.{◌≡◌, refl, true, false, none, [], ◌∷◌, ◌++◌, Text, text, Lacks, ◌==◌}
use sequel_ace_mcp.Policy.Model.{SqlCategory}
use sequel_ace_mcp.Policy.Lexical.{
  nonneg, trim, trim_start, trim_end, drop_semicolon, scan, looks_like_multiple_statements,
}
use sequel_ace_mcp.Policy.Lexical.Comments.{
  IsPlain, strip_comments-eq, IsPlain-append, backtick-Follows,
}
use sequel_ace_mcp.Policy.Lexical.Quotes.{
  scan_quoted, trim_end-append, drop_semicolon-append, Lacks-trim_end, Lacks-drop_semicolon,
}
use sequel_ace_mcp.Policy.Keywords.{is_tx_keyword, classify_sqlite_pragma}
use sequel_ace_mcp.Policy.Classifier.{
  Dialect, mysql, sqlite, Parsed, Classification, ok, empty_result, classify_statement, pragma_for,
}

-- A savepoint whose quoted name ends in a backslash, up to that backslash.
abbrev savepoint_name : Text
savepoint_name = text "SAVEPOINT `a" ++ b'\\' ∷ []

abbrev pub savepoint_then : Text → Text
savepoint_then rest = savepoint_name ++ b'`' ∷ rest

savepoint_name-IsPlain : IsPlain (savepoint_name ++ b'`' ∷ [])
savepoint_name-IsPlain = (
  refl,
  (
    refl,
    (refl, (refl, (refl, (refl, (refl, (refl, (refl, (refl, (refl, (refl, (refl, refl))))))))))),
  ),
)

IsPlain-savepoint_then : (rest : Text) → IsPlain rest → IsPlain (savepoint_then rest)
IsPlain-savepoint_then rest h =
    IsPlain-append savepoint_name rest b'`' savepoint_name-IsPlain (backtick-Follows rest) h

trimmed_savepoint :
    (rest : Text)
    → trim (drop_semicolon (trim_end (savepoint_then rest)))
      ≡ savepoint_then (trim_end (drop_semicolon (trim_end rest)))
unfolding trim trim_start
trimmed_savepoint rest = rw (trim_end-append savepoint_name rest b'`' refl) (
    rw (drop_semicolon-append savepoint_name (trim_end rest) b'`' refl)
      (rw (trim_end-append savepoint_name (drop_semicolon (trim_end rest)) b'`' refl) refl))

-- The name's closing backtick follows a backslash, so the scan takes it and all that follows for
-- quoted text.
savepoint_not_multiple :
    (rest : Text)
    → IsPlain rest
    → Lacks b'`' rest
    → looks_like_multiple_statements (savepoint_then rest) ≡ false
unfolding looks_like_multiple_statements
savepoint_not_multiple rest plain lacks =
    rw (strip_comments-eq (savepoint_then rest) (IsPlain-savepoint_then rest plain)) (
      rw (trimmed_savepoint rest) (
        unfold scan in
        scan_quoted b'`' (nonneg 0) b'`' (trim_end (drop_semicolon (trim_end rest)))
          (Lacks-trim_end b'`' _ (Lacks-drop_semicolon b'`' _ (Lacks-trim_end b'`' rest lacks)))))

savepoint_is_tx : (rest : Text) → is_tx_keyword (savepoint_then rest) ≡ true
unfolding is_tx_keyword
savepoint_is_tx rest = refl

savepoint_not_blank : (rest : Text) → (trim (savepoint_then rest) == []) ≡ false
unfolding trim trim_start
savepoint_not_blank rest = rw (trim_end-append savepoint_name rest b'`' refl) refl

not_pragma : (d : Dialect) (rest : Text) → pragma_for d (savepoint_then rest) ≡ none
unfolding classify_sqlite_pragma
not_pragma mysql rest = refl
not_pragma sqlite rest = refl

module _ {Statement : Type 0} (parse_sql : Dialect → Text → Parsed Statement)
    (classify_ast : Statement → Text → Classification) where
  -- Whatever follows SAVEPOINT `a\`, another statement behind a semicolon included, is classified
  -- with it as transaction control that names no table, as long as it holds no backtick and no
  -- comment sign, in both dialects.
  pub classify_statement-savepoint_then :
      (rest : Text) (d : Dialect)
      → IsPlain rest
      → Lacks b'`' rest
      → classify_statement parse_sql classify_ast (savepoint_then rest) d
        ≡ ok (empty_result SqlCategory.tx_ctrl (text "transaction"))
  unfolding classify_statement
  classify_statement-savepoint_then rest d plain lacks =
      let stripped = strip_comments-eq (savepoint_then rest) (IsPlain-savepoint_then rest plain) in
      rw
        (
          stripped,
          savepoint_not_blank rest,
          savepoint_not_multiple rest plain lacks,
          not_pragma d rest,
        )
        (rw (stripped, savepoint_is_tx rest) refl)
