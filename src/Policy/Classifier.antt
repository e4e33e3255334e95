-- ===== src/Policy/Classifier.antt =====
-- src/policy/classifier.rs, `classify_statement`. The SQL parser is the crate sqlparser, a parameter;
-- so is `classify_ast`, the walk over that crate's syntax trees, which is not modelled.
pub mod Hidden
use sequel_ace_mcp.Prelude.{
  Bool, true, false, ◌||◌, Option, none, some, List, [], ◌∷◌, Text, text, ◌==◌, if◌then◌else◌,
  starts_with, contains,
}
use sequel_ace_mcp.Policy.Model.{SqlCategory}
use sequel_ace_mcp.Policy.Statement.{ClassifiedStatement}
use sequel_ace_mcp.Policy.Lexical.{
  trim, trim_start, to_ascii_lowercase, strip_comments, looks_like_multiple_statements,
}
use sequel_ace_mcp.Policy.Keywords.{
  is_tx_keyword, is_admin_keyword, classify_sqlite_pragma, collect_qualified_databases,
}

pub data ClassifyError : Type 0 where
  empty comment_only multiple_statements : ClassifyError
  parse : (message : Text) → ClassifyError
  unknown : (name : Text) → ClassifyError

pub data Classification : Type 0 where
  ok : ClassifiedStatement → Classification
  err : ClassifyError → Classification

pub data Dialect : Type 0 where
  mysql sqlite : Dialect

-- What `Parser::parse_sql` returns.
pub data Parsed (Statement : Type 0) : Type 0 where
  statements : List Statement → Parsed Statement
  failed : (message : Text) → Parsed Statement

unfoldable pub empty_result : SqlCategory → Text → ClassifiedStatement
empty_result category ast_type = record {
  category = category;
  ast_type = ast_type;
  target_databases = [];
  read_tables = [];
  mutated_tables = [];
  locking_read = false;
  file_io = false;
  executes_wrapped = false;
  if_exists = false;
  drop_object_type = none;
}

-- The pragma test, for SQLite only.
abbrev pub pragma_for : Dialect → Text → Option SqlCategory
pragma_for mysql stripped = none
pragma_for sqlite stripped = classify_sqlite_pragma stripped

-- The branch of the administrative keywords.
unfoldable pub admin_result : Text → ClassifiedStatement
unfolding empty_result collect_qualified_databases to_ascii_lowercase
admin_result stripped =
    let lower = to_ascii_lowercase stripped in
    record (empty_result SqlCategory.admin (text "admin-keyword")) {
      file_io =
          contains lower (text "infile")
          || (contains lower (text "outfile") || contains lower (text "dumpfile"));
      target_databases = collect_qualified_databases stripped;
    }

-- The branch of a text that the parser refuses.
unfoldable pub unparsed_result : Text → Text → Classification
unfolding empty_result collect_qualified_databases to_ascii_lowercase trim_start
unparsed_result stripped message =
    let lower = to_ascii_lowercase stripped in
    if contains lower (text "into outfile") || contains lower (text "into dumpfile")
    then ok (record (empty_result SqlCategory.read (text "select")) {
      file_io = true;
      target_databases = collect_qualified_databases stripped;
    })
    else if contains lower (text "lock in share mode")
    then ok (record (empty_result SqlCategory.read (text "select")) {
      locking_read = true;
      target_databases = collect_qualified_databases stripped;
    })
    else if starts_with (trim_start lower) (text "set ") || trim_start lower == text "set"
    then ok (empty_result SqlCategory.admin (text "set"))
    else err (parse message)

module _ {Statement : Type 0} (parse_sql : Dialect → Text → Parsed Statement)
    (classify_ast : Statement → Text → Classification) where
  abbrev parsed_result : Text → Text → Parsed Statement → Classification
  parsed_result sql stripped (failed message) = unparsed_result stripped message
  parsed_result sql stripped (statements []) = err empty
  parsed_result sql stripped (statements (s ∷ [])) = classify_ast s sql
  parsed_result sql stripped (statements (s ∷ t ∷ _)) = err multiple_statements

  unfoldable pub classify_statement : Text → Dialect → Classification
  classify_statement sql dialect =
      let stripped = strip_comments sql in
      if trim sql == []
      then err empty
      else if trim stripped == []
      then err comment_only
      else if looks_like_multiple_statements sql
      then err multiple_statements
      else elim (pragma_for dialect stripped) [
        | some category ↦ ok (empty_result category (text "pragma"))
        | none ↦
            if is_tx_keyword stripped
            then ok (empty_result SqlCategory.tx_ctrl (text "transaction"))
            else if is_admin_keyword stripped
            then ok (admin_result stripped)
            else parsed_result sql stripped (parse_sql dialect stripped)
      ]
