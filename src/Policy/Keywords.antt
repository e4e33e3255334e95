-- ===== src/Policy/Keywords.antt =====
-- src/policy/classifier.rs: the statements that are classified by their words, before any parsing.
use sequel_ace_mcp.Prelude.{
  ℕ, Bool, true, false, ◌&&◌, ◌||◌, not, Option, none, some, List, [], ◌∷◌, ◌++◌, Text, text, ◌==◌,
  eqb, leb, if◌then◌else◌, any, starts_with,
}
use sequel_ace_mcp.Prelude.Sorting.{set_insert}
use sequel_ace_mcp.Policy.Model.{SqlCategory}
use sequel_ace_mcp.Policy.Lexical.{is_whitespace, trim_start, to_ascii_lowercase}

-- `s.strip_prefix(p)`.
unfoldable pub strip_prefix : Text → Text → Option Text
strip_prefix s [] = some s
strip_prefix [] (p ∷ ps) = none
strip_prefix (c ∷ s) (p ∷ ps) = let rest = strip_prefix s ps in if eqb c p then rest else none

-- `s.split_whitespace().next()` of a text with no leading whitespace.
unfoldable pub first_word : Text → Text
unfolding is_whitespace
first_word [] = []
first_word (c ∷ s) = let rest = first_word s in if is_whitespace c then [] else c ∷ rest

-- The end of the text or whitespace.
abbrev at_boundary : Text → Bool
at_boundary [] = true
at_boundary (c ∷ s) = is_whitespace c

-- It is asked only of a prefix that the text has.
unfoldable pub word_bounded : Text → Text → Bool
unfolding strip_prefix is_whitespace
word_bounded lower prefix = elim (strip_prefix lower prefix) [
  | none ↦ false
  | some rest ↦ at_boundary rest
]

abbrev tx_starts : List Text
tx_starts =
    text "begin"
    ∷ text "commit"
    ∷ text "rollback"
    ∷ text "start transaction"
    ∷ text "savepoint"
    ∷ text "release savepoint"
    ∷ []

unfoldable pub is_tx_keyword : Text → Bool
unfolding trim_start to_ascii_lowercase first_word word_bounded
is_tx_keyword stripped =
    let lower = to_ascii_lowercase (trim_start stripped) in
    let first = first_word lower in
    not (first == [])
    && (any (λ s. starts_with lower s && word_bounded lower s) tx_starts
        && (first == text "begin"
            || (first == text "commit"
                || (first == text "rollback"
                    || (starts_with lower (text "start transaction")
                        || (starts_with lower (text "savepoint")
                            || starts_with lower (text "release savepoint")))))))

-- `PREFIXES` of `is_admin_keyword`.
abbrev admin_prefixes : List Text
admin_prefixes =
    text "grant "
    ∷ text "revoke "
    ∷ text "set global"
    ∷ text "set persist"
    ∷ text "set persist_only"
    ∷ text "set @@global"
    ∷ text "set @@persist"
    ∷ text "kill "
    ∷ text "flush"
    ∷ text "reset master"
    ∷ text "reset slave"
    ∷ text "reset replica"
    ∷ text "lock tables"
    ∷ text "unlock tables"
    ∷ text "load data"
    ∷ text "handler "
    ∷ text "do "
    ∷ text "change master"
    ∷ text "change replication"
    ∷ text "start slave"
    ∷ text "stop slave"
    ∷ text "start replica"
    ∷ text "stop replica"
    ∷ text "optimize table"
    ∷ text "repair table"
    ∷ text "analyze table"
    ∷ text "check table"
    ∷ text "create user"
    ∷ text "alter user"
    ∷ text "drop user"
    ∷ text "rename user"
    ∷ text "set password"
    ∷ text "attach database"
    ∷ text "detach database"
    ∷ text "vacuum"
    ∷ text "reindex"
    ∷ []

unfoldable pub is_admin_keyword : Text → Bool
unfolding trim_start to_ascii_lowercase
is_admin_keyword stripped =
    let lower = to_ascii_lowercase (trim_start stripped) in any (starts_with lower) admin_prefixes

abbrev pub read_only_pragmas : List Text
read_only_pragmas =
    text "application_id"
    ∷ text "collation_list"
    ∷ text "compile_options"
    ∷ text "database_list"
    ∷ text "foreign_key_check"
    ∷ text "foreign_key_list"
    ∷ text "freelist_count"
    ∷ text "function_list"
    ∷ text "index_info"
    ∷ text "index_list"
    ∷ text "index_xinfo"
    ∷ text "integrity_check"
    ∷ text "module_list"
    ∷ text "page_count"
    ∷ text "page_size"
    ∷ text "quick_check"
    ∷ text "schema_version"
    ∷ text "table_info"
    ∷ text "table_list"
    ∷ text "table_xinfo"
    ∷ text "user_version"
    ∷ text "pragma_list"
    ∷ []

abbrev pub is_digit : ℕ → Bool
is_digit c = leb b'0' c && leb c b'9'

-- `is_ascii_alphabetic` and `is_ascii_alphanumeric`.
abbrev pub is_alphabetic : ℕ → Bool
is_alphabetic c = (leb b'a' c && leb c b'z') || (leb b'A' c && leb c b'Z')

abbrev pub is_alphanumeric : ℕ → Bool
is_alphanumeric c = is_alphabetic c || is_digit c

-- What follows the first dot, or the whole text.
abbrev after_dot : Text → Text → Text
after_dot whole [] = whole
after_dot whole (c ∷ s) = if eqb c b'.' then s else after_dot whole s

abbrev pub starts_with_char : ℕ → Text → Bool
starts_with_char q [] = false
starts_with_char q (c ∷ s) = eqb c q

-- `take_while` of a pragma's name.
unfoldable pub pragma_name : Text → Text
pragma_name [] = []
pragma_name (c ∷ s) =
    let rest = pragma_name s in if is_alphanumeric c || eqb c b'_' then c ∷ rest else []

-- The optional schema qualifier.
abbrev unqualified : Text → Text
unqualified rest =
    if starts_with_char b'\'' rest || (starts_with_char b'"' rest || starts_with_char b'[' rest)
    then rest
    else after_dot rest rest

abbrev pragma_category : Text → Text → Option SqlCategory
pragma_category stripped name =
    if name == []
    then none
    else if any (λ c. eqb c b'=') stripped || not (any (λ p. p == name) read_only_pragmas)
    then some SqlCategory.admin
    else some SqlCategory.read

unfoldable pub classify_sqlite_pragma : Text → Option SqlCategory
unfolding trim_start to_ascii_lowercase strip_prefix pragma_name
classify_sqlite_pragma stripped =
    elim (strip_prefix (to_ascii_lowercase (trim_start stripped)) (text "pragma ")) [
      | none ↦ none
      | some rest ↦ pragma_category stripped (pragma_name (unqualified (trim_start rest)))
    ]

-- `chars.peek()` may start an identifier.
abbrev may_start : Text → Bool
may_start [] = false
may_start (c ∷ s) = is_alphabetic c || (eqb c b'_' || eqb c b'`')

-- Where the scan of `collect_qualified_databases` stands.
pub data Region : Type 0 where
  quoted : ℕ → Region
  plain : (word : Text) → Region

abbrev next_region : Text → ℕ → Region
next_region word c =
    if eqb c b'\'' || (eqb c b'"' || eqb c b'`')
    then quoted c
    else if is_alphanumeric c || (eqb c b'_' || eqb c b'$')
    then plain (word ++ c ∷ [])
    else plain []

-- Its loops. A backslash hides the next character within single quotes only; a word is reported
-- where a dot and the start of an identifier follow it.
unfoldable pub collect_from : Region → List Text → Text → List Text
unfolding set_insert
collect_from _ out [] = out
collect_from (quoted q) out (c ∷ []) = out
collect_from (quoted q) out (c ∷ d ∷ s) =
    let escaped = collect_from (quoted q) out s in
    let next = collect_from (if eqb c q then plain [] else quoted q) out (d ∷ s) in
    if eqb c b'\\' && eqb q b'\'' then escaped else next
collect_from (plain word) out (c ∷ s) =
    collect_from (next_region word c)
      (if not (word == []) && (eqb c b'.' && may_start s) then set_insert word out else out) s

unfoldable pub collect_qualified_databases : Text → List Text
unfolding collect_from
collect_qualified_databases stripped = collect_from (plain []) [] stripped
