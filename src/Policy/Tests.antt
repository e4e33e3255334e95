-- ===== src/Policy/Tests.antt =====
-- The policy engine on small inputs.
use sequel_ace_mcp.Prelude.{ℕ, ◌≡◌, ◌↔◌, refl, inl, none, some, ◌∷◌, ◌++◌, Text, text, arith}
use sequel_ace_mcp.Prelude.Assoc.{lookup}
use sequel_ace_mcp.Policy.Model.{SqlCategory, allow, confirm}
use sequel_ace_mcp.Policy.SampleStatement.{update_orders, shop}
use sequel_ace_mcp.Policy.RuleKey.{TableId}
use sequel_ace_mcp.Policy.Resolver.{
  resolve, resolve_table_action, governing_rule, conclude, progress, consider_mutations,
  consider_reads, consider, consider_table,
}
use sequel_ace_mcp.Policy.Resolver.Rules.{Answers, governing_rule_lem}
use sequel_ace_mcp.Policy.Resolver.Refinement.{IsResolved, resolve-IsResolved}
use sequel_ace_mcp.Policy.Resolver.Safety.{RunsSilently, resolve-allow_iff}
use sequel_ace_mcp.Policy.Lexical.{strip_comments}
use sequel_ace_mcp.Policy.Lexical.Comments.{strip_comments-block}
use sequel_ace_mcp.Policy.Classifier.{
  Dialect, mysql, Parsed, Classification, ok, ClassifyError, empty_result, classify_statement,
}
use sequel_ace_mcp.Policy.Classifier
use sequel_ace_mcp.Policy.Classifier.Hidden.{savepoint_then, classify_statement-savepoint_then}

abbrev orders_id : TableId
orders_id = record { database = text "app"; table = text "orders" }

governing_rule_lem_example :
    Answers shop.table_policies orders_id (governing_rule shop.table_policies orders_id)
governing_rule_lem_example = governing_rule_lem shop.table_policies orders_id

-- The rule's `allow` over the baseline's `confirm` is confirmed, and marked.
update_orders_confirmed : (resolve shop update_orders none).action ≡ confirm
unfolding resolve conclude progress consider_mutations consider_reads consider consider_table
    resolve_table_action governing_rule lookup
update_orders_confirmed = refl

resolve-IsResolved_example :
    IsResolved shop update_orders (some (text "app")) (resolve shop update_orders none)
resolve-IsResolved_example = resolve-IsResolved shop update_orders none refl (inl refl)

resolve-allow_iff_example :
    ((resolve shop update_orders none).action ≡ allow) ↔ RunsSilently shop update_orders none
resolve-allow_iff_example = resolve-allow_iff shop update_orders none

strip_comments-block_example :
    strip_comments (text "a '" ++ b'/' ∷ b'*' ∷ (text "' b '" ++ b'*' ∷ b'/' ∷ text "'"))
    ≡ text "a '" ++ b' ' ∷ strip_comments (text "'")
strip_comments-block_example =
    strip_comments-block (text "a '") (text "' b '") (text "'") (refl, (refl, refl))
      (refl, (refl, (refl, (refl, tt))))

-- A parser that accepts nothing and a walk that is never reached.
abbrev pub no_parse : Dialect → Text → Parsed ℕ
no_parse d s = Classifier.failed (text "unexpected input")

abbrev pub no_ast : ℕ → Text → Classification
no_ast u s = Classifier.err ClassifyError.empty

classify_statement-savepoint_then_example :
    classify_statement no_parse no_ast (savepoint_then (text "; DROP TABLE t")) mysql
    ≡ ok (empty_result SqlCategory.tx_ctrl (text "transaction"))
classify_statement-savepoint_then_example =
    classify_statement-savepoint_then no_parse no_ast (text "; DROP TABLE t") mysql
      (
        refl,
        (
          refl,
          (
            refl,
            (refl, (refl, (refl, (refl, (refl, (refl, (refl, (refl, (refl, (refl, refl)))))))))),
          ),
        ),
      )
      (ground arith)
