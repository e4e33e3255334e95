-- ===== src/Ddl/Tests.antt =====
-- DDL on small inputs.
use sequel_ace_mcp.Prelude.{
  ◌≤◌, ◌≡◌, refl, subst, Bool, true, false, ◌||◌, some, none, List, [], ◌∷◌, Text, text, arith, map,
}
use sequel_ace_mcp.Policy.Model.{SqlCategory}
use sequel_ace_mcp.Policy.Statement.{ClassifiedStatement, table}
use sequel_ace_mcp.Policy.SampleStatement.{update_orders}
use sequel_ace_mcp.Ddl.Rewrite.{
  Target, rewrite_drop_subset, read_statement, read_statement-rewrite_drop_subset,
}
use sequel_ace_mcp.Ddl.Preflight.{
  present, no_source, Result, ok, err, target_eq, renames, chunks, preflight_ddl,
}
use sequel_ace_mcp.Ddl.Chain.{mentions, chain, target_eq_iff}
use sequel_ace_mcp.Ddl.Renames.{preflight_ddl-chain}
use sequel_ace_mcp.Ddl.Stale.{qualified, both_qualified, renames_stale}
use sequel_ace_mcp.Ddl.Plan.{approved_ddl, run_ddl}
use sequel_ace_mcp.Ddl.Plan.Gap.{Drops, Exists, run_ddl-approved}

abbrev in_shop : Text → Target
in_shop name = (text "shop", name)

abbrev first : Target
first = in_shop (text "a")

abbrev second : Target
second = in_shop (text "b")

abbrev spare : Target
spare = in_shop (text "t")

abbrev renamed : Target
renamed = in_shop (text "c")

-- What exists: two tables, and how the server answers.
abbrev both_exist : Target → Bool
both_exist u = target_eq u first || target_eq u second

abbrev first_exists : Target → Bool
first_exists u = target_eq u first

abbrev answer : (Target → Bool) → Target → Result Bool
answer exists u = ok (exists u)

read_statement-rewrite_drop_subset_example :
    read_statement (text "DROP TABLE IF EXISTS `shop`.`a``b`")
    ≡ some (table, in_shop (text "a`b") ∷ [])
unfolding rewrite_drop_subset
read_statement-rewrite_drop_subset_example =
    read_statement-rewrite_drop_subset table (in_shop (text "a`b") ∷ [])
      (text "DROP TABLE IF EXISTS `shop`.`a``b`") refl

-- Two tables change places.
abbrev swap : List (Target × Target)
swap = (first, spare) ∷ (second, first) ∷ (spare, second) ∷ []

abbrev swap_statement : ClassifiedStatement
swap_statement = record update_orders {
  category = SqlCategory.ddl;
  ast_type = text "rename";
  mutated_tables =
      qualified first
      ∷ qualified spare
      ∷ qualified second
      ∷ qualified first
      ∷ qualified spare
      ∷ qualified second
      ∷ [];
}

mentions-swap_other :
    (u : Target) (x y z : Bool)
    → target_eq first u ≡ x
    → target_eq second u ≡ y
    → target_eq spare u ≡ z
    → mentions u swap ≤ 2
mentions-swap_other u true y z p q r =
    subst (λ v. mentions v swap ≤ 2) ((target_eq_iff first u).0 p) (omega arith)
mentions-swap_other u false true z p q r =
    subst (λ v. mentions v swap ≤ 2) ((target_eq_iff second u).0 q) (omega arith)
mentions-swap_other u false false true p q r =
    subst (λ v. mentions v swap ≤ 2) ((target_eq_iff spare u).0 r) (omega arith)
mentions-swap_other u false false false p q r = rw (p, q, r) (omega arith)

preflight_ddl-chain_example :
    preflight_ddl (answer both_exist) none swap_statement ≡ chain both_exist swap
unfolding chunks
preflight_ddl-chain_example =
    preflight_ddl-chain (answer both_exist) both_exist (λ u. refl) none swap_statement
      (map both_qualified swap) swap refl refl refl refl
      (λ u.
        mentions-swap_other u (target_eq first u) (target_eq second u) (target_eq spare u) refl refl
          refl)

renames_stale_example :
    (renames
        (answer both_exist)
        none
        []
        (map both_qualified ((first, spare) ∷ (second, first) ∷ (first, renamed) ∷ []))
      ≡ err (no_source first))
    × (chain both_exist ((first, spare) ∷ (second, first) ∷ (first, renamed) ∷ []) ≡ ok present)
renames_stale_example =
    renames_stale (answer both_exist) both_exist (λ u. refl) none first second spare renamed
      (
        λ e. cc ((target_eq_iff first second).1 e),
        λ e. cc ((target_eq_iff first spare).1 e),
        λ e. cc ((target_eq_iff first renamed).1 e),
        λ e. cc ((target_eq_iff second spare).1 e),
        λ e. cc ((target_eq_iff second renamed).1 e),
        λ e. cc ((target_eq_iff spare renamed).1 e),
      )
      refl refl refl refl

-- Both exist when the statement is planned, and the first when it is sent.
abbrev drop_both : ClassifiedStatement
drop_both = record update_orders {
  category = SqlCategory.ddl;
  ast_type = text "drop";
  mutated_tables = qualified first ∷ qualified second ∷ [];
  if_exists = true;
  drop_object_type = some table;
}

run_ddl-approved_example :
    (targets : List Target) × Drops drop_both none
      (some (text "DROP TABLE IF EXISTS `shop`.`a`"))
      targets
    × Exists both_exist targets
    × Exists first_exists targets
unfolding approved_ddl preflight_ddl run_ddl rewrite_drop_subset
run_ddl-approved_example =
    run_ddl-approved both_exist first_exists (answer both_exist) (answer first_exists) (λ u. refl)
      (λ u. refl) none drop_both (first ∷ second ∷ []) refl refl (λ e. cc, (λ e. cc, tt)) refl
      (some (text "DROP TABLE IF EXISTS `shop`.`a`")) (first ∷ []) (second ∷ []) refl
