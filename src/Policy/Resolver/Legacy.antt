-- ===== src/Policy/Resolver/Legacy.antt =====
-- src/policy/resolver.rs, `resolve_databases_legacy`: the strictest action across databases.
use sequel_ace_mcp.Prelude.{
  ◌≡◌, ◌≢◌, sym, ◌⊎◌, refl, inl, inr, false, Option, none, some, or_else, List, [], ◌∷◌, ◌++◌, Text,
  text, any, ap, arith,
}
use sequel_ace_mcp.Prelude.Sorting.{sort, insert_sorted, dedup, sort-Perm}
use mathlib.Core.List.{Perm}
use sequel_ace_mcp.Policy.Model.{SqlCategory, PolicyAction, Policy, action_for}
use sequel_ace_mcp.Policy.RuleKey.{TableId}
use sequel_ace_mcp.Policy.Resolver.{
  Kind, TableContribution, Resolution, Connection, contribution, effective_policy, governing_rule,
  stricter, option_list,
}
use sequel_ace_mcp.Policy.Resolver.Refinement.{IsStrictest, StrictestOf, StrictestOf-stricter}

-- The databases named, or the established one.
abbrev databases_or : List Text → Option Text → List Text
databases_or [] fallback = option_list fallback
databases_or (d ∷ ds) fallback = d ∷ ds

insert_sorted-ne-nil : (x : Text) (s : List Text) → insert_sorted x s ≢ []
unfolding insert_sorted
insert_sorted-ne-nil x [] h = cc
insert_sorted-ne-nil x (y ∷ s) h = ground arith

sort-databases_or :
    (ds es : List Text) (fallback : Option Text)
    → sort ds ≡ sort es
    → sort (databases_or ds fallback) ≡ sort (databases_or es fallback)
unfolding sort
sort-databases_or [] [] fallback h = refl
sort-databases_or (d ∷ ds) (e ∷ es) fallback h = h
sort-databases_or [] (e ∷ es) fallback h = absurd (insert_sorted-ne-nil e (sort es) (sym h))
sort-databases_or (d ∷ ds) [] fallback h = absurd (insert_sorted-ne-nil d (sort ds) h)

-- The variables that the loop updates.
pub record Tally : Type 0 where
  pub contributions : List TableContribution
  pub strictest : Option (PolicyAction × Policy)

abbrev every_table : Text → TableId
every_table db = record { database = db; table = text "*" }

module _ (conn : Connection) (category : SqlCategory) where
  -- The loop over the databases.
  unfoldable pub consider_databases : List Text → Tally → Tally
  unfolding contribution
  consider_databases [] s = s
  consider_databases (db ∷ dbs) s =
      let c =
        contribution conn.policy conn.table_policies category Kind.database (every_table db) in
      let effective =
        effective_policy conn.policy (governing_rule conn.table_policies (every_table db)) in
      consider_databases dbs (record {
        contributions = s.contributions ++ c ∷ [];
        strictest = stricter s.strictest c.action effective;
      })

  abbrev decided : Option (PolicyAction × Policy) → PolicyAction × Policy
  decided none = (action_for conn.policy category, conn.policy)
  decided (some r) = r

  unfoldable pub resolve_sorted : List Text → Resolution
  unfolding consider_databases
  resolve_sorted [] = record {
    action = action_for conn.policy category;
    effective = conn.policy;
    contributions = [];
    elevated = false;
    deny_reason = none;
    contributing_databases = [];
  }
  resolve_sorted (d ∷ ds) =
      let s = consider_databases (d ∷ ds) (record { contributions = []; strictest = none }) in
      let (action, effective) = decided s.strictest in
      record {
        action = action;
        effective = effective;
        contributions = s.contributions;
        elevated = any (λ c. c.elevated) s.contributions;
        deny_reason = none;
        contributing_databases = d ∷ ds;
      }

  unfoldable pub resolve_databases_legacy : List Text → Option Text → Resolution
  unfolding resolve_sorted
  resolve_databases_legacy target_databases fallback_database =
      resolve_sorted
        (dedup (sort (databases_or target_databases (or_else fallback_database conn.database))))

  StrictestOf-consider_databases :
      (dbs : List Text) (s : Tally)
      → StrictestOf conn s.contributions s.strictest
      → StrictestOf conn
          (consider_databases dbs s).contributions
          (consider_databases dbs s).strictest
  unfolding consider_databases contribution
  StrictestOf-consider_databases [] s h = h
  StrictestOf-consider_databases (db ∷ dbs) s h =
      StrictestOf-consider_databases dbs _
        (StrictestOf-stricter conn s.contributions s.strictest _ h)

  settled :
      (cs : List TableContribution) (o : Option (PolicyAction × Policy))
      → StrictestOf conn cs o
      → ((cs ≡ [])
          × ((decided o).0 ≡ action_for conn.policy category)
          × ((decided o).1 ≡ conn.policy))
        ⊎ IsStrictest conn cs (decided o).0 (decided o).1
  settled cs none h = inl (h, refl, refl)
  settled cs (some r) h = inr h

  resolve_sorted-IsStrictest :
      (dbs : List Text)
      → (((resolve_sorted dbs).contributions ≡ [])
          × ((resolve_sorted dbs).action ≡ action_for conn.policy category)
          × ((resolve_sorted dbs).effective ≡ conn.policy))
        ⊎ IsStrictest conn
            (resolve_sorted dbs).contributions
            (resolve_sorted dbs).action
            (resolve_sorted dbs).effective
  unfolding resolve_sorted
  resolve_sorted-IsStrictest [] = inl (refl, refl, refl)
  resolve_sorted-IsStrictest (d ∷ ds) =
      let s0 : Tally = record { contributions = []; strictest = none } in
      settled _ _ (StrictestOf-consider_databases (d ∷ ds) s0 refl)

  -- Either there is no contribution, and the action and the limits are the baseline's; or the action
  -- is the strictest of the contributions' actions, with the limits of one that has it.
  pub resolve_databases_legacy-IsStrictest :
      (dbs : List Text) (fallback : Option Text)
      → (((resolve_databases_legacy dbs fallback).contributions ≡ [])
          × ((resolve_databases_legacy dbs fallback).action ≡ action_for conn.policy category)
          × ((resolve_databases_legacy dbs fallback).effective ≡ conn.policy))
        ⊎ IsStrictest conn
            (resolve_databases_legacy dbs fallback).contributions
            (resolve_databases_legacy dbs fallback).action
            (resolve_databases_legacy dbs fallback).effective
  unfolding resolve_databases_legacy
  resolve_databases_legacy-IsStrictest dbs fallback =
      resolve_sorted-IsStrictest (dedup (sort (databases_or dbs (or_else fallback conn.database))))

  -- The order in which the databases are named does not matter.
  pub resolve_databases_legacy-Perm :
      (ds es : List Text) (fallback : Option Text)
      → Perm ds es
      → resolve_databases_legacy ds fallback ≡ resolve_databases_legacy es fallback
  unfolding resolve_databases_legacy
  resolve_databases_legacy-Perm ds es fallback p =
      ap (λ l. resolve_sorted (dedup l))
        (sort-databases_or ds es (or_else fallback conn.database) (sort-Perm p))
