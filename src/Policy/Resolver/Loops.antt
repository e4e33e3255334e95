-- ===== src/Policy/Resolver/Loops.antt =====
-- The loops of `resolve` as one fold over the authorizations that a statement needs.
use sequel_ace_mcp.Prelude.{
  ◌≡◌, refl, sym, ◌∙◌, ap, Bool, true, false, if◌then◌else◌, Option, none, some, or_else, List, [],
  ◌∷◌, ◌++◌, arith, Text, append_assoc, append-nil,
}
use sequel_ace_mcp.Policy.Model.{SqlCategory, category_eq}
use sequel_ace_mcp.Policy.RuleKey.{TableId}
use sequel_ace_mcp.Policy.Statement.{TableRef, ClassifiedStatement}
use sequel_ace_mcp.Policy.Resolver.{
  Kind, mutated, locking_read, TableContribution, Connection, Progress, contribution, consider,
  consider_table, consider_reads, consider_mutations, DenyReason, unresolved_target,
}

-- One authorization: a category on a table, and why it is asked.
pub record Need : Type 0 where
  pub category : SqlCategory
  pub kind : Kind
  pub table : TableRef

abbrev need : SqlCategory → Kind → TableRef → Need
need c k t = record { category = c; kind = k; table = t }

-- Every table that is read needs `read`, and `write` too under a lock.
abbrev pub read_needs : Bool → List TableRef → List Need
read_needs locking [] = []
read_needs locking (t ∷ ts) =
    need SqlCategory.read Kind.read t
    ∷ (if locking
        then need SqlCategory.write locking_read t ∷ read_needs locking ts
        else read_needs locking ts)

abbrev pub mutation_needs : SqlCategory → List TableRef → List Need
mutation_needs category [] = []
mutation_needs category (t ∷ ts) = need category mutated t ∷ mutation_needs category ts

-- All that a statement needs, in the order of the statement.
abbrev pub needs : ClassifiedStatement → List Need
needs c = read_needs c.locking_read c.read_tables ++ mutation_needs c.category c.mutated_tables

module _ (conn : Connection) (fallback : Option Text) where
  unfoldable pub consider_all : List Need → Progress → Progress
  consider_all [] s = s
  consider_all (n ∷ ns) s = consider_all ns (consider conn fallback n.category n.kind n.table s)

  pub consider_all-append :
      (ms ns : List Need) (s : Progress)
      → consider_all (ms ++ ns) s ≡ consider_all ns (consider_all ms s)
  unfolding consider_all
  consider_all-append [] ns s = refl
  consider_all-append (m ∷ ms) ns s = consider_all-append ms ns _

  pub consider_reads_lem :
      (locking : Bool) (ts : List TableRef) (s : Progress)
      → consider_reads conn fallback locking ts s ≡ consider_all (read_needs locking ts) s
  unfolding consider_reads consider_all
  consider_reads_lem locking [] s = refl
  consider_reads_lem true (t ∷ ts) s = consider_reads_lem true ts _
  consider_reads_lem false (t ∷ ts) s = consider_reads_lem false ts _

  pub consider_mutations_lem :
      (c : SqlCategory) (ts : List TableRef) (s : Progress)
      → category_eq c SqlCategory.read ≡ false
      → consider_mutations conn fallback c ts s ≡ consider_all (mutation_needs c ts) s
  unfolding consider_mutations consider_all
  consider_mutations_lem c [] s h = refl
  consider_mutations_lem c (t ∷ ts) s h = rw h (consider_mutations_lem c ts _ h)

  -- The table of a need, where its database is known.
  abbrev pub established : Need → Option TableId
  established n = elim (or_else n.table.database fallback) [
    | none ↦ none
    | some db ↦ some (record { database = db; table = n.table.table })
  ]

  abbrev pub contribution_of : Need → TableId → TableContribution
  contribution_of n id = contribution conn.policy conn.table_policies n.category n.kind id

  unfoldable pub contribution_list : Need → List TableContribution
  contribution_list n = elim (established n) [ none ↦ [] | some id ↦ contribution_of n id ∷ [] ]

  -- The contributions that the needs call for, in order.
  unfoldable pub contributions_of : List Need → List TableContribution
  unfolding contribution_list
  contributions_of [] = []
  contributions_of (n ∷ ns) = contribution_list n ++ contributions_of ns

  -- The first need whose database is not known.
  unfoldable pub first_unresolved : List Need → Option DenyReason
  first_unresolved [] = none
  first_unresolved (n ∷ ns) =
      let rest = first_unresolved ns in
      elim (established n) [ none ↦ some (unresolved_target n.table.table) | some id ↦ rest ]

  contributions-consider :
      (n : Need) (s : Progress)
      → (consider conn fallback n.category n.kind n.table s).contributions
        ≡ s.contributions ++ contribution_list n
  unfolding consider consider_table contribution_list
  contributions-consider n s = ground (arith, append-nil s.contributions)

  pub contributions-consider_all :
      (ns : List Need) (s : Progress)
      → (consider_all ns s).contributions ≡ s.contributions ++ contributions_of ns
  unfolding consider_all contributions_of
  contributions-consider_all [] s = sym (append-nil _)
  contributions-consider_all (n ∷ ns) s =
      contributions-consider_all ns _
      ∙ ap (λ cs. cs ++ contributions_of ns) (contributions-consider n s)
      ∙ append_assoc s.contributions (contribution_list n) (contributions_of ns)

  pub denied-consider_all :
      (ns : List Need) (s : Progress)
      → (consider_all ns s).denied ≡ or_else s.denied (first_unresolved ns)
  unfolding consider_all consider consider_table first_unresolved
  denied-consider_all [] s = ground arith
  denied-consider_all (n ∷ ns) s =
      ground (arith, denied-consider_all ns (consider conn fallback n.category n.kind n.table s))

  -- Needs that call for nothing and are all resolved are no needs.
  pub needs-eq-nil :
      (ns : List Need) → contributions_of ns ≡ [] → first_unresolved ns ≡ none → ns ≡ []
  unfolding contributions_of first_unresolved
  needs-eq-nil [] e d = refl
  needs-eq-nil (n ∷ ns) e d = ground arith
