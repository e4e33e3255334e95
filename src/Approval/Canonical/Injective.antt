-- ===== src/Approval/Canonical/Injective.antt =====
-- Where names hold none of the three separators, the filing text determines what it files.
use sequel_ace_mcp.Prelude.{
  ◌≡◌, ◌≢◌, refl, List, [], ◌∷◌, ◌++◌, map, Text, text, All, All-append, some, none, subst, sym,
  Lacks, split_unique, not-Lacks-append, arith,
}
use sequel_ace_mcp.Prelude.Sorting.{sort, All-sort, Perm_of_sort-eq}
use mathlib.Core.List.{Perm}
use mathlib.Core.List.Perm
use mathlib.Core.Path.{subst₂}
use sequel_ace_mcp.Policy.Model.{as_str}
use sequel_ace_mcp.Policy.Model.Names.{as_str-injective, Lacks-as_str}
use sequel_ace_mcp.Policy.RuleKey.{TableId, split_once}
use sequel_ace_mcp.Policy.RuleKey.Roundtrip.{split_once-append}
use sequel_ace_mcp.Approval.Canonical.{SessionGrantKey, dotted, join, canonical, separator}

-- Neither empty nor with a comma.
abbrev IsItem : Text → Type 0
IsItem s = (s ≢ []) × Lacks b',' s

join_injective :
    (xs ys : List Text)
    → All IsItem xs
    → All IsItem ys
    → join (text ",") xs ≡ join (text ",") ys
    → xs ≡ ys
unfolding join
join_injective [] [] h k e = refl
join_injective [] (y ∷ []) h k e = ground arith
join_injective [] ([] ∷ z ∷ ys) h k e = ground arith
join_injective [] ((c ∷ y) ∷ z ∷ ys) h k e = cc
join_injective (x ∷ []) [] h k e = ground arith
join_injective ([] ∷ z ∷ xs) [] h k e = ground arith
join_injective ((c ∷ x) ∷ z ∷ xs) [] h k e = cc
join_injective (x ∷ []) (y ∷ []) h k e = cc
join_injective (x ∷ []) (y ∷ z ∷ ys) h k e =
    absurd (not-Lacks-append b',' y (join (text ",") (z ∷ ys)) (subst (Lacks b',') e h.0.1))
join_injective (x ∷ w ∷ xs) (y ∷ []) h k e =
    absurd (not-Lacks-append b',' x (join (text ",") (w ∷ xs)) (subst (Lacks b',') (sym e) k.0.1))
join_injective (x ∷ w ∷ xs) (y ∷ z ∷ ys) h k e =
    let (head, tail) = split_unique b',' x y _ _ h.0.1 k.0.1 e in
    cc (head, join_injective (w ∷ xs) (z ∷ ys) h.1 k.1 tail)

-- The names hold no comma, and the database no dot.
abbrev pub IsPlainTable : TableId → Type 0
IsPlainTable t = Lacks b'.' t.database × Lacks b',' t.database × Lacks b',' t.table

dotted-ne-nil : (database table : Text) → database ++ b'.' ∷ table ≢ []
dotted-ne-nil [] table = cc
dotted-ne-nil (c ∷ database) table = cc

dotted-IsItem : (ts : List TableId) → All IsPlainTable ts → All IsItem (map dotted ts)
unfolding dotted
dotted-IsItem [] h = tt
dotted-IsItem (t ∷ ts) h = (
  (
    dotted-ne-nil t.database t.table,
    All-append _ t.database (b'.' ∷ t.table) h.0.1 (omega arith, h.0.2),
  ),
  dotted-IsItem ts h.1,
)

-- The table that a dotted name spells.
undotted : Text → TableId
undotted s = elim (split_once b'.' s) [
  | some (database, table) ↦ record { database = database; table = table }
  | none ↦ record { database = []; table = [] }
]

undotted-dotted : (ts : List TableId) → All IsPlainTable ts → map undotted (map dotted ts) ≡ ts
unfolding undotted dotted
undotted-dotted [] h = refl
undotted-dotted (t ∷ ts) h =
    ground (arith, undotted-dotted ts h.1, split_once-append b'.' t.database t.table h.0.0)

-- If no connection holds the separator, no table name a comma and no database name a comma or a
-- dot, then keys with the same filing text are for the same connection, the same category and the
-- same tables up to order.
pub canonical-inj :
    (j k : SessionGrantKey)
    → Lacks separator j.connection
    → Lacks separator k.connection
    → All IsPlainTable j.tables
    → All IsPlainTable k.tables
    → canonical j ≡ canonical k
    → (j.connection ≡ k.connection) × (j.category ≡ k.category) × Perm j.tables k.tables
unfolding canonical
canonical-inj j k hj hk pj pk e =
    let (connection, rest) = split_unique separator j.connection k.connection _ _ hj hk e in
    let (category, tables) =
      split_unique separator (as_str j.category) (as_str k.category) _ _ (Lacks-as_str j.category)
        (Lacks-as_str k.category) rest in
    let sorted =
      join_injective (sort (map dotted j.tables)) (sort (map dotted k.tables))
        (All-sort IsItem _ (dotted-IsItem j.tables pj))
        (All-sort IsItem _ (dotted-IsItem k.tables pk)) tables in
    let same = Perm.map undotted (Perm_of_sort-eq _ _ sorted) in
    (
      connection,
      as_str-injective j.category k.category category,
      subst₂ Perm (undotted-dotted j.tables pj) (undotted-dotted k.tables pk) same,
    )
