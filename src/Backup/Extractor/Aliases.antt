-- ===== src/Backup/Extractor/Aliases.antt =====
-- Which tables of an UPDATE are captured.
use sequel_ace_mcp.Prelude.{
  ◌≡◌, inl, inr, refl, ap, Bool, true, false, Option, some, List, [], ◌∷◌, ◌++◌, map, Text, text,
  ◌==◌, if◌then◌else◌, any, retain, All, All-append, Any, Bool-cases,
}
use sequel_ace_mcp.Policy.Classifier.{Dialect}
use sequel_ace_mcp.Backup.Extractor.{
  BackupTable, ObjectName, nothing, rows, UpdateStatement, Source, qualified_from,
  collect_tables_with_aliases, rows_or, update_table, update_spec, eq_ignore_ascii_case,
}

-- Some qualifier is the name of the table, in any case.
abbrev pub is_qualified : List Text → Source → Bool
is_qualified names s = any (λ name. eq_ignore_ascii_case s.table name) names

retain-none :
    (p : Source → Bool) (sources : List Source)
    → All (λ s. p s ≡ false) sources
    → retain p sources ≡ []
retain-none p [] h = refl
retain-none p (s ∷ sources) h = rw h.0 (retain-none p sources h.1)

-- The names seen, with one more.
abbrev with_name : Text → List Text → List Text
with_name q seen = if any (λ r. r == q) seen then seen else seen ++ q ∷ []

module _ (sources : List Source) where
  -- No table of the statement has this name, in any case.
  abbrev IsNoTable : Text → Type 0
  IsNoTable q = All (λ s. eq_ignore_ascii_case s.table q ≡ false) sources

  -- A column behind the alias of one of the tables, which is the name of none of them.
  abbrev pub IsAliased : Option ObjectName → Type 0
  IsAliased target =
      (q : Text) × (column : Option Text) × (target ≡ some (some q ∷ column ∷ []))
      × Any (λ s. s.rendered ≡ q) sources
      × IsNoTable q

  add-IsNoTable :
      (q : Text) (seen : List Text)
      → IsNoTable q
      → All IsNoTable seen
      → All IsNoTable (with_name q seen)
  add-IsNoTable q seen n h = elim (Bool-cases (any (λ r. r == q) seen)) [
    | inl old ↦ rw old h
    | inr new ↦ rw new (All-append IsNoTable seen (q ∷ []) h (n, tt))
  ]

  qualified_from-IsNoTable :
      (seen : List Text) (targets : List (Option ObjectName))
      → All IsAliased targets
      → All IsNoTable seen
      → All IsNoTable (qualified_from seen targets)
  unfolding qualified_from
  qualified_from-IsNoTable seen [] a h = h
  qualified_from-IsNoTable seen (target ∷ targets) ((q, column, e, known, n), a) h =
      rw e (qualified_from-IsNoTable (with_name q seen) targets a (add-IsNoTable q seen n h))

-- The list has an element.
abbrev IsCons : List Text → Type 0
IsCons [] = ⊥
IsCons (x ∷ xs) = Unit

add-IsCons :
    (q : Text) (seen : List Text) (b : Bool)
    → IsCons seen
    → IsCons (if b then seen else seen ++ q ∷ [])
add-IsCons q (x ∷ seen) true h = tt
add-IsCons q (x ∷ seen) false h = tt
add-IsCons q [] b h = absurd h

qualified_from-IsCons :
    (sources : List Source) (seen : List Text) (targets : List (Option ObjectName))
    → All (IsAliased sources) targets
    → IsCons seen
    → IsCons (qualified_from seen targets)
unfolding qualified_from
qualified_from-IsCons sources seen [] a h = h
qualified_from-IsCons sources seen (target ∷ targets) ((q, column, e, known, n), a) h =
    rw e (qualified_from-IsCons sources (with_name q seen) targets a (add-IsCons q seen _ h))

qualified_from_first :
    (sources : List Source) (target : Option ObjectName) (targets : List (Option ObjectName))
    → All (IsAliased sources) (target ∷ targets)
    → IsCons (qualified_from [] (target ∷ targets))
unfolding qualified_from
qualified_from_first sources target targets ((q, column, e, known, n), a) =
    rw e (qualified_from-IsCons sources (q ∷ []) targets a tt)

All-map :
    {A : Type 0} (P Q : A → Type 0) (xs : List A) → ((x : A) → P x → Q x) → All P xs → All Q xs
All-map P Q [] f h = tt
All-map P Q (x ∷ xs) f h = (f x h.0, All-map P Q xs f h.1)

any-false : {A : Type 0} (p : A → Bool) (xs : List A) → All (λ x. p x ≡ false) xs → any p xs ≡ false
any-false p [] h = refl
any-false p (x ∷ xs) h = rw h.0 (any-false p xs h.1)

unqualified :
    (names : List Text) (sources : List Source)
    → All (IsNoTable sources) names
    → All (λ s. is_qualified names s ≡ false) sources
unqualified names [] h = tt
unqualified names (s ∷ sources) h = (
  any-false (λ name. eq_ignore_ascii_case s.table name) names (All-map _ _ names (λ q n. n.0) h),
  unqualified names sources (All-map _ _ names (λ q n. n.1) h),
)

none_qualified :
    (u : UpdateStatement) (dialect : Dialect) (names : List Text)
    → qualified_from [] u.targets ≡ names
    → IsCons names
    → All (λ s. is_qualified names s ≡ false) (collect_tables_with_aliases u.table)
    → update_spec u dialect ≡ nothing (text "no mutated tables identified in multi-table UPDATE")
unfolding update_spec
none_qualified u dialect [] e c h = absurd c
none_qualified u dialect (q ∷ qs) e c h =
    rw (e, retain-none (is_qualified (q ∷ qs)) (collect_tables_with_aliases u.table) h) refl

-- Where SET assigns only to columns behind aliases of the statement's tables, and none of these
-- aliases is, in any case, the name of a table of the statement, nothing is captured.
pub update_spec-aliased :
    (u : UpdateStatement) (dialect : Dialect) (target : Option ObjectName)
    (targets : List (Option ObjectName))
    → u.targets ≡ target ∷ targets
    → All (IsAliased (collect_tables_with_aliases u.table)) (target ∷ targets)
    → update_spec u dialect ≡ nothing (text "no mutated tables identified in multi-table UPDATE")
update_spec-aliased u dialect target targets e a =
    let sources = collect_tables_with_aliases u.table in
    none_qualified u dialect (qualified_from [] (target ∷ targets)) (ap (qualified_from []) e)
      (qualified_from_first sources target targets a)
      (unqualified _ sources (qualified_from-IsNoTable sources [] (target ∷ targets) a tt))

Any-map-retain :
    (p : Source → Bool) (f : Source → BackupTable) (P : BackupTable → Type 0) (s : Source)
    (sources : List Source)
    → P (f s)
    → p s ≡ true
    → Any (λ x. s ≡ x) sources
    → Any P (map f (retain p sources))
Any-map-retain p f P s [] h t m = absurd m
Any-map-retain p f P s (x ∷ sources) h t (inl e) = rw (← e) (rw t (inl h))
Any-map-retain p f P s (x ∷ sources) h t (inr m) = elim (Bool-cases (p x)) [
  | inl k ↦ rw k (inr (Any-map-retain p f P s sources h t m))
  | inr d ↦ rw d (Any-map-retain p f P s sources h t m)
]

rows-rows_or :
    (reason : Text) (P : BackupTable → Type 0) (ts : List BackupTable)
    → Any P ts
    → (captured : List BackupTable) × (rows_or reason ts ≡ rows captured) × Any P captured
rows-rows_or reason P [] h = absurd h
rows-rows_or reason P (t ∷ ts) h = (t ∷ ts, refl, h)

-- Each table of the statement that a qualifier in SET names is captured, by the query that
-- `update_table` writes for it.
pub update_spec-qualified :
    (u : UpdateStatement) (dialect : Dialect) (q : Text) (qs : List Text) (s : Source)
    → qualified_from [] u.targets ≡ q ∷ qs
    → Any (λ x. s ≡ x) (collect_tables_with_aliases u.table)
    → is_qualified (q ∷ qs) s ≡ true
    → (captured : List BackupTable) × (update_spec u dialect ≡ rows captured)
      × Any (λ t. t ≡ update_table u dialect (collect_tables_with_aliases u.table) s) captured
unfolding update_spec
update_spec-qualified u dialect q qs s e m t =
    let all_tables = collect_tables_with_aliases u.table in
    rw e (
      rows-rows_or _ _ _ (
        Any-map-retain (is_qualified (q ∷ qs)) (update_table u dialect all_tables) _ s all_tables
          refl t m))
