-- ===== src/Ddl/Rewrite.antt =====
-- `rewrite_drop_subset` of src/sql/ddl.rs, and how a server reads its text.
use sequel_ace_mcp.Prelude.{
  ℕ, zero, suc, ◌≤◌, ◌≡◌, refl, ap, ◌∙◌, true, false, Option, none, some, List, [], ◌∷◌, ◌++◌,
  append_assoc, append-nil, map, Text, text, if◌then◌else◌, eqb, eqb_iff, length, length-append,
  arith, Bool-cases, inl, inr, drop, starts_with,
}
use sequel_ace_mcp.Policy.Statement.{DropObject, table, view, index, other}
use sequel_ace_mcp.Approval.Canonical.{join}

-- A table's schema and name.
abbrev pub Target : Type 0
Target = Text × Text

-- `replace('`', "``")`.
unfoldable pub escape : Text → Text
escape [] = []
escape (c ∷ s) = if eqb c b'`' then b'`' ∷ b'`' ∷ escape s else c ∷ escape s

abbrev pub quoted : Target → Text
quoted (schema, name) = b'`' ∷ (escape schema ++ b'`' ∷ b'.' ∷ b'`' ∷ (escape name ++ b'`' ∷ []))

abbrev pub keyword : DropObject → Option Text
keyword table = some (text "DROP TABLE IF EXISTS")
keyword view = some (text "DROP VIEW IF EXISTS")
keyword index = none
keyword other = none

abbrev pub with_targets : Option Text → List Target → Option Text
with_targets none existing = none
with_targets (some word) [] = none
with_targets (some word) (t ∷ ts) = some (word ++ b' ' ∷ join (text ", ") (map quoted (t ∷ ts)))

unfoldable pub rewrite_drop_subset : DropObject → List Target → Option Text
unfolding escape join
rewrite_drop_subset object_type existing = with_targets (keyword object_type) existing

-- MySQL's rule for a name in backticks: two of them stand for one, and one alone ends the name. What
-- is left of the text follows.
unfoldable pub read_name : Text → Option (Text × Text)
read_name [] = none
read_name (c ∷ []) = if eqb c b'`' then some ([], []) else none
read_name (c ∷ d ∷ s) =
    let doubled = read_name s in
    let plain = read_name (d ∷ s) in
    elim (eqb c b'`') [
      | true ↦ elim (eqb d b'`') [
        | true ↦ elim doubled [ none ↦ none | some (n, rest) ↦ some (b'`' ∷ n, rest) ]
        | false ↦ some ([], d ∷ s)
      ]
      | false ↦ elim plain [ none ↦ none | some (n, rest) ↦ some (c ∷ n, rest) ]
    ]

-- Two names with a dot between them.
unfoldable pub read_target : Text → Option (Target × Text)
unfolding read_name
read_target s = elim (starts_with s (text "`")) [
  | false ↦ none
  | true ↦ elim (read_name (drop 1 s)) [
    | none ↦ none
    | some (schema, rest) ↦ elim (starts_with rest (text ".`")) [
      | false ↦ none
      | true ↦ elim (read_name (drop 2 rest)) [
        | none ↦ none
        | some (name, rest') ↦ some ((schema, name), rest')
      ]
    ]
  ]
]

-- The targets of a statement, with commas between them, as many as the fuel allows.
unfoldable pub read_targets : ℕ → Text → Option (List Target)
unfolding read_target
read_targets zero s = none
read_targets (suc fuel) s = elim (read_target s) [
  | none ↦ none
  | some (t, []) ↦ some (t ∷ [])
  | some (t, c ∷ rest) ↦ elim (starts_with (c ∷ rest) (text ", ")) [
    | false ↦ none
    | true ↦ elim (read_targets fuel (drop 1 rest)) [ none ↦ none | some ts ↦ some (t ∷ ts) ]
  ]
]

abbrev with_first : ℕ → Option (Text × Text) → Option (Text × Text)
with_first c none = none
with_first c (some (n, rest)) = some (c ∷ n, rest)

with_first-elim :
    (c : ℕ) (r : Option (Text × Text))
    → (elim r [ none ↦ none | some (n, rest) ↦ some (c ∷ n, rest) ]) ≡ with_first c r
with_first-elim c none = refl
with_first-elim c (some r) = refl

read_name-plain :
    (c : ℕ) (s : Text) → eqb c b'`' ≡ false → read_name (c ∷ s) ≡ with_first c (read_name s)
unfolding read_name
read_name-plain c [] e = rw e refl
read_name-plain c (d ∷ s) e = rw (read_name, e) (with_first-elim c (read_name (d ∷ s)))

read_name-escape :
    (n rest : Text)
    → starts_with rest (text "`") ≡ false
    → read_name (escape n ++ b'`' ∷ rest) ≡ some (n, rest)
unfolding escape read_name
read_name-escape [] [] h = refl
read_name-escape [] (d ∷ rest) h = let e : eqb d b'`' ≡ false = ground arith in rw (read_name, e)
read_name-escape (c ∷ n) rest h = elim (Bool-cases (eqb c b'`')) [
  | inl e ↦ rw (e, (eqb_iff c b'`').0 e) (rw (read_name, read_name-escape n rest h))
  | inr e ↦ rw e (
      read_name-plain c (escape n ++ b'`' ∷ rest) e ∙ ap (with_first c) (read_name-escape n rest h))
]

read_target-quoted :
    (t : Target) (rest : Text)
    → starts_with rest (text "`") ≡ false
    → read_target (quoted t ++ rest) ≡ some (t, rest)
unfolding read_target
read_target-quoted (schema, name) rest h =
    rw (append_assoc (escape schema) (b'`' ∷ b'.' ∷ b'`' ∷ (escape name ++ b'`' ∷ [])) rest) (
      rw (append_assoc (escape name) (b'`' ∷ []) rest) (
        rw (read_target, read_name-escape schema (b'.' ∷ b'`' ∷ (escape name ++ b'`' ∷ rest)) refl)
          (rw (read_name-escape name rest h) refl)))

read_targets-join :
    (fuel : ℕ) (t : Target) (ts : List Target)
    → length ts ≤ fuel
    → read_targets (suc fuel) (join (text ", ") (map quoted (t ∷ ts))) ≡ some (t ∷ ts)
unfolding read_targets join
read_targets-join fuel t [] h =
    rw (← append-nil (quoted t)) (rw (read_targets, read_target-quoted t [] refl) refl)
read_targets-join zero t (u ∷ ts) h = absurd (omega arith)
read_targets-join (suc fuel) t (u ∷ ts) h =
    let rest = join (text ", ") (map quoted (u ∷ ts)) in
    let ih = read_targets-join fuel u ts (omega arith) in
    rw (read_targets, read_target-quoted t (text ", " ++ rest) refl) (rw ih refl)

length-join_le :
    (t : Target) (ts : List Target)
    → length (t ∷ ts) ≤ length (join (text ", ") (map quoted (t ∷ ts)))
unfolding join
length-join_le t [] = omega arith
length-join_le t (u ∷ ts) = omega (
  arith,
  length-append (quoted t) (text ", " ++ join (text ", ") (map quoted (u ∷ ts))),
  length-join_le u ts,
)

-- Which object a statement drops, and which targets it names.
abbrev with_object : DropObject → Option (List Target) → Option (DropObject × List Target)
with_object o none = none
with_object o (some ts) = some (o, ts)

unfoldable pub read_statement : Text → Option (DropObject × List Target)
unfolding read_targets
read_statement s =
    if starts_with s (text "DROP TABLE IF EXISTS ")
    then with_object table (read_targets (length s) (drop 21 s))
    else if starts_with s (text "DROP VIEW IF EXISTS ")
    then with_object view (read_targets (length s) (drop 20 s))
    else none

read_targets_enough :
    (fuel : ℕ) (t : Target) (ts : List Target)
    → length (join (text ", ") (map quoted (t ∷ ts))) ≤ fuel
    → read_targets fuel (join (text ", ") (map quoted (t ∷ ts))) ≡ some (t ∷ ts)
read_targets_enough zero t ts h = absurd (omega (arith, length-join_le t ts))
read_targets_enough (suc fuel) t ts h =
    read_targets-join fuel t ts (omega (arith, length-join_le t ts))

-- The text that replaces a statement names the given kind of object and exactly the given targets,
-- in their order, whatever characters the names hold.
pub read_statement-rewrite_drop_subset :
    (object_type : DropObject) (existing : List Target) (s : Text)
    → rewrite_drop_subset object_type existing ≡ some s
    → read_statement s ≡ some (object_type, existing)
unfolding rewrite_drop_subset read_statement
read_statement-rewrite_drop_subset table [] s h = absurd (cc)
read_statement-rewrite_drop_subset table (t ∷ ts) s h =
    let rest = join (text ", ") (map quoted (t ∷ ts)) in
    let e : text "DROP TABLE IF EXISTS" ++ b' ' ∷ rest ≡ s = cc in
    rw (← e) (
      ap (with_object table) (
        read_targets_enough (length (text "DROP TABLE IF EXISTS" ++ b' ' ∷ rest)) t ts
          (omega arith)))
read_statement-rewrite_drop_subset view [] s h = absurd (cc)
read_statement-rewrite_drop_subset view (t ∷ ts) s h =
    let rest = join (text ", ") (map quoted (t ∷ ts)) in
    let e : text "DROP VIEW IF EXISTS" ++ b' ' ∷ rest ≡ s = cc in
    rw (← e) (
      ap (with_object view) (
        read_targets_enough (length (text "DROP VIEW IF EXISTS" ++ b' ' ∷ rest)) t ts
          (omega arith)))
read_statement-rewrite_drop_subset index existing s h = absurd (cc)
read_statement-rewrite_drop_subset other existing s h = absurd (cc)
