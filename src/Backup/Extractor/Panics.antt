-- ===== src/Backup/Extractor/Panics.antt =====
-- Where an INSERT or a REPLACE has a row that is too short for the column of its key.
use sequel_ace_mcp.Prelude.{
  ℕ, zero, suc, ◌≤◌, ◌≡◌, ◌↔◌, ◌⊎◌, inl, inr, refl, ap, true, Option, none, some, List, [], ◌∷◌,
  map, Text, length, Any, unwrap_or, arith,
}
use sequel_ace_mcp.Policy.Classifier.{Dialect}
use sequel_ace_mcp.Backup.Json.{Json}
use sequel_ace_mcp.Backup.Extractor.{ObjectName, object_parts}
use sequel_ace_mcp.Backup.Extractor.Specs.{
  Literal, InsertStatement, insert, guess_pk_column, column_names, row_at, prepend, column_values,
  literal_json, literal_rows, replace_rows, replace_spec, hint_values, insert_spec,
}

row_at-none : {A : Type 0} (i : ℕ) (row : List A) → (row_at i row ≡ none) ↔ (length row ≤ i)
row_at-none i [] = (λ e. omega arith, λ h. refl)
row_at-none zero (v ∷ vs) = (λ e. absurd (ground arith), λ h. absurd (omega arith))
row_at-none (suc i) (v ∷ vs) =
    let (to, from) = row_at-none i vs in (λ e. omega (arith, to e), λ h. from (omega arith))

prepend-none :
    {A : Type 0} (v : Option A) (vs : Option (List A))
    → (prepend v vs ≡ none) ↔ ((v ≡ none) ⊎ (vs ≡ none))
prepend-none none vs = (λ e. inl refl, λ h. refl)
prepend-none (some v) none = (λ e. inr refl, λ h. refl)
prepend-none (some v) (some vs) = (
  λ e. absurd (ground arith),
  λ h. elim h [ inl e ↦ absurd (ground arith) | inr e ↦ absurd (ground arith) ],
)

column_values-none :
    {A : Type 0} (i : ℕ) (all_rows : List (List A))
    → (column_values i all_rows ≡ none) ↔ Any (λ row. length row ≤ i) all_rows
unfolding column_values
column_values-none i [] = (λ e. absurd (ground arith), λ h. absurd h)
column_values-none i (row ∷ all_rows) =
    let (split, join) = prepend-none (row_at i row) (column_values i all_rows) in
    let (short, is_short) = row_at-none i row in
    let (later, is_later) = column_values-none i all_rows in
    (
      λ e. elim (split e) [ inl a ↦ inl (short a) | inr b ↦ inr (later b) ],
      λ h. elim h [ inl a ↦ join (inl (is_short a)) | inr b ↦ join (inr (is_later b)) ],
    )

length-map : {A B : Type 0} (f : A → B) (xs : List A) → length (map f xs) ≡ length xs
length-map f [] = refl
length-map f (x ∷ xs) = ap suc (length-map f xs)

short-map :
    {A B : Type 0} (f : A → B) (i : ℕ) (all_rows : List (List A))
    → Any (λ row. length row ≤ i) (map (λ row. map f row) all_rows)
      ↔ Any (λ row. length row ≤ i) all_rows
short-map f i [] = (λ h. h, λ h. h)
short-map f i (row ∷ all_rows) =
    let (to, from) = short-map f i all_rows in
    let same = length-map f row in
    (
      λ h. elim h [ inl a ↦ inl (omega arith) | inr b ↦ inr (to b) ],
      λ h. elim h [ inl a ↦ inl (omega arith) | inr b ↦ inr (from b) ],
    )

module _ (parse_number : Text → Option Text) (to_string : Json → Text) (ins : InsertStatement)
    (name : ObjectName) (i : ℕ) (row : List Literal) (all_rows : List (List Literal))
    (named : ins.table ≡ some name) (keyed : guess_pk_column (column_names ins.columns) ≡ some i)
    (listed : ins.values ≡ some (row ∷ all_rows)) where
  rows_listed :
      literal_rows parse_number to_string ins
      ≡ some (map (λ r. map (literal_json parse_number to_string) r) (row ∷ all_rows))
  unfolding literal_rows
  rows_listed = rw listed refl

  hint_values-none :
      (t : Option Text × Text) (columns : List Text) (values : Option (List Json))
      → (hint_values parse_number to_string t columns values ≡ none) ↔ (values ≡ none)
  hint_values-none t columns none = (λ e. refl, λ e. refl)
  hint_values-none t columns (some values) =
      (λ e. absurd (ground arith), λ e. absurd (ground arith))

  replace_rows-none :
      (t : Option Text × Text) (column : Text) (dialect : Dialect) (values : Option (List Json))
      → (replace_rows parse_number to_string t column dialect values ≡ none) ↔ (values ≡ none)
  replace_rows-none t column dialect none = (λ e. refl, λ e. refl)
  replace_rows-none t column dialect (some values) =
      (λ e. absurd (ground arith), λ e. absurd (ground arith))

  abbrev values_in : List (List Json)
  values_in = map (λ r. map (literal_json parse_number to_string) r) (row ∷ all_rows)

  insert_spec_eq :
      insert_spec parse_number to_string (insert ins)
      ≡ hint_values parse_number to_string
          (object_parts name)
          (column_names ins.columns)
          (column_values i values_in)
  unfolding insert_spec
  insert_spec_eq = rw (named, keyed, rows_listed) refl

  replace_spec_eq :
      (dialect : Dialect)
      → ins.replace_into ≡ true
      → replace_spec parse_number to_string (insert ins) dialect
        ≡ replace_rows parse_number to_string
            (object_parts name)
            (unwrap_or (row_at i (column_names ins.columns)) [])
            dialect
            (column_values i values_in)
  unfolding replace_spec
  replace_spec_eq dialect into = rw (into, named, keyed, rows_listed) refl

  -- For an INSERT of rows into columns with a guessed key, the extraction panics exactly if some row
  -- ends before the key's column.
  pub insert_spec-none :
      (insert_spec parse_number to_string (insert ins) ≡ none)
      ↔ Any (λ r. length r ≤ i) (row ∷ all_rows)
  insert_spec-none =
      let (to, from) =
        hint_values-none (object_parts name) (column_names ins.columns)
          (column_values i values_in) in
      let (short, is_short) = column_values-none i values_in in
      let (there, back) = short-map (literal_json parse_number to_string) i (row ∷ all_rows) in
      rw insert_spec_eq ((λ e. there (short (to e)), λ h. from (is_short (back h))))

  -- Where a REPLACE INTO of listed rows names its table and columns, and a key's column is guessed
  -- among these, the extraction panics exactly if some row ends before that column.
  pub replace_spec-none :
      (dialect : Dialect)
      → ins.replace_into ≡ true
      → (replace_spec parse_number to_string (insert ins) dialect ≡ none)
        ↔ Any (λ r. length r ≤ i) (row ∷ all_rows)
  replace_spec-none dialect into =
      let (to, from) =
        replace_rows-none (object_parts name) (unwrap_or (row_at i (column_names ins.columns)) [])
          dialect (column_values i values_in) in
      let (short, is_short) = column_values-none i values_in in
      let (there, back) = short-map (literal_json parse_number to_string) i (row ∷ all_rows) in
      rw (replace_spec_eq dialect into) ((λ e. there (short (to e)), λ h. from (is_short (back h))))
