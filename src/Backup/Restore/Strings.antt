-- ===== src/Backup/Restore/Strings.antt =====
-- What a server stores for a text that a restore writes.
use sequel_ace_mcp.Prelude.{
  ℕ, ◌≡◌, ◌↔◌, ◌≢◌, refl, ap, ◌∙◌, true, false, Option, some, List, [], ◌∷◌, ◌++◌, append_assoc,
  Text, text, eqb, eqb_iff, if◌then◌else◌, Bool-cases, inl, inr, starts_with, Lacks, length, ◌≤◌,
  ◌+◌, suc, arith,
}
use sequel_ace_mcp.Backup.Json.{Json, string}
use sequel_ace_mcp.Backup.Quoting.{
  before, read_mysql, read_sqlite, mysql_string, sqlite_string, escaped, read_mysql-plain,
  read_sqlite-plain, read_mysql-end, read_sqlite-end,
}
use sequel_ace_mcp.Backup.Restore.{mysql, sqlite, escape_text, quoted_text, escape_value}

-- What is read of a text that doubles the backslashes of another.
unfoldable pub doubled : Text → Text
doubled [] = []
doubled (c ∷ s) = let rest = doubled s in if eqb c b'\\' then b'\\' ∷ b'\\' ∷ rest else c ∷ rest

read_mysql-escape_text :
    (s rest : Text)
    → starts_with rest (text "'") ≡ false
    → read_mysql (escape_text s ++ b'\'' ∷ rest) ≡ some (s, rest)
unfolding escape_text read_mysql escaped
read_mysql-escape_text [] rest h = read_mysql-end rest h
read_mysql-escape_text (c ∷ s) rest h = elim (Bool-cases (eqb c b'\\')) [
  | inl e ↦
      rw (e, (eqb_iff c b'\\').0 e) (ap (before (b'\\' ∷ [])) (read_mysql-escape_text s rest h))
  | inr n ↦ elim (Bool-cases (eqb c b'\'')) [
    | inl q ↦
        rw (n, q, (eqb_iff c b'\'').0 q)
          (ap (before (b'\'' ∷ [])) (read_mysql-escape_text s rest h))
    | inr p ↦
        rw (n, p)
          (read_mysql-plain c (escape_text s ++ b'\'' ∷ rest) p n
            ∙ ap (before (c ∷ [])) (read_mysql-escape_text s rest h))
  ]
]

read_sqlite-escape_text :
    (s rest : Text)
    → starts_with rest (text "'") ≡ false
    → read_sqlite (escape_text s ++ b'\'' ∷ rest) ≡ some (doubled s, rest)
unfolding escape_text read_sqlite doubled
read_sqlite-escape_text [] rest h = read_sqlite-end rest h
read_sqlite-escape_text (c ∷ s) rest h = elim (Bool-cases (eqb c b'\\')) [
  | inl e ↦ rw e (
      read_sqlite-plain b'\\' (b'\\' ∷ escape_text s ++ b'\'' ∷ rest) refl
      ∙ ap (before (b'\\' ∷ [])) (
          read_sqlite-plain b'\\' (escape_text s ++ b'\'' ∷ rest) refl
          ∙ ap (before (b'\\' ∷ [])) (read_sqlite-escape_text s rest h)))
  | inr n ↦ elim (Bool-cases (eqb c b'\'')) [
    | inl q ↦
        rw (n, q, (eqb_iff c b'\'').0 q)
          (ap (before (b'\'' ∷ [])) (read_sqlite-escape_text s rest h))
    | inr p ↦
        rw (n, p)
          (read_sqlite-plain c (escape_text s ++ b'\'' ∷ rest) p
            ∙ ap (before (c ∷ [])) (read_sqlite-escape_text s rest h))
  ]
]

length-doubled : (s : Text) → length s ≤ length (doubled s)
unfolding doubled
length-doubled [] = omega arith
length-doubled (c ∷ s) = ground (arith, length-doubled s)

length-doubled_backslash :
    (c : ℕ) (s : Text) → eqb c b'\\' ≡ true → length (doubled (c ∷ s)) ≡ length (doubled s) + 2
unfolding doubled
length-doubled_backslash c s e = rw e (omega arith)

doubled_longer : (c : ℕ) (s : Text) → eqb c b'\\' ≡ true → doubled (c ∷ s) ≢ c ∷ s
doubled_longer c s e d =
    let same : length (doubled (c ∷ s)) ≡ suc (length s) = ap length d in
    omega (arith, length-doubled s, length-doubled_backslash c s e)

doubled_iff : (s : Text) → (doubled s ≡ s) ↔ Lacks b'\\' s
unfolding doubled
doubled_iff [] = (λ e. tt, λ h. refl)
doubled_iff (c ∷ s) = elim (Bool-cases (eqb c b'\\')) [
  | inl e ↦ (λ d. absurd (doubled_longer c s e d), λ h. absurd (h.0 ((eqb_iff c b'\\').0 e)))
  | inr n ↦ (
    λ d. (λ m. absurd (ground (arith, m)), (doubled_iff s).0 (ground arith)),
    λ h. ground (arith, (doubled_iff s).1 h.1),
  )
]

module _ (decode : Text → Option (List ℕ)) (to_string : Json → Text) where
  -- A text that a restore writes is stored by MySQL as it was, whatever it holds and whatever follows
  -- but a quote.
  pub mysql_string-escape_value :
      (s rest : Text)
      → starts_with rest (text "'") ≡ false
      → mysql_string (escape_value decode to_string (string s) mysql ++ rest) ≡ some (s, rest)
  unfolding mysql_string escape_value quoted_text
  mysql_string-escape_value s rest h =
      rw (append_assoc (escape_text s) (b'\'' ∷ []) rest) (read_mysql-escape_text s rest h)

  -- SQLite stores every text with its backslashes doubled, so it stores it unchanged exactly if it
  -- has none.
  pub sqlite_string-escape_value :
      (s rest : Text)
      → starts_with rest (text "'") ≡ false
      → (sqlite_string (escape_value decode to_string (string s) sqlite ++ rest)
          ≡ some (doubled s, rest))
        × ((doubled s ≡ s) ↔ Lacks b'\\' s)
  unfolding sqlite_string escape_value quoted_text
  sqlite_string-escape_value s rest h = (
    rw (append_assoc (escape_text s) (b'\'' ∷ []) rest) (read_sqlite-escape_text s rest h),
    doubled_iff s,
  )
