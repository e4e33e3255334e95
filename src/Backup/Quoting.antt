-- ===== src/Backup/Quoting.antt =====
-- How the servers read a quoted string: MySQL in its default mode, where a backslash escapes the next
-- character and two quotes stand for one, and SQLite, where only two quotes do.
use sequel_ace_mcp.Prelude.{
  ℕ, ◌≡◌, refl, false, Option, none, some, [], ◌∷◌, ◌++◌, Text, text, eqb, if◌then◌else◌,
  starts_with, arith,
}

-- What was read stands before what is read next; the text behind the string is left.
abbrev pub before : Text → Option (Text × Text) → Option (Text × Text)
before read none = none
before read (some (s, rest)) = some (read ++ s, rest)

-- What a backslash and a character stand for.
unfoldable pub escaped : ℕ → Text
escaped c =
    if eqb c b'0'
    then 0 ∷ []
    else if eqb c b'b'
    then 8 ∷ []
    else if eqb c b't'
    then 9 ∷ []
    else if eqb c b'n'
    then 10 ∷ []
    else if eqb c b'r'
    then 13 ∷ []
    else if eqb c b'Z'
    then 26 ∷ []
    else if eqb c b'%'
    then b'\\' ∷ b'%' ∷ []
    else if eqb c b'_'
    then b'\\' ∷ b'_' ∷ []
    else c ∷ []

-- Behind the opening quote.
unfoldable pub read_mysql : Text → Option (Text × Text)
unfolding escaped
read_mysql [] = none
read_mysql (c ∷ []) = if eqb c b'\'' then some ([], []) else none
read_mysql (c ∷ d ∷ s) =
    let after_two = read_mysql s in
    let after_one = read_mysql (d ∷ s) in
    if eqb c b'\\'
    then before (escaped d) after_two
    else if eqb c b'\''
    then if eqb d b'\'' then before (b'\'' ∷ []) after_two else some ([], d ∷ s)
    else before (c ∷ []) after_one

unfoldable pub read_sqlite : Text → Option (Text × Text)
read_sqlite [] = none
read_sqlite (c ∷ []) = if eqb c b'\'' then some ([], []) else none
read_sqlite (c ∷ d ∷ s) =
    let after_two = read_sqlite s in
    let after_one = read_sqlite (d ∷ s) in
    if eqb c b'\''
    then if eqb d b'\'' then before (b'\'' ∷ []) after_two else some ([], d ∷ s)
    else before (c ∷ []) after_one

-- A whole string, with its opening quote.
abbrev opened : (Text → Option (Text × Text)) → Text → Option (Text × Text)
opened read [] = none
opened read (c ∷ s) = if eqb c b'\'' then read s else none

unfoldable pub mysql_string : Text → Option (Text × Text)
unfolding read_mysql
mysql_string s = opened read_mysql s

unfoldable pub sqlite_string : Text → Option (Text × Text)
unfolding read_sqlite
sqlite_string s = opened read_sqlite s

-- A character that is neither a quote nor a backslash is read as itself.
pub read_mysql-plain :
    (c : ℕ) (s : Text)
    → eqb c b'\'' ≡ false
    → eqb c b'\\' ≡ false
    → read_mysql (c ∷ s) ≡ before (c ∷ []) (read_mysql s)
unfolding read_mysql
read_mysql-plain c [] q b = rw q refl
read_mysql-plain c (d ∷ s) q b = rw (b, q) refl

pub read_sqlite-plain :
    (c : ℕ) (s : Text) → eqb c b'\'' ≡ false → read_sqlite (c ∷ s) ≡ before (c ∷ []) (read_sqlite s)
unfolding read_sqlite
read_sqlite-plain c [] q = rw q refl
read_sqlite-plain c (d ∷ s) q = rw q refl

-- A closing quote that no quote follows ends the string.
pub read_mysql-end :
    (rest : Text)
    → starts_with rest (text "'") ≡ false
    → read_mysql (b'\'' ∷ rest) ≡ some ([], rest)
unfolding read_mysql
read_mysql-end [] h = refl
read_mysql-end (d ∷ rest) h = let q : eqb d b'\'' ≡ false = ground arith in rw q refl

pub read_sqlite-end :
    (rest : Text)
    → starts_with rest (text "'") ≡ false
    → read_sqlite (b'\'' ∷ rest) ≡ some ([], rest)
unfolding read_sqlite
read_sqlite-end [] h = refl
read_sqlite-end (d ∷ rest) h = let q : eqb d b'\'' ≡ false = ground arith in rw q refl
