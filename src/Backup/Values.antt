-- ===== src/Backup/Values.antt =====
-- src/sql/mysql.rs, `value_to_json`: the values of a row as a backup stores them. The driver's floating
-- point numbers, UTF-8 and base64 belong to other packages.
use sequel_ace_mcp.Prelude.{
  ℕ, ◌-◌, Bool, Option, none, some, List, [], ◌∷◌, ◌++◌, Text, text, ◌==◌, text_leb, eqb,
  if◌then◌else◌, length, replicate_zero,
}
use sequel_ace_mcp.Ssh.Splitting.{display}
use sequel_ace_mcp.Backup.Json.{Json, number, string, Fields, end, field}

-- The driver's `Value`.
pub data Value (F : Type 0) : Type 0 where
  null : Value F
  bytes : List ℕ → Value F
  int : (negative : Bool) → ℕ → Value F
  uint : ℕ → Value F
  float : F → Value F
  double : F → Value F
  date : (y m d hh mm ss us : ℕ) → Value F
  time : (negative : Bool) → (d h m s us : ℕ) → Value F

-- `{n:0width}`.
unfoldable pub pad : ℕ → ℕ → Text
unfolding display
pad width n = let digits = display n in replicate_zero (width - length digits) ++ digits

abbrev pub signed : Bool → Text → Text
signed negative s = if negative then b'-' ∷ s else s

abbrev pub with_micros : ℕ → Text → Text
with_micros us base = if eqb us 0 then base else base ++ text "." ++ pad 6 us

abbrev pub colons : List Text → Text
colons [] = []
colons (x ∷ []) = x
colons (x ∷ y ∷ xs) = x ++ text ":" ++ colons (y ∷ xs)

abbrev or_encoded : (List ℕ → Text) → List ℕ → Option Text → Json
or_encoded encode b none = string (encode b)
or_encoded encode b (some s) = string s

module _ {F : Type 0} (json_of : F → Json) (from_utf8 : List ℕ → Option Text)
    (encode : List ℕ → Text) where
  unfoldable pub value_to_json : Value F → Json
  unfolding pad display
  value_to_json null = Json.null
  value_to_json (bytes b) = or_encoded encode b (from_utf8 b)
  value_to_json (int negative n) = number (signed negative (display n))
  value_to_json (uint n) = number (display n)
  value_to_json (float f) = json_of f
  value_to_json (double f) = json_of f
  value_to_json (date y m d hh mm ss us) = string (
      with_micros us (
        pad 4 y
        ++ text "-"
        ++ pad 2 m
        ++ text "-"
        ++ pad 2 d
        ++ text " "
        ++ colons (pad 2 hh ∷ pad 2 mm ∷ pad 2 ss ∷ [])))
  value_to_json (time negative d h m s us) =
      string
        (signed negative (with_micros us (colons (pad 2 d ∷ pad 2 h ∷ pad 2 m ∷ pad 2 s ∷ []))))

-- `Map::insert`: the keys stand in their order, and a key's value is replaced.
unfoldable pub put : Text → Json → Fields → Fields
put key v end = field key v end
put key v (field k w o) =
    let later = put key v o in
    if k == key
    then field key v o
    else if text_leb key k
    then field key v (field k w o)
    else field k w later

-- SQLite's `ValueRef`, and what the loop of `fetch_rows_sqlite` makes of it.
pub data ValueRef (F : Type 0) : Type 0 where
  nothing : ValueRef F
  integer : (negative : Bool) → ℕ → ValueRef F
  real : F → ValueRef F
  utf8 : List ℕ → ValueRef F
  blob : List ℕ → ValueRef F

unfoldable pub ref_to_json :
    {F : Type 0} → (F → Json) → (List ℕ → Text) → (List ℕ → Text) → ValueRef F → Json
unfolding display
ref_to_json json_of from_utf8_lossy encode nothing = Json.null
ref_to_json json_of from_utf8_lossy encode (integer negative n) =
    number (signed negative (display n))
ref_to_json json_of from_utf8_lossy encode (real f) = json_of f
ref_to_json json_of from_utf8_lossy encode (utf8 s) = string (from_utf8_lossy s)
ref_to_json json_of from_utf8_lossy encode (blob b) = string (encode b)
