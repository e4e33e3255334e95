-- ===== src/Backup/Json.antt =====
-- The JSON values that the backups store: serde_json's `Value` and what the program reads of it. A
-- number is its text.
use sequel_ace_mcp.Prelude.{Bool, Option, none, some, List, [], ◌∷◌, Text, ◌==◌, if◌then◌else◌}

mutual
  pub data Json : Type 0 where
    null : Json
    bool : Bool → Json
    number : Text → Json
    string : Text → Json
    array : Items → Json
    object : Fields → Json

  pub data Items : Type 0 where
    nil : Items
    item : Json → Items → Items

  pub data Fields : Type 0 where
    end : Fields
    field : Text → Json → Fields → Fields

abbrev pub items : List Json → Items
items [] = nil
items (v ∷ vs) = item v (items vs)

abbrev pub elements : Items → List Json
elements nil = []
elements (item v vs) = v ∷ elements vs

-- `o.get(key)`.
abbrev pub get : Text → Fields → Option Json
get key end = none
get key (field k v o) = if k == key then some v else get key o

abbrev pub keys : Fields → List Text
keys end = []
keys (field k v o) = k ∷ keys o

abbrev or_null : Option Json → Json
or_null none = null
or_null (some v) = v

-- `v[key]`.
abbrev pub index : Json → Text → Json
index (object o) key = or_null (get key o)
index v key = null

abbrev pub as_str : Json → Option Text
as_str (string s) = some s
as_str v = none

abbrev pub as_array : Json → Option (List Json)
as_array (array vs) = some (elements vs)
as_array v = none

abbrev pub as_object : Json → Option Fields
as_object (object o) = some o
as_object v = none
