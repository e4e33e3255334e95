-- ===== src/Approval/Canonical/Collision.antt =====
-- Two different table sets may be filed under one text, since a quoted table name may hold a comma
-- and a dot.
use sequel_ace_mcp.Prelude.{◌≡◌, true, [], ◌∷◌, ◌++◌, Text, text_leb, append_assoc}
use sequel_ace_mcp.Prelude.Sorting.{sort}
use sequel_ace_mcp.Policy.Model.{SqlCategory}
use sequel_ace_mcp.Policy.RuleKey.{TableId}
use sequel_ace_mcp.Approval.Canonical.{dotted, join, canonical}

abbrev pub table_id : Text → Text → TableId
table_id database table = record { database = database; table = table }

-- A grant for the one table `d`.`t,e.u` is filed like a grant for the two tables `d`.`t` and
-- `e`.`u`, whatever the names, as long as "d.t" is not after "e.u" in the order of text.
pub canonical_collision :
    (connection : Text) (category : SqlCategory) (d t e u : Text)
    → text_leb (dotted (table_id d t)) (dotted (table_id e u)) ≡ true
    → canonical (record {
      connection = connection;
      category = category;
      tables = table_id d (t ++ b',' ∷ (e ++ b'.' ∷ u)) ∷ [];
    })
      ≡ canonical (record {
        connection = connection;
        category = category;
        tables = table_id d t ∷ table_id e u ∷ [];
      })
unfolding canonical sort join dotted
canonical_collision connection category d t e u h = rw h (simp append_assoc)
