-- ===== src/Approval/Canonical.antt =====
-- src/approval/mod.rs, `SessionGrantKey`: what a session grant covers, and the text it is filed under.
pub mod Order
pub mod Injective
pub mod Collision
use sequel_ace_mcp.Prelude.{ℕ, Bool, Option, List, [], ◌∷◌, ◌++◌, map, Text, text}
use sequel_ace_mcp.Prelude.Sorting.{sort}
use sequel_ace_mcp.Policy.Model.{SqlCategory, as_str}
use sequel_ace_mcp.Policy.RuleKey.{TableId}

pub record SessionGrantKey : Type 0 where
  pub connection : Text
  pub category : SqlCategory
  pub tables : List TableId

-- `parts.join(sep)`.
unfoldable pub join : Text → List Text → Text
join sep [] = []
join sep (x ∷ []) = x
join sep (x ∷ y ∷ xs) = x ++ (sep ++ join sep (y ∷ xs))

-- `format!("{}.{}", t.database, t.table)`.
unfoldable pub dotted : TableId → Text
dotted t = t.database ++ b'.' ∷ t.table

-- `\u{1}`.
abbrev pub separator : ℕ
separator = 1

unfoldable pub canonical : SessionGrantKey → Text
canonical key =
    let tables = join (text ",") (sort (map dotted key.tables)) in
    key.connection ++ separator ∷ (as_str key.category ++ separator ∷ tables)
