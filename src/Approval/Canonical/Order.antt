-- ===== src/Approval/Canonical/Order.antt =====
-- The filing text does not depend on the order in which a statement names its tables.
use sequel_ace_mcp.Prelude.{◌≡◌, ap, List, Text, text, ◌++◌, ◌∷◌}
use sequel_ace_mcp.Prelude.Sorting.{sort-Perm}
use mathlib.Core.List.{Perm}
use mathlib.Core.List.Perm
use sequel_ace_mcp.Policy.Model.{SqlCategory, as_str}
use sequel_ace_mcp.Policy.RuleKey.{TableId}
use sequel_ace_mcp.Approval.Canonical.{dotted, join, canonical, separator}

-- Two keys for the same connection and category have the same filing text if their tables are the
-- same up to order.
pub canonical-Perm :
    (connection : Text) (category : SqlCategory) (ts us : List TableId)
    → Perm ts us
    → canonical (record { connection = connection; category = category; tables = ts })
      ≡ canonical (record { connection = connection; category = category; tables = us })
unfolding canonical
canonical-Perm connection category ts us p =
    ap (λ l. connection ++ separator ∷ (as_str category ++ separator ∷ join (text ",") l))
      (sort-Perm (Perm.map dotted p))
