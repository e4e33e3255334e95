-- ===== src/Policy/Model/Names.antt =====
-- The spelling of categories and presets, and that it parses back.
use sequel_ace_mcp.Prelude.{◌≡◌, refl, ◌↔◌, some, arith, Text, text, eq_iff, subst, ap, Lacks}
use sequel_ace_mcp.Policy.Model.{
  SqlCategory, as_str, parse, PolicyPresetName, read_only, preset_as_str, parse_preset,
}

parse-as_str : (c : SqlCategory) → parse (as_str c) ≡ some c
unfolding parse as_str
parse-as_str SqlCategory.read = refl
parse-as_str _ = refl

as_str-parse : (s : Text) (c : SqlCategory) → parse s ≡ some c → as_str c ≡ s
unfolding parse as_str
as_str-parse s c h = ground (
  arith,
  eq_iff s (text "read"),
  eq_iff s (text "write"),
  eq_iff s (text "ddl"),
  eq_iff s (text "admin"),
  eq_iff s (text "txCtrl"),
)

-- `SqlCategory::parse` accepts exactly the texts that `as_str` writes, each as its category.
pub parse-as_str_iff : (s : Text) (c : SqlCategory) → (parse s ≡ some c) ↔ (as_str c ≡ s)
parse-as_str_iff s c = (as_str-parse s c, λ e. subst (λ t. parse t ≡ some c) e (parse-as_str c))

pub parse_preset-preset_as_str : (n : PolicyPresetName) → parse_preset (preset_as_str n) ≡ some n
unfolding parse_preset preset_as_str
parse_preset-preset_as_str read_only = refl
parse_preset-preset_as_str _ = refl

pub as_str-injective : (c d : SqlCategory) → as_str c ≡ as_str d → c ≡ d
as_str-injective c d e = cc (parse-as_str c, parse-as_str d, ap parse e)

-- The spelling of a category has letters only.
pub Lacks-as_str : (c : SqlCategory) → Lacks 1 (as_str c)
unfolding as_str
Lacks-as_str SqlCategory.read = omega arith
Lacks-as_str _ = omega arith
