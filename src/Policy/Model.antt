-- ===== src/Policy/Model.antt =====
-- src/policy/model.rs: categories, actions, the connection baseline, partial overrides, presets and
-- retention. A `u32` or `u64` is its value; the bounds that the program checks are in `validate`.
pub mod Merge
pub mod Bounds
pub mod Names
use sequel_ace_mcp.Prelude.{
  ℕ, ◌*◌, Bool, true, false, ◌||◌, Option, none, some, Text, text, ◌==◌, eqb, ltb, if◌then◌else◌,
  unwrap_or,
}

pub data SqlCategory : Type 0 where
  read write ddl admin tx_ctrl : SqlCategory

unfoldable pub as_str : SqlCategory → Text
as_str read = text "read"
as_str write = text "write"
as_str ddl = text "ddl"
as_str admin = text "admin"
as_str tx_ctrl = text "txCtrl"

unfoldable pub parse : Text → Option SqlCategory
parse s =
    if s == text "read"
    then some read
    else if s == text "write"
    then some write
    else if s == text "ddl"
    then some ddl
    else if s == text "admin"
    then some admin
    else if s == text "txCtrl"
    then some tx_ctrl
    else none

-- `==` on categories.
abbrev pub category_eq : SqlCategory → SqlCategory → Bool
category_eq read read = true
category_eq write write = true
category_eq ddl ddl = true
category_eq admin admin = true
category_eq tx_ctrl tx_ctrl = true
category_eq _ _ = false

pub data PolicyAction : Type 0 where
  allow confirm deny : PolicyAction

-- The strictness ranking of strictest-wins resolution.
abbrev pub rank : PolicyAction → ℕ
rank allow = 0
rank confirm = 1
rank deny = 2

abbrev pub action_eq : PolicyAction → PolicyAction → Bool
action_eq allow allow = true
action_eq confirm confirm = true
action_eq deny deny = true
action_eq _ _ = false

pub data BackupOverflow : Type 0 where
  abort truncate : BackupOverflow

pub record Policy : Type 0 where
  pub read : PolicyAction
  pub write : PolicyAction
  pub ddl : PolicyAction
  pub admin : PolicyAction
  pub tx_ctrl : PolicyAction
  pub row_cap : ℕ
  pub stmt_timeout_ms : ℕ
  pub require_touch_id : Bool
  pub max_backup_rows : ℕ
  pub max_backup_bytes : ℕ
  pub on_backup_overflow : BackupOverflow

-- `impl Default for Policy`.
abbrev pub default_policy : Policy
default_policy = record {
  read = allow;
  write = confirm;
  ddl = deny;
  admin = deny;
  tx_ctrl = allow;
  row_cap = 1000;
  stmt_timeout_ms = 10000;
  require_touch_id = false;
  max_backup_rows = 10000;
  max_backup_bytes = 50 * 1024 * 1024;
  on_backup_overflow = abort;
}

abbrev pub action_for : Policy → SqlCategory → PolicyAction
action_for p SqlCategory.read = p.read
action_for p SqlCategory.write = p.write
action_for p SqlCategory.ddl = p.ddl
action_for p SqlCategory.admin = p.admin
action_for p SqlCategory.tx_ctrl = p.tx_ctrl

pub record PartialPolicy : Type 0 where
  pub read : Option PolicyAction
  pub write : Option PolicyAction
  pub ddl : Option PolicyAction
  pub admin : Option PolicyAction
  pub tx_ctrl : Option PolicyAction
  pub row_cap : Option ℕ
  pub stmt_timeout_ms : Option ℕ
  pub require_touch_id : Option Bool
  pub max_backup_rows : Option ℕ
  pub max_backup_bytes : Option ℕ
  pub on_backup_overflow : Option BackupOverflow

-- `PartialPolicy::default()`.
abbrev pub default_partial : PartialPolicy
default_partial = record {
  read = none;
  write = none;
  ddl = none;
  admin = none;
  tx_ctrl = none;
  row_cap = none;
  stmt_timeout_ms = none;
  require_touch_id = none;
  max_backup_rows = none;
  max_backup_bytes = none;
  on_backup_overflow = none;
}

-- `PartialPolicy::action_for`.
abbrev pub rule_action_for : PartialPolicy → SqlCategory → Option PolicyAction
rule_action_for p SqlCategory.read = p.read
rule_action_for p SqlCategory.write = p.write
rule_action_for p SqlCategory.ddl = p.ddl
rule_action_for p SqlCategory.admin = p.admin
rule_action_for p SqlCategory.tx_ctrl = p.tx_ctrl

-- Each `if let Some(v)` of the source writes one field.
unfoldable pub merged_with : Policy → PartialPolicy → Policy
merged_with p over = record {
  read = unwrap_or over.read p.read;
  write = unwrap_or over.write p.write;
  ddl = unwrap_or over.ddl p.ddl;
  admin = unwrap_or over.admin p.admin;
  tx_ctrl = unwrap_or over.tx_ctrl p.tx_ctrl;
  row_cap = unwrap_or over.row_cap p.row_cap;
  stmt_timeout_ms = unwrap_or over.stmt_timeout_ms p.stmt_timeout_ms;
  require_touch_id = unwrap_or over.require_touch_id p.require_touch_id;
  max_backup_rows = unwrap_or over.max_backup_rows p.max_backup_rows;
  max_backup_bytes = unwrap_or over.max_backup_bytes p.max_backup_bytes;
  on_backup_overflow = unwrap_or over.on_backup_overflow p.on_backup_overflow;
}

-- The field that an `Err` names.
pub data PolicyError : Type 0 where
  row_cap stmt_timeout_ms max_backup_rows max_backup_bytes : PolicyError

-- `none` is `Ok(())`.
unfoldable pub validate : Policy → Option PolicyError
validate p =
    if eqb p.row_cap 0 || ltb 100000 p.row_cap
    then some row_cap
    else if eqb p.stmt_timeout_ms 0 || ltb 600000 p.stmt_timeout_ms
    then some stmt_timeout_ms
    else if eqb p.max_backup_rows 0 || ltb 1000000 p.max_backup_rows
    then some max_backup_rows
    else if eqb p.max_backup_bytes 0
    then some max_backup_bytes
    else none

-- `if let Some(v) = field && test(v)`.
abbrev pub some_and : Option ℕ → (ℕ → Bool) → Bool
some_and none test = false
some_and (some v) test = test v

-- `PartialPolicy::validate`.
unfoldable pub validate_partial : PartialPolicy → Option PolicyError
validate_partial p =
    if some_and p.row_cap (λ v. eqb v 0 || ltb 100000 v)
    then some row_cap
    else if some_and p.stmt_timeout_ms (λ v. eqb v 0 || ltb 600000 v)
    then some stmt_timeout_ms
    else if some_and p.max_backup_rows (λ v. eqb v 0 || ltb 1000000 v)
    then some max_backup_rows
    else if some_and p.max_backup_bytes (λ v. eqb v 0)
    then some max_backup_bytes
    else none

pub data PolicyPresetName : Type 0 where
  read_only development administration : PolicyPresetName

unfoldable pub parse_preset : Text → Option PolicyPresetName
parse_preset s =
    if s == text "read-only"
    then some read_only
    else if s == text "dev" || s == text "development"
    then some development
    else if s == text "admin" || s == text "administration"
    then some administration
    else none

unfoldable pub preset_as_str : PolicyPresetName → Text
preset_as_str read_only = text "read-only"
preset_as_str development = text "development"
preset_as_str administration = text "administration"

unfoldable pub policy_from_preset : PolicyPresetName → Policy
policy_from_preset read_only = record default_policy { write = deny; ddl = deny; admin = deny }
policy_from_preset development = record default_policy {
  ddl = confirm;
  row_cap = 5000;
  stmt_timeout_ms = 30000;
}
policy_from_preset administration = record default_policy {
  ddl = confirm;
  admin = confirm;
  row_cap = 5000;
  stmt_timeout_ms = 60000;
  require_touch_id = true;
}
