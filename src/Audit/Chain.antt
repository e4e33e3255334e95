-- ===== src/Audit/Chain.antt =====
-- src/audit/mod.rs: the hashes of the audit log's rows, their check, and the deletion of rows by
-- src/audit/retention.rs. SHA-256 and the JSON text of an entry belong to other packages and are
-- arguments. The rows stand in the order of their ids.
pub mod Written
pub mod Retention
use sequel_ace_mcp.Prelude.{
  ℕ, suc, Bool, true, false, not, Option, none, some, List, [], ◌∷◌, ◌++◌, Text, if◌then◌else◌,
  ◌==◌, retain,
}

pub record ChainRow (E : Type 0) : Type 0 where
  pub id : ℕ
  pub entry : E
  pub prev_hash : Option Text
  pub row_hash : Option Text

-- The variables of the check.
pub record Scan : Type 0 where
  pub checked : ℕ
  pub epoch : ℕ
  pub prev : Option Text
  pub broken_at : Option ℕ

-- After a row the check stops or goes on.
pub data Step : Type 0 where
  stop : Scan → Step
  go : Scan → Step

pub record ChainVerification : Type 0 where
  pub ok : Bool
  pub rows_checked : ℕ
  pub broken_at : Option ℕ
  pub epoch : ℕ

abbrev pub start : Scan
start = record { checked = 0; epoch = 0; prev = none; broken_at = none }

abbrev pub bytes_of : Option Text → Text
bytes_of none = []
bytes_of (some h) = h

-- The hash of the row with the highest id.
unfoldable pub last_hash : {E : Type 0} → List (ChainRow E) → Option Text
last_hash [] = none
last_hash (r ∷ []) = r.row_hash
last_hash (r ∷ q ∷ rows) = last_hash (q ∷ rows)

abbrev pub and_then : Step → (Scan → Step) → Step
and_then (stop s) f = stop s
and_then (go s) f = f s

-- Whether the stored hash is that of the row before, where both are known.
abbrev pub linked : Option Text → Option Text → Bool
linked (some last) (some stored) = last == stored
linked (some last) none = true
linked none stored = true

abbrev pub epochs : Option Text → Option Text → ℕ → ℕ
epochs none (some stored) n = suc n
epochs none none n = n
epochs (some last) stored n = n

abbrev pub unchained : Option Text → Scan → Scan
unchained none s = record s { epoch = suc s.epoch; prev = none }
unchained (some h) s = s

module _ {E : Type 0} (sha256 : Text → Text) (canonical : E → Text) where
  unfoldable pub hash_row : Option Text → E → Text
  hash_row prev e = sha256 (bytes_of prev ++ canonical e)

  unfoldable pub write_audit_entry : Bool → ℕ → E → List (ChainRow E) → List (ChainRow E)
  unfolding last_hash hash_row
  write_audit_entry tamper_evident_chain id e rows =
      let prev = last_hash rows in
      rows
      ++ record {
        id = id;
        entry = e;
        prev_hash = if tamper_evident_chain then prev else none;
        row_hash = if tamper_evident_chain then some (hash_row prev e) else none;
      }
        ∷ []

  -- One round of the check.
  abbrev pub check_hashed : Scan → ChainRow E → Text → Step
  check_hashed s r rh =
      if not (hash_row r.prev_hash r.entry == rh)
      then stop (record s { broken_at = some r.id })
      else if not (linked s.prev r.prev_hash)
      then stop (record s { broken_at = some r.id })
      else go (record s {
        checked = suc s.checked;
        epoch = epochs s.prev r.prev_hash s.epoch;
        prev = some rh;
      })

  abbrev pub step : Scan → ChainRow E → Option Text → Step
  step s r none = go (unchained r.prev_hash s)
  step s r (some rh) = check_hashed s r rh

  unfoldable pub scan : Scan → List (ChainRow E) → Step
  unfolding hash_row
  scan s [] = go s
  scan s (r ∷ rows) = and_then (step s r r.row_hash) (λ t. scan t rows)

  abbrev pub end_of : Step → Scan
  end_of (stop s) = s
  end_of (go s) = s

  abbrev pub is_none : Option ℕ → Bool
  is_none none = true
  is_none (some n) = false

  unfoldable pub verify_chain : List (ChainRow E) → ChainVerification
  unfolding scan
  verify_chain rows =
      let s = end_of (scan start rows) in
      record {
        ok = is_none s.broken_at;
        rows_checked = s.checked;
        broken_at = s.broken_at;
        epoch = s.epoch;
      }

-- The deletion of the rows of which `expired` holds, those of a category older than its cutoff.
unfoldable pub delete_rows : {E : Type 0} → (E → Bool) → List (ChainRow E) → List (ChainRow E)
delete_rows expired rows = retain (λ r. not (expired r.entry)) rows
