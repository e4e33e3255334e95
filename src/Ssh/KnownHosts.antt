-- ===== src/Ssh/KnownHosts.antt =====
-- src/sql/known_hosts.rs: the parsing of a known_hosts file, the entries of a host, and the decision
-- on a server's key. Bytes are lists of numbers. The decoding of base64, HMAC-SHA1 and the
-- fingerprint, which other packages compute, are arguments.
pub mod Bytes
pub mod Decision
use Prim.Native.Nat.{bit_or, bit_xor}
use sequel_ace_mcp.Prelude.{
  ℕ, Bool, true, false, ◌||◌, ◌&&◌, not, Option, none, some, List, [], ◌∷◌, ◌++◌, Text, text,
  if◌then◌else◌, eqb, any, ◌==◌, starts_with, drop, map, retain, length,
}
use sequel_ace_mcp.Policy.Lexical.{trim}
use sequel_ace_mcp.Ssh.Splitting.{split, split_whitespace, trim_end_matches, is_not_empty, decimal}
use sequel_ace_mcp.Ssh.Pattern.{matches_pattern}

pub data Marker : Type 0 where
  cert_authority : Marker
  revoked : Marker

pub record KnownHostEntry : Type 0 where
  pub host_patterns : List Text
  pub key_type : Text
  pub key_base64 : Text
  pub marker : Option Marker
  pub hashed : Option (Text × Text)

pub record VerifyResult : Type 0 where
  pub fingerprint : Text
  pub matched : Bool
  pub had_matching_host_entry : Bool
  pub revoked : Bool

pub data SshHostKeyPolicy : Type 0 where
  lenient : SshHostKeyPolicy
  strict : SshHostKeyPolicy

pub data HostKeyDecision : Type 0 where
  accept : HostKeyDecision
  reject : HostKeyDecision

-- The lines that the decision logs.
pub data LogLine : Type 0 where
  seen : Text → LogLine
  key_revoked : LogLine
  unknown_strict : Text → LogLine
  mismatch_strict : Text → LogLine
  mismatch_lenient : Text → LogLine
  unknown_lenient : Text → LogLine

-- The two results of a base64 pair, where both were decoded.
abbrev pub both : Option Text → Option Text → Option (Text × Text)
both (some a) (some b) = some (a, b)
both (some a) none = none
both none b = none

abbrev pub marker_of : Text → Option Marker
marker_of word =
    if word == text "@cert-authority"
    then some cert_authority
    else if word == text "@revoked"
    then some revoked
    else none

module _ (b64_decode : Text → Option Text) where
  abbrev pub hashed_of : List Text → Option (Text × Text)
  hashed_of (salt ∷ hash ∷ _) = both (b64_decode salt) (b64_decode hash)
  hashed_of (salt ∷ []) = none
  hashed_of [] = none

  abbrev pub entry : Option Marker → Text → Text → Text → KnownHostEntry
  entry marker host key_type key_base64 =
      if starts_with host (text "|1|")
      then record {
        host_patterns = [];
        key_type = key_type;
        key_base64 = key_base64;
        marker = marker;
        hashed = hashed_of (split b'|' (drop 3 host));
      }
      else record {
        host_patterns = retain is_not_empty (map trim (split b',' host));
        key_type = key_type;
        key_base64 = key_base64;
        marker = marker;
        hashed = none;
      }

  abbrev pub entry_of_fields : Option Marker → List Text → Option KnownHostEntry
  entry_of_fields marker (host ∷ key_type ∷ key_base64 ∷ _) =
      some (entry marker host key_type key_base64)
  entry_of_fields marker (host ∷ key_type ∷ []) = none
  entry_of_fields marker (host ∷ []) = none
  entry_of_fields marker [] = none

  -- The code reads the first part without a test; a line that is not blank has one.
  abbrev pub entry_of_parts : List Text → Option KnownHostEntry
  entry_of_parts [] = none
  entry_of_parts (first ∷ parts) = elim (marker_of first) [
    | some marker ↦ entry_of_fields (some marker) parts
    | none ↦ entry_of_fields none (first ∷ parts)
  ]

  unfoldable pub parse_line : Text → Option KnownHostEntry
  unfolding split_whitespace trim trim_end_matches split
  parse_line raw_line =
      let line = trim (trim_end_matches 13 raw_line) in
      if not (is_not_empty line) || starts_with line (text "#")
      then none
      else entry_of_parts (split_whitespace line)

  unfoldable pub parse_lines : List Text → List KnownHostEntry
  unfolding parse_line
  parse_lines [] = []
  parse_lines (line ∷ lines) =
      let rest = parse_lines lines in elim (parse_line line) [ some e ↦ e ∷ rest | none ↦ rest ]

  unfoldable pub parse_known_hosts : Text → List KnownHostEntry
  unfolding parse_lines split
  parse_known_hosts content = parse_lines (split 10 content)

-- The `diff |= a ^ b` of the two comparisons.
unfoldable pub difference : ℕ → Text → Text → ℕ
difference diff [] raw = diff
difference diff (a ∷ key) [] = diff
difference diff (a ∷ key) (b ∷ raw) = difference (bit_or diff (bit_xor a b)) key raw

abbrev pub same_bytes : Text → Text → Bool
same_bytes entry_key raw_key =
    if eqb (length entry_key) (length raw_key)
    then eqb (difference 0 entry_key raw_key) 0
    else false

-- What the code hashes for a host.
abbrev pub probe : Text → ℕ → Text
probe host port = if eqb port 22 then host else text "[" ++ (host ++ (text "]:" ++ decimal port))

abbrev pub is_nonempty {ℓ} : {A : Type ℓ} → List A → Bool
is_nonempty [] = false
is_nonempty (x ∷ xs) = true

module _ (hmac_sha1 : Text → Text → Text) where
  abbrev pub hashed_host_matches : Option (Text × Text) → Text → ℕ → Bool
  hashed_host_matches none host port = false
  hashed_host_matches (some (salt, expected)) host port =
      hmac_sha1 salt (probe host port) == expected

  abbrev pub is_match : Text → ℕ → KnownHostEntry → Bool
  is_match host port e = elim e.hashed [
    | some pair ↦ hashed_host_matches (some pair) host port
    | none ↦ any (λ p. matches_pattern p host port) e.host_patterns
  ]

  unfoldable pub match_host : List KnownHostEntry → Text → ℕ → List KnownHostEntry
  unfolding matches_pattern
  match_host entries host port = retain (is_match host port) entries

abbrev pub holds_key : Text → Option Text → Bool
holds_key raw_key none = false
holds_key raw_key (some entry_key) = same_bytes entry_key raw_key

abbrev pub is_revoked : KnownHostEntry → Bool
is_revoked e = elim e.marker [ some revoked ↦ true | _ ↦ false ]

module _ (b64_decode : Text → Option Text) where
  unfoldable pub key_matches_entry : Text → KnownHostEntry → Bool
  unfolding difference
  key_matches_entry raw_key e = holds_key raw_key (b64_decode e.key_base64)

  -- The loop over the candidates; the two flags are `matched` and `revoked`.
  unfoldable pub flags : Text → List KnownHostEntry → Bool × Bool → Bool × Bool
  unfolding key_matches_entry
  flags raw_key [] found = found
  flags raw_key (e ∷ es) found = flags raw_key es (
      if key_matches_entry raw_key e
      then if is_revoked e then (found.0, true) else (true, found.1)
      else found)

-- What the decision does with a key that is not revoked.
abbrev pub decide : SshHostKeyPolicy → VerifyResult → List LogLine × HostKeyDecision
decide strict r =
    if not r.had_matching_host_entry
    then (unknown_strict r.fingerprint ∷ [], reject)
    else if not r.matched
    then (mismatch_strict r.fingerprint ∷ [], reject)
    else ([], accept)
decide lenient r =
    if r.had_matching_host_entry && not r.matched
    then (mismatch_lenient r.fingerprint ∷ [], reject)
    else if not r.had_matching_host_entry
    then (unknown_lenient r.fingerprint ∷ [], accept)
    else ([], accept)

abbrev pub decide_result : SshHostKeyPolicy → VerifyResult → List LogLine × HostKeyDecision
decide_result policy r =
    let rest = decide policy r in
    if r.revoked
    then (seen r.fingerprint ∷ key_revoked ∷ [], reject)
    else (seen r.fingerprint ∷ rest.0, rest.1)

module _ (b64_decode : Text → Option Text) (hmac_sha1 : Text → Text → Text)
    (fingerprint_sha256 : Text → Text) where
  unfoldable pub verify_host_key : Text → Text → ℕ → List KnownHostEntry → VerifyResult
  unfolding flags match_host
  verify_host_key raw_key host port entries =
      let candidates = match_host hmac_sha1 entries host port in
      let found = flags b64_decode raw_key candidates (false, false) in
      record {
        fingerprint = fingerprint_sha256 raw_key;
        matched = found.0;
        had_matching_host_entry = is_nonempty candidates;
        revoked = found.1;
      }

  -- The log and the decision.
  unfoldable pub decide_host_key :
      SshHostKeyPolicy → Text → ℕ → List KnownHostEntry → Text → List LogLine × HostKeyDecision
  unfolding verify_host_key
  decide_host_key policy host port entries raw_key =
      decide_result policy (verify_host_key raw_key host port entries)
