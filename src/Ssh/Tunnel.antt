-- ===== src/Ssh/Tunnel.antt =====
-- src/sql/known_hosts.rs and src/sql/ssh.rs: the known_hosts file of a tunnel, and the check of the
-- server's key when the tunnel is established. The home folder and what the file system holds are
-- arguments.
pub mod Blank
pub mod Trust
use sequel_ace_mcp.Prelude.{
  ℕ, Bool, true, false, ◌&&◌, not, Option, none, some, List, [], ◌∷◌, ◌++◌, Text, text,
  if◌then◌else◌, unwrap_or, ◌==◌, starts_with, drop, eqb,
}
use sequel_ace_mcp.Policy.Lexical.{trim}
use sequel_ace_mcp.Ssh.Splitting.{is_not_empty}
use sequel_ace_mcp.Ssh.KnownHosts.{
  KnownHostEntry, SshHostKeyPolicy, lenient, HostKeyDecision, accept, reject, LogLine,
  parse_known_hosts, is_nonempty, decide_host_key,
}

-- The fields of the tunnel's settings that the check of the key reads.
pub record SshTunnel : Type 0 where
  pub host : Text
  pub port : ℕ
  pub host_key_policy : Option SshHostKeyPolicy
  pub known_hosts_path : Option Text

-- What reading a file gives: the reason of a failure, or its content.
pub data FileRead : Type 0 where
  unreadable : Text → FileRead
  content : Text → FileRead

pub data Loaded : Type 0 where
  loaded : List KnownHostEntry → Loaded
  unreadable_file : Text → Text → Loaded
  malformed_file : Text → Loaded

pub record HostKeyHandler : Type 0 where
  pub policy : SshHostKeyPolicy
  pub entries : List KnownHostEntry
  pub host : Text
  pub port : ℕ

-- What a server presents.
pub data ServerKey : Type 0 where
  public_key : Text → ServerKey
  certificate : ServerKey

abbrev pub with_slash : Text → Text
with_slash [] = []
with_slash (c ∷ []) = if eqb c b'/' then c ∷ [] else c ∷ b'/' ∷ []
with_slash (c ∷ d ∷ base) = c ∷ with_slash (d ∷ base)

-- `Path::join`.
abbrev pub join : Text → Text → Text
join base rest = if starts_with rest (text "/") then rest else with_slash base ++ rest

unfoldable pub expand_tilde : Text → Text → Text
expand_tilde home path =
    if path == text ":memory:"
    then path
    else if path == text "~"
    then home
    else if starts_with path (text "~/")
    then join home (drop 2 path)
    else path

unfoldable pub target_of : Text → Option Text → Text
unfolding expand_tilde
target_of home (some path) = if starts_with path (text "~") then expand_tilde home path else path
target_of home none = expand_tilde home (text "~/.ssh/known_hosts")

-- What is loaded of a file that was read.
abbrev pub checked : (Text → Option Text) → Text → Text → Loaded
checked b64_decode target c =
    let entries = parse_known_hosts b64_decode c in
    if not (is_not_empty (trim c))
    then loaded []
    else if is_nonempty entries
    then loaded entries
    else malformed_file target

abbrev pub load_read : (Text → Option Text) → Text → Bool → FileRead → Loaded
load_read b64_decode target true (unreadable reason) = unreadable_file target reason
load_read b64_decode target false (unreadable reason) = loaded []
load_read b64_decode target explicit (content c) = checked b64_decode target c

abbrev pub is_some {ℓ} : {A : Type ℓ} → Option A → Bool
is_some (some a) = true
is_some none = false

module _ (b64_decode : Text → Option Text) where
  unfoldable pub load_known_hosts_checked : Text → (Text → FileRead) → Option Text → Loaded
  unfolding target_of
  load_known_hosts_checked home read file_path =
      let target = target_of home file_path in
      load_read b64_decode target (is_some file_path) (read target)

abbrev pub handler_of : SshTunnel → List KnownHostEntry → HostKeyHandler
handler_of ssh entries = record {
  policy = unwrap_or ssh.host_key_policy lenient;
  entries = entries;
  host = ssh.host;
  port = ssh.port;
}

module _ (b64_decode : Text → Option Text) (hmac_sha1 : Text → Text → Text)
    (fingerprint_sha256 : Text → Text) where
  unfoldable pub check_server_key : HostKeyHandler → ServerKey → List LogLine × Bool
  unfolding decide_host_key
  check_server_key h certificate = ([], false)
  check_server_key h (public_key raw) =
      let r =
        decide_host_key b64_decode hmac_sha1 fingerprint_sha256 h.policy h.host h.port h.entries
          raw in
      (r.0, elim r.1 [ accept ↦ true | reject ↦ false ])

  -- Establishing a tunnel loads the file, fails if that does, and otherwise goes on exactly if the
  -- handler takes the server's key.
  abbrev pub trusts_loaded : SshTunnel → Loaded → ServerKey → Bool
  trusts_loaded ssh (loaded entries) key = (check_server_key (handler_of ssh entries) key).1
  trusts_loaded ssh (unreadable_file target reason) key = false
  trusts_loaded ssh (malformed_file target) key = false

  unfoldable pub trusts : Text → (Text → FileRead) → SshTunnel → ServerKey → Bool
  unfolding load_known_hosts_checked check_server_key
  trusts home read ssh key =
      trusts_loaded ssh (load_known_hosts_checked b64_decode home read ssh.known_hosts_path) key
