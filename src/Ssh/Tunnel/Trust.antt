-- ===== src/Ssh/Tunnel/Trust.antt =====
-- The servers that a tunnel trusts.
use sequel_ace_mcp.Prelude.{
  ◌≡◌, ◌≢◌, ◌⊎◌, Bool, true, false, Option, List, [], Text, unwrap_or, Any,
}
use sequel_ace_mcp.Ssh.KnownHosts.{KnownHostEntry, lenient, parse_known_hosts}
use sequel_ace_mcp.Ssh.KnownHosts.Decision.{Lists, IsKnown}
use sequel_ace_mcp.Ssh.Tunnel.{SshTunnel, FileRead, unreadable, content, target_of, is_some}
use sequel_ace_mcp.Ssh.Tunnel.Blank.{IsBlank}

module _ (b64_decode : Text → Option Text) where
  -- The entries of a file: those of its text, which has one or is blank; or none, for the default
  -- file, if that cannot be read.
  abbrev pub Provides : Bool → FileRead → List KnownHostEntry → Type 0
  Provides explicit r entries =
      ((c : Text) × (r ≡ content c)
        × (entries ≡ parse_known_hosts b64_decode c)
        × (IsBlank c ⊎ (entries ≢ [])))
      ⊎ ((explicit ≡ false) × ((reason : Text) × (r ≡ unreadable reason)) × (entries ≡ []))

module _ (b64_decode : Text → Option Text) (hmac_sha1 : Text → Text → Text) (ssh : SshTunnel) where
  -- The test of the entries for a key, by the tunnel's host, port and policy.
  abbrev pub Accepts : Text → List KnownHostEntry → Type 0
  Accepts raw entries =
      (¬ Any (Lists b64_decode hmac_sha1 ssh.host ssh.port raw true) entries)
      × (Any (Lists b64_decode hmac_sha1 ssh.host ssh.port raw false) entries
          ⊎ ((unwrap_or ssh.host_key_policy lenient ≡ lenient)
              × (¬ Any (IsKnown hmac_sha1 ssh.host ssh.port) entries)))

  -- What the tunnel takes as the entries of its file.
  abbrev pub Reads : Text → (Text → FileRead) → List KnownHostEntry → Type 0
  Reads home read entries =
      Provides b64_decode (is_some ssh.known_hosts_path)
        (read (target_of home ssh.known_hosts_path)) entries
