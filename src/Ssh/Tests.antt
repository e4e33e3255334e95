-- ===== src/Ssh/Tests.antt =====
-- Host keys on small inputs.
use sequel_ace_mcp.Prelude.{
  ◌≡◌, ◌↔◌, refl, inl, inr, true, false, Option, some, none, ◌++◌, Text, text, arith,
}
use sequel_ace_mcp.Policy.Lexical.{is_whitespace}
use sequel_ace_mcp.Ssh.Splitting.{decimal, cut_close}
use sequel_ace_mcp.Ssh.Pattern.{matches_pattern, glob_rec, translate}
use sequel_ace_mcp.Ssh.Pattern.Glob.{bracketed, written, Covers, matches_pattern_iff}
use sequel_ace_mcp.Ssh.Pattern.Single.{matches_pattern-HasMark}
use sequel_ace_mcp.Ssh.KnownHosts.{strict, parse_known_hosts}
use sequel_ace_mcp.Ssh.Tunnel.{SshTunnel, FileRead, content, public_key, trusts}

matches_pattern_iff_example :
    (matches_pattern (written (bracketed (text "*.shop") (text "2222"))) (text "db.shop") 2222
      ≡ true)
    ↔ Covers (bracketed (text "*.shop") (text "2222")) (text "db.shop") 2222
matches_pattern_iff_example =
    matches_pattern_iff (bracketed (text "*.shop") (text "2222")) (text "db.shop") 2222
      (omega arith) (omega arith)

matched : matches_pattern (text "[*.shop]:2222") (text "db.shop") 2222 ≡ true
unfolding matches_pattern decimal cut_close translate glob_rec
matched = refl

matches_pattern-HasMark_example : matches_pattern (text "h?st") (text "host") 22 ≡ false
matches_pattern-HasMark_example =
    matches_pattern-HasMark (text "h?st") (text "host") 22 refl (inr (inl refl))
      ((refl, omega arith), ((refl, omega arith), ((refl, omega arith), ((refl, omega arith), tt))))

-- Stand-ins for the packages, and a file with one entry.
abbrev decode : Text → Option Text
decode s = some s

abbrev hash : Text → Text → Text
hash salt host = salt ++ host

abbrev fingerprint : Text → Text
fingerprint raw = text "SHA256:" ++ raw

abbrev one_entry : Text → FileRead
one_entry path = content (text "db.shop ssh-ed25519 KEY")

abbrev tunnel : SshTunnel
tunnel = record {
  host = text "db.shop";
  port = 22;
  host_key_policy = some strict;
  known_hosts_path = none;
}

trusted :
    trusts decode hash fingerprint (text "/home/u") one_entry tunnel (public_key (text "KEY"))
    ≡ true
unfolding trusts parse_known_hosts matches_pattern is_whitespace
trusted = refl
