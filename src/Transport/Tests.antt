-- ===== src/Transport/Tests.antt =====
-- The line reader on a small input.
use sequel_ace_mcp.Prelude.{◌≡◌, ◌≢◌, refl, some, [], ◌∷◌, text, arith}
use sequel_ace_mcp.Transport.Lines.{with_limit, Upstream, bytes, out_of_fuel, poll_read, bytes_of}
use sequel_ace_mcp.Transport.Lines.Accepted.{accepted, skipped}
use sequel_ace_mcp.Transport.Lines.Fuel.{Serves, poll_read-Serves}
use sequel_ace_mcp.Transport.Lines.Reading.{read_to_end, read_to_end-accepted}

-- Three lines in two chunks; the second is longer than four bytes, and the last has no end.
abbrev three_lines : Upstream
three_lines = bytes b'o' (b'k' ∷ 10 ∷ text "longer") ∷ bytes b'!' (10 ∷ text "hi") ∷ []

poll_read-Serves_example :
    ((poll_read 8 (with_limit 4) three_lines).result ≢ out_of_fuel)
    × Serves (with_limit 4) three_lines (poll_read 8 (with_limit 4) three_lines)
poll_read-Serves_example =
    poll_read-Serves 8 (with_limit 4) three_lines (omega arith, omega arith, tt)

accepted_lines : accepted 4 [] (bytes_of three_lines) ≡ b'o' ∷ b'k' ∷ 10 ∷ text "hi"
unfolding accepted skipped
accepted_lines = refl

read_to_end-accepted_example :
    read_to_end 20 1 (with_limit 4) three_lines ≡ some (accepted 4 [] (bytes_of three_lines))
unfolding accepted skipped
read_to_end-accepted_example = read_to_end-accepted 20 1 4 three_lines (tt, (tt, tt)) (omega arith)
