-- ===== src/Transport/Lines/View.antt =====
-- The reader against what it owes: nothing of it is lost, doubled or reordered by a round of the loop.
use sequel_ace_mcp.Prelude.{
  ℕ, suc, ◌+◌, ◌-◌, ◌≤◌, ◌<◌, ◌≡◌, [], ◌++◌, arith, Text, length, take, drop, Lacks,
}
use sequel_ace_mcp.Transport.Lines.{
  newline, Phase, filling, draining, discarding, eof, LineLimited, Look, returns, again, reads,
  absorb, at_end,
}
use sequel_ace_mcp.Transport.Lines.Accepted.{accepted, skipped}

-- What is still owed, with `rest` to come.
abbrev owed_in : Phase → LineLimited → Text → Text
owed_in filling s rest = accepted s.limit [] (s.buf ++ rest)
owed_in (draining d) s rest =
    take (s.total - d) (drop d s.buf) ++ accepted s.limit [] (drop s.total s.buf ++ rest)
owed_in discarding s rest = skipped s.limit rest
owed_in eof s rest = []

abbrev pub owed : LineLimited → Text → Text
owed s rest = owed_in s.phase s rest

abbrev IsValidIn : Phase → LineLimited → Type 0
IsValidIn filling s =
    (length s.buf ≤ suc s.limit) × (s.scanned ≤ length s.buf) × Lacks newline (take s.scanned s.buf)
IsValidIn (draining d) s = (d < s.total) × (s.total ≤ length s.buf) × (length s.buf ≤ suc s.limit)
IsValidIn discarding s = Unit
IsValidIn eof s = Unit

-- The buffer holds at most `limit + 1` bytes, and none of the searched ones is a newline.
abbrev pub IsValid : LineLimited → Type 0
IsValid s = IsValidIn s.phase s

abbrev IsReadingIn : ℕ → Phase → LineLimited → Type 0
IsReadingIn space filling s = Lacks newline s.buf × (space + length s.buf ≤ suc s.limit)
IsReadingIn space discarding s = space ≤ suc s.limit
IsReadingIn space _ s = ⊥

-- The reader has room for that many bytes, and no line in its buffer.
abbrev pub IsReading : ℕ → LineLimited → Type 0
IsReading space s = IsReadingIn space s.phase s

IsReadingIn-le :
    (phase : Phase) (s : LineLimited) (m n : ℕ)
    → m ≤ n
    → IsReadingIn n phase s
    → IsReadingIn m phase s
IsReadingIn-le filling s m n h r = (r.0, omega (arith, r.1))
IsReadingIn-le discarding s m n h r = omega (arith, r)
IsReadingIn-le (draining d) s m n h r = absurd r
IsReadingIn-le eof s m n h r = absurd r

pub IsReading-le : (s : LineLimited) (m n : ℕ) → m ≤ n → IsReading n s → IsReading m s
IsReading-le s m n h r = IsReadingIn-le s.phase s m n h r

-- What a round owes to its caller and to the reader that it leaves.
abbrev pub Kept : LineLimited → Text → Look → Type 0
Kept s rest (returns out s1) =
    IsValid s1 × (s1.limit ≡ s.limit) × (owed s rest ≡ out ++ owed s1 rest)
Kept s rest (again s1) = IsValid s1 × (s1.limit ≡ s.limit) × (owed s rest ≡ owed s1 rest)
Kept s rest (reads space s1) =
    IsValid s1
    × (s1.limit ≡ s.limit)
    × (owed s rest ≡ owed s1 rest)
    × (1 ≤ space)
    × IsReading space s1

abbrev pub Absorbed : LineLimited → Text → Text → Type 0
Absorbed s bs rest =
    IsValid (absorb s bs)
    × ((absorb s bs).limit ≡ s.limit)
    × (owed s (bs ++ rest) ≡ owed (absorb s bs) rest)

abbrev pub Ended : LineLimited → Type 0
Ended s = IsValid (at_end s) × ((at_end s).limit ≡ s.limit) × (owed s [] ≡ owed (at_end s) [])

abbrev pub reader : Phase → Text → ℕ → ℕ → ℕ → ℕ → LineLimited
reader phase buf scanned total limit dropped = record {
  buf = buf;
  scanned = scanned;
  total = total;
  phase = phase;
  limit = limit;
  dropped = dropped;
}
