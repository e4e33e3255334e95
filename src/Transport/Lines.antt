-- ===== src/Transport/Lines.antt =====
-- src/mcp/limits.rs, `LineLimited`: the reader that drops lines over a limit before they are decoded. A
-- byte is a number; 10 ends a line. `buf` is the filled part of the buffer, so `fill` is its length.
pub mod Accepted
pub mod Search
pub mod View
pub mod Looking
pub mod Absorbing
pub mod Fuel
pub mod Reading
use sequel_ace_mcp.Prelude.{
  ℕ, zero, suc, ◌+◌, ◌-◌, ◌*◌, Bool, true, false, Option, none, some, List, [], ◌∷◌, ◌++◌, Text,
  eqb, ltb, length, take, drop, if◌then◌else◌,
}

abbrev pub newline : ℕ
newline = 10

abbrev pub max_mcp_line_bytes : ℕ
max_mcp_line_bytes = 1024 * 1024

abbrev pub chunk : ℕ
chunk = 8 * 1024

pub data Phase : Type 0 where
  filling : Phase
  draining : (drained : ℕ) → Phase
  discarding eof : Phase

pub record LineLimited : Type 0 where
  pub buf : Text
  pub scanned : ℕ
  pub total : ℕ
  pub phase : Phase
  pub limit : ℕ
  pub dropped : ℕ

-- `LineLimited::with_limit`.
abbrev pub with_limit : ℕ → LineLimited
with_limit limit = record {
  buf = [];
  scanned = 0;
  total = 0;
  phase = filling;
  limit = limit;
  dropped = 0;
}

abbrev pub min : ℕ → ℕ → ℕ
min a b = if ltb b a then b else a

abbrev pub after : Option ℕ → Option ℕ
after none = none
after (some i) = some (suc i)

-- `iter().position(|b| *b == b'\n')`.
unfoldable pub position : Text → Option ℕ
position [] = none
position (c ∷ s) = let rest = after (position s) in if eqb c newline then some 0 else rest

-- What stands behind the reader: the bytes to come in the chunks in which they arrive, a read that is
-- not ready and one that fails. The end of the list is the end of the input.
pub data Event : Type 0 where
  bytes : ℕ → Text → Event
  waits fails : Event

abbrev pub Upstream : Type 0
Upstream = List Event

pub data Reply : Type 0 where
  data_of : Text → Reply
  finished pending failed : Reply

abbrev unread : Text → Upstream → Upstream
unread [] up = up
unread (c ∷ s) up = bytes c s ∷ up

-- `poll_read` of the inner reader into `space` bytes; no bytes is the end of the input.
unfoldable pub read : ℕ → Upstream → Reply × Upstream
read space [] = (finished, [])
read space (bytes c s ∷ up) = (data_of (take space (c ∷ s)), unread (drop space (c ∷ s)) up)
read space (waits ∷ up) = (pending, up)
read space (fails ∷ up) = (failed, up)

-- The part of a loop round before it reads: it ends the call, with some bytes put out, goes round
-- again, or reads into some space.
pub data Look : Type 0 where
  returns : Text → LineLimited → Look
  again : LineLimited → Look
  reads : (space : ℕ) → LineLimited → Look

abbrev pub drain : ℕ → ℕ → LineLimited → Look
drain n drained s = returns (take n (drop drained s.buf)) (
    if eqb (drained + n) s.total
    then record s { buf = drop s.total s.buf; scanned = 0; phase = filling }
    else record s { phase = draining (drained + n) })

-- No newline in the buffer, all of it scanned.
abbrev pub unended : LineLimited → Look
unended s =
    if ltb s.limit (length s.buf)
    then again (record s { buf = []; scanned = 0; phase = discarding; dropped = suc s.dropped })
    else reads (suc s.limit - length s.buf) s

unfoldable pub look : ℕ → LineLimited → Look
unfolding position
look remaining s = elim s.phase [
  | eof ↦ returns [] s
  | draining drained ↦ drain (min (s.total - drained) remaining) drained s
  | discarding ↦ reads (min chunk (suc s.limit)) s
  | filling ↦
      if ltb s.scanned (length s.buf)
      then elim (position (drop s.scanned s.buf)) [
        | some i ↦ again (record s { total = s.scanned + i + 1; phase = draining 0 })
        | none ↦ unended (record s { scanned = length s.buf })
      ]
      else unended s
]

-- What follows a read of some bytes, and one that finds the end.
unfoldable pub absorb : LineLimited → Text → LineLimited
unfolding position
absorb s bs = elim s.phase [
  | discarding ↦ elim (position bs) [
    | some i ↦ record s { buf = drop (suc i) bs; scanned = 0; phase = filling }
    | none ↦ s
  ]
  | _ ↦ record s { buf = s.buf ++ bs }
]

unfoldable pub at_end : LineLimited → LineLimited
at_end s = elim s.phase [
  | discarding ↦ record s { phase = eof }
  | _ ↦
      if ltb 0 (length s.buf)
      then record s { total = length s.buf; phase = draining 0 }
      else record s { phase = eof }
]

pub data Polled : Type 0 where
  ready : Text → Polled
  pending failed out_of_fuel : Polled

pub record Poll : Type 0 where
  pub reader : LineLimited
  pub upstream : Upstream
  pub result : Polled

abbrev poll_of : LineLimited → Upstream → Polled → Poll
poll_of s up r = record { reader = s; upstream = up; result = r }

-- What follows a read, `round` being the rounds after it.
abbrev pub after_read : (LineLimited → Upstream → Poll) → LineLimited → Reply × Upstream → Poll
after_read round s (data_of bs, up) = round (absorb s bs) up
after_read round s (finished, up) = round (at_end s) up
after_read round s (pending, up) = poll_of s up Polled.pending
after_read round s (failed, up) = poll_of s up Polled.failed

abbrev pub after_look : (LineLimited → Upstream → Poll) → Look → Upstream → Poll
after_look round (returns out s) up = poll_of s up (ready out)
after_look round (again s) up = round s up
after_look round (reads space s) up = after_read round s (read space up)

-- The loop of `poll_read`, with `remaining` bytes of room in the caller's buffer.
unfoldable pub poll_loop : ℕ → ℕ → LineLimited → Upstream → Poll
unfolding look read absorb at_end
poll_loop zero remaining s up = poll_of s up out_of_fuel
poll_loop (suc fuel) remaining s up = after_look (poll_loop fuel remaining) (look remaining s) up

-- The bytes still to come, and more than the reads that they may take.
abbrev pub bytes_of : Upstream → Text
bytes_of [] = []
bytes_of (bytes c s ∷ up) = (c ∷ s) ++ bytes_of up
bytes_of (_ ∷ up) = bytes_of up

abbrev pub reads_left : Upstream → ℕ
reads_left [] = 0
reads_left (bytes c s ∷ up) = suc (suc (length s)) + reads_left up
reads_left (_ ∷ up) = suc (reads_left up)

unfoldable pub poll_read : ℕ → LineLimited → Upstream → Poll
unfolding poll_loop
poll_read remaining s up =
    if eqb remaining 0
    then poll_of s up (ready [])
    else poll_loop (3 * reads_left up + 4) remaining s up
