-- ===== src/Transport/Lines/Fuel.antt =====
-- The loop of `poll_read`: it ends, and what the reader owes is put out as it should be.
use sequel_ace_mcp.Prelude.{
  ℕ, zero, suc, ◌+◌, ◌*◌, ◌≤◌, ◌<◌, ◌≡◌, ◌≢◌, refl, sym, ap, ◌∙◌, [], ◌∷◌, ◌++◌, append_assoc,
  arith, Text, length, take, drop, take-append-drop, length-drop, length-take_le, eqb, ltb,
  Option-cases, inl, inr, Bool-cases,
}
use sequel_ace_mcp.Transport.Lines.{
  Phase, filling, draining, discarding, eof, LineLimited, Look, returns, again, reads, look, absorb,
  at_end, unended, position, Event, bytes, Upstream, Reply, data_of, finished, read, bytes_of,
  reads_left, Poll, Polled, ready, out_of_fuel, poll_loop, poll_read, unread, after_read,
  after_look,
}
use sequel_ace_mcp.Transport.Lines.View.{reader, owed, IsValid, IsReading, IsReading-le, Kept}
use sequel_ace_mcp.Transport.Lines.Looking.{Kept-look}
use sequel_ace_mcp.Transport.Lines.Absorbing.{Absorbed-reader, Ended-reader}

pub Kept-round :
    (rest : Text) (remaining : ℕ) (s : LineLimited)
    → 1 ≤ remaining
    → IsValid s
    → Kept s rest (look remaining s)
Kept-round rest remaining s room v =
    Kept-look rest remaining room s.phase s.buf s.scanned s.total s.limit s.dropped v

-- What a read of `space` bytes tells of the input.
abbrev pub IsRead : ℕ → Upstream → Reply × Upstream → Type 0
IsRead space up (data_of bs, up1) =
    (bytes_of up ≡ bs ++ bytes_of up1) × (length bs ≤ space) × (reads_left up1 < reads_left up)
IsRead space up (finished, up1) =
    (bytes_of up ≡ []) × (bytes_of up1 ≡ []) × (reads_left up1 ≤ reads_left up)
IsRead space up (_, up1) = bytes_of up ≡ bytes_of up1

unread-bytes_of : (s : Text) (up : Upstream) → bytes_of (unread s up) ≡ s ++ bytes_of up
unread-bytes_of [] up = refl
unread-bytes_of (c ∷ s) up = refl

reads_left-unread :
    (s : Text) (up : Upstream) → reads_left (unread s up) ≤ suc (length s) + reads_left up
reads_left-unread [] up = omega arith
reads_left-unread (c ∷ s) up = omega arith

pub read-IsRead : (space : ℕ) (up : Upstream) → 1 ≤ space → IsRead space up (read space up)
unfolding read
read-IsRead space [] h = (refl, refl, omega arith)
read-IsRead space (bytes c s ∷ up) h = (
  ap (λ l. l ++ bytes_of up) (sym (take-append-drop space (c ∷ s)))
      ∙ append_assoc (take space (c ∷ s)) (drop space (c ∷ s)) (bytes_of up)
      ∙ ap (λ l. take space (c ∷ s) ++ l) (sym (unread-bytes_of (drop space (c ∷ s)) up)),
  length-take_le space (c ∷ s),
  omega (arith, reads_left-unread (drop space (c ∷ s)) up, length-drop space (c ∷ s)),
)
read-IsRead space (Event.waits ∷ up) h = refl
read-IsRead space (Event.fails ∷ up) h = refl

abbrev pub put_out : Polled → Text
put_out (ready out) = out
put_out _ = []

-- The call puts out what comes first of what was owed, and leaves a valid reader that owes the rest.
pub record Serves (s : LineLimited) (up : Upstream) (p : Poll) : Type 0 where
  pub valid : IsValid p.reader
  pub limit : p.reader.limit ≡ s.limit
  pub served : owed s (bytes_of up) ≡ put_out p.result ++ owed p.reader (bytes_of p.upstream)

Serves-from :
    (s s1 : LineLimited) (up up1 : Upstream) (p : Poll)
    → s1.limit ≡ s.limit
    → owed s (bytes_of up) ≡ owed s1 (bytes_of up1)
    → Serves s1 up1 p
    → Serves s up p
Serves-from s s1 up up1 p l e h = record {
  valid = h.valid;
  limit = h.limit ∙ l;
  served = e ∙ h.served;
}

module _ (round : LineLimited → Upstream → Poll) where
  abbrev Serving : Type 0
  Serving = (s : LineLimited) (up : Upstream) → IsValid s → Serves s up (round s up)

  Serves-after_read :
      (s : LineLimited) (up : Upstream) (space : ℕ) (r : Reply × Upstream)
      → Serving
      → IsValid s
      → 1 ≤ space
      → IsReading space s
      → IsRead space up r
      → Serves s up (after_read round s r)
  Serves-after_read s up space (Reply.data_of bs, up1) serving v k reading (e, fits, fewer) =
      let a =
        Absorbed-reader (bytes_of up1) s.phase s.buf bs s.scanned s.total s.limit s.dropped v
          (IsReading-le s (length bs) space fits reading) in
      Serves-from s (absorb s bs) up up1 _ a.1 (ap (owed s) e ∙ a.2) (serving (absorb s bs) up1 a.0)
  Serves-after_read s up space (Reply.finished, up1) serving v k reading (e, e1, fewer) =
      let a = Ended-reader s.phase s.buf s.scanned s.total s.limit s.dropped space v k reading in
      Serves-from s (at_end s) up up1 _ a.1 (ap (owed s) e ∙ a.2 ∙ ap (owed (at_end s)) (sym e1))
        (serving (at_end s) up1 a.0)
  Serves-after_read s up space (Reply.pending, up1) serving v k reading e = record {
    valid = v;
    limit = refl;
    served = ap (owed s) e;
  }
  Serves-after_read s up space (Reply.failed, up1) serving v k reading e = record {
    valid = v;
    limit = refl;
    served = ap (owed s) e;
  }

  Serves-after_look :
      (s : LineLimited) (up : Upstream) (l : Look)
      → Serving
      → Kept s (bytes_of up) l
      → Serves s up (after_look round l up)
  Serves-after_look s up (returns out s1) serving (v, l, e) = record {
    valid = v;
    limit = l;
    served = e;
  }
  Serves-after_look s up (again s1) serving (v, l, e) =
      Serves-from s s1 up up _ l e (serving s1 up v)
  Serves-after_look s up (reads space s1) serving (v, l, e, k, reading) =
      Serves-from s s1 up up _ l e
        (Serves-after_read s1 up space (read space up) serving v k reading (read-IsRead space up k))

Serves-poll_loop :
    (fuel remaining : ℕ) (s : LineLimited) (up : Upstream)
    → 1 ≤ remaining
    → IsValid s
    → Serves s up (poll_loop fuel remaining s up)
unfolding poll_loop
Serves-poll_loop zero remaining s up room v = record { valid = v; limit = refl; served = refl }
Serves-poll_loop (suc fuel) remaining s up room v =
    Serves-after_look (poll_loop fuel remaining) s up (look remaining s)
      (λ s1 up1. Serves-poll_loop fuel remaining s1 up1 room)
      (Kept-round (bytes_of up) remaining s room v)

-- The rounds that a phase may take without a read.
abbrev rank : Phase → ℕ
rank filling = 2
rank discarding = 1
rank _ = 0

rank-le : (p : Phase) → rank p ≤ 2
rank-le filling = omega arith
rank-le discarding = omega arith
rank-le (draining d) = omega arith
rank-le eof = omega arith

rank-at_end_reader :
    (phase : Phase) (buf : Text) (scanned total limit dropped : ℕ)
    → rank (at_end (reader phase buf scanned total limit dropped)).phase ≡ 0
unfolding at_end
rank-at_end_reader discarding buf scanned total limit dropped = refl
rank-at_end_reader filling buf scanned total limit dropped = ground arith
rank-at_end_reader (draining d) buf scanned total limit dropped = ground arith
rank-at_end_reader eof buf scanned total limit dropped = ground arith

rank-at_end : (s : LineLimited) → rank (at_end s).phase ≡ 0
rank-at_end s = rank-at_end_reader s.phase s.buf s.scanned s.total s.limit s.dropped

-- A round that does not end the call lowers the rank.
abbrev Lowers : LineLimited → Look → Type 0
Lowers s (returns out s1) = Unit
Lowers s (again s1) = rank s1.phase < rank s.phase
Lowers s (reads space s1) = 1 ≤ rank s.phase

Lowers-unended :
    (buf : Text) (scanned searched total limit dropped : ℕ)
    → Lowers
        (reader filling buf scanned total limit dropped)
        (unended (reader filling buf searched total limit dropped))
Lowers-unended buf scanned searched total limit dropped =
    elim (Bool-cases (ltb limit (length buf))) [
      | inl long ↦ rw long (omega arith)
      | inr short ↦ rw short (omega arith)
    ]

Lowers-reader :
    (remaining : ℕ) (phase : Phase) (buf : Text) (scanned total limit dropped : ℕ)
    → Lowers
        (reader phase buf scanned total limit dropped)
        (look remaining (reader phase buf scanned total limit dropped))
unfolding look
Lowers-reader remaining discarding buf scanned total limit dropped = omega arith
Lowers-reader remaining (draining d) buf scanned total limit dropped = tt
Lowers-reader remaining eof buf scanned total limit dropped = tt
Lowers-reader remaining filling buf scanned total limit dropped =
    elim (Bool-cases (ltb scanned (length buf))) [
      | inl unsearched ↦ elim (Option-cases (position (drop scanned buf))) [
        | inl missing ↦
            rw (unsearched, missing) (Lowers-unended buf scanned (length buf) total limit dropped)
        | inr (i, found) ↦ rw (unsearched, found) (omega arith)
      ]
      | inr searched ↦ rw searched (Lowers-unended buf scanned scanned total limit dropped)
    ]

Lowers-look : (remaining : ℕ) (s : LineLimited) → Lowers s (look remaining s)
Lowers-look remaining s = Lowers-reader remaining s.phase s.buf s.scanned s.total s.limit s.dropped

module _ (round : LineLimited → Upstream → Poll) (fuel : ℕ) where
  abbrev Ending : Type 0
  Ending =
      (s : LineLimited) (up : Upstream)
      → IsValid s
      → 3 * reads_left up + rank s.phase < fuel
      → (round s up).result ≢ out_of_fuel

  Ends-after_read :
      (s : LineLimited) (up : Upstream) (space : ℕ) (r : Reply × Upstream)
      → Ending
      → IsValid s
      → 1 ≤ space
      → IsReading space s
      → IsRead space up r
      → 3 * reads_left up < fuel
      → (after_read round s r).result ≢ out_of_fuel
  Ends-after_read s up space (data_of bs, up1) ending v k reading (e, fits, fewer) enough =
      let a =
        Absorbed-reader [] s.phase s.buf bs s.scanned s.total s.limit s.dropped v
          (IsReading-le s (length bs) space fits reading) in
      ending (absorb s bs) up1 a.0 (omega (arith, rank-le (absorb s bs).phase))
  Ends-after_read s up space (finished, up1) ending v k reading (e, e1, fewer) enough =
      let a = Ended-reader s.phase s.buf s.scanned s.total s.limit s.dropped space v k reading in
      ending (at_end s) up1 a.0 (omega (arith, rank-at_end s))
  Ends-after_read s up space (Reply.pending, up1) ending v k reading e enough = λ h. cc
  Ends-after_read s up space (Reply.failed, up1) ending v k reading e enough = λ h. cc

  Ends-after_look :
      (s : LineLimited) (up : Upstream) (l : Look)
      → Ending
      → Kept s [] l
      → Lowers s l
      → 3 * reads_left up + rank s.phase < suc fuel
      → (after_look round l up).result ≢ out_of_fuel
  Ends-after_look s up (returns out s1) ending kept lower enough = λ h. cc
  Ends-after_look s up (again s1) ending (v, l, e) lower enough = ending s1 up v (omega arith)
  Ends-after_look s up (reads space s1) ending (v, l, e, k, reading) lower enough =
      Ends-after_read s1 up space (read space up) ending v k reading (read-IsRead space up k)
        (omega arith)

poll_loop-ends :
    (fuel remaining : ℕ) (s : LineLimited) (up : Upstream)
    → 1 ≤ remaining
    → IsValid s
    → 3 * reads_left up + rank s.phase < fuel
    → (poll_loop fuel remaining s up).result ≢ out_of_fuel
unfolding poll_loop
poll_loop-ends zero remaining s up room v enough = absurd (omega arith)
poll_loop-ends (suc fuel) remaining s up room v enough =
    Ends-after_look (poll_loop fuel remaining) fuel s up (look remaining s)
      (λ s1 up1. poll_loop-ends fuel remaining s1 up1 room) (Kept-round [] remaining s room v)
      (Lowers-look remaining s) enough

-- Whatever the reader behind it does, a call of `poll_read` on a valid reader ends; it puts out what comes
-- first of the bytes owed, leaving a valid reader, with the same limit, that owes the rest.
pub poll_read-Serves :
    (remaining : ℕ) (s : LineLimited) (up : Upstream)
    → IsValid s
    → ((poll_read remaining s up).result ≢ out_of_fuel) × Serves s up (poll_read remaining s up)
unfolding poll_read
poll_read-Serves remaining s up v = elim (Bool-cases (eqb remaining 0)) [
  | inl no_room ↦ rw no_room (λ h. cc, record { valid = v; limit = refl; served = refl })
  | inr room ↦ rw room (
    poll_loop-ends (3 * reads_left up + 4) remaining s up (ground arith) v
        (omega (arith, rank-le s.phase)),
    Serves-poll_loop (3 * reads_left up + 4) remaining s up (ground arith) v,
  )
]
