-- ===== src/Transport/Lines/Reading.antt =====
-- A caller that reads to the end.
use sequel_ace_mcp.Prelude.{
  ℕ, zero, suc, ◌+◌, ◌-◌, ◌*◌, ◌≤◌, ◌<◌, ◌≡◌, ◌≢◌, ◌⊎◌, false, refl, sym, ap, ◌∙◌, Option, none,
  some, List, [], ◌∷◌, ◌++◌, arith, Text, length, take, drop, length-append, length-drop, eqb, ltb,
  inl, inr, Bool-cases, Option-cases, All,
}
use sequel_ace_mcp.Transport.Lines.{
  Phase, filling, draining, discarding, eof, LineLimited, with_limit, Look, returns, again, reads,
  look, absorb, at_end, unended, min, position, Event, bytes, Upstream, Reply, data_of, finished,
  read, bytes_of, reads_left, Poll, Polled, ready, out_of_fuel, poll_loop, poll_read, unread,
  after_read, after_look,
}
use sequel_ace_mcp.Transport.Lines.Accepted.{accepted}
use sequel_ace_mcp.Transport.Lines.View.{reader, owed, IsValid, IsReading, IsReading-le, Kept}
use sequel_ace_mcp.Transport.Lines.Absorbing.{Absorbed-reader, Ended-reader}
use sequel_ace_mcp.Transport.Lines.Fuel.{
  Serves, put_out, poll_read-Serves, Kept-round, IsRead, read-IsRead,
}

-- Every read finds bytes or the end.
abbrev pub IsBytes : Event → Type 0
IsBytes (bytes c s) = Unit
IsBytes _ = ⊥

abbrev pub IsSteady : Upstream → Type 0
IsSteady up = All IsBytes up

IsSteady-unread : (s : Text) (up : Upstream) → IsSteady up → IsSteady (unread s up)
IsSteady-unread [] up h = h
IsSteady-unread (c ∷ s) up h = (tt, h)

-- A call that is over has put something out, or the reader is at the end.
abbrev MovesTo : Polled → LineLimited → Upstream → Type 0
MovesTo (ready out) s up = IsSteady up × ((out ≢ []) ⊎ (s.phase ≡ eof))
MovesTo out_of_fuel s up = Unit
MovesTo _ s up = ⊥

abbrev Moves : Poll → Type 0
Moves p = MovesTo p.result p.reader p.upstream

abbrev Puts : Look → Type 0
Puts (returns out s) = (out ≢ []) ⊎ (s.phase ≡ eof)
Puts _ = Unit

take-ne-nil {ℓ} : {A : Type ℓ} (n : ℕ) (xs : List A) → 1 ≤ n → 1 ≤ length xs → take n xs ≢ []
take-ne-nil n [] h k = absurd (omega arith)
take-ne-nil zero (x ∷ xs) h k = absurd (omega arith)
take-ne-nil (suc n) (x ∷ xs) h k = λ e. cc

Puts-unended : (s : LineLimited) → Puts (unended s)
Puts-unended s = elim (Bool-cases (ltb s.limit (length s.buf))) [
  | inl long ↦ rw long tt
  | inr short ↦ rw short tt
]

Puts-reader :
    (remaining : ℕ) (phase : Phase) (buf : Text) (scanned total limit dropped : ℕ)
    → 1 ≤ remaining
    → IsValid (reader phase buf scanned total limit dropped)
    → Puts (look remaining (reader phase buf scanned total limit dropped))
unfolding look
Puts-reader remaining discarding buf scanned total limit dropped room v = tt
Puts-reader remaining (draining d) buf scanned total limit dropped room v = inl (
    take-ne-nil (min (total - d) remaining) (drop d buf) (ground (arith, v.0))
      (omega (arith, v.0, v.1, length-drop d buf)))
Puts-reader remaining eof buf scanned total limit dropped room v = inr refl
Puts-reader remaining filling buf scanned total limit dropped room v =
    elim (Bool-cases (ltb scanned (length buf))) [
      | inl unsearched ↦ elim (Option-cases (position (drop scanned buf))) [
        | inl missing ↦ rw (unsearched, missing) (Puts-unended _)
        | inr (i, found) ↦ rw (unsearched, found) tt
      ]
      | inr searched ↦ rw searched (Puts-unended _)
    ]

abbrev IsSteadyReply : Reply × Upstream → Type 0
IsSteadyReply (data_of bs, up) = IsSteady up
IsSteadyReply (finished, up) = IsSteady up
IsSteadyReply _ = ⊥

IsSteady-read : (space : ℕ) (up : Upstream) → IsSteady up → IsSteadyReply (read space up)
unfolding read
IsSteady-read space [] h = tt
IsSteady-read space (bytes c s ∷ up) h = IsSteady-unread (drop space (c ∷ s)) up h.1
IsSteady-read space (Event.waits ∷ up) h = absurd h.0
IsSteady-read space (Event.fails ∷ up) h = absurd h.0

module _ (round : LineLimited → Upstream → Poll) where
  abbrev Moving : Type 0
  Moving = (s : LineLimited) (up : Upstream) → IsValid s → IsSteady up → Moves (round s up)

  Moves-after_read :
      (s : LineLimited) (up : Upstream) (space : ℕ) (r : Reply × Upstream)
      → Moving
      → IsValid s
      → 1 ≤ space
      → IsReading space s
      → IsRead space up r
      → IsSteadyReply r
      → Moves (after_read round s r)
  Moves-after_read s up space (data_of bs, up1) moving v k reading (e, fits, fewer) steady =
      let a =
        Absorbed-reader [] s.phase s.buf bs s.scanned s.total s.limit s.dropped v
          (IsReading-le s (length bs) space fits reading) in
      moving (absorb s bs) up1 a.0 steady
  Moves-after_read s up space (finished, up1) moving v k reading e steady =
      let a = Ended-reader s.phase s.buf s.scanned s.total s.limit s.dropped space v k reading in
      moving (at_end s) up1 a.0 steady
  Moves-after_read s up space (Reply.pending, up1) moving v k reading e steady = absurd steady
  Moves-after_read s up space (Reply.failed, up1) moving v k reading e steady = absurd steady

  Moves-after_look :
      (s : LineLimited) (up : Upstream) (l : Look)
      → Moving
      → Kept s [] l
      → Puts l
      → IsSteady up
      → Moves (after_look round l up)
  Moves-after_look s up (returns out s1) moving kept puts steady = (steady, puts)
  Moves-after_look s up (again s1) moving (v, l, e) puts steady = moving s1 up v steady
  Moves-after_look s up (reads space s1) moving (v, l, e, k, reading) puts steady =
      Moves-after_read s1 up space (read space up) moving v k reading (read-IsRead space up k)
        (IsSteady-read space up steady)

Moves-poll_loop :
    (fuel remaining : ℕ) (s : LineLimited) (up : Upstream)
    → 1 ≤ remaining
    → IsValid s
    → IsSteady up
    → Moves (poll_loop fuel remaining s up)
unfolding poll_loop
Moves-poll_loop zero remaining s up room v steady = tt
Moves-poll_loop (suc fuel) remaining s up room v steady =
    Moves-after_look (poll_loop fuel remaining) s up (look remaining s)
      (λ s1 up1 v1 t1. Moves-poll_loop fuel remaining s1 up1 room v1 t1)
      (Kept-round [] remaining s room v)
      (Puts-reader remaining s.phase s.buf s.scanned s.total s.limit s.dropped room v) steady

-- How a call on a steady input ends.
abbrev IsOver : LineLimited → Upstream → Poll → Type 0
IsOver s up p =
    (out : Text) × (p.result ≡ ready out)
    × IsValid p.reader
    × IsSteady p.upstream
    × (owed s (bytes_of up) ≡ out ++ owed p.reader (bytes_of p.upstream))
    × ((out ≢ []) ⊎ (p.reader.phase ≡ eof))

result-IsOver :
    (s : LineLimited) (up : Upstream) (p : Poll) (r : Polled)
    → p.result ≡ r
    → r ≢ out_of_fuel
    → Serves s up p
    → MovesTo r p.reader p.upstream
    → IsOver s up p
result-IsOver s up p (ready out) e n v m = (
  out,
  e,
  v.valid,
  m.0,
  v.served ∙ ap (λ r. put_out r ++ owed p.reader (bytes_of p.upstream)) e,
  m.1,
)
result-IsOver s up p Polled.pending e n v m = absurd m
result-IsOver s up p Polled.failed e n v m = absurd m
result-IsOver s up p out_of_fuel e n v m = absurd (n refl)

poll_read-IsOver :
    (room : ℕ) (s : LineLimited) (up : Upstream)
    → IsValid s
    → IsSteady up
    → IsOver s up (poll_read (suc room) s up)
unfolding poll_read
poll_read-IsOver room s up v steady =
    let (ends, serves) = poll_read-Serves (suc room) s up v in
    result-IsOver s up (poll_read (suc room) s up) (poll_read (suc room) s up).result refl ends
      serves moves
  where
    room_left : eqb (suc room) 0 ≡ false
    room_left = ground arith

    moves : Moves (poll_read (suc room) s up)
    moves =
        rw room_left
          (Moves-poll_loop (3 * reads_left up + 4) (suc room) s up (omega arith) v steady)

abbrev prepend_text : Text → Option Text → Option Text
prepend_text s none = none
prepend_text s (some t) = some (s ++ t)

abbrev next_part : Text → Option Text → Option Text
next_part [] rest = some []
next_part (c ∷ s) rest = prepend_text (c ∷ s) rest

abbrev part_of : Polled → Option Text → Option Text
part_of (ready out) rest = next_part out rest
part_of _ rest = none

-- A caller with room for `room + 1` bytes that reads until a call puts out nothing; `none` if that takes
-- more than `calls` calls, or if a call does not put out bytes.
abbrev pub read_to_end : (calls room : ℕ) → LineLimited → Upstream → Option Text
read_to_end zero room s up = none
read_to_end (suc calls) room s up =
    let p = poll_read (suc room) s up in
    let rest = read_to_end calls room p.reader p.upstream in part_of p.result rest

length-pos : (s : Text) → s ≢ [] → 1 ≤ length s
length-pos [] h = absurd (h refl)
length-pos (c ∷ s) h = omega arith

owed-eof : (s : LineLimited) (rest : Text) → s.phase ≡ eof → owed s rest ≡ []
owed-eof s rest h = simp h

-- One call of the reading: it puts out all, or the next calls put out what is left.
read_part :
    (p : Poll) (out all_owed : Text) (rest : Option Text)
    → p.result ≡ ready out
    → all_owed ≡ out ++ owed p.reader (bytes_of p.upstream)
    → (out ≢ []) ⊎ (p.reader.phase ≡ eof)
    → (out ≢ [] → rest ≡ some (owed p.reader (bytes_of p.upstream)))
    → part_of p.result rest ≡ some all_owed
read_part p [] all_owed rest e served (inl some_out) later = absurd (some_out refl)
read_part p [] all_owed rest e served (inr at_eof) later =
    rw e (ap some (sym (served ∙ owed-eof p.reader (bytes_of p.upstream) at_eof)))
read_part p (c ∷ out) all_owed rest e served how later =
    rw (e, later (λ h. cc)) (ap some (sym served))

read_to_end-owed :
    (calls room : ℕ) (s : LineLimited) (up : Upstream)
    → IsValid s
    → IsSteady up
    → length (owed s (bytes_of up)) < calls
    → read_to_end calls room s up ≡ some (owed s (bytes_of up))
read_to_end-owed zero room s up v steady enough = absurd (omega arith)
read_to_end-owed (suc calls) room s up v steady enough =
    let (out, e, v1, t1, served, how) = poll_read-IsOver room s up v steady in
    let p = poll_read (suc room) s up in
    let sizes = ap length served ∙ length-append out (owed p.reader (bytes_of p.upstream)) in
    read_part p out (owed s (bytes_of up)) (read_to_end calls room p.reader p.upstream) e served how
      (λ some_out.
        read_to_end-owed calls room p.reader p.upstream v1 t1
          (omega (arith, enough, sizes, length-pos out some_out)))

-- A new reader, behind which the input arrives in any chunks, gives a caller with any room, which reads
-- until a call puts out nothing, exactly the lines of at most `limit` bytes, whole and in their order,
-- after at most one call more than these have bytes.
pub read_to_end-accepted :
    (calls room limit : ℕ) (up : Upstream)
    → IsSteady up
    → length (accepted limit [] (bytes_of up)) < calls
    → read_to_end calls room (with_limit limit) up ≡ some (accepted limit [] (bytes_of up))
read_to_end-accepted calls room limit up steady enough =
    read_to_end-owed calls room (with_limit limit) up (omega arith, omega arith, tt) steady enough
