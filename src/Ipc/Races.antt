-- ===== src/Ipc/Races.antt =====
-- What may happen between the two locks under which a reply is judged and the slot is taken, and
-- between an ask's deadline and the lock under which the slot is reaped.
use native.Mathlib.Decide.{ℕ_discrete}
use sequel_ace_mcp.Prelude.{ℕ, ◌≡◌, subst, refl, none, some, [], ◌∷◌, Text, text, eq_refl}
use sequel_ace_mcp.Gate.{GrantChoice, chosen}
use sequel_ace_mcp.Ipc.{
  ApprovalRequest, Message, Slot, Reply, decide, choice_of, companion_gone, timed_out,
}
use sequel_ace_mcp.Ipc.System.{
  System, returned, looking, taking, set_connection, start_at, submit, receive, reap, hello, look,
  judge, take_slot, send,
}
use sequel_ace_mcp.Ipc.Steps.{
  submits, receives, is_dropped, elapses, reaps, greets, leaves_loop, looks, judges, takes, sends,
  Reach, begin, later,
}

abbrev pub wait : Message
wait = record { op = some (text "wait"); id = none; choice = none }

abbrev word : GrantChoice → Text
word GrantChoice.once = text "once"
word GrantChoice.session = text "session"
word GrantChoice.decline = text "decline"

abbrev reply : Text → GrantChoice → Message
reply id c = record { op = some (text "reply"); id = some id; choice = some (word c) }

decide-reply :
    (s : Slot) (c : GrantChoice) → decide (some s) (reply s.request.id c) ≡ Reply.choice c
unfolding decide choice_of
decide-reply s GrantChoice.once = rw (eq_refl s.request.id) refl
decide-reply s GrantChoice.session = rw (eq_refl s.request.id) refl
decide-reply s GrantChoice.decline = rw (eq_refl s.request.id) refl

judge-reply :
    (s : System) (held : Slot) (k : ℕ) (c : GrantChoice)
    → s.slot ≡ some held
    → judge k (reply held.request.id c) s
      ≡ set_connection k (taking c) (record s { matched = (held.request.id, c) ∷ s.matched })
unfolding judge
judge-reply s held k c e = rw (e, decide-reply held c) refl

module _ (request : ℕ → ApprovalRequest) (c : GrantChoice) where
  abbrev pub slot_of : ℕ → Slot
  slot_of n = record { request = request n; tx = n }

  -- The first ask waits, and its companion has been shown its request.
  abbrev pub asked : System
  asked = look 0 (set_connection 0 looking (hello 0 wait (submit (request 0) 0 start_at)))

  abbrev pub judged : System
  judged = set_connection 0 (taking c) (record asked { matched = ((request 0).id, c) ∷ [] })

  pub Reach-judged : Reach request judged
  unfolding submit hello look ℕ_discrete
  Reach-judged = subst (Reach request) (judge-reply asked (slot_of 0) 0 c refl) (
      later
        (later
          (later (later (later begin (submits 0 refl)) (greets 0 wait refl)) (leaves_loop 0 refl))
          (looks 0 refl))
        (judges 0 (reply (request 0).id c) refl))

  -- A companion's choice for one request answers another: the deadline of the first ask passes and a
  -- second ask fills the slot after the reply was accepted and before the slot is taken. No reply
  -- but the one under the first request's id was ever accepted.
  pub choice_for_another :
      (s : System) × Reach request s
      × (s.ask 0 ≡ returned timed_out)
      × (s.ask 1 ≡ returned (chosen c))
      × (s.matched ≡ ((request 0).id, c) ∷ [])
  unfolding submit receive reap hello look take_slot send ℕ_discrete
  choice_for_another = (
    _,
    later
        (later
          (later
            (later (later (later Reach-judged (elapses 0 refl)) (reaps 0 refl)) (submits 1 refl))
            (takes 0 c refl))
          (sends 0 c 1 refl))
        (receives 1 c refl),
    refl,
    refl,
    refl,
  )

  -- The deadline of the first ask passes after its slot was taken; when it reaps the slot, the slot
  -- holds the second request, which ends unanswered and before its own deadline.
  pub reaped_by_another :
      (s : System) × Reach request s
      × (s.ask 0 ≡ returned timed_out)
      × (s.ask 1 ≡ returned companion_gone)
  unfolding submit reap hello look take_slot ℕ_discrete
  reaped_by_another = (
    _,
    later
        (later
          (later (later (later Reach-judged (takes 0 c refl)) (elapses 0 refl)) (submits 1 refl))
          (reaps 0 refl))
        (is_dropped 1 refl),
    refl,
    refl,
  )
