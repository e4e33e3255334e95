-- ===== src/Ipc/Served.antt =====
-- Every step keeps the invariant, so that no ask returns a choice that no companion sent.
use sequel_ace_mcp.Prelude.{
  suc, Bool, false, [], ◌==◌, ℕ, ◌≡◌, ◌≢◌, inl, inr, refl, true, Option, none, some, ◌∷◌, text,
  Bool-cases, eq_iff, unwrap_or, if◌then◌else◌, Any, arith, subst,
}
use sequel_ace_mcp.Gate.{GrantChoice, chosen}
use sequel_ace_mcp.Ipc.{
  ApprovalRequest, Slot, Message, Reply, stale, bad_choice, is_wait, op_is, choice_of, decide,
}
use sequel_ace_mcp.Ipc.System.{
  Ask, System, empty, sent, gone, idle, waiting, elapsed, returned, polling, looking, shown, taking,
  sending, closed, set_ask, set_connection, enter, drop_slot, drop_sender, put_choice, submit,
  receive, reap, hello, looked, look, decided, judge, taken, take_slot, send,
}
use sequel_ace_mcp.Ipc.Steps.{
  Step, submits, receives, is_dropped, elapses, reaps, greets, leaves_loop, looks, judges, hangs_up,
  takes, sends, Reach, begin, later,
}
use sequel_ace_mcp.Ipc.Vouched.{
  update_self, OfAsk, OfConnection, OfSlot, IsVouched, IsServed, set_ask-IsServed,
  set_connection-IsServed, matched-IsServed, emptied-IsServed,
}

module _ (request : ℕ → ApprovalRequest) where
  drop_sender_lem :
      (P : GrantChoice → Type 0) (a : Ask)
      → OfAsk P a
      → (a ≢ idle → drop_sender a ≢ idle) × OfAsk P (drop_sender a)
  drop_sender_lem P idle h = (λ n. n, tt)
  drop_sender_lem P (waiting empty) h = (λ n. ground arith, tt)
  drop_sender_lem P (waiting (sent c)) h = (λ n. n, h)
  drop_sender_lem P (waiting gone) h = (λ n. n, tt)
  drop_sender_lem P elapsed h = (λ n. n, tt)
  drop_sender_lem P (returned o) h = (λ n. n, h)

  put_choice_lem :
      (P : GrantChoice → Type 0) (c : GrantChoice) (a : Ask)
      → P c
      → OfAsk P a
      → (a ≢ idle → put_choice c a ≢ idle) × OfAsk P (put_choice c a)
  put_choice_lem P c idle p h = (λ n. n, tt)
  put_choice_lem P c (waiting empty) p h = (λ n. ground arith, p)
  put_choice_lem P c (waiting (sent d)) p h = (λ n. n, h)
  put_choice_lem P c (waiting gone) p h = (λ n. n, tt)
  put_choice_lem P c elapsed p h = (λ n. n, tt)
  put_choice_lem P c (returned o) p h = (λ n. n, h)

  enter-IsServed :
      (s : System) (o : Option Slot) (i : ℕ)
      → IsServed request s
      → IsServed request (enter o (request i) i s)
  enter-IsServed s (some pending) i v = set_ask-IsServed request s i _ (λ n. ground arith) tt v
  enter-IsServed s none i v =
      let w = set_ask-IsServed request s i (waiting empty) (λ n. ground arith) tt v in
      record {
        asks = w.asks;
        connections = w.connections;
        slot_holds = (refl, rw (update_self s.ask i (waiting empty)) (λ n. ground arith));
      }

  drop_slot-IsServed :
      (s : System) (o : Option Slot) → IsServed request s → IsServed request (drop_slot o s)
  drop_slot-IsServed s none v = v
  drop_slot-IsServed s (some held) v =
      let (kept, holds) = drop_sender_lem _ (s.ask held.tx) (v.asks held.tx) in
      set_ask-IsServed request (record s { slot = none }) held.tx _ kept holds
        (emptied-IsServed request s v)

  decide-choice :
      (slot : Option Slot) (m : Message) (c : GrantChoice)
      → decide slot m ≡ Reply.choice c
      → (held : Slot) × (slot ≡ some held) × (held.request.id ≡ unwrap_or m.id [])
  unfolding decide choice_of
  decide-choice none m c e = cc
  decide-choice (some held) m c e = elim (Bool-cases (held.request.id == unwrap_or m.id [])) [
    | inl t ↦ (held, refl, (eq_iff _ _).0 t)
    | inr f ↦ ground arith
  ]

  taken-IsServed :
      (s : System) (o : Option Slot) (k : ℕ) (c : GrantChoice)
      → IsVouched request s.ask s.matched c
      → IsServed request s
      → IsServed request (taken o k c s)
  taken-IsServed s none k c p v = set_connection-IsServed request s k closed tt v
  taken-IsServed s (some held) k c p v =
      set_connection-IsServed request (record s { slot = none }) k (sending c held.tx) p
        (emptied-IsServed request s v)

  looked-IsServed :
      (s : System) (o : Option Slot) (k : ℕ)
      → IsServed request s
      → IsServed request (set_connection k (looked o) s)
  looked-IsServed s none k v = set_connection-IsServed request s k closed tt v
  looked-IsServed s (some held) k v = set_connection-IsServed request s k shown tt v

  hello-IsServed :
      (s : System) (k : ℕ) (b : Bool)
      → IsServed request s
      → IsServed request (set_connection k (if b then polling else closed) s)
  hello-IsServed s k true v = set_connection-IsServed request s k polling tt v
  hello-IsServed s k false v = set_connection-IsServed request s k closed tt v

  -- The id of the request in the slot is that of an ask.
  decided-IsServed :
      (s : System) (r : Reply) (k : ℕ) (m : Message)
      → decide s.slot m ≡ r
      → IsServed request s
      → IsServed request (decided r k (unwrap_or m.id []) s)
  unfolding IsVouched
  decided-IsServed s stale k m e v = set_connection-IsServed request s k closed tt v
  decided-IsServed s bad_choice k m e v = set_connection-IsServed request s k closed tt v
  decided-IsServed s (Reply.choice c) k m e v =
      let (held, full, same) = decide-choice s.slot m c e in
      let (its, made) = subst (OfSlot request s.ask) full v.slot_holds in
      set_connection-IsServed request (record s { matched = (unwrap_or m.id [], c) ∷ s.matched }) k
        (taking c) (held.tx, made, inl (ground arith))
        (matched-IsServed request s (unwrap_or m.id [], c) v)

  judge-IsServed :
      (s : System) (k : ℕ) (m : Message) → IsServed request s → IsServed request (judge k m s)
  unfolding judge
  judge-IsServed s k m v = elim (Bool-cases (op_is m (text "reply"))) [
    | inl e ↦ rw e (decided-IsServed s (decide s.slot m) k m refl v)
    | inr e ↦ rw e (set_connection-IsServed request s k closed tt v)
  ]

  Step-IsServed : {s t : System} → Step request s t → IsServed request s → IsServed request t
  unfolding submit receive reap hello look take_slot send
  Step-IsServed {s} (submits i e) v = enter-IsServed s s.slot i v
  Step-IsServed {s} (receives i c e) v =
      set_ask-IsServed request (record s { served = suc s.served }) i (returned (chosen c))
        (λ n. ground arith) (subst (OfAsk (IsVouched request s.ask s.matched)) e (v.asks i))
        (record { asks = v.asks; connections = v.connections; slot_holds = v.slot_holds })
  Step-IsServed {s} (is_dropped i e) v = set_ask-IsServed request s i _ (λ n. ground arith) tt v
  Step-IsServed {s} (elapses i e) v = set_ask-IsServed request s i elapsed (λ n. ground arith) tt v
  Step-IsServed {s} (reaps i e) v =
      set_ask-IsServed request (drop_slot s.slot s) i _ (λ n. ground arith) tt
        (drop_slot-IsServed s s.slot v)
  Step-IsServed {s} (greets k m e) v = hello-IsServed s k (is_wait m) v
  Step-IsServed {s} (leaves_loop k e) v = set_connection-IsServed request s k looking tt v
  Step-IsServed {s} (looks k e) v = looked-IsServed s s.slot k v
  Step-IsServed {s} (judges k m e) v = judge-IsServed s k m v
  Step-IsServed {s} (hangs_up k e) v = set_connection-IsServed request s k closed tt v
  Step-IsServed {s} (takes k c e) v =
      taken-IsServed s s.slot k c
        (subst (OfConnection (IsVouched request s.ask s.matched)) e (v.connections k)) v
  Step-IsServed {s} (sends k c i e) v =
      let p = subst (OfConnection (IsVouched request s.ask s.matched)) e (v.connections k) in
      let (kept, holds) = put_choice_lem _ c (s.ask i) p (v.asks i) in
      set_connection-IsServed request (set_ask i (put_choice c (s.ask i)) s) k closed tt
        (set_ask-IsServed request s i _ kept holds v)

  Reach-IsServed : {s : System} → Reach request s → IsServed request s
  Reach-IsServed begin = record { asks = λ i. tt; connections = λ k. tt; slot_holds = tt }
  Reach-IsServed (later r st) = Step-IsServed st (Reach-IsServed r)

-- Whatever the interleaving of the asks and the connections, an ask returns a choice only if a reply
-- with that choice was accepted under the id of a request that was made. Which of the requests that
-- was is not said: it may be another ask's.
pub returned-chosen :
    (request : ℕ → ApprovalRequest) {s : System}
    → Reach request s
    → (i : ℕ) (c : GrantChoice) → s.ask i ≡ returned (chosen c)
    → (j : ℕ) × (s.ask j ≢ idle) × Any (λ r. r ≡ ((request j).id, c)) s.matched
unfolding IsVouched
returned-chosen request {s} r i c e =
    subst (OfAsk (IsVouched request s.ask s.matched)) e ((Reach-IsServed request r).asks i)
