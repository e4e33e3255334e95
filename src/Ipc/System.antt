-- ===== src/Ipc/System.antt =====
-- The asks and the companions' connections over the one slot: what each does between two awaits or
-- under one lock.
use Prim.Native.Nat.{ℕ, suc}
use mathlib.Core.Logic.{ite}
use native.Mathlib.Decide.{ℕ_discrete}
use sequel_ace_mcp.Prelude.{Option, none, some, List, [], ◌∷◌, Text, text, if◌then◌else◌, unwrap_or}
use sequel_ace_mcp.Gate.{GrantChoice, ConfirmOutcome}
use sequel_ace_mcp.Ipc.{
  ApprovalRequest, Slot, Message, op_is, is_wait, Reply, stale, bad_choice, decide, answered,
  already_pending, timed_out,
}

-- The one-time channel of an ask: nothing yet, a choice, or the sender is dropped.
pub data Channel : Type 0 where
  empty : Channel
  sent : GrantChoice → Channel
  gone : Channel

-- Where a call of `ask` stands. `elapsed` is past the deadline, before the slot is reaped.
pub data Ask : Type 0 where
  idle : Ask
  waiting : Channel → Ask
  elapsed : Ask
  returned : ConfirmOutcome → Ask

-- Where a call of `handle_connection` stands.
pub data Connection : Type 0 where
  accepted : Connection  -- before its first line
  polling : Connection
  looking : Connection  -- behind the loop
  shown : Connection  -- the request is written
  taking : GrantChoice → Connection  -- the reply is accepted
  sending : GrantChoice → ℕ → Connection  -- the slot is taken
  closed : Connection

-- `matched` is not the program's: it keeps the id and the choice of every reply that was accepted.
pub record System : Type 0 where
  pub slot : Option Slot
  pub ask : ℕ → Ask
  pub connection : ℕ → Connection
  pub served : ℕ
  pub matched : List (Text × GrantChoice)

abbrev pub update {ℓ} : {A : Type ℓ} → (ℕ → A) → ℕ → A → ℕ → A
update f i a j = ite (ℕ_discrete i j) a (f j)

abbrev pub set_ask : ℕ → Ask → System → System
set_ask i a s = record s { ask = update s.ask i a }

abbrev pub set_connection : ℕ → Connection → System → System
set_connection k c s = record s { connection = update s.connection k c }

-- `ApprovalIpc::start_at`.
abbrev pub start_at : System
start_at = record {
  slot = none;
  ask = λ i. idle;
  connection = λ k. accepted;
  served = 0;
  matched = [];
}

abbrev pub enter : Option Slot → ApprovalRequest → ℕ → System → System
enter (some pending) request i s = set_ask i (returned already_pending) s
enter none request i s =
    set_ask i (waiting empty) (record s { slot = some (record { request = request; tx = i }) })

-- `ask` up to its await.
unfoldable pub submit : ApprovalRequest → ℕ → System → System
submit request i s = enter s.slot request i s

-- `ask` when the channel gives a choice.
unfoldable pub receive : ℕ → GrantChoice → System → System
receive i c s = set_ask i (returned (answered c)) (record s { served = suc s.served })

-- The sender goes with the slot that holds it.
abbrev pub drop_sender : Ask → Ask
drop_sender (waiting empty) = waiting gone
drop_sender a = a

abbrev pub drop_slot : Option Slot → System → System
drop_slot none s = s
drop_slot (some held) s = set_ask held.tx (drop_sender (s.ask held.tx)) (record s { slot = none })

-- `ask` past its deadline: whatever the slot holds is dropped.
unfoldable pub reap : ℕ → System → System
reap i s = set_ask i (returned timed_out) (drop_slot s.slot s)

unfoldable pub hello : ℕ → Message → System → System
hello k m s = set_connection k (if is_wait m then polling else closed) s

abbrev pub looked : Option Slot → Connection
looked none = closed
looked (some held) = shown

-- The request goes to the companion, or `empty` does.
unfoldable pub look : ℕ → System → System
look k s = set_connection k (looked s.slot) s

abbrev pub decided : Reply → ℕ → Text → System → System
decided (Reply.choice c) k id s =
    set_connection k (taking c) (record s { matched = (id, c) ∷ s.matched })
decided stale k id s = set_connection k closed s
decided bad_choice k id s = set_connection k closed s

-- The reply is judged under the lock.
unfoldable pub judge : ℕ → Message → System → System
judge k m s =
    if op_is m (text "reply")
    then decided (decide s.slot m) k (unwrap_or m.id []) s
    else set_connection k closed s

abbrev pub taken : Option Slot → ℕ → GrantChoice → System → System
taken none k c s = set_connection k closed s
taken (some held) k c s = set_connection k (sending c held.tx) (record s { slot = none })

-- The slot is taken under a second lock.
unfoldable pub take_slot : ℕ → GrantChoice → System → System
take_slot k c s = taken s.slot k c s

abbrev pub put_choice : GrantChoice → Ask → Ask
put_choice c (waiting empty) = waiting (sent c)
put_choice c a = a

-- `slot.tx.send(choice)`; it does nothing for an ask that no longer listens.
unfoldable pub send : ℕ → GrantChoice → ℕ → System → System
send k c i s = set_connection k closed (set_ask i (put_choice c (s.ask i)) s)
