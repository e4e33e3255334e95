-- ===== src/Ipc/Steps.antt =====
-- The interleavings: any ask and any connection may take the next step, and an ask's deadline may
-- pass at any time. `request i` is what the ask `i` is called with.
use sequel_ace_mcp.Prelude.{ℕ, ◌≡◌}
use sequel_ace_mcp.Gate.{GrantChoice}
use sequel_ace_mcp.Ipc.{ApprovalRequest, Message, companion_gone}
use sequel_ace_mcp.Ipc.System.{
  empty, sent, gone, idle, waiting, elapsed, returned, accepted, polling, looking, shown, taking,
  sending, closed, System, set_ask, set_connection, start_at, submit, receive, reap, hello, look,
  judge, take_slot, send,
}

pub data Step (request : ℕ → ApprovalRequest) (s : System) : System → Type 0 where
  submits : (i : ℕ) → s.ask i ≡ idle → Step request s (submit (request i) i s)
  receives : (i : ℕ) (c : GrantChoice) → s.ask i ≡ waiting (sent c) → Step request s (receive i c s)
  is_dropped :
      (i : ℕ) → s.ask i ≡ waiting gone → Step request s (set_ask i (returned companion_gone) s)
  elapses : (i : ℕ) → s.ask i ≡ waiting empty → Step request s (set_ask i elapsed s)
  reaps : (i : ℕ) → s.ask i ≡ elapsed → Step request s (reap i s)
  greets : (k : ℕ) (m : Message) → s.connection k ≡ accepted → Step request s (hello k m s)
  leaves_loop : (k : ℕ) → s.connection k ≡ polling → Step request s (set_connection k looking s)
  looks : (k : ℕ) → s.connection k ≡ looking → Step request s (look k s)
  judges : (k : ℕ) (m : Message) → s.connection k ≡ shown → Step request s (judge k m s)
  -- No line, or one that is no message; or the request could not be written.
  hangs_up : (k : ℕ) → s.connection k ≡ shown → Step request s (set_connection k closed s)
  takes : (k : ℕ) (c : GrantChoice) → s.connection k ≡ taking c → Step request s (take_slot k c s)
  sends :
      (k : ℕ) (c : GrantChoice) (i : ℕ)
      → s.connection k ≡ sending c i
      → Step request s (send k c i s)

pub data Reach (request : ℕ → ApprovalRequest) : System → Type 0 where
  begin : Reach request start_at
  later : {s t : System} → Reach request s → Step request s t → Reach request t
