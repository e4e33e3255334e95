-- ===== src/Ipc/Tests.antt =====
-- The approval channel on two requests.
use native.Mathlib.Decide.{ℕ_discrete}
use sequel_ace_mcp.Prelude.{ℕ, ◌≡◌, ◌≢◌, refl, none, some, [], ◌∷◌, text, Any}
use sequel_ace_mcp.Policy.Lexical.{trim}
use sequel_ace_mcp.Gate.{GrantChoice, chosen}
use sequel_ace_mcp.Ipc.{ApprovalRequest, read_line, timed_out}
use sequel_ace_mcp.Ipc.System.{
  System, idle, returned, submit, receive, hello, look, take_slot, send,
}
use sequel_ace_mcp.Ipc.Steps.{takes, sends, receives, Reach, later}
use sequel_ace_mcp.Ipc.Served.{returned-chosen}
use sequel_ace_mcp.Ipc.Races.{judged, Reach-judged, choice_for_another}

-- The requests are told apart by their ids.
abbrev requests : ℕ → ApprovalRequest
requests n = record {
  id = n ∷ [];
  category = text "write";
  connection = text "shop";
  database = none;
  tables = text "shop.orders" ∷ [];
  snippet = text "UPDATE orders SET paid = 1";
}

abbrev alone : System
alone =
    receive 0 GrantChoice.once
      (send 0 GrantChoice.once 0 (take_slot 0 GrantChoice.once (judged requests GrantChoice.once)))

Reach-alone : Reach requests alone
unfolding submit receive hello look take_slot send ℕ_discrete
Reach-alone =
    later
      (later (later (Reach-judged requests GrantChoice.once) (takes 0 GrantChoice.once refl))
        (sends 0 GrantChoice.once 0 refl))
      (receives 0 GrantChoice.once refl)

returned-chosen_example :
    (j : ℕ) × (alone.ask j ≢ idle)
    × Any (λ r. r ≡ ((requests j).id, GrantChoice.once)) alone.matched
unfolding submit receive hello look take_slot send ℕ_discrete
returned-chosen_example = returned-chosen requests Reach-alone 0 GrantChoice.once refl

choice_for_another_example :
    (s : System) × Reach requests s
    × (s.ask 0 ≡ returned timed_out)
    × (s.ask 1 ≡ returned (chosen GrantChoice.session))
    × (s.matched ≡ ((requests 0).id, GrantChoice.session) ∷ [])
choice_for_another_example = choice_for_another requests GrantChoice.session

reads_trimmed : read_line (λ t. 5) (text " wait\n") ≡ some (text "wait")
unfolding read_line trim
reads_trimmed = refl
