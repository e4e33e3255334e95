-- ===== src/Ipc/Vouched.antt =====
-- The invariant of the asks and the connections, and how it passes over an update of one of them.
use mathlib.Core.Logic.{if_pos, if_neg}
use native.Mathlib.Decide.{ℕ_discrete}
use sequel_ace_mcp.Prelude.{ℕ, ◌≡◌, ◌≢◌, inr, refl, Option, none, some, List, ◌∷◌, Text, Any}
use sequel_ace_mcp.Gate.{GrantChoice, chosen}
use sequel_ace_mcp.Ipc.{ApprovalRequest, Slot}
use sequel_ace_mcp.Ipc.System.{
  Ask, Connection, System, empty, sent, gone, idle, waiting, elapsed, returned, accepted, polling,
  looking, shown, taking, sending, closed, update, set_ask, set_connection,
}

-- What holds of the new value and of every old one holds of every value after an update.
update-All {ℓ} :
    {A : Type ℓ} (P : A → Type 0) (f : ℕ → A) (i : ℕ) (a : A)
    → P a
    → ((j : ℕ) → P (f j))
    → (j : ℕ) → P (update f i a j)
update-All P f i a here there j = elim (ℕ_discrete i j) [
  | yes e ↦ rw (if_pos _ e) here
  | no n ↦ rw (if_neg _ n) (there j)
]

pub update_self {ℓ} : {A : Type ℓ} (f : ℕ → A) (i : ℕ) (a : A) → update f i a i ≡ a
update_self f i a = if_pos (ℕ_discrete i i) refl a (f i)

pub update_other {ℓ} :
    {A : Type ℓ} (f : ℕ → A) (i : ℕ) (a : A) (j : ℕ) → i ≢ j → update f i a j ≡ f j
update_other f i a j n = if_neg (ℕ_discrete i j) n a (f j)

-- The choices that an ask, or a connection, holds.
abbrev pub OfAsk : (GrantChoice → Type 0) → Ask → Type 0
OfAsk P (waiting (sent c)) = P c
OfAsk P (returned (chosen c)) = P c
OfAsk P a = Unit

abbrev pub OfConnection : (GrantChoice → Type 0) → Connection → Type 0
OfConnection P (taking c) = P c
OfConnection P (sending c i) = P c
OfConnection P k = Unit

OfAsk-map :
    (P Q : GrantChoice → Type 0) (a : Ask) → ((c : GrantChoice) → P c → Q c) → OfAsk P a → OfAsk Q a
OfAsk-map P Q idle f h = tt
OfAsk-map P Q (waiting empty) f h = tt
OfAsk-map P Q (waiting (sent c)) f h = f c h
OfAsk-map P Q (waiting gone) f h = tt
OfAsk-map P Q elapsed f h = tt
OfAsk-map P Q (returned (chosen c)) f h = f c h
OfAsk-map P Q (returned _) f h = tt

OfConnection-map :
    (P Q : GrantChoice → Type 0) (k : Connection)
    → ((c : GrantChoice) → P c → Q c)
    → OfConnection P k
    → OfConnection Q k
OfConnection-map P Q accepted f h = tt
OfConnection-map P Q polling f h = tt
OfConnection-map P Q looking f h = tt
OfConnection-map P Q shown f h = tt
OfConnection-map P Q (taking c) f h = f c h
OfConnection-map P Q (sending c i) f h = f c h
OfConnection-map P Q closed f h = tt

module _ (request : ℕ → ApprovalRequest) where
  -- A reply with that choice was accepted, under the id of a request that had been made.
  unfoldable pub IsVouched : (ℕ → Ask) → List (Text × GrantChoice) → GrantChoice → Type 0
  IsVouched ask matched c = (j : ℕ) × (ask j ≢ idle) × Any (λ r. r ≡ ((request j).id, c)) matched

  -- The slot holds the request of an ask that was made.
  abbrev pub OfSlot : (ℕ → Ask) → Option Slot → Type 0
  OfSlot ask none = Unit
  OfSlot ask (some held) = (held.request ≡ request held.tx) × (ask held.tx ≢ idle)

  -- Every choice that an ask or a connection holds is vouched for.
  pub record IsServed (s : System) : Type 0 where
    pub asks : (i : ℕ) → OfAsk (IsVouched s.ask s.matched) (s.ask i)
    pub connections : (k : ℕ) → OfConnection (IsVouched s.ask s.matched) (s.connection k)
    pub slot_holds : OfSlot s.ask s.slot

  stays_made :
      (s : System) (i : ℕ) (a : Ask) (j : ℕ)
      → (s.ask i ≢ idle → a ≢ idle)
      → s.ask j ≢ idle
      → update s.ask i a j ≢ idle
  stays_made s i a j n m = elim (ℕ_discrete i j) [
    | yes e ↦ rw (if_pos _ e) (n (rw e m))
    | no d ↦ rw (if_neg _ d) m
  ]

  OfSlot-update :
      (s : System) (i : ℕ) (a : Ask) (o : Option Slot)
      → (s.ask i ≢ idle → a ≢ idle)
      → OfSlot s.ask o
      → OfSlot (update s.ask i a) o
  OfSlot-update s i a none n h = tt
  OfSlot-update s i a (some held) n h = (h.0, stays_made s i a held.tx n h.1)

  IsVouched-update :
      (s : System) (i : ℕ) (a : Ask)
      → (s.ask i ≢ idle → a ≢ idle)
      → (c : GrantChoice) → IsVouched s.ask s.matched c
      → IsVouched (update s.ask i a) s.matched c
  unfolding IsVouched
  IsVouched-update s i a n c (j, m, r) = (j, stays_made s i a j n m, r)

  pub set_ask-IsServed :
      (s : System) (i : ℕ) (a : Ask)
      → (s.ask i ≢ idle → a ≢ idle)
      → OfAsk (IsVouched s.ask s.matched) a
      → IsServed s
      → IsServed (set_ask i a s)
  set_ask-IsServed s i a n h v =
      let still = IsVouched-update s i a n in
      record {
        asks =
            update-All (OfAsk (IsVouched (update s.ask i a) s.matched)) s.ask i a
              (OfAsk-map _ _ a still h) (λ j. OfAsk-map _ _ (s.ask j) still (v.asks j));
        connections = λ k. OfConnection-map _ _ (s.connection k) still (v.connections k);
        slot_holds = OfSlot-update s i a s.slot n v.slot_holds;
      }

  pub set_connection-IsServed :
      (s : System) (k : ℕ) (c : Connection)
      → OfConnection (IsVouched s.ask s.matched) c
      → IsServed s
      → IsServed (set_connection k c s)
  set_connection-IsServed s k c h v = record {
    asks = v.asks;
    connections =
        update-All (OfConnection (IsVouched s.ask s.matched)) s.connection k c h v.connections;
    slot_holds = v.slot_holds;
  }

  still :
      (s : System) (r : Text × GrantChoice) (c : GrantChoice)
      → IsVouched s.ask s.matched c
      → IsVouched s.ask (r ∷ s.matched) c
  unfolding IsVouched
  still s r c (j, m, a) = (j, m, inr a)

  pub matched-IsServed :
      (s : System) (r : Text × GrantChoice)
      → IsServed s
      → IsServed (record s { matched = r ∷ s.matched })
  matched-IsServed s r v = record {
    asks = λ i. OfAsk-map _ _ (s.ask i) (still s r) (v.asks i);
    connections = λ k. OfConnection-map _ _ (s.connection k) (still s r) (v.connections k);
    slot_holds = v.slot_holds;
  }

  pub emptied-IsServed : (s : System) → IsServed s → IsServed (record s { slot = none })
  emptied-IsServed s v = record { asks = v.asks; connections = v.connections; slot_holds = tt }
