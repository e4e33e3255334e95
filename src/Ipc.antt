-- ===== src/Ipc.antt =====
-- src/approval/ipc.rs: requests for approval that wait in one slot, and the companions that answer
-- them. The socket, the check of the peer's user and the JSON text belong to the system and to other
-- packages; a message is what its JSON says. Asks and connections are numbered.
mod Tests
pub mod System
pub mod Steps
pub mod Vouched
pub mod Served
pub mod Races
use sequel_ace_mcp.Prelude.{
  ℕ, ◌*◌, Bool, false, Option, none, some, List, [], ◌||◌, Text, text, ltb, ◌==◌, if◌then◌else◌,
  unwrap_or,
}
use sequel_ace_mcp.Policy.Lexical.{trim}
use sequel_ace_mcp.Gate.{GrantChoice, ConfirmOutcome, chosen}

pub record ApprovalRequest : Type 0 where
  pub id : Text
  pub category : Text
  pub connection : Text
  pub database : Option Text
  pub tables : List Text
  pub snippet : Text

-- `tx`, the sending half of the channel to the ask that waits, is the number of that ask.
pub record Slot : Type 0 where
  pub request : ApprovalRequest
  pub tx : ℕ

abbrev pub max_line : ℕ
max_line = 64 * 1024

-- `read_line` on a line as it was read; `bytes` is the length in UTF-8.
unfoldable pub read_line : (Text → ℕ) → Text → Option Text
read_line bytes line =
    let trimmed = trim line in
    if (trimmed == []) || ltb max_line (bytes trimmed) then none else some trimmed

-- A message of the companion: the members that are read, where they are texts.
pub record Message : Type 0 where
  pub op : Option Text
  pub id : Option Text
  pub choice : Option Text

abbrev pub op_is : Message → Text → Bool
op_is m word = unwrap_or m.op [] == word

-- The first line of a connection.
abbrev pub is_wait : Message → Bool
is_wait m = op_is m (text "wait")

pub data Reply : Type 0 where
  choice : GrantChoice → Reply
  stale : Reply
  bad_choice : Reply

unfoldable pub choice_of : Option Text → Reply
choice_of none = bad_choice
choice_of (some c) =
    if c == text "once"
    then choice GrantChoice.once
    else if c == text "session"
    then choice GrantChoice.session
    else if c == text "decline"
    then choice GrantChoice.decline
    else bad_choice

abbrev pub id_matches : Option Slot → Text → Bool
id_matches none id = false
id_matches (some s) id = s.request.id == id

-- The decision under the lock.
unfoldable pub decide : Option Slot → Message → Reply
unfolding choice_of
decide slot m = if id_matches slot (unwrap_or m.id []) then choice_of m.choice else stale

-- What an ask returns when its channel gives a choice, is dropped, or its time is over.
abbrev pub answered : GrantChoice → ConfirmOutcome
answered c = chosen c

abbrev pub already_pending : ConfirmOutcome
already_pending = ConfirmOutcome.unavailable (text "another approval request is already pending")

abbrev pub companion_gone : ConfirmOutcome
companion_gone = ConfirmOutcome.unavailable (text "approval companion dropped the request")

abbrev pub timed_out : ConfirmOutcome
timed_out = ConfirmOutcome.unavailable (text "approval IPC timed out after 60s")
