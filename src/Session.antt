-- ===== src/Session.antt =====
-- src/ea_session.cpp and include/ea_session.h: the conversation history of an agent.
pub mod Suffix
pub mod Prompt
pub mod Trim
pub mod Append
pub mod Reachable
pub mod Rollback
pub mod Codec
pub mod Json
use embed_agent.Base.{
  ℕ, zero, suc, ◌+◌, ◌-◌, ◌/◌, ◌%◌, ◌^◌, Bool, true, false, not, ◌&&◌, List, [], ◌∷◌, ◌++◌, Option,
  none, some, Text, codes, text_eq, ltb, if◌then◌else◌, length, is_empty, erase_at, get_last?,
  drop_last, take,
}
use embed_agent.Cppev.{Message, ToolCall}

pub record SessionOptions : Type 0 where
  pub max_messages : ℕ
  pub max_approx_tokens : ℕ

abbrev pub default_options : SessionOptions
default_options = record { max_messages = 40; max_approx_tokens = 8000 }

pub record Session : Type 0 where
  pub opts : SessionOptions
  pub system_prompt : Text
  pub messages : List Message
  pub has_system_message : Bool

abbrev pub system_role : Text
system_role = codes "system"

abbrev pub user_role : Text
user_role = codes "user"

abbrev assistant_role : Text
assistant_role = codes "assistant"

abbrev tool_role : Text
tool_role = codes "tool"

unfoldable pub create : SessionOptions → Session
create opts = record { opts = opts; system_prompt = []; messages = []; has_system_message = false }

abbrev pub system_message : Text → Message
system_message prompt = record {
  role = system_role;
  content = prompt;
  tool_call_id = [];
  tool_calls = [];
}

-- `messages_.front().role == "system"` on a vector that is not empty; false on an empty one.
unfoldable pub front_is_system : List Message → Bool
front_is_system [] = false
front_is_system (m ∷ ms) = text_eq m.role system_role

-- `messages_.front() = m` or, with `m` none, `messages_.erase(messages_.begin())`.
abbrev pub tail : List Message → List Message
tail [] = []
tail (m ∷ ms) = ms

unfoldable pub rebuild_system_message : Session → Session
unfolding front_is_system
rebuild_system_message s =
    if is_empty s.system_prompt
    then (if s.has_system_message && front_is_system s.messages
        then record s { messages = tail s.messages; has_system_message = false }
        else s)
    else (if s.has_system_message && front_is_system s.messages
        then record s { messages = system_message s.system_prompt ∷ tail s.messages }
        else record s {
          messages = system_message s.system_prompt ∷ s.messages;
          has_system_message = true;
        })

unfoldable pub set_system_prompt : Session → Text → Session
unfolding rebuild_system_message
set_system_prompt s prompt = rebuild_system_message (record s { system_prompt = prompt })

-- The index of the first message that is not the system message.
abbrev pub start_idx : Session → ℕ
start_idx s = if s.has_system_message then 1 else 0

abbrev call_chars : List ToolCall → ℕ
call_chars [] = 0
call_chars (c ∷ cs) = length c.arguments + call_chars cs

abbrev message_chars : List Message → ℕ
message_chars [] = 0
message_chars (m ∷ ms) = length m.content + call_chars m.tool_calls + message_chars ms

-- The bytes of a history fit in memory, so the sum does not wrap.
unfoldable pub approx_token_count : List Message → ℕ
approx_token_count ms = message_chars ms / 4 + 1

-- `a - b` on std::size_t.
abbrev size_sub : ℕ → ℕ → ℕ
size_sub a b = (a + 2 ^ 64 - b) % 2 ^ 64

-- The first loop of trim, with a round of fuel for each message.
unfoldable pub drop_over_count : ℕ → ℕ → ℕ → List Message → List Message
drop_over_count zero start max_messages ms = ms
drop_over_count (suc fuel) start max_messages ms =
    let rest = drop_over_count fuel start max_messages (erase_at start ms) in
    if ltb max_messages (size_sub (length ms) start) then rest else ms

-- The second loop of trim.
unfoldable pub drop_over_tokens : ℕ → ℕ → ℕ → List Message → List Message
unfolding approx_token_count
drop_over_tokens zero start max_tokens ms = ms
drop_over_tokens (suc fuel) start max_tokens ms =
    let rest = drop_over_tokens fuel start max_tokens (erase_at start ms) in
    if ltb start (length ms) && ltb max_tokens (approx_token_count ms) then rest else ms

unfoldable pub trim : Session → Session
unfolding drop_over_count drop_over_tokens
trim s =
    let start = start_idx s in
    let counted = drop_over_count (length s.messages) start s.opts.max_messages s.messages in
    record s { messages = drop_over_tokens (length counted) start s.opts.max_approx_tokens counted }

unfoldable pub set_options : Session → SessionOptions → Session
unfolding trim
set_options s opts = trim (record s { opts = opts })

-- `messages_.push_back(msg); trim();`
abbrev pub push_back : Session → Message → Session
push_back s m = trim (record s { messages = s.messages ++ m ∷ [] })

abbrev pub user_message : Text → Message
user_message content = record {
  role = user_role;
  content = content;
  tool_call_id = [];
  tool_calls = [];
}

unfoldable pub append_user : Session → Text → Session
unfolding trim
append_user s content = push_back s (user_message content)

unfoldable pub append_assistant : Session → Text → Session
unfolding trim
append_assistant s content =
    push_back s
      (record { role = assistant_role; content = content; tool_call_id = []; tool_calls = [] })

-- The overload with tool calls.
unfoldable pub append_assistant_calls : Session → Text → List ToolCall → Session
unfolding trim
append_assistant_calls s content calls =
    push_back s
      (record { role = assistant_role; content = content; tool_call_id = []; tool_calls = calls })

unfoldable pub append_tool_result : Session → Text → Text → Session
unfolding trim
append_tool_result s tool_call_id content =
    push_back s
      (record { role = tool_role; content = content; tool_call_id = tool_call_id; tool_calls = [] })

-- Returns whether a message was removed.
unfoldable pub rollback_last_user : Session → Session × Bool
rollback_last_user s = elim (get_last? s.messages) [
  | none ↦ (s, false)
  | some m ↦
      if not (text_eq m.role user_role)
      then (s, false)
      else (record s { messages = drop_last s.messages }, true)
]

unfoldable pub clear : Session → Session
unfolding rebuild_system_message
clear s = rebuild_system_message (record s { messages = []; has_system_message = false })

unfoldable pub restore_messages : Session → List Message → Session
unfolding trim
restore_messages s msgs =
    let start = start_idx s in
    let kept = if ltb start (length s.messages) then take start s.messages else s.messages in
    trim (record s { messages = kept ++ msgs })

unfoldable pub snapshot : Session → List Message
snapshot s = s.messages
