-- ===== src/Session/Append.antt =====
-- The operations of EaSession that change the history (src/ea_session.cpp) keep the session
-- well-formed; so does rollbackLastUser.
use embed_agent.Base.{
  ℕ, zero, suc, ◌≡◌, inl, inr, Bool, true, false, List, [], ◌∷◌, ◌++◌, Text, some, arith, take,
  erase_at, get_last?, drop_last, if◌then◌else◌, Bool-cases, text_eq, text_eq→eq, Option-cases,
  if-intro,
}
use embed_agent.Cppev.{Message, ToolCall}
use embed_agent.Session.{
  Session, trim, drop_over_count, drop_over_tokens, append_user, append_assistant,
  append_assistant_calls, append_tool_result, rollback_last_user, restore_messages, user_role,
  push_back,
}
use embed_agent.Session.Prompt.{IsWellFormed, HasPrompt}

abbrev first_index : Bool → ℕ
first_index flag = if flag then 1 else 0

erase_at-HasPrompt :
    (flag : Bool) (prompt : Text) (ms : List Message)
    → HasPrompt flag prompt ms
    → HasPrompt flag prompt (erase_at (first_index flag) ms)
erase_at-HasPrompt true prompt [] h = h
erase_at-HasPrompt true prompt (m ∷ ms) h = h
erase_at-HasPrompt false prompt ms h = h

drop_over_count-HasPrompt :
    (flag : Bool) (prompt : Text) (fuel max_messages : ℕ) (ms : List Message)
    → HasPrompt flag prompt ms
    → HasPrompt flag prompt (drop_over_count fuel (first_index flag) max_messages ms)
unfolding drop_over_count
drop_over_count-HasPrompt flag prompt zero max_messages ms h = h
drop_over_count-HasPrompt flag prompt (suc fuel) max_messages ms h =
    let rest =
      drop_over_count-HasPrompt flag prompt fuel max_messages (erase_at (first_index flag) ms)
        (erase_at-HasPrompt flag prompt ms h) in
    if-intro (HasPrompt flag prompt) _ rest h

drop_over_tokens-HasPrompt :
    (flag : Bool) (prompt : Text) (fuel max_tokens : ℕ) (ms : List Message)
    → HasPrompt flag prompt ms
    → HasPrompt flag prompt (drop_over_tokens fuel (first_index flag) max_tokens ms)
unfolding drop_over_tokens
drop_over_tokens-HasPrompt flag prompt zero max_tokens ms h = h
drop_over_tokens-HasPrompt flag prompt (suc fuel) max_tokens ms h =
    let rest =
      drop_over_tokens-HasPrompt flag prompt fuel max_tokens (erase_at (first_index flag) ms)
        (erase_at-HasPrompt flag prompt ms h) in
    if-intro (HasPrompt flag prompt) _ rest h

pub trim-IsWellFormed : (s : Session) → IsWellFormed s → IsWellFormed (trim s)
unfolding trim
trim-IsWellFormed s w =
    drop_over_tokens-HasPrompt s.has_system_message s.system_prompt _ _ _
      (drop_over_count-HasPrompt s.has_system_message s.system_prompt _ _ _ w)

pub HasPrompt-append :
    (flag : Bool) (prompt : Text) (ms more : List Message)
    → HasPrompt flag prompt ms
    → HasPrompt flag prompt (ms ++ more)
HasPrompt-append true prompt [] more h = absurd h
HasPrompt-append true prompt (m ∷ ms) more h = h
HasPrompt-append false prompt ms more h = h

pub push_back-IsWellFormed :
    (s : Session) (m : Message) → IsWellFormed s → IsWellFormed (push_back s m)
push_back-IsWellFormed s m w =
    trim-IsWellFormed (record s { messages = s.messages ++ m ∷ [] })
      (HasPrompt-append s.has_system_message s.system_prompt s.messages (m ∷ []) w)

take-HasPrompt :
    (flag : Bool) (prompt : Text) (ms : List Message)
    → HasPrompt flag prompt ms
    → HasPrompt flag prompt (take (first_index flag) ms)
take-HasPrompt true prompt [] h = h
take-HasPrompt true prompt (m ∷ ms) h = h
take-HasPrompt false prompt ms h = h

pub restore_messages-IsWellFormed :
    (s : Session) (msgs : List Message) → IsWellFormed s → IsWellFormed (restore_messages s msgs)
unfolding restore_messages
restore_messages-IsWellFormed s msgs w = trim-IsWellFormed _ (
    HasPrompt-append s.has_system_message s.system_prompt _ msgs (
      if-intro (HasPrompt s.has_system_message s.system_prompt) _
        (take-HasPrompt s.has_system_message s.system_prompt s.messages w) w))

drop_last-HasPrompt :
    (flag : Bool) (prompt : Text) (ms : List Message) {m : Message}
    → HasPrompt flag prompt ms
    → get_last? ms ≡ some m
    → text_eq m.role user_role ≡ true
    → HasPrompt flag prompt (drop_last ms)
unfolding text_eq
drop_last-HasPrompt true prompt [] h last user = absurd h
drop_last-HasPrompt true prompt (n ∷ []) {m} h last user =
    absurd (ground (arith, text_eq→eq m.role user_role, h.0, last))
drop_last-HasPrompt true prompt (n ∷ (k ∷ ks)) h last user = h
drop_last-HasPrompt false prompt ms h last user = h

pub rollback_last_user-IsWellFormed :
    (s : Session) → IsWellFormed s → IsWellFormed (rollback_last_user s).0
unfolding rollback_last_user
rollback_last_user-IsWellFormed s w = elim (Option-cases (get_last? s.messages)) [
  | inl e ↦ rw (e, rollback_last_user) w
  | inr (m, e) ↦ elim (Bool-cases (text_eq m.role user_role)) [
    | inl user ↦
        rw (e, rollback_last_user, user)
          (drop_last-HasPrompt s.has_system_message s.system_prompt s.messages w e user)
    | inr other ↦ rw (e, rollback_last_user, other) w
  ]
]

pub append_user-IsWellFormed :
    (s : Session) (content : Text) → IsWellFormed s → IsWellFormed (append_user s content)
unfolding append_user
append_user-IsWellFormed s content w = push_back-IsWellFormed s _ w

pub append_assistant-IsWellFormed :
    (s : Session) (content : Text) → IsWellFormed s → IsWellFormed (append_assistant s content)
unfolding append_assistant
append_assistant-IsWellFormed s content w = push_back-IsWellFormed s _ w

pub append_assistant_calls-IsWellFormed :
    (s : Session) (content : Text) (calls : List ToolCall)
    → IsWellFormed s
    → IsWellFormed (append_assistant_calls s content calls)
unfolding append_assistant_calls
append_assistant_calls-IsWellFormed s content calls w = push_back-IsWellFormed s _ w

pub append_tool_result-IsWellFormed :
    (s : Session) (id content : Text)
    → IsWellFormed s
    → IsWellFormed (append_tool_result s id content)
unfolding append_tool_result
append_tool_result-IsWellFormed s id content w = push_back-IsWellFormed s _ w
