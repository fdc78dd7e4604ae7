-- ===== src/Session/Reachable.antt =====
-- Any sequence of calls of EaSession (src/ea_session.cpp).
use embed_agent.Base.{List, [], ◌∷◌, Text}
use embed_agent.Cppev.{Message, ToolCall}
use embed_agent.Session.{
  Session, SessionOptions, create, trim, set_options, set_system_prompt, append_user,
  append_assistant, append_assistant_calls, append_tool_result, rollback_last_user, clear,
  restore_messages,
}
use embed_agent.Session.Prompt.{
  IsWellFormed, create-IsWellFormed, set_system_prompt-IsWellFormed, clear-IsWellFormed,
}
use embed_agent.Session.Append.{
  trim-IsWellFormed, push_back-IsWellFormed, restore_messages-IsWellFormed,
  rollback_last_user-IsWellFormed,
}

-- The operations of the public interface.
pub data Operation : Type 0 where
  sets_options : SessionOptions → Operation
  sets_prompt : Text → Operation
  appends_user : Text → Operation
  rolls_back : Operation
  appends_assistant : Text → Operation
  appends_calls : Text → List ToolCall → Operation
  appends_result : Text → Text → Operation
  clears : Operation
  trims : Operation
  restores : List Message → Operation

pub apply : Session → Operation → Session
apply s (sets_options opts) = set_options s opts
apply s (sets_prompt prompt) = set_system_prompt s prompt
apply s (appends_user content) = append_user s content
apply s rolls_back = (rollback_last_user s).0
apply s (appends_assistant content) = append_assistant s content
apply s (appends_calls content calls) = append_assistant_calls s content calls
apply s (appends_result id content) = append_tool_result s id content
apply s clears = clear s
apply s trims = trim s
apply s (restores msgs) = restore_messages s msgs

pub run : Session → List Operation → Session
run s [] = s
run s (o ∷ os) = run (apply s o) os

apply-IsWellFormed : (s : Session) (o : Operation) → IsWellFormed s → IsWellFormed (apply s o)
unfolding apply set_options append_user append_assistant append_assistant_calls append_tool_result
apply-IsWellFormed s (sets_options opts) w = trim-IsWellFormed (record s { opts = opts }) w
apply-IsWellFormed s (sets_prompt prompt) w = set_system_prompt-IsWellFormed s prompt w
apply-IsWellFormed s (appends_user content) w = push_back-IsWellFormed s _ w
apply-IsWellFormed s rolls_back w = rollback_last_user-IsWellFormed s w
apply-IsWellFormed s (appends_assistant content) w = push_back-IsWellFormed s _ w
apply-IsWellFormed s (appends_calls content calls) w = push_back-IsWellFormed s _ w
apply-IsWellFormed s (appends_result id content) w = push_back-IsWellFormed s _ w
apply-IsWellFormed s clears w = clear-IsWellFormed s
apply-IsWellFormed s trims w = trim-IsWellFormed s w
apply-IsWellFormed s (restores msgs) w = restore_messages-IsWellFormed s msgs w

run_from-IsWellFormed :
    (s : Session) (os : List Operation) → IsWellFormed s → IsWellFormed (run s os)
unfolding run
run_from-IsWellFormed s [] w = w
run_from-IsWellFormed s (o ∷ os) w = run_from-IsWellFormed (apply s o) os (apply-IsWellFormed s o w)

-- After any sequence of calls on a new session, the history begins with the system message of the
-- current prompt exactly as the flag hasSystemMessage_ says, and the prompt is empty where the flag
-- is false.
pub run-IsWellFormed :
    (opts : SessionOptions) (os : List Operation) → IsWellFormed (run (create opts) os)
run-IsWellFormed opts os = run_from-IsWellFormed (create opts) os (create-IsWellFormed opts)
