-- ===== src/Session/Rollback.antt =====
-- EaSession::rollbackLastUser against appendUser (src/ea_session.cpp).
use embed_agent.Base.{
  ◌+◌, ◌^◌, ◌<◌, ◌≡◌, ◌∙◌, true, ap, [], ◌∷◌, ◌++◌, Text, arith, length, length-append,
  text_eq_refl, get_last?-append, drop_last-append, append_assoc, take-append, drop-append,
  take-append-drop,
}
use embed_agent.Cppev.{Message}
use embed_agent.Session.{
  Session, trim, start_idx, append_user, rollback_last_user, user_message, user_role, push_back,
}
use embed_agent.Session.Prompt.{IsWellFormed, start_idx-le-length}
use embed_agent.Session.Suffix.{longest_suffix_self, within_budget}
use embed_agent.Session.Trim.{head_part, history, trim_lem}
use embed_agent.Session.Append.{HasPrompt-append}

-- A new message after which both budgets hold is added, and nothing is dropped.
push_back_fits :
    (s : Session) (m : Message)
    → IsWellFormed s
    → length s.messages + 1 < 2 ^ 64
    → within_budget s.opts (head_part s) (history s ++ m ∷ []) ≡ true
    → (push_back s m).messages ≡ s.messages ++ m ∷ []
push_back_fits s m w small fits =
    trim_lem s' (HasPrompt-append s.has_system_message s.system_prompt s.messages (m ∷ []) w)
      (omega (arith, length-append s.messages (m ∷ [])))
    ∙ rw (
      take-append (start_idx s) s.messages (m ∷ []) (start_idx-le-length s w),
      drop-append (start_idx s) s.messages (m ∷ []) (start_idx-le-length s w),
      longest_suffix_self _ _ fits,
      ← append_assoc (head_part s) (history s) (m ∷ []),
      take-append-drop (start_idx s) s.messages,
    )
  where
    s' : Session
    s' = record s { messages = s.messages ++ m ∷ [] }

rollback-append :
    (s : Session) (content : Text)
    → rollback_last_user (record s { messages = s.messages ++ user_message content ∷ [] })
      ≡ (s, true)
unfolding rollback_last_user
rollback-append s content = rw (
  get_last?-append s.messages (user_message content),
  rollback_last_user,
  text_eq_refl user_role,
  drop_last-append s.messages (user_message content),
)

-- Where the history with the new message is within both budgets, rollbackLastUser takes back
-- exactly what appendUser did.
pub rollback_last_user-append_user :
    (s : Session) (content : Text)
    → IsWellFormed s
    → length s.messages + 1 < 2 ^ 64
    → within_budget s.opts (head_part s) (history s ++ user_message content ∷ []) ≡ true
    → rollback_last_user (append_user s content) ≡ (s, true)
unfolding append_user trim
rollback_last_user-append_user s content w small fits =
    rw (← rollback-append s content)
      (ap rollback_last_user (same (push_back_fits s (user_message content) w small fits)))
  where
    same :
        (push_back s (user_message content)).messages ≡ s.messages ++ user_message content ∷ []
        → append_user s content ≡ record s { messages = s.messages ++ user_message content ∷ [] }
    same e = ap (λ ms. record s { messages = ms }) e
