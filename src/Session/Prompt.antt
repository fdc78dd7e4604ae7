-- ===== src/Session/Prompt.antt =====
-- The system message of a session: EaSession::setSystemPrompt, rebuildSystemMessage and clear
-- (src/ea_session.cpp).
use embed_agent.Base.{
  ◌≤◌, ◌≡◌, refl, Bool, true, false, List, [], ◌∷◌, Text, arith, is_empty, length, text_eq_refl,
}
use embed_agent.Cppev.{Message}
use embed_agent.Session.{
  Session, SessionOptions, create, system_message, set_system_prompt, rebuild_system_message, clear,
  start_idx, front_is_system,
}

-- With the flag set, the history begins with the message of a prompt that is not empty; without,
-- the prompt is empty.
abbrev pub HasPrompt : Bool → Text → List Message → Type 0
HasPrompt true prompt [] = ⊥
HasPrompt true prompt (m ∷ ms) = (m ≡ system_message prompt) × (is_empty prompt ≡ false)
HasPrompt false prompt ms = prompt ≡ []

abbrev pub IsWellFormed : Session → Type 0
IsWellFormed s = HasPrompt s.has_system_message s.system_prompt s.messages

pub create-IsWellFormed : (opts : SessionOptions) → IsWellFormed (create opts)
unfolding create
create-IsWellFormed opts = refl

-- A history that the flag describes, behind any prompt.
abbrev FrontAgrees : Bool → List Message → Type 0
FrontAgrees flag ms = flag ≡ true → (front_is_system ms ≡ true)

HasPrompt-front :
    (flag : Bool) (prompt : Text) (ms : List Message)
    → HasPrompt flag prompt ms
    → FrontAgrees flag ms
unfolding front_is_system
HasPrompt-front true prompt [] h e = absurd h
HasPrompt-front true prompt (m ∷ ms) h e = rw (h.0) (text_eq_refl _)
HasPrompt-front false prompt ms h e = cc

rebuild-HasPrompt :
    (opts : SessionOptions) (prompt : Text) (ms : List Message) (flag : Bool)
    → FrontAgrees flag ms
    → IsWellFormed (
        rebuild_system_message (record {
          opts = opts;
          system_prompt = prompt;
          messages = ms;
          has_system_message = flag;
        }))
unfolding rebuild_system_message
rebuild-HasPrompt opts [] ms true front = rw (front refl) refl
rebuild-HasPrompt opts [] ms false front = refl
rebuild-HasPrompt opts (c ∷ cs) ms true front = rw (front refl) (refl, refl)
rebuild-HasPrompt opts (c ∷ cs) ms false front = (refl, refl)

pub set_system_prompt-IsWellFormed :
    (s : Session) (prompt : Text) → IsWellFormed s → IsWellFormed (set_system_prompt s prompt)
unfolding set_system_prompt
set_system_prompt-IsWellFormed s prompt w =
    rebuild-HasPrompt s.opts prompt s.messages s.has_system_message
      (HasPrompt-front s.has_system_message s.system_prompt s.messages w)

pub clear-IsWellFormed : (s : Session) → IsWellFormed (clear s)
unfolding clear
clear-IsWellFormed s = rebuild-HasPrompt s.opts s.system_prompt [] false (λ e. cc)

-- In a well-formed session the first index behind the system message is in range.
pub start_idx-le-length : (s : Session) → IsWellFormed s → start_idx s ≤ length s.messages
start_idx-le-length s w = go s.has_system_message s.messages w
  where
    go :
        (flag : Bool) (ms : List Message)
        → HasPrompt flag s.system_prompt ms
        → start_idx (record s { messages = ms; has_system_message = flag }) ≤ length ms
    go true [] h = absurd h
    go true (m ∷ ms) h = omega arith
    go false ms h = omega arith
