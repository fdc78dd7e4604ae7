-- ===== src/Session/Codec.antt =====
-- src/ea_session_codec.cpp and include/ea_session_codec.h: what is kept of a session, and a session
-- from it. The JSON text between the two is left out.
use embed_agent.Base.{
  ℕ, ◌^◌, ◌+◌, ◌≡◌, ◌<◌, refl, ap, ◌∙◌, sym, Bool, true, false, List, [], ◌∷◌, ◌++◌, Text, arith,
  length, ℤ, pos, if◌then◌else◌, text_eq_refl,
}
use embed_agent.Cppev.{Message}
use embed_agent.Session.{
  Session, SessionOptions, clear, set_options, set_system_prompt, restore_messages, front_is_system,
  rebuild_system_message, tail, system_message, system_role, trim, drop_over_count,
  drop_over_tokens,
}
use embed_agent.Session.Prompt.{IsWellFormed, HasPrompt}
use embed_agent.Session.Suffix.{within_budget, longest_suffix, longest_suffix_self}
use embed_agent.Session.Trim.{head_part, history, trim_lem}

-- EaSessionSnapshot.
pub record SessionSnapshot : Type 0 where
  pub version : ℤ
  pub system_prompt : Text
  pub opts : SessionOptions
  pub messages : List Message

unfoldable pub non_system_messages : Session → List Message
unfolding front_is_system
non_system_messages s = if front_is_system s.messages then tail s.messages else s.messages

-- What serializeSession writes of a session.
unfoldable pub session_snapshot : Session → SessionSnapshot
unfolding non_system_messages
session_snapshot s = record {
  version = pos 1;
  system_prompt = s.system_prompt;
  opts = s.opts;
  messages = non_system_messages s;
}

unfoldable pub apply_session_snapshot : SessionSnapshot → Session → Session
unfolding clear set_options set_system_prompt restore_messages
apply_session_snapshot snap s =
    restore_messages (set_system_prompt (set_options (clear s) snap.opts) snap.system_prompt)
      snap.messages

-- A session without history.
abbrev fresh : SessionOptions → Text → Session
fresh opts [] = record {
  opts = opts;
  system_prompt = [];
  messages = [];
  has_system_message = false;
}
fresh opts (c ∷ cs) = record {
  opts = opts;
  system_prompt = c ∷ cs;
  messages = system_message (c ∷ cs) ∷ [];
  has_system_message = true;
}

trim-fresh : (opts : SessionOptions) (prompt : Text) → trim (fresh opts prompt) ≡ fresh opts prompt
unfolding trim drop_over_count drop_over_tokens longest_suffix
trim-fresh opts [] = refl
trim-fresh opts (c ∷ cs) =
    ap (λ ms. record (fresh opts (c ∷ cs)) { messages = ms })
      (trim_lem (fresh opts (c ∷ cs)) (refl, refl) (omega arith))

clear-fresh : (s : Session) → clear s ≡ fresh s.opts s.system_prompt
unfolding clear rebuild_system_message
clear-fresh s = by_prompt s.system_prompt
  where
    by_prompt : (prompt : Text) → clear (record s { system_prompt = prompt }) ≡ fresh s.opts prompt
    by_prompt [] = refl
    by_prompt (c ∷ cs) = refl

set_system_prompt-fresh :
    (opts : SessionOptions) (old prompt : Text)
    → set_system_prompt (fresh opts old) prompt ≡ fresh opts prompt
unfolding set_system_prompt rebuild_system_message front_is_system
set_system_prompt-fresh opts [] [] = refl
set_system_prompt-fresh opts [] (c ∷ cs) = refl
set_system_prompt-fresh opts (d ∷ ds) [] = rw (text_eq_refl system_role) refl
set_system_prompt-fresh opts (d ∷ ds) (c ∷ cs) = rw (text_eq_refl system_role) refl

emptied :
    (s : Session) (opts : SessionOptions) (prompt : Text)
    → set_system_prompt (set_options (clear s) opts) prompt ≡ fresh opts prompt
unfolding set_options
emptied s opts prompt =
    ap (λ t. set_system_prompt (trim (record t { opts = opts })) prompt) (clear-fresh s)
    ∙ (ap (λ t. set_system_prompt (trim t) prompt) (with_opts s.system_prompt)
        ∙ (ap (λ t. set_system_prompt t prompt) (trim-fresh opts s.system_prompt)
            ∙ set_system_prompt-fresh opts s.system_prompt prompt))
  where
    with_opts : (p : Text) → record (fresh s.opts p) { opts = opts } ≡ fresh opts p
    with_opts [] = refl
    with_opts (c ∷ cs) = refl

-- A history that is within both budgets is restored whole.
restore_messages_fits :
    (opts : SessionOptions) (prompt : Text) (ms : List Message)
    → length ms + 1 < 2 ^ 64
    → within_budget opts (fresh opts prompt).messages ms ≡ true
    → restore_messages (fresh opts prompt) ms
      ≡ record (fresh opts prompt) { messages = (fresh opts prompt).messages ++ ms }
unfolding restore_messages trim
restore_messages_fits opts [] ms small fits =
    ap (λ ns. record s { messages = ns })
      (trim_lem s refl (omega arith) ∙ longest_suffix_self _ ms fits)
  where
    s : Session
    s = record (fresh opts []) { messages = ms }
restore_messages_fits opts (c ∷ cs) ms small fits =
    ap (λ ns. record s { messages = ns })
      (trim_lem s (refl, refl) (omega arith)
        ∙ ap (◌++◌ (fresh opts (c ∷ cs)).messages) (longest_suffix_self _ ms fits))
  where
    s : Session
    s = record (fresh opts (c ∷ cs)) { messages = (fresh opts (c ∷ cs)).messages ++ ms }

applied :
    (snap : SessionSnapshot) (t : Session)
    → length snap.messages + 1 < 2 ^ 64
    → within_budget snap.opts (fresh snap.opts snap.system_prompt).messages snap.messages ≡ true
    → apply_session_snapshot snap t ≡ record (fresh snap.opts snap.system_prompt) {
      messages = (fresh snap.opts snap.system_prompt).messages ++ snap.messages;
    }
unfolding apply_session_snapshot
applied snap t small fits =
    ap (λ u. restore_messages u snap.messages) (emptied t snap.opts snap.system_prompt)
    ∙ restore_messages_fits snap.opts snap.system_prompt snap.messages small fits

applied_prompt :
    (opts : SessionOptions) (c : ℕ) (cs : Text) (ms : List Message) (t : Session)
    → length ms + 1 < 2 ^ 64
    → within_budget opts (system_message (c ∷ cs) ∷ []) ms ≡ true
    → let u : Session = record {
      opts = opts;
      system_prompt = c ∷ cs;
      messages = system_message (c ∷ cs) ∷ ms;
      has_system_message = true;
    } in
      apply_session_snapshot (session_snapshot u) t ≡ u
unfolding session_snapshot non_system_messages front_is_system
applied_prompt opts c cs ms t small fits = rw (text_eq_refl system_role) (
    applied (record { version = pos 1; system_prompt = c ∷ cs; opts = opts; messages = ms }) t small
      fits)

applied_bare :
    (opts : SessionOptions) (ms : List Message) (t : Session)
    → front_is_system ms ≡ false
    → length ms + 1 < 2 ^ 64
    → within_budget opts [] ms ≡ true
    → let u : Session = record {
      opts = opts;
      system_prompt = [];
      messages = ms;
      has_system_message = false;
    } in
      apply_session_snapshot (session_snapshot u) t ≡ u
unfolding session_snapshot non_system_messages
applied_bare opts ms t front small fits = rw front (
    applied (record { version = pos 1; system_prompt = []; opts = opts; messages = ms }) t small
      fits)

-- What is kept of a well-formed session whose history is within both budgets gives that session
-- back, whatever session it is applied to, if the first message has the role of the system exactly
-- where the flag hasSystemMessage_ says so.
pub apply_session_snapshot-session_snapshot :
    (s t : Session)
    → IsWellFormed s
    → front_is_system s.messages ≡ s.has_system_message
    → length s.messages + 1 < 2 ^ 64
    → within_budget s.opts (head_part s) (history s) ≡ true
    → apply_session_snapshot (session_snapshot s) t ≡ s
unfolding session_snapshot non_system_messages
apply_session_snapshot-session_snapshot s t w front small fits =
    by_flag s.has_system_message s.system_prompt s.messages w front small fits
  where
    by_flag :
        (flag : Bool) (prompt : Text) (ms : List Message)
        → HasPrompt flag prompt ms
        → front_is_system ms ≡ flag
        → length ms + 1 < 2 ^ 64
        → let u : Session = record {
          opts = s.opts;
          system_prompt = prompt;
          messages = ms;
          has_system_message = flag;
        } in
          within_budget s.opts (head_part u) (history u) ≡ true
          → apply_session_snapshot (session_snapshot u) t ≡ u
    by_flag true prompt [] w front small fits = absurd w
    by_flag true [] (m ∷ ms) w front small fits = cc
    by_flag true (c ∷ cs) (m ∷ ms) w front small fits = rw (w.0) (
        applied_prompt s.opts c cs ms t (omega arith)
          (sym (ap (λ n. within_budget s.opts (n ∷ []) ms) (w.0)) ∙ fits))
    by_flag false prompt ms w front small fits = rw w (applied_bare s.opts ms t front small fits)
