-- ===== src/Tests/Sessions.antt =====
-- Examples for the properties of EaSession.
use embed_agent.Base.{refl, ◌≡◌, true, [], ◌∷◌, List, codes, arith}
use embed_agent.Cppev.{Message}
use embed_agent.Session.{
  append_user, rollback_last_user, default_options, create, approx_token_count,
}
use embed_agent.Session.Prompt.{IsWellFormed}
use embed_agent.Session.Suffix.{within_budget}
use embed_agent.Session.Codec.{
  apply_session_snapshot, session_snapshot, apply_session_snapshot-session_snapshot,
}
use embed_agent.Session.{front_is_system}
use embed_agent.Base.{text_eq}
use embed_agent.Session.Trim.{IsLongestKept, trim-IsLongestKept}
use embed_agent.Session.Reachable.{
  run, run-IsWellFormed, sets_prompt, appends_user, appends_assistant, clears,
}
use embed_agent.Session.Rollback.{rollback_last_user-append_user}
use embed_agent.Tests.Data.{crowded_session, roomy_session}

trim-IsLongestKept_example : (r : List Message) × IsLongestKept crowded_session r
trim-IsLongestKept_example = trim-IsLongestKept crowded_session (refl, refl) (omega arith)

run-IsWellFormed_example : IsWellFormed (
    run (create default_options) (
      sets_prompt (codes "p")
      ∷ (appends_user (codes "a") ∷ (appends_assistant (codes "b") ∷ (clears ∷ [])))))
run-IsWellFormed_example = run-IsWellFormed default_options (
    sets_prompt (codes "p")
    ∷ (appends_user (codes "a") ∷ (appends_assistant (codes "b") ∷ (clears ∷ []))))

rollback_last_user-append_user_example :
    rollback_last_user (append_user roomy_session (codes "b")) ≡ (roomy_session, true)
unfolding within_budget approx_token_count
rollback_last_user-append_user_example =
    rollback_last_user-append_user roomy_session (codes "b") (refl, refl) (omega arith) refl

apply_session_snapshot-session_snapshot_example :
    apply_session_snapshot (session_snapshot roomy_session) crowded_session ≡ roomy_session
unfolding within_budget approx_token_count front_is_system text_eq
apply_session_snapshot-session_snapshot_example =
    apply_session_snapshot-session_snapshot roomy_session crowded_session (refl, refl) refl
      (omega arith) refl
