-- ===== src/Agent/Turns.antt =====
-- The public calls of EaAgent and the end of its requests (src/ea_agent.cpp).
use embed_agent.Base.{ℕ, ◌≡◌, Bool, true, false, not, Option, some, Text, ℤ, arith, if-intro, codes}
use embed_agent.Cppev.{ChatCodec}
use embed_agent.Session.Prompt.{IsWellFormed, set_system_prompt-IsWellFormed}
use embed_agent.Session.Append.{append_user-IsWellFormed}
use embed_agent.Llm.Client.{request_done}
use embed_agent.Agent.{
  Agent, InFlight, Outcome, finished, refresh_system_prompt, turn_session, begin_turn, run_turn,
  submit_user_message, respond, fuel_for, without, request_at, on_completion,
}
use embed_agent.Agent.Ends.{Ends, run_turn-Ends, on_completion-Ends}

module _ (C : ChatCodec) (K : Type 0) where
  refresh-IsWellFormed :
      (a : Agent C K) (now : Text)
      → IsWellFormed a.session
      → IsWellFormed (refresh_system_prompt C K a now).session
  unfolding refresh_system_prompt
  refresh-IsWellFormed a now w = set_system_prompt-IsWellFormed a.session _ w

  turn_session-IsWellFormed :
      (a : Agent C K) (now text : Text) (skip : Bool)
      → IsWellFormed a.session
      → IsWellFormed (turn_session C K a now text skip)
  unfolding turn_session
  turn_session-IsWellFormed a now text skip w =
      if-intro IsWellFormed (not skip)
        (append_user-IsWellFormed _ text (refresh-IsWellFormed a now w))
        (refresh-IsWellFormed a now w)

  -- A message for an idle agent ends in one of two ways: a request is on its way that holds the
  -- callbacks given, below the limit of rounds, or the done callback given is due and the agent is
  -- idle again with the requests that it had. The session stays well-formed, and the rounds end.
  pub submit_user_message-Ends :
      (a : Agent C K) (now text : Text) (on_text : Option ℕ) (on_done : K) (skip : Bool)
      → IsWellFormed a.session
      → a.turn_active ≡ false
      → Ends C K a.opts a.in_flight true on_text on_done
          (submit_user_message C K a now text on_text on_done skip)
  unfolding submit_user_message
  submit_user_message-Ends a now text on_text on_done skip w idle = rw idle (
      run_turn-Ends C K (fuel_for C K a) (begin_turn C K a now text skip)
        (record { on_text = on_text; on_done = on_done; round_trip = 0 })
        (turn_session-IsWellFormed a now text skip w) (omega arith) (omega arith))

  -- While a turn is active, another message changes nothing and is refused at once.
  pub submit_user_message_busy :
      (a : Agent C K) (now text : Text) (on_text : Option ℕ) (on_done : K) (skip : Bool)
      → a.turn_active ≡ true
      → submit_user_message C K a now text on_text on_done skip
        ≡ (a, finished on_done false (codes "EaAgent: request already in progress"))
  unfolding submit_user_message
  submit_user_message_busy a now text on_text on_done skip busy = rw busy

  -- The end of a request, with whatever code, body and error: the turn that the request holds goes
  -- on with one request more, or its done callback is due and the agent is idle; the other requests
  -- stay as they are, and the tool rounds end.
  pub respond-Ends :
      (a : Agent C K) (i : ℕ) (code : ℤ) (body err : Text) (f : InFlight C K)
      → IsWellFormed a.session
      → request_at C K a.in_flight i ≡ some f
      → (r : Agent C K × Outcome C K) × (respond C K a i code body err ≡ some r)
        × Ends C K a.opts (without C K i a.in_flight) a.turn_active f.turn.on_text f.turn.on_done r
  unfolding respond
  respond-Ends a i code body err f w here = (
    on_completion C K (run_turn C K (fuel_for C K a))
        (record a { in_flight = without C K i a.in_flight }) f.turn
        (request_done C f.pending code body err),
    rw (here, respond),
    on_completion-Ends C K (fuel_for C K a) (run_turn-Ends C K (fuel_for C K a))
        (record a { in_flight = without C K i a.in_flight }) f.turn (omega arith) (omega arith)
        (request_done C f.pending code body err) w,
  )
