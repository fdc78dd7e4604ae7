-- ===== src/Tests/Agents.antt =====
-- Examples for the properties of EaAgent.
use embed_agent.Base.{ℕ, refl, ◌≡◌, true, false, [], ◌∷◌, some, codes, pos}
use embed_agent.Llm.Client.{whole}
use embed_agent.Agent.{Agent, Outcome, InFlight, submit_user_message, respond}
use embed_agent.Agent.Ends.{Ends}
use embed_agent.Agent.Turns.{submit_user_message-Ends, respond-Ends}
use embed_agent.Tests.Data.{sample_codec, sample_agent}

submit_user_message-Ends_example :
    Ends sample_codec ℕ
      (sample_agent {K = ℕ}).opts
      []
      true
      (some 1)
      2
      (submit_user_message sample_codec ℕ sample_agent (codes "now") (codes "hi") (some 1) 2 false)
submit_user_message-Ends_example =
    submit_user_message-Ends sample_codec ℕ sample_agent (codes "now") (codes "hi") (some 1) 2 false
      (refl, refl) refl

abbrev sample_request : InFlight sample_codec ℕ
sample_request = record {
  turn = record { on_text = some 1; on_done = 2; round_trip = 0 };
  pending = whole;
}

-- An agent whose request is on its way.
abbrev busy_agent : Agent sample_codec ℕ
busy_agent = record sample_agent { turn_active = true; in_flight = sample_request ∷ [] }

-- The response asks for the tool.
respond-Ends_example :
    (r : Agent sample_codec ℕ × Outcome sample_codec ℕ) × (respond sample_codec ℕ busy_agent 0
        (pos 200)
        (codes "!light")
        []
      ≡ some r)
    × Ends sample_codec ℕ busy_agent.opts [] true (some 1) 2 r
respond-Ends_example =
    respond-Ends sample_codec ℕ busy_agent 0 (pos 200) (codes "!light") [] sample_request
      (refl, refl) refl
