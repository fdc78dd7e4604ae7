-- ===== src/Agent/Ends.antt =====
-- How the calls of EaAgent end (src/ea_agent.cpp): with a request on its way, or with the done
-- callback due.
use embed_agent.Base.{
  ℕ, zero, suc, ◌+◌, ◌≡◌, ◌<◌, refl, inl, inr, Bool, true, false, not, ◌&&◌, List, [], ◌∷◌, ◌++◌,
  Option, none, some, Text, leb_ℤ, ℤ, pos, negsuc, arith, Bool-cases, Option-cases, if-intro,
}
use embed_agent.Cppev.{ToolCall, ChatCodec}
use embed_agent.Session.{Session, append_assistant, append_tool_result}
use embed_agent.Session.Prompt.{IsWellFormed}
use embed_agent.Session.Append.{
  append_assistant-IsWellFormed, append_assistant_calls-IsWellFormed,
  append_tool_result-IsWellFormed,
}
use embed_agent.Tool.Registry.{Registry, invoke}
use embed_agent.Llm.Client.{Reply, Started, replied, sent, LlmClient, LlmCompletion}
use embed_agent.Agent.{
  AgentOptions, Agent, Turn, InFlight, Outcome, waiting, finished, out_of_fuel, finish_turn, say,
  invoke_all, after_tools, run_tools, on_completion, after_chat, run_turn, max_rounds, announce,
  start_chat,
}

module _ (C : ChatCodec) (K : Type 0) where
  open C use {Delta, delta_content}

  -- The agent `a` after a call for a turn with the callbacks `on_text` and `on_done`, begun with
  -- the requests `before` on their way.
  abbrev pub OutcomeFits :
      List (InFlight C K) → Bool → Option ℕ → K → Agent C K → Outcome C K → Type 0
  OutcomeFits before active on_text on_done a waiting =
      (a.turn_active ≡ active)
      × ((f : InFlight C K) × (a.in_flight ≡ before ++ f ∷ [])
          × (f.turn.on_text ≡ on_text)
          × (f.turn.on_done ≡ on_done)
          × (leb_ℤ a.opts.max_tool_round_trips (pos f.turn.round_trip) ≡ false))
  OutcomeFits before active on_text on_done a (finished k ok error) =
      (a.turn_active ≡ false) × (a.in_flight ≡ before) × (k ≡ on_done)
  OutcomeFits before active on_text on_done a out_of_fuel = ⊥

  pub record Ends (opts : AgentOptions) (before : List (InFlight C K)) (active : Bool)
      (on_text : Option ℕ) (on_done : K) (r : Agent C K × Outcome C K) : Type 0 where
    pub opts_kept : r.0.opts ≡ opts
    pub well_formed : IsWellFormed r.0.session
    pub outcome : OutcomeFits before active on_text on_done r.0 r.1

  abbrev EndsFor : Agent C K → Turn C K → Agent C K × Outcome C K → Type 0
  EndsFor a t r = Ends a.opts a.in_flight a.turn_active t.on_text t.on_done r

  finish_turn-Ends :
      (a : Agent C K) (t : Turn C K) (ok : Bool) (error : Text)
      → IsWellFormed a.session
      → EndsFor a t (finish_turn C K a t ok error)
  unfolding finish_turn
  finish_turn-Ends a t ok error w =
      elim (Bool-cases (ok && (a.opts.has_storage && a.opts.persist_session))) [
        | inl saves ↦
            rw saves (record { opts_kept = refl; well_formed = w; outcome = (refl, refl, refl) })
        | inr skips ↦
            rw skips (record { opts_kept = refl; well_formed = w; outcome = (refl, refl, refl) })
      ]

  invoke_all-IsWellFormed :
      (reg : Registry) (s : Session) (calls : List ToolCall)
      → IsWellFormed s
      → IsWellFormed (invoke_all C K reg s calls).0
  unfolding invoke_all
  invoke_all-IsWellFormed reg s [] w = w
  invoke_all-IsWellFormed reg s (c ∷ cs) w =
      elim (Option-cases (invoke reg c.name c.arguments true)) [
        | inl e ↦ rw (e, invoke_all) w
        | inr (result, e) ↦
            rw (e, invoke_all)
              (invoke_all-IsWellFormed reg (append_tool_result s c.id result) cs
                (append_tool_result-IsWellFormed s c.id result w))
      ]

  -- What the rounds left give, at every turn for which they are enough.
  abbrev RoundsEnd : ℕ → Type 0
  RoundsEnd fuel =
      (a : Agent C K) (t : Turn C K)
      → IsWellFormed a.session
      → max_rounds C K a.opts.max_tool_round_trips < t.round_trip + fuel
      → 0 < fuel
      → EndsFor a t (run_turn C K fuel a t)

  module _ (fuel : ℕ) (rounds : RoundsEnd fuel) (a : Agent C K) (t : Turn C K)
      (enough : max_rounds C K a.opts.max_tool_round_trips < suc t.round_trip + fuel)
      (some_fuel : 0 < fuel) where
    after_tools-Ends :
        (r : Session × Option Text)
        → IsWellFormed r.0
        → EndsFor a t (after_tools C K (run_turn C K fuel) a t r)
    unfolding after_tools
    after_tools-Ends (s, some failed) w = finish_turn-Ends (record a { session = s }) t false _ w
    after_tools-Ends (s, none) w = rounds _ _ w enough some_fuel

    run_tools-Ends :
        (result : LlmCompletion) (reg : Option Registry)
        → IsWellFormed a.session
        → EndsFor a t (run_tools C K (run_turn C K fuel) a t result reg)
    unfolding run_tools
    run_tools-Ends result none w = finish_turn-Ends a t false _ w
    run_tools-Ends result (some reg) w = after_tools-Ends _ (
        invoke_all-IsWellFormed reg _ result.tool_calls
          (append_assistant_calls-IsWellFormed a.session result.content result.tool_calls w))

    pub on_completion-Ends :
        (r : Reply)
        → IsWellFormed a.session
        → EndsFor a t (on_completion C K (run_turn C K fuel) a t r)
    unfolding on_completion
    on_completion-Ends r w =
        if-intro (EndsFor a t) (not r.ok) (finish_turn-Ends a t false r.error w) (
          if-intro (EndsFor a t) _ (run_tools-Ends r.result a.registry w) (
            finish_turn-Ends (record a { session = append_assistant a.session r.result.content }) t
              true [] (append_assistant-IsWellFormed a.session r.result.content w)))

  after_chat-Ends :
      (fuel : ℕ)
      → RoundsEnd fuel
      → (a : Agent C K) (t : Turn C K) (started : LlmClient × Started C)
      → max_rounds C K a.opts.max_tool_round_trips < suc t.round_trip + fuel
      → 0 < fuel
      → leb_ℤ a.opts.max_tool_round_trips (pos t.round_trip) ≡ false
      → IsWellFormed a.session
      → EndsFor a t (after_chat C K (run_turn C K fuel) a t started)
  unfolding after_chat
  after_chat-Ends fuel rounds a t (client, replied deltas r) enough some_fuel below w =
      on_completion-Ends fuel rounds (say C K (record a { client = client }) t.on_text deltas) t
        enough some_fuel r w
  after_chat-Ends fuel rounds a t (client, sent request pending) enough some_fuel below w = record {
    opts_kept = refl;
    well_formed = w;
    outcome = (refl, (record { turn = t; pending = pending }, refl, refl, refl, below));
  }

  below-max :
      (n : ℕ) (limit : ℤ) (fuel : ℕ)
      → leb_ℤ limit (pos n) ≡ false
      → max_rounds C K limit < n + suc fuel
      → 0 < fuel
  below-max n (pos m) fuel below enough = ground arith
  below-max n (negsuc m) fuel below enough = cc

  -- With fuel for the rounds that the limit allows, a turn ends properly.
  pub run_turn-Ends : (fuel : ℕ) → RoundsEnd fuel
  unfolding run_turn
  run_turn-Ends zero a t w enough some_fuel = elim some_fuel [ ]
  run_turn-Ends (suc fuel) a t w enough some_fuel =
      elim (Bool-cases (leb_ℤ a.opts.max_tool_round_trips (pos t.round_trip))) [
        | inl over ↦ rw over (finish_turn-Ends a t false _ w)
        | inr below ↦ rw below (
            after_chat-Ends fuel (run_turn-Ends fuel) (announce C K a t.round_trip) t
              (start_chat C K a) (omega arith)
              (below-max t.round_trip a.opts.max_tool_round_trips fuel below enough) below w)
      ]
