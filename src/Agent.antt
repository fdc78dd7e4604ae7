-- ===== src/Agent.antt =====
-- EaAgent (src/ea_agent.cpp): one turn of a conversation, with its tool calls.
pub mod Ends
pub mod Turns
pub mod Answers
use embed_agent.Base.{
  ℕ, zero, suc, ◌+◌, ◌-◌, Bool, true, false, not, ◌&&◌, ◌||◌, List, [], ◌∷◌, ◌++◌, Option, none,
  some, Text, codes, is_empty, if◌then◌else◌, leb_ℤ, ℤ, pos, negsuc, text_eq,
}
use embed_agent.Cppev.{Message, ToolCall, ToolDef, ChatCodec}
use embed_agent.Session.{
  Session, SessionOptions, set_system_prompt, append_user, append_assistant, append_assistant_calls,
  append_tool_result, snapshot,
}
use embed_agent.Session
use embed_agent.Prompt.{PromptTemplate, set_variable, render}
use embed_agent.Tool.Registry.{Registry, invoke, tool_definitions}
use embed_agent.Llm.Client.{
  LlmClientOptions, LlmClient, LlmCompletion, Reply, Pending, Started, replied, sent, HttpRequest,
  new_client, cancel_client, chat, request_done, StreamContext, on_chunk,
}
use embed_agent.Llm.Client.{streaming, whole}

-- EaAgentOptions; the storage is a flag here, and what it does is in the outputs.
pub record AgentOptions : Type 0 where
  pub llm : LlmClientOptions
  pub session_options : SessionOptions
  pub system_template : PromptTemplate
  pub device_name : Text
  pub max_tool_round_trips : ℤ
  pub has_storage : Bool
  pub persist_session : Bool

-- What leaves the agent, in order: calls of a user's callbacks (named by a number), HTTP requests,
-- sessions handed to the storage.
pub data Output : Type 0 where
  round_started : ℕ → Output
  text_said : ℕ → Text → Output
  request_sent : HttpRequest → Output
  session_saved : Session → Output
  done_called : ℕ → Bool → Text → Output

module _ (C : ChatCodec) (K : Type 0) where
  open C use {Delta, delta_content}

  -- EaAgent::TurnContext. `on_text` is `none` for a null callback; `on_done` stands for the
  -- callback that the owner of the agent gave.
  pub record Turn : Type 0 where
    pub on_text : Option ℕ
    pub on_done : K
    pub round_trip : ℕ

  -- A request of chat that is on its way, with the turn that its callbacks hold.
  pub record InFlight : Type 0 where
    pub turn : Turn
    pub pending : Pending C

  -- `turn_active` says whether activeTurn_ is set; its target is never read.
  pub record Agent : Type 0 where
    pub opts : AgentOptions
    pub session : Session
    pub client : LlmClient
    pub registry : Option Registry
    pub has_round_callback : Bool
    pub turn_active : Bool
    pub in_flight : List InFlight
    pub outputs : List Output

  -- How a call ends: the turn waits for the network, or its done callback is due, which is the last
  -- thing that the call does. `out_of_fuel` never happens.
  pub data Outcome : Type 0 where
    waiting : Outcome
    finished : K → Bool → Text → Outcome
    out_of_fuel : Outcome

  abbrev pub emit : Agent → Output → Agent
  emit a o = record a { outputs = a.outputs ++ o ∷ [] }

  -- `now` is the text of the current time.
  unfoldable pub refresh_system_prompt : Agent → Text → Agent
  unfolding set_variable render
  refresh_system_prompt a now =
      let named = set_variable a.opts.system_template (codes "device_name") a.opts.device_name in
      record a {
        session =
            set_system_prompt a.session (render (set_variable named (codes "current_time") now));
      }

  -- The constructor. `loaded` is the session where the storage has one to load.
  unfoldable pub create : AgentOptions → Option Session → Text → Agent
  unfolding refresh_system_prompt new_client
  create opts loaded now =
      elim (if opts.has_storage && opts.persist_session then loaded else none) [
        | some s ↦ record fresh { session = s }
        | none ↦ refresh_system_prompt fresh now
      ]
    where
      fresh : Agent
      fresh = record {
        opts = opts;
        session = Session.create opts.session_options;
        client = new_client opts.llm;
        registry = none;
        has_round_callback = false;
        turn_active = false;
        in_flight = [];
        outputs = [];
      }

  abbrev pub set_tool_registry : Agent → Option Registry → Agent
  set_tool_registry a reg = record a { registry = reg }

  abbrev pub set_round_start_callback : Agent → Agent
  set_round_start_callback a = record a { has_round_callback = true }

  unfoldable override_system_prompt : Agent → Text → Agent
  override_system_prompt a prompt = record a { session = set_system_prompt a.session prompt }

  unfoldable pub finish_turn : Agent → Turn → Bool → Text → Agent × Outcome
  finish_turn a t ok error =
      let idle = record a { turn_active = false } in
      (
        if ok && (a.opts.has_storage && a.opts.persist_session)
            then emit idle (session_saved a.session)
            else idle,
        finished t.on_done ok error,
      )

  -- The calls of the turn's text callback for the deltas of a chat: an empty text is not said.
  unfoldable pub said : Option ℕ → List Delta → List Output
  said none ds = []
  said (some cb) [] = []
  said (some cb) (d ∷ ds) =
      let rest = said (some cb) ds in
      if is_empty (delta_content d) then rest else text_said cb (delta_content d) ∷ rest

  abbrev pub say : Agent → Option ℕ → List Delta → Agent
  say a on_text ds = record a { outputs = a.outputs ++ said on_text ds }

  -- The loop over the tool calls: the session after it, and the name of the tool that failed.
  unfoldable pub invoke_all : Registry → Session → List ToolCall → Session × Option Text
  unfolding invoke
  invoke_all reg s [] = (s, none)
  invoke_all reg s (c ∷ cs) = elim (invoke reg c.name c.arguments true) [
    | none ↦ (s, some c.name)
    | some result ↦ invoke_all reg (append_tool_result s c.id result) cs
  ]

  -- After the loop: the turn fails, or goes on with its next round.
  unfoldable pub after_tools :
      (Agent → Turn → Agent × Outcome) → Agent → Turn → Session × Option Text → Agent × Outcome
  unfolding finish_turn
  after_tools next a t (s, some failed) =
      finish_turn (record a { session = s }) t false
        (codes "EaAgent: tool invoke failed: " ++ failed)
  after_tools next a t (s, none) =
      next (record a { session = s }) (record t { round_trip = suc t.round_trip })

  -- A round of tool calls.
  unfoldable pub run_tools :
      (Agent → Turn → Agent × Outcome)
      → Agent
      → Turn
      → LlmCompletion
      → Option Registry
      → Agent × Outcome
  unfolding finish_turn invoke_all after_tools
  run_tools next a t result none =
      finish_turn a t false (codes "EaAgent: tool_calls but no registry")
  run_tools next a t result (some reg) = after_tools next a t (
      invoke_all reg (append_assistant_calls a.session result.content result.tool_calls)
        result.tool_calls)

  -- The completion callback of runTurn; `next` is runTurn.
  unfoldable pub on_completion :
      (Agent → Turn → Agent × Outcome) → Agent → Turn → Reply → Agent × Outcome
  unfolding finish_turn run_tools
  on_completion next a t r =
      if not r.ok
      then finish_turn a t false r.error
      else (let has_tool_calls = not (is_empty r.result.tool_calls) in
          let wants_tools = text_eq r.result.finish_reason (codes "tool_calls") || has_tool_calls in
          if wants_tools && has_tool_calls
          then run_tools next a t r.result a.registry
          else finish_turn (record a { session = append_assistant a.session r.result.content }) t
              true [])

  abbrev pub offered_tools : Option Registry → List ToolDef
  offered_tools none = []
  offered_tools (some reg) = tool_definitions reg

  -- What runTurn does once chat has returned.
  unfoldable pub after_chat :
      (Agent → Turn → Agent × Outcome) → Agent → Turn → LlmClient × Started C → Agent × Outcome
  unfolding on_completion said
  after_chat next a t (client, replied deltas r) =
      on_completion next (say (record a { client = client }) t.on_text deltas) t r
  after_chat next a t (client, sent request pending) = (
    record (emit a (request_sent request)) {
      client = client;
      in_flight = a.in_flight ++ record { turn = t; pending = pending } ∷ [];
    },
    waiting,
  )

  -- The call of onRoundStart_, where it is set.
  abbrev pub announce : Agent → ℕ → Agent
  announce a round_trip = record a {
    outputs =
        if a.has_round_callback then a.outputs ++ round_started round_trip ∷ [] else a.outputs;
  }

  abbrev pub start_chat : Agent → LlmClient × Started C
  start_chat a = chat C a.client (snapshot a.session) (offered_tools a.registry)

  -- Each round takes one of the rounds left.
  unfoldable pub run_turn : ℕ → Agent → Turn → Agent × Outcome
  unfolding finish_turn after_chat chat tool_definitions
  run_turn zero a t = (a, out_of_fuel)
  run_turn (suc fuel) a t =
      if leb_ℤ a.opts.max_tool_round_trips (pos t.round_trip)
      then finish_turn a t false (codes "EaAgent: max tool round trips exceeded")
      else after_chat (run_turn fuel) (announce a t.round_trip) t (start_chat a)

  abbrev pub max_rounds : ℤ → ℕ
  max_rounds (pos n) = n
  max_rounds (negsuc n) = 0

  -- Enough for the rounds that the limit allows, and the last look at it.
  abbrev pub fuel_for : Agent → ℕ
  fuel_for a = suc (max_rounds a.opts.max_tool_round_trips)

  -- The session with a fresh system prompt and, mostly, the user's message.
  unfoldable pub turn_session : Agent → Text → Text → Bool → Session
  unfolding refresh_system_prompt
  turn_session a now text skip_append_user =
      let refreshed = (refresh_system_prompt a now).session in
      if not skip_append_user then append_user refreshed text else refreshed

  abbrev pub begin_turn : Agent → Text → Text → Bool → Agent
  begin_turn a now text skip_append_user = record a {
    session = turn_session a now text skip_append_user;
    turn_active = true;
  }

  unfoldable pub submit_user_message : Agent → Text → Text → Option ℕ → K → Bool → Agent × Outcome
  unfolding turn_session run_turn
  submit_user_message a now text on_text on_done skip_append_user =
      if a.turn_active
      then (a, finished on_done false (codes "EaAgent: request already in progress"))
      else run_turn (fuel_for a) (begin_turn a now text skip_append_user)
          (record { on_text = on_text; on_done = on_done; round_trip = 0 })

  -- A request that is on its way stays so: its callbacks hold the turn themselves.
  unfoldable pub cancel : Agent → Agent
  unfolding cancel_client
  cancel a = record a { client = cancel_client a.client; turn_active = false }

  abbrev pub without : ℕ → List InFlight → List InFlight
  without i [] = []
  without zero (x ∷ xs) = xs
  without (suc i) (x ∷ xs) = x ∷ without i xs

  abbrev pub request_at : List InFlight → ℕ → Option InFlight
  request_at [] i = none
  request_at (x ∷ xs) zero = some x
  request_at (x ∷ xs) (suc i) = request_at xs i

  abbrev pub replace : ℕ → InFlight → List InFlight → List InFlight
  replace i y [] = []
  replace zero y (x ∷ xs) = y ∷ xs
  replace (suc i) y (x ∷ xs) = x ∷ replace i y xs

  -- A chunk for the turn `t`; only a stream takes it.
  unfoldable pub receive_pending : Agent → ℕ → Text → Turn → Pending C → Option (Agent × Bool)
  unfolding said on_chunk
  receive_pending a i chunk t whole = none
  receive_pending a i chunk t (streaming ctx) =
      let (ctx', ds, good) = on_chunk C ctx chunk in
      let f : InFlight = record { turn = t; pending = streaming ctx' } in
      some (say (record a { in_flight = replace i f a.in_flight }) t.on_text ds, good)

  -- A chunk of the stream number `i`, and what the callback returns; `none` where there is no such
  -- stream.
  unfoldable pub receive : Agent → ℕ → Text → Option (Agent × Bool)
  unfolding receive_pending
  receive a i chunk = elim (request_at a.in_flight i) [
    | none ↦ none
    | some f ↦ receive_pending a i chunk f.turn f.pending
  ]

  -- The end of the request number `i` of those on their way; `none` where there is no such request.
  unfoldable pub respond : Agent → ℕ → ℤ → Text → Text → Option (Agent × Outcome)
  unfolding on_completion run_turn request_done
  respond a i code body err = elim (request_at a.in_flight i) [
    | none ↦ none
    | some f ↦ some (
        on_completion (run_turn (fuel_for a)) (record a { in_flight = without i a.in_flight })
          f.turn (request_done C f.pending code body err))
  ]
