-- ===== src/Examples/Demo/Asking.antt =====
-- How an agent asks for its first answer: the request that a message leads to (src/ea_agent.cpp,
-- src/ea_llm_client.cpp).
use embed_agent.Base.{
  suc, ◌≡◌, refl, ap, ◌∙◌, Bool, true, false, not, ◌||◌, List, [], ◌∷◌, ◌++◌, Option, none, some,
  Text, codes, is_empty, if◌then◌else◌, pos, leb_ℤ, arith,
}
use embed_agent.Cppev.{ChatCodec, ChatRequest, Message, ToolDef}
use embed_agent.Session.{Session, snapshot}
use embed_agent.Llm.Url.{resolve_chat_completions_url}
use embed_agent.Llm.Client.{
  LlmClient, LlmClientOptions, HttpRequest, Pending, Started, sent, replied, failure, whole,
  streaming, new_client, chat, chat_http, chat_mock, chat_request, http_request,
}
use embed_agent.Agent.{
  AgentOptions, Agent, Turn, Outcome, waiting, Output, round_started, request_sent, create,
  submit_user_message, run_turn, after_chat, begin_turn, announce, offered_tools, max_rounds,
  finish_turn,
}

-- A request for the completions of the URL, with the key.
abbrev pub IsAuthorized : Text → Text → HttpRequest → Type 0
IsAuthorized url key r =
    (r.url ≡ resolve_chat_completions_url url)
    × (r.headers
        ≡ (codes "Authorization", codes "Bearer " ++ key)
          ∷ ((codes "Content-Type", codes "application/json") ∷ []))

-- Every request of a chat has a JSON text.
abbrev pub BuildsAll : ChatCodec → Type 0
BuildsAll C = (r : ChatRequest) → (body : Text) × (C.build_chat_request_json r ≡ some body)

-- What a client needs to send a request.
abbrev pub IsUsable : LlmClientOptions → Type 0
IsUsable o =
    (o.mock_responses ≡ [])
    × (is_empty o.url ≡ false)
    × (is_empty o.api_key ≡ false)
    × (is_empty o.model ≡ false)
    × (o.stream ≡ true)

-- The agent has announced its first round and sent a request; it waits for the end of it.
abbrev pub HasAsked : (C : ChatCodec) → Text → Text → Agent C Unit × Outcome C Unit → Type 0
HasAsked C url key r =
    (request : HttpRequest) × (r.0.outputs ≡ round_started 0 ∷ (request_sent request ∷ []))
    × (r.1 ≡ waiting)
    × IsAuthorized url key request

module _ (C : ChatCodec) (builds : BuildsAll C) where
  -- The tests of the branch that sends a request, for any client and request.
  sent_through :
      (c : LlmClient) (refused failed : LlmClient × Started C) (request : Text → HttpRequest)
      (streamed : Pending C) (lacking : Bool) (built : Option Text) (body : Text) (streams : Bool)
      → lacking ≡ false
      → built ≡ some body
      → streams ≡ true
      → (if lacking then refused else elim built [
        | none ↦ failed
        | some text ↦
            if not streams
            then (c, sent (request text) whole)
            else (record c { active = true }, sent (request text) streamed)
      ])
        ≡ (record c { active = true }, sent (request body) streamed)
  sent_through c refused failed request streamed lacking built body streams hl hb hs =
      rw (hl, hb, hs) refl

  chat-sent :
      (c : LlmClient) (ms : List Message) (ts : List ToolDef)
      → IsUsable c.opts
      → (client : LlmClient) × (body : Text) × (p : Pending C) × (chat C c ms ts
          ≡ (client, sent (http_request C c body) p))
  unfolding chat chat_http
  chat-sent c ms ts (mocks, url, key, model, streams) =
      let text = builds (chat_request C c ms ts) in
      let streamed : Pending C =
        streaming (record { parser = C.new_parser; accumulator = C.new_accumulator }) in
      (
        record c { active = true },
        text.0,
        streamed,
        ap (λ (l : List Text). if not (is_empty l) then chat_mock C c else chat_http C c ms ts)
              mocks
            ∙ sent_through c
                (c, replied [] (failure (codes "EaLlmClient: url/apiKey/model required")))
                (c, replied [] (failure (codes "EaLlmClient: buildChatRequestJson failed")))
                (http_request C c) streamed
                (is_empty c.opts.url || is_empty c.opts.api_key || is_empty c.opts.model)
                (C.build_chat_request_json (chat_request C c ms ts)) text.0 c.opts.stream
                (lacks_none (is_empty c.opts.url) (is_empty c.opts.api_key) (is_empty c.opts.model)
                  url key model)
                text.1 streams,
      )
    where
      lacks_none : (a b c : Bool) → a ≡ false → b ≡ false → c ≡ false → (a || b || c) ≡ false
      lacks_none a b c ha hb hc = rw (ha, hb, hc) refl

  -- A new agent has its options and a new client, and nothing has left it.
  abbrev pub IsNew : AgentOptions → Agent C Unit → Type 0
  IsNew opts a =
      (a.opts ≡ opts)
      × (a.client ≡ new_client opts.llm)
      × (a.outputs ≡ [])
      × (a.turn_active ≡ false)

  pub create-IsNew :
      (opts : AgentOptions) (loaded : Option Session) (now : Text)
      → IsNew opts (create C Unit opts loaded now)
  unfolding create
  create-IsNew opts loaded now = ground arith

  pub submit-HasAsked :
      (a : Agent C Unit) (now prompt : Text)
      → a.turn_active ≡ false
      → a.outputs ≡ []
      → a.has_round_callback ≡ true
      → leb_ℤ a.opts.max_tool_round_trips (pos 0) ≡ false
      → IsUsable a.client.opts
      → HasAsked C a.client.opts.url a.client.opts.api_key
          (submit_user_message C Unit a now prompt (some 0) tt false)
  unfolding submit_user_message run_turn after_chat
  submit-HasAsked a now prompt idle silent hears rounds usable =
      let b = begin_turn C Unit a now prompt false in
      let t : Turn C Unit = record { on_text = some 0; on_done = tt; round_trip = 0 } in
      let fuel = max_rounds C Unit a.opts.max_tool_round_trips in
      let next = run_turn C Unit fuel in
      let asked =
        chat-sent a.client (snapshot b.session) (offered_tools C Unit a.registry) usable in
      let announced = announce C Unit b 0 in
      let request = http_request C a.client asked.1 in
      let done =
        ap
          (λ (active : Bool).
            if active
            then (a, Outcome.finished tt false (codes "EaAgent: request already in progress"))
            else run_turn C Unit (suc fuel) b t)
          idle
        ∙ ap
            (λ (over : Bool).
              if over
              then finish_turn C Unit b t false (codes "EaAgent: max tool round trips exceeded")
              else after_chat C Unit next announced t
                  (chat C a.client (snapshot b.session) (offered_tools C Unit a.registry)))
            rounds
        ∙ ap (after_chat C Unit next announced t) asked.3 in
      (
        request,
        ap (λ (r : Agent C Unit × Outcome C Unit). r.0.outputs) done
            ∙ (ap
                  (λ (heard : Bool).
                    (if heard then a.outputs ++ round_started 0 ∷ [] else a.outputs)
                    ++ request_sent request ∷ [])
                  hears
                ∙ ap
                    (λ (os : List Output).
                      (os ++ round_started 0 ∷ []) ++ request_sent request ∷ [])
                    silent),
        ap (λ (r : Agent C Unit × Outcome C Unit). r.1) done,
        (refl, refl),
      )
