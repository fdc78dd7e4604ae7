-- ===== src/Agent/Answers.antt =====
-- A turn of EaAgent that is answered without tool calls (src/ea_agent.cpp, src/ea_llm_client.cpp).
use embed_agent.Base.{
  ℕ, suc, ◌+◌, ◌≡◌, refl, ap, ◌∙◌, true, false, ◌||◌, ◌&&◌, List, [], ◌∷◌, ◌++◌, Option, some, Text,
  pos, is_empty, leb_ℤ, arith, if-intro,
}
use embed_agent.Cppev.{Message, ToolDef, ChatCodec, ChatRequest, ChatResponse}
use embed_agent.Session.{append_assistant, snapshot}
use embed_agent.Llm.Client.{
  LlmClient, whole, sent, success, chat, chat_http, chat_request, http_request, request_done,
  whole_done,
}
use embed_agent.Agent.{
  Agent, InFlight, Turn, Outcome, waiting, finished, Output, text_said, done_called, session_saved,
  emit, request_sent, round_started, begin_turn, run_turn, submit_user_message, respond,
  finish_turn, on_completion, offered_tools, after_chat, announce, fuel_for,
}

-- How many requests were sent.
abbrev pub requests : List Output → ℕ
requests [] = 0
requests (request_sent r ∷ os) = suc (requests os)
requests (round_started n ∷ os) = requests os
requests (text_said cb t ∷ os) = requests os
requests (session_saved s ∷ os) = requests os
requests (done_called cb ok t ∷ os) = requests os

pub requests-append : (os qs : List Output) → requests (os ++ qs) ≡ requests os + requests qs
requests-append [] qs = omega arith
requests-append (request_sent r ∷ os) qs = omega (arith, requests-append os qs)
requests-append (round_started n ∷ os) qs = omega (arith, requests-append os qs)
requests-append (text_said cb t ∷ os) qs = omega (arith, requests-append os qs)
requests-append (session_saved s ∷ os) qs = omega (arith, requests-append os qs)
requests-append (done_called cb ok t ∷ os) qs = omega (arith, requests-append os qs)

module _ (C : ChatCodec) (K : Type 0) where
  open C use {parse_chat_response, build_chat_request_json}

  -- An agent that allows a round and whose client sends requests: no mock responses, an address, a
  -- key, a model, no stream.
  pub record IsReady (a : Agent C K) : Type 0 where
    pub rounds : leb_ℤ a.opts.max_tool_round_trips (pos 0) ≡ false
    pub unmocked : is_empty a.client.opts.mock_responses ≡ true
    pub named :
        (is_empty a.client.opts.url
          || is_empty a.client.opts.api_key
          || is_empty a.client.opts.model)
        ≡ false
    pub unstreamed : a.client.opts.stream ≡ false

  -- Only the options and the client matter.
  IsReady-same :
      (a a' : Agent C K) → IsReady a → a'.opts ≡ a.opts → a'.client ≡ a.client → IsReady a'
  IsReady-same a a' ready o c = record {
    rounds = rw o ready.rounds;
    unmocked = rw c ready.unmocked;
    named = rw c ready.named;
    unstreamed = rw c ready.unstreamed;
  }

  -- A ready agent without a turn, and without requests on their way.
  pub record IsIdle (a : Agent C K) : Type 0 where
    pub ready : IsReady a
    pub inactive : a.turn_active ≡ false
    pub unsent : a.in_flight ≡ []

  -- A ready agent with one request on its way, of the first round of a turn.
  pub record IsAwaiting (a : Agent C K) (on_text : Option ℕ) (on_done : K) : Type 0 where
    pub ready : IsReady a
    pub sent_one :
        a.in_flight
        ≡ record {
          turn = record { on_text = on_text; on_done = on_done; round_trip = 0 };
          pending = whole;
        }
          ∷ []

  -- A body is an answer where it is parsed to a response without tool calls.
  pub record IsAnswer (body : Text) : Type 0 where
    pub response : ChatResponse
    pub parsed : parse_chat_response body ≡ some response
    pub no_calls : is_empty response.tool_calls ≡ true

  chat-sent :
      (c : LlmClient) (messages : List Message) (tools : List ToolDef) (body : Text)
      → is_empty c.opts.mock_responses ≡ true
      → (is_empty c.opts.url || is_empty c.opts.api_key || is_empty c.opts.model) ≡ false
      → c.opts.stream ≡ false
      → build_chat_request_json (chat_request C c messages tools) ≡ some body
      → chat C c messages tools ≡ (c, sent (http_request C c body) whole)
  unfolding chat chat_http
  chat-sent c messages tools body unmocked named unstreamed built =
      rw (unmocked, named, built, unstreamed) refl

  announce-requests :
      (a : Agent C K) (n : ℕ) → requests (announce C K a n).outputs ≡ requests a.outputs
  announce-requests a n =
      if-intro (λ os. requests os ≡ requests a.outputs) a.has_round_callback
        (omega (arith, requests-append a.outputs (round_started n ∷ []))) refl

  -- A message for a ready and idle agent is sent in one request.
  pub submit_user_message-IsAwaiting :
      (a : Agent C K) (now text : Text) (on_text : Option ℕ) (on_done : K)
      → ((r : ChatRequest) → (body : Text) × (build_chat_request_json r ≡ some body))
      → IsIdle a
      → (a' : Agent C K) × (submit_user_message C K a now text on_text on_done false
          ≡ (a', waiting))
        × IsAwaiting a' on_text on_done
        × (requests a'.outputs ≡ suc (requests a.outputs))
  unfolding submit_user_message run_turn after_chat
  submit_user_message-IsAwaiting a now text on_text on_done builds i =
      let b = begin_turn C K a now text false in
      let messages = snapshot b.session in
      let tools = offered_tools C K a.registry in
      let flight : InFlight C K = record {
        turn = record { on_text = on_text; on_done = on_done; round_trip = 0 };
        pending = whole;
      } in
      let (body, built) = builds (chat_request C a.client messages tools) in
      let request = request_sent (http_request C a.client body) in
      (
        record (emit C K (announce C K b 0) request) { in_flight = a.in_flight ++ flight ∷ [] },
        rw
            (
              i.inactive,
              i.ready.rounds,
              chat-sent a.client messages tools body i.ready.unmocked i.ready.named
                  i.ready.unstreamed built,
            )
            refl,
        record {
          ready = IsReady-same a _ i.ready refl refl;
          sent_one = ap (λ fs. fs ++ flight ∷ []) i.unsent;
        },
        requests-append (announce C K b 0).outputs (request ∷ [])
            ∙ omega (arith, announce-requests b 0),
      )

  request_done-IsAnswer :
      (body : Text) (answer : IsAnswer body)
      → request_done C whole (pos 200) body [] ≡ success answer.response
  unfolding request_done whole_done
  request_done-IsAnswer body answer = rw answer.parsed refl

  finish_turn-IsIdle :
      (a : Agent C K) (on_text : Option ℕ) (on_done : K)
      → IsReady a
      → a.in_flight ≡ []
      → let r =
          finish_turn C K a
            (record { on_text = on_text; on_done = on_done; round_trip = 0 })
            true
            [] in
        (r ≡ (r.0, finished on_done true []))
        × IsIdle r.0
        × (requests r.0.outputs ≡ requests a.outputs)
  unfolding finish_turn
  finish_turn-IsIdle a on_text on_done ready unsent = (
    refl,
    if-intro IsIdle (a.opts.has_storage && a.opts.persist_session)
        (record { ready = IsReady-same a _ ready refl refl; inactive = refl; unsent = unsent })
        (record { ready = IsReady-same a _ ready refl refl; inactive = refl; unsent = unsent }),
    if-intro (λ (b : Agent C K). requests b.outputs ≡ requests a.outputs)
        (a.opts.has_storage && a.opts.persist_session)
        (omega (arith, requests-append a.outputs (session_saved a.session ∷ []))) refl,
  )

  on_completion-answered :
      (next : Agent C K → Turn C K → Agent C K × Outcome C K) (a : Agent C K) (t : Turn C K)
      (r : ChatResponse)
      → is_empty r.tool_calls ≡ true
      → on_completion C K next a t (success r)
        ≡ finish_turn C K (record a { session = append_assistant a.session r.content }) t true []
  unfolding on_completion
  on_completion-answered next a t r none_called = ground arith

  -- The answer to the one request of a turn ends the turn.
  pub respond-IsIdle :
      (a : Agent C K) (body : Text) (on_text : Option ℕ) (on_done : K)
      → IsAnswer body
      → IsAwaiting a on_text on_done
      → (a' : Agent C K) × (respond C K a 0 (pos 200) body [] ≡ some (a', finished on_done true []))
        × IsIdle a'
        × (requests a'.outputs ≡ requests a.outputs)
  unfolding respond
  respond-IsIdle a body on_text on_done answer i =
      let t : Turn C K = record { on_text = on_text; on_done = on_done; round_trip = 0 } in
      let rest = record a { in_flight = [] } in
      let said_all = record rest { session = append_assistant a.session answer.response.content } in
      let (ends, idle, same) =
        finish_turn-IsIdle said_all on_text on_done (IsReady-same a _ i.ready refl refl) refl in
      (
        (finish_turn C K said_all t true []).0,
        rw (i.sent_one, request_done-IsAnswer body answer)
            (ap some (
              on_completion-answered (run_turn C K (fuel_for C K a)) rest t answer.response
                answer.no_calls
              ∙ ends)),
        idle,
        same,
      )
