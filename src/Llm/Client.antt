-- ===== src/Llm/Client.antt =====
-- EaLlmClient (src/ea_llm_client.cpp): chat and the callbacks of its HTTP requests. The retry
-- policy is handed through unread, and both callbacks of `chat` are taken to be set, as EaAgent,
-- its only caller, sets them.
use embed_agent.Base.{
  ℕ, suc, Bool, true, false, not, ◌||◌, List, [], ◌∷◌, ◌++◌, none, some, Text, codes, is_empty,
  if◌then◌else◌, leb_ℤ, ℤ, pos, int_to_string, get_elem?,
}
use embed_agent.Cppev.{Message, ToolCall, ToolDef, ChatRequest, ChatResponse, ChatCodec}
use embed_agent.Llm.Url.{resolve_chat_completions_url}
use embed_agent.NetworkError.{http_prefix}

-- EaLlmClientOptions.
pub record LlmClientOptions : Type 0 where
  pub url : Text
  pub api_key : Text
  pub model : Text
  pub stream : Bool
  pub total_timeout_sec : ℤ
  pub mock_responses : List Text

-- EaLlmCompletion.
pub record LlmCompletion : Type 0 where
  pub content : Text
  pub finish_reason : Text
  pub tool_calls : List ToolCall

abbrev no_completion : LlmCompletion
no_completion = record { content = []; finish_reason = []; tool_calls = [] }

-- The arguments of the completion callback.
pub record Reply : Type 0 where
  pub ok : Bool
  pub result : LlmCompletion
  pub error : Text

abbrev pub failure : Text → Reply
failure error = record { ok = false; result = no_completion; error = error }

abbrev pub success : ChatResponse → Reply
success r = record {
  ok = true;
  result = record {
    content = r.content;
    finish_reason = r.finish_reason;
    tool_calls = r.tool_calls;
  };
  error = [];
}

-- cppev::ext::EvHttpRequest, as chat fills it in.
pub record HttpRequest : Type 0 where
  pub method : Text
  pub url : Text
  pub body : Text
  pub headers : List (Text × Text)
  pub total_timeout_sec : ℤ

-- `active` says whether activeCtx_ is set.
pub record LlmClient : Type 0 where
  pub opts : LlmClientOptions
  pub mock_index : ℕ
  pub active : Bool

unfoldable pub new_client : LlmClientOptions → LlmClient
new_client opts = record { opts = opts; mock_index = 0; active = false }

unfoldable pub cancel_client : LlmClient → LlmClient
cancel_client c = record c { active = false }

abbrev bad_status : ℤ → Bool
bad_status code = not (leb_ℤ (pos 200) code) || leb_ℤ (pos 300) code

module _ (C : ChatCodec) where
  open C use {
    parse_chat_response, build_chat_request_json, Delta, delta_content, content_delta,
    parse_stream_delta, Parser, new_parser, feed, Accumulator, new_accumulator, apply_delta,
    accumulated,
  }

  -- EaLlmClient::ChatContext without its two callbacks.
  pub record StreamContext : Type 0 where
    pub parser : Parser
    pub accumulator : Accumulator

  -- What a request waits for: the whole body, or a stream.
  pub data Pending : Type 0 where
    whole : Pending
    streaming : StreamContext → Pending

  -- Either the completion callback has run when chat returns, or a request is on its way.
  pub data Started : Type 0 where
    replied : List Delta → Reply → Started
    sent : HttpRequest → Pending → Started

  -- The branch of chat for mock responses.
  unfoldable pub chat_mock : LlmClient → LlmClient × Started
  chat_mock c = elim (get_elem? c.opts.mock_responses c.mock_index) [
    | none ↦ (c, replied [] (failure (codes "EaLlmClient: mock responses exhausted")))
    | some body ↦ (
      record c { mock_index = suc c.mock_index },
      elim (parse_chat_response body) [
        | none ↦ replied [] (failure (codes "EaLlmClient: mock parseChatResponse failed"))
        | some parsed ↦
            replied (if is_empty parsed.content then [] else content_delta parsed.content ∷ [])
              (success parsed)
      ],
    )
  ]

  abbrev pub chat_request : LlmClient → List Message → List ToolDef → ChatRequest
  chat_request c messages tools = record {
    model = c.opts.model;
    messages = messages;
    tools = tools;
    stream = c.opts.stream;
    tool_choice = if is_empty tools then [] else codes "auto";
  }

  abbrev pub http_request : LlmClient → Text → HttpRequest
  http_request c body = record {
    method = codes "POST";
    url = resolve_chat_completions_url c.opts.url;
    body = body;
    headers =
        (codes "Authorization", codes "Bearer " ++ c.opts.api_key)
        ∷ ((codes "Content-Type", codes "application/json") ∷ []);
    total_timeout_sec = c.opts.total_timeout_sec;
  }

  -- The branch of chat that sends a request.
  unfoldable pub chat_http : LlmClient → List Message → List ToolDef → LlmClient × Started
  unfolding resolve_chat_completions_url
  chat_http c messages tools =
      if is_empty c.opts.url || is_empty c.opts.api_key || is_empty c.opts.model
      then (c, replied [] (failure (codes "EaLlmClient: url/apiKey/model required")))
      else elim (build_chat_request_json (chat_request c messages tools)) [
        | none ↦ (c, replied [] (failure (codes "EaLlmClient: buildChatRequestJson failed")))
        | some body ↦ if not c.opts.stream then (c, sent (http_request c body) whole) else (
          record c { active = true },
          sent (http_request c body)
              (streaming (record { parser = new_parser; accumulator = new_accumulator })),
        )
      ]

  unfoldable pub chat : LlmClient → List Message → List ToolDef → LlmClient × Started
  unfolding chat_mock chat_http
  chat c messages tools =
      if not (is_empty c.opts.mock_responses) then chat_mock c else chat_http c messages tools

  -- The callback of a request that is not streamed.
  unfoldable pub whole_done : ℤ → Text → Text → Reply
  whole_done code body err =
      if not (is_empty err)
      then failure err
      else if bad_status code
      then failure (http_prefix ++ int_to_string code)
      else elim (parse_chat_response body) [
        | none ↦ failure (codes "EaLlmClient: parseChatResponse failed")
        | some parsed ↦ success parsed
      ]

  -- The data callback of the parser, for the payloads of one chunk in turn; a payload that is no
  -- delta is passed over.
  unfoldable on_payloads : Accumulator → List Text → Accumulator × List Delta
  on_payloads acc [] = (acc, [])
  on_payloads acc (p ∷ ps) = elim (parse_stream_delta p) [
    | none ↦ on_payloads acc ps
    | some d ↦ let (acc', ds) = on_payloads (apply_delta acc d) ps in (acc', d ∷ ds)
  ]

  -- A chunk of the stream: the context, the deltas for onChunk, and what the callback returns.
  unfoldable pub on_chunk : StreamContext → Text → StreamContext × List Delta × Bool
  unfolding on_payloads
  on_chunk ctx chunk =
      let (parser, payloads, good) = feed ctx.parser chunk in
      let (acc, ds) = on_payloads ctx.accumulator payloads in
      (record { parser = parser; accumulator = acc }, ds, good)

  -- The callback at the end of a stream.
  unfoldable stream_done : StreamContext → ℤ → Text → Reply
  stream_done ctx code err =
      if not (is_empty err)
      then failure err
      else if bad_status code
      then failure (http_prefix ++ int_to_string code)
      else success (accumulated ctx.accumulator)

  unfoldable pub request_done : Pending → ℤ → Text → Text → Reply
  unfolding whole_done stream_done
  request_done whole code body err = whole_done code body err
  request_done (streaming ctx) code body err = stream_done ctx code err
