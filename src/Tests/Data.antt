-- ===== src/Tests/Data.antt =====
-- Sample data: a toy codec of chats, a registry with one tool, an agent, a coordinator.
use embed_agent.Base.{
  Bool, true, false, [], ◌∷◌, ◌++◌, Option, none, some, Text, codes, pos, if◌then◌else◌, ◌==◌,
}
use embed_agent.Cppev.{ChatResponse, ChatCodec}
use embed_agent.Session.{Session, system_message, user_message}
use embed_agent.Tool.Registry.{ToolSpec}
use embed_agent.OfflineQueue.{QueuedItem}
use embed_agent.OfflineQueue.Memory.{memory_queue}
use embed_agent.Connectivity.{ConnectivityState}
use embed_agent.Llm.Client.{LlmClientOptions}
use embed_agent.Agent.{Agent}
use embed_agent.Coordinator.{Coordinator, CoordinatorOptions}

-- A body that begins with an exclamation mark asks for the tool that it names.
abbrev pub sample_response : Text → Option ChatResponse
sample_response [] = none
sample_response (c ∷ cs) =
    if c == b'!'
    then some (record {
      content = [];
      finish_reason = codes "tool_calls";
      tool_calls = record { id = codes "1"; name = cs; arguments = codes "{}" } ∷ [];
    })
    else some (record { content = c ∷ cs; finish_reason = codes "stop"; tool_calls = [] })

abbrev pub sample_codec : ChatCodec
sample_codec = record {
  parse_chat_response = sample_response;
  build_chat_request_json = λ r. some r.model;
  Delta = Text;
  delta_content = λ d. d;
  content_delta = λ t. t;
  parse_stream_delta = λ t. some t;
  Parser = Bool;
  new_parser = true;
  feed = λ p chunk. (p, chunk ∷ [], true);
  Accumulator = Text;
  new_accumulator = [];
  apply_delta = λ acc d. acc ++ d;
  accumulated = λ acc. record { content = acc; finish_reason = codes "stop"; tool_calls = [] };
}

abbrev pub light_tool : ToolSpec
light_tool = record {
  def = record { name = codes "light"; description = []; parameters_json = codes "{}" };
  handler = some (λ args. (true, codes "on"));
}

-- A prompt and three messages, with room for two.
abbrev pub crowded_session : Session
crowded_session = record {
  opts = record { max_messages = 2; max_approx_tokens = 100 };
  system_prompt = codes "p";
  messages =
      system_message (codes "p")
      ∷ (user_message (codes "a") ∷ (user_message (codes "b") ∷ (user_message (codes "c") ∷ [])));
  has_system_message = true;
}

abbrev pub roomy_session : Session
roomy_session = record {
  opts = record { max_messages = 9; max_approx_tokens = 900 };
  system_prompt = codes "p";
  messages = system_message (codes "p") ∷ (user_message (codes "a") ∷ []);
  has_system_message = true;
}

abbrev pub sample_client_options : LlmClientOptions
sample_client_options = record {
  url = codes "http://host";
  api_key = codes "k";
  model = codes "m";
  stream = false;
  total_timeout_sec = pos 60;
  mock_responses = [];
}

abbrev pub sample_agent : {K : Type 0} → Agent sample_codec K
sample_agent = record {
  opts = record {
    llm = sample_client_options;
    session_options = roomy_session.opts;
    system_template = record { text = codes "p"; variables = [] };
    device_name = codes "d";
    max_tool_round_trips = pos 3;
    has_storage = false;
    persist_session = false;
  };
  session = roomy_session;
  client = record { opts = sample_client_options; mock_index = 0; active = false };
  registry = some (light_tool ∷ []);
  has_round_callback = false;
  turn_active = false;
  in_flight = [];
  outputs = [];
}

abbrev pub first_item : QueuedItem
first_item = record {
  id = codes "q-1";
  user_text = codes "hi";
  enqueued_at_ms = pos 5;
  attempt_count = pos 0;
}

abbrev pub second_item : QueuedItem
second_item = record {
  id = codes "q-2";
  user_text = codes "ho";
  enqueued_at_ms = pos 6;
  attempt_count = pos 3;
}

abbrev pub sample_options : CoordinatorOptions
sample_options = record {
  max_queue_items = pos 3;
  max_item_attempts = pos 3;
  auto_flush_on_online = true;
}

-- A coordinator without network, with two queued items.
abbrev pub waiting_coordinator : Coordinator sample_codec memory_queue
waiting_coordinator = record {
  opts = sample_options;
  agent = sample_agent;
  queue = record { items = first_item ∷ (second_item ∷ []) };
  monitor = record {
    state = ConnectivityState.offline;
    has_callback = true;
    probe_url = [];
    probe_timer = false;
    probe_in_flight = false;
    requests = 0;
  };
  flushing = false;
  flush_ctx = none;
  queue_serial = 2;
}

-- The same with the network up.
abbrev pub online_coordinator : Coordinator sample_codec memory_queue
online_coordinator = record waiting_coordinator {
  monitor = record waiting_coordinator.monitor { state = ConnectivityState.online };
}
