-- ===== src/Examples/Demo/Launch.antt =====
-- How chat_agent and tool_call_demo start (examples/chat_agent/chat_agent.cpp,
-- examples/tool_call_demo/tool_call_demo.cpp).
use embed_agent.Base.{
  Bool, true, false, not, List, [], ◌∷◌, ◌++◌, Option, none, some, Text, codes, is_empty,
  if◌then◌else◌, pos,
}
use embed_agent.Files.{FileSystem}
use embed_agent.Cppev.{ChatCodec, JsonCodec}
use embed_agent.Session.{Session, SessionOptions, default_options}
use embed_agent.Session
use embed_agent.Storage.{load_session}
use embed_agent.Tool.Registry.{Registry}
use embed_agent.Llm.Client.{LlmClientOptions}
use embed_agent.Agent.{
  AgentOptions, Agent, Outcome, create, set_tool_registry, set_round_start_callback,
  submit_user_message,
}
use embed_agent.Secret.Resolver.{
  RuntimeConfig, RuntimeConfigOptions, new_runtime_config, resolve_api_key,
}
use embed_agent.Examples.Demo.Options.{DemoConfig}

-- EaLlmClientOptions and EaAgentOptions as they are made.
abbrev pub default_llm_options : LlmClientOptions
default_llm_options = record {
  url = [];
  api_key = [];
  model = [];
  stream = true;
  total_timeout_sec = pos 120;
  mock_responses = [];
}

abbrev pub default_agent_options : AgentOptions
default_agent_options = record {
  llm = default_llm_options;
  session_options = default_options;
  system_template = record { text = []; variables = [] };
  device_name = codes "embed-device";
  max_tool_round_trips = pos 8;
  has_storage = false;
  persist_session = false;
}

-- buildSystemPrompt of the two programs.
abbrev pub chat_system_prompt : AgentOptions → AgentOptions
chat_system_prompt opts = record opts {
  system_template = record {
    text =
        codes "You are {{device_name}}, an intelligent embedded Linux device agent. "
        ++ (codes "You have access to hardware monitoring and control tools. "
            ++ (codes "When the user asks about hardware status, sensors, GPIO, or networking, "
                ++ (codes "always call the appropriate tool rather than guessing. "
                    ++ (codes "After receiving tool results, give a concise, technical summary. "
                        ++ codes "Prefer SI units. State any anomalies explicitly."))));
    variables = [];
  };
  device_name = codes "embed-agent-v1";
}

abbrev tool_demo_system_prompt : AgentOptions → AgentOptions
tool_demo_system_prompt opts = record opts {
  system_template = record {
    text =
        codes "You are {{device_name}}, an intelligent embedded Linux device agent. "
        ++ (codes "You have access to tools for monitoring and controlling the hardware. "
            ++ (codes "When the user requests a health check or hardware operation, "
                ++ (codes "always call the relevant tools to obtain real data "
                    ++ (226 ∷ (128 ∷ (148 ∷ codes " never guess. "))
                        ++ (codes "After receiving tool results, give a concise, technical summary "
                            ++ (codes "with clear pass/fail or action-taken statements. "
                                ++ codes "Use SI units. Flag any anomaly explicitly."))))));
    variables = [];
  };
  device_name = codes "embed-tool-demo";
}

-- The mock client of runMockAgent, with the texts of its answers.
abbrev mock_options : List Text → AgentOptions
mock_options responses = record default_agent_options {
  llm = record default_llm_options {
    model = codes "mock-model";
    stream = false;
    mock_responses = responses;
  };
}

abbrev runtime_options : DemoConfig → RuntimeConfigOptions
runtime_options c = record {
  data_dir = c.data_dir;
  cli_api_key = c.api_key;
  save_api_key = c.save_api_key;
  persist_session = c.persist_session;
}

-- Files, the machine's number where it has one, and the two codecs.
module _ (F : FileSystem) (machine_id : Option Text) (J : JsonCodec) (C : ChatCodec) where
  open F use {State}

  unfoldable pub init_runtime : State → DemoConfig → State × RuntimeConfig
  unfolding new_runtime_config
  init_runtime s c = new_runtime_config F machine_id s (runtime_options c)

  abbrev pub with_key : AgentOptions → Option Text → AgentOptions
  with_key opts none = opts
  with_key opts (some key) = record opts { llm = record opts.llm { api_key = key } }

  -- `env` is the value of the environment's variable.
  unfoldable pub apply_runtime :
      RuntimeConfig → State → Option Text → AgentOptions → Bool → AgentOptions
  unfolding resolve_api_key
  apply_runtime runtime s env opts need_api_key =
      let stored = record opts { has_storage = true; persist_session = runtime.persist_session } in
      if not need_api_key
      then stored
      else with_key stored (resolve_api_key F machine_id runtime.secrets s env).0

  abbrev pub live_options : DemoConfig → AgentOptions
  live_options c = record default_agent_options {
    llm = record default_llm_options { url = c.url; model = c.model; stream = true };
  }

  -- The session in the storage, where it is loaded.
  abbrev pub loaded_session : State → Text → Option Session
  loaded_session s dir =
      let r = load_session F J s dir (Session.create default_options) in
      if r.1 then some r.0 else none

  -- What an application is left with: it quits, or an agent has been given the user's prompt.
  pub data Launched : Type 0 where
    quits : Launched
    launched : Agent C Unit × Outcome C Unit → Launched

  -- runChat and runAgent. `now` is the text of the current time.
  unfoldable pub run_chat :
      AgentOptions → Registry → DemoConfig → State → Text → Agent C Unit × Outcome C Unit
  unfolding create submit_user_message load_session
  run_chat opts tools c s now =
      let made = create C Unit opts (loaded_session s c.data_dir) now in
      let ready = set_round_start_callback C Unit (set_tool_registry C Unit made (some tools)) in
      submit_user_message C Unit ready now c.prompt (some 0) tt false

  -- runLiveAgent; `prompted` is buildSystemPrompt.
  unfoldable pub run_live_agent :
      (AgentOptions → AgentOptions)
      → Registry
      → DemoConfig
      → RuntimeConfig
      → State
      → Option Text
      → Text
      → Launched
  unfolding apply_runtime run_chat
  run_live_agent prompted tools c runtime s env now =
      if is_empty c.url
      then quits
      else (let opts = apply_runtime runtime s env (live_options c) true in
          if is_empty opts.llm.api_key
          then quits
          else launched (run_chat (prompted opts) tools c s now))

  unfoldable pub run_mock_agent :
      (AgentOptions → AgentOptions)
      → List Text
      → Registry
      → DemoConfig
      → RuntimeConfig
      → State
      → Text
      → Launched
  unfolding apply_runtime run_chat
  run_mock_agent prompted responses tools c runtime s now = launched (
      run_chat (apply_runtime runtime s none (prompted (mock_options responses)) false) tools c s
        now)

  -- onStart, once the tools are registered: the files after it, and what it leads to.
  unfoldable pub on_start :
      (AgentOptions → AgentOptions)
      → List Text
      → Registry
      → DemoConfig
      → State
      → Option Text
      → Text
      → State × Launched
  unfolding init_runtime run_live_agent run_mock_agent
  on_start prompted responses tools c s env now =
      let runtime = init_runtime s c in
      (
        runtime.0,
        if c.mock
            then run_mock_agent prompted responses tools c runtime.1 runtime.0 now
            else run_live_agent prompted tools c runtime.1 runtime.0 env now,
      )
