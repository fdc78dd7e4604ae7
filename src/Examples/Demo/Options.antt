-- ===== src/Examples/Demo/Options.antt =====
-- The options of the programs (examples/chat_agent/chat_agent.cpp,
-- examples/tool_call_demo/tool_call_demo.cpp, examples/offline_queue_demo/offline_queue_demo.cpp).
use embed_agent.Base.{Bool, true, false, [], ◌++◌, Text, codes, text_eq, if◌then◌else◌}

-- ChatAgentConfig and ToolCallDemoConfig have the same members.
pub record DemoConfig : Type 0 where
  pub mock : Bool
  pub save_api_key : Bool
  pub persist_session : Bool
  pub data_dir : Text
  pub url : Text
  pub api_key : Text
  pub model : Text
  pub prompt : Text

abbrev default_data_dir : Text
default_data_dir = codes "/tmp/embedagent"

abbrev default_model : Text
default_model = codes "gpt-4o-mini"

abbrev pub chat_config : DemoConfig
chat_config = record {
  mock = false;
  save_api_key = false;
  persist_session = false;
  data_dir = default_data_dir;
  url = [];
  api_key = [];
  model = default_model;
  prompt =
      codes "Check the device status and read sensor 1 in Celsius. "
      ++ codes "If the temperature is above 40 C, set GPIO pin 5 to high.";
}

abbrev tool_demo_config : DemoConfig
tool_demo_config = record chat_config {
  prompt =
      codes "Run a full system health check: "
      ++ (codes "get system info, memory usage, CPU temperature, and list the top "
          ++ (codes "5 processes by memory. "
              ++ (codes "If temperature is above 60 C, set GPIO pin 18 to high to activate "
                  ++ codes "the cooling fan, then confirm the pin state.")));
}

-- OfflineQueueDemoConfig.
pub record QueueConfig : Type 0 where
  pub demo : DemoConfig
  pub offline : Bool
  pub flush_only : Bool

abbrev pub queue_config : QueueConfig
queue_config = record {
  demo = record chat_config { prompt = codes "What is the device status?" };
  offline = false;
  flush_only = false;
}

-- `base` is parseOption of cppev's EvConfig: what it returns for an option.
module _ (base : Text → Text → Bool) where
  -- parseOption of the two programs, with what it returns.
  unfoldable parse_option : DemoConfig → Text → Text → DemoConfig × Bool
  unfolding text_eq
  parse_option c key value =
      if text_eq key (codes "mock")
      then (record c { mock = true }, true)
      else if text_eq key (codes "data-dir")
      then (record c { data_dir = value }, true)
      else if text_eq key (codes "save-api-key")
      then (record c { save_api_key = true }, true)
      else if text_eq key (codes "persist-session")
      then (record c { persist_session = true }, true)
      else if text_eq key (codes "url")
      then (record c { url = value }, true)
      else if text_eq key (codes "api-key")
      then (record c { api_key = value }, true)
      else if text_eq key (codes "model")
      then (record c { model = value }, true)
      else if text_eq key (codes "prompt")
      then (record c { prompt = value }, true)
      else (c, base key value)

  -- parseOption of the program for the queue.
  unfoldable parse_queue_option : QueueConfig → Text → Text → QueueConfig × Bool
  unfolding parse_option text_eq
  parse_queue_option c key value =
      if text_eq key (codes "offline")
      then (record c { offline = true }, true)
      else if text_eq key (codes "flush-only")
      then (record c { flush_only = true }, true)
      else (let r = parse_option c.demo key value in (record c { demo = r.0 }, r.1))
