-- ===== src/Examples/Demo/Queue.antt =====
-- The program for the queue (examples/offline_queue_demo/offline_queue_demo.cpp).
use embed_agent.Base.{
  true, false, not, ◌||◌, ◌&&◌, [], Option, none, some, Text, codes, is_empty, if◌then◌else◌, ◌==◌,
  ℤ, pos,
}
use embed_agent.Files.{FileSystem}
use embed_agent.Cppev.{ChatCodec, JsonCodec}
use embed_agent.Tool.Registry.{Registry, register_tool}
use embed_agent.Agent.{AgentOptions, create, set_tool_registry, set_round_start_callback}
use embed_agent.Secret.Resolver.{RuntimeConfig, resolve_api_key}
use embed_agent.Connectivity.{Monitor}
use embed_agent.Connectivity
use embed_agent.OfflineQueue.Stored.{StoredQueue, stored_queue}
use embed_agent.Coordinator.{
  Coordinator, CoordinatorOptions, Callback, network_changed, flush, submit, pending_count,
}
use embed_agent.Coordinator
use embed_agent.Examples.Demo.Options.{QueueConfig}
use embed_agent.Examples.Demo.Tools.{status_tool}
use embed_agent.Examples.Demo.Responses.{queue_responses}
use embed_agent.Examples.Demo.Launch.{
  default_llm_options, default_agent_options, init_runtime, with_key, loaded_session,
}

abbrev queue_coordinator_options : CoordinatorOptions
queue_coordinator_options = record {
  max_queue_items = pos 100;
  max_item_attempts = pos 3;
  auto_flush_on_online = false;
}

-- The model and the mock client, or the live one without its key.
abbrev queue_llm : QueueConfig → AgentOptions
queue_llm c =
    if c.demo.mock
    then record default_agent_options {
      llm = record default_llm_options {
        model = codes "mock-model";
        stream = false;
        mock_responses = queue_responses;
      };
    }
    else record default_agent_options {
      llm = record default_llm_options { url = c.demo.url; model = c.demo.model; stream = true };
    }

module _ (F : FileSystem) (machine_id : Option Text) (J : JsonCodec) (C : ChatCodec) where
  open F use {State}

  unfoldable pub build_agent_options :
      QueueConfig → RuntimeConfig → State → Option Text → AgentOptions
  unfolding resolve_api_key
  build_agent_options c runtime s env =
      let keyed =
        if c.demo.mock
        then queue_llm c
        else with_key F machine_id J C (queue_llm c)
            (resolve_api_key F machine_id runtime.secrets s env).0 in
      record keyed {
        has_storage = true;
        persist_session = runtime.persist_session;
        system_template = record {
          text = codes "You are {{device_name}}, an embedded assistant with offline queue.";
          variables = [];
        };
        device_name = codes "offline-queue-demo";
      }

  -- What the application is left with: an exception of std::stoll has ended it, it quits, or its
  -- coordinator has been called; `none` is a loop that ran out of fuel, which never happens.
  pub data QueueRun : Type 0 where
    crashes : QueueRun
    quits : QueueRun
    called : Option (Coordinator C (stored_queue J)) → QueueRun

  -- The coordinator of runDemo, with the queue in its file, which the constructors of the queue and
  -- of the coordinator load; an exception of either is kept as `thrown`.
  unfoldable pub demo_coordinator :
      AgentOptions
      → Registry
      → QueueConfig
      → State
      → StoredQueue
      → Text
      → Coordinator C (stored_queue J)
  unfolding create Coordinator.create Connectivity.create
  demo_coordinator opts tools c s queue now =
      let made = create C Callback opts (loaded_session F machine_id J C s c.demo.data_dir) now in
      Coordinator.create C (stored_queue J) queue_coordinator_options
        (set_round_start_callback C Callback (set_tool_registry C Callback made (some tools)))
        ((stored_queue J).load queue).0 Connectivity.create

  abbrev pub or_quit :
      Option (Coordinator C (stored_queue J))
      → (Coordinator C (stored_queue J) → QueueRun)
      → QueueRun
  or_quit none next = called none
  or_quit (some w) next = next w

  -- The end of runDemo, once the state of the network is set. The callbacks are the numbers 0 and 1.
  unfoldable pub run_queue : QueueConfig → Text → ℤ → Coordinator C (stored_queue J) → QueueRun
  unfolding flush submit
  run_queue c now ms w =
      if c.flush_only
      then (if pending_count C (stored_queue J) w == 0
          then quits
          else called (flush C (stored_queue J) w now ms (some 0) (some 1)))
      else called (submit C (stored_queue J) w now ms c.demo.prompt (some 0) (some 1))

  -- runDemo: the files after it, and what it leads to.
  unfoldable pub run_demo :
      QueueConfig → Registry → State → Option Text → StoredQueue → Text → ℤ → State × QueueRun
  unfolding init_runtime build_agent_options demo_coordinator run_queue network_changed
  run_demo c tools s env queue now ms =
      let runtime = init_runtime F machine_id J C s c.demo in
      let opts = build_agent_options c runtime.1 runtime.0 env in
      let w = demo_coordinator opts tools c runtime.0 queue now in
      (
        runtime.0,
        if w.queue.thrown
            then crashes
            else if c.offline
            then or_quit (network_changed C (stored_queue J) w now ms false) (run_queue c now ms)
            else if not c.demo.mock && (is_empty c.demo.url || is_empty opts.llm.api_key)
            then quits
            else run_queue c now ms w,
      )

  -- onStart.
  unfoldable start_queue_demo :
      QueueConfig → Registry → State → Option Text → StoredQueue → Text → ℤ → State × QueueRun
  unfolding register_tool run_demo
  start_queue_demo c tools s env queue now ms =
      run_demo c (register_tool tools status_tool).0 s env queue now ms
