-- ===== src/Examples/Demo/Stored.antt =====
-- The program for the queue without network (examples/offline_queue_demo/offline_queue_demo.cpp).
use embed_agent.Base.{Option, Text}
use embed_agent.Files.{FileSystem}
use embed_agent.Cppev.{ChatCodec, JsonCodec}
use embed_agent.Tool.Registry.{Registry}
use embed_agent.Connectivity.{offline}
use embed_agent.OfflineQueue.Stored.{StoredQueue, stored_queue}
use embed_agent.Coordinator.{Coordinator}
use embed_agent.Examples.Demo.Options.{QueueConfig}
use embed_agent.Examples.Demo.Launch.{init_runtime}
use embed_agent.Examples.Demo.Queue.{build_agent_options, demo_coordinator}

module _ (F : FileSystem) (machine_id : Option Text) (J : JsonCodec) (C : ChatCodec) where
  -- The coordinator of the program, with the network down.
  abbrev pub offline_coordinator :
      QueueConfig
      → Registry
      → F.State
      → Option Text
      → StoredQueue
      → Text
      → Coordinator C (stored_queue J)
  offline_coordinator c tools s env queue now =
      let runtime = init_runtime F machine_id J C s c.demo in
      let w =
        demo_coordinator F machine_id J C
          (build_agent_options F machine_id J C c runtime.1 runtime.0 env) tools c runtime.0 queue
          now in
      record w { monitor = record w.monitor { state = offline } }
