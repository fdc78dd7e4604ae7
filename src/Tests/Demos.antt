-- ===== src/Tests/Demos.antt =====
-- Examples for the properties of the demonstration programs: two rounds of an answer, a start with an
-- address and a key, and a start of the program for the queue without network.
use embed_agent.Base.{refl, ◌≡◌, true, false, [], ◌∷◌, ◌++◌, none, some, Text, codes}
use embed_agent.Cppev.{JsonCodec}
use embed_agent.Agent.{round_started, text_said, Agent, Outcome}
use embed_agent.OfflineQueue.File.{Outcomes}
use embed_agent.OfflineQueue.Stored.{StoredQueue}
use embed_agent.Coordinator.{Coordinator}
use embed_agent.Examples.Demo.Printer.{show_turn, chat_header}
use embed_agent.Examples.Demo.Page.{show_turn-turn_outputs}
use embed_agent.Examples.Demo.Options.{DemoConfig, QueueConfig, chat_config, queue_config}
use embed_agent.Examples.Demo.Launch.{chat_system_prompt, launched, on_start}
use embed_agent.Examples.Demo.Asking.{HasAsked}
use embed_agent.Examples.Demo.Request.{on_start-HasAsked}
use embed_agent.Examples.Demo.Responses.{chat_responses}
use embed_agent.Tests.Data.{sample_codec, light_tool}
use embed_agent.Tests.Disk.{Disk, disk}

abbrev no_files : Disk
no_files = λ p. none

-- A library that reads and builds nothing.
abbrev no_documents : JsonCodec
no_documents = record {
  json = record {
    Doc = Text;
    empty_doc = [];
    parse = λ t. none;
    get_string = λ d key. none;
    get_int = λ d key. none;
    get_bool = λ d key. none;
    get_object = λ d key. none;
  };
  build = λ fields. none;
  get_array = λ d key. none;
  doc_to_string = λ d. [];
  serialize_messages_json = λ ms. none;
  parse_messages_json = λ t. none;
}

-- A round with a text in two pieces, one without text, and one with a text.
show_turn-turn_outputs_example :
    show_turn chat_header (codes "go") (
      round_started 0
      ∷ (text_said 0 (codes "I")
          ∷ (text_said 0 (codes " look")
              ∷ (round_started 1 ∷ (round_started 2 ∷ (text_said 0 (codes "ok") ∷ []))))))
    ≡ codes "\nUser: go\n\nAssistant: I look"
      ++ (chat_header ++ codes "\n" ++ (chat_header ++ codes "\nAssistant: ok\n"))
show_turn-turn_outputs_example =
    show_turn-turn_outputs chat_header (codes "go")
      ((codes "I" ∷ (codes " look" ∷ [])) ∷ ([] ∷ ((codes "ok" ∷ []) ∷ [])))

abbrev live_config : DemoConfig
live_config = record chat_config { url = codes "http://host/v1"; api_key = codes "key" }

on_start-HasAsked_example :
    (r : Agent sample_codec Unit × Outcome sample_codec Unit) × ((on_start disk none no_documents
        sample_codec chat_system_prompt chat_responses
        (light_tool ∷ [])
        live_config
        no_files
        (some (codes "other"))
        (codes "t")).1
      ≡ launched r)
    × HasAsked sample_codec (codes "http://host/v1") (codes "key") r
on_start-HasAsked_example =
    on_start-HasAsked disk none no_documents sample_codec (λ r. (r.model, refl)) chat_system_prompt
      chat_responses (light_tool ∷ []) live_config no_files (some (codes "other")) (codes "t")
      (λ o. refl) (λ o. refl) refl refl refl refl

abbrev offline_config : QueueConfig
offline_config = record queue_config { offline = true }

abbrev fine : Outcomes
fine = record { dir_ready = true; opened = true; flushed = true; renamed = true; cut = none }

abbrev empty_stored : StoredQueue
empty_stored = record {
  queue = record { file = none; items = [] };
  outcomes = λ n. fine;
  operations = 0;
  thrown = false;
}
