-- ===== src/Tests/Durables.antt =====
-- An example for a coordinator whose queue is in a file.
use embed_agent.Base.{◌≡◌, refl, true, false, List, [], ◌∷◌, none, some, Text, codes, ℤ, pos, arith}
use embed_agent.OfflineQueue.{QueuedItem}
use embed_agent.OfflineQueue.Item.{item_fields}
use embed_agent.OfflineQueue.File.{Outcomes, items_text, load}
use embed_agent.OfflineQueue.Stored.{StoredQueue, stored_queue}
use embed_agent.Coordinator.{Coordinator}
use embed_agent.Coordinator.Invariant.{IsSound}
use embed_agent.Coordinator.Events.{Event, submits, network, run}
use embed_agent.Coordinator.Durable.{KeepsItems, run-IsReloaded}
use embed_agent.Tests.Codec.{fields_code, chunk_json, chunk_json-IsRead, one_line-fields_code}
use embed_agent.Tests.Data.{sample_agent, sample_codec, sample_options, waiting_coordinator}

item_line : QueuedItem → Text
item_line x = fields_code (item_fields x)

chunk_json-keeps : KeepsItems chunk_json
unfolding item_line
chunk_json-keeps x (t, at, small) = record {
  line = item_line x;
  read_back = chunk_json-IsRead _ _;
  single = one_line-fields_code (item_fields x);
  time = t;
  at = at;
  small = small;
}

abbrev fine : Outcomes
fine = record { dir_ready = true; opened = true; flushed = true; renamed = true; cut = none }

abbrev empty_stored : StoredQueue
empty_stored = record {
  queue = record { file = none; items = [] };
  outcomes = λ n. fine;
  operations = 0;
  thrown = false;
}

abbrev stored_coordinator : Coordinator sample_codec (stored_queue chunk_json)
stored_coordinator = record {
  opts = sample_options;
  agent = sample_agent;
  queue = empty_stored;
  monitor = waiting_coordinator.monitor;
  flushing = false;
  flush_ctx = none;
  queue_serial = 0;
}

stored-IsSound : IsSound sample_codec (stored_queue chunk_json) sample_options stored_coordinator
stored-IsSound = record { options = refl; session = (refl, refl); attended = λ e. cc }

-- A message without network, and then the network.
abbrev two_events : List (Text × ℤ × Event)
two_events =
    (codes "t1", pos 1, submits (codes "yo") none (some 7))
    ∷ ((codes "t2", pos 2, network true) ∷ [])

run-IsReloaded_example :
    (w : Coordinator sample_codec (stored_queue chunk_json)) × (run sample_codec
        (stored_queue chunk_json)
        stored_coordinator
        two_events
      ≡ some w)
    × (load chunk_json (record w.queue.queue { items = [] }) fine ≡ some (w.queue.queue, true))
unfolding items_text
run-IsReloaded_example =
    run-IsReloaded sample_codec chunk_json sample_options 3 (omega arith) chunk_json-keeps
      stored_coordinator two_events fine stored-IsSound (omega arith)
      (refl, tt, λ n. (refl, refl, refl, refl, refl))
      ((1, refl, omega arith), ((2, refl, omega arith), tt)) (refl, refl, refl, refl, refl)
