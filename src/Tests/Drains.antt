-- ===== src/Tests/Drains.antt =====
-- An example of a flush that empties the queue.
use embed_agent.Base.{refl, ◌≡◌, [], ◌∷◌, List, none, some, Text, codes, pos}
use embed_agent.Cppev.{ChatRequest}
use embed_agent.OfflineQueue.Memory.{memory_queue}
use embed_agent.Coordinator.{Coordinator}
use embed_agent.Coordinator.Events.{flushes, run}
use embed_agent.Coordinator.Sending.{IsFree, IsDrained}
use embed_agent.Coordinator.Drain.{Answer, answered, flush-IsDrained}
use embed_agent.Tests.Data.{sample_codec, online_coordinator, first_item, second_item}

abbrev two_items : Coordinator sample_codec memory_queue
two_items = record online_coordinator {
  queue = record { items = first_item ∷ (record second_item { attempt_count = pos 2 } ∷ []) };
}

sample_builds :
    (r : ChatRequest) → (body : Text) × (sample_codec.build_chat_request_json r ≡ some body)
sample_builds r = (r.model, refl)

two_items-IsFree : IsFree sample_codec memory_queue two_items
two_items-IsFree = record {
  up = refl;
  unflushing = refl;
  agent = record {
    ready = record { rounds = refl; unmocked = refl; named = refl; unstreamed = refl };
    inactive = refl;
    unsent = refl;
  };
}

abbrev two_answers : List Answer
two_answers = (codes "t2", pos 2, codes "yes") ∷ ((codes "t3", pos 3, codes "no") ∷ [])

flush-IsDrained_example :
    (w : Coordinator sample_codec memory_queue) × (run sample_codec memory_queue two_items
        ((codes "t1", pos 1, flushes none (some 7)) ∷ answered two_answers)
      ≡ some w)
    × IsDrained sample_codec memory_queue w (some 7) 2
flush-IsDrained_example =
    flush-IsDrained sample_codec memory_queue sample_builds two_items (codes "t1") (pos 1) none
      (some 7) two_answers two_items-IsFree (refl, (refl, tt)) refl
      (
        record { response = _; parsed = refl; no_calls = refl },
        (record { response = _; parsed = refl; no_calls = refl }, tt),
      )
