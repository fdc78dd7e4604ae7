-- ===== src/Tests/Coordinators.antt =====
-- Examples for the properties of EaQueueCoordinator.
use embed_agent.Base.{refl, ◌≡◌, true, false, [], ◌∷◌, none, some, Text, codes, ℤ, pos, arith, List}
use embed_agent.OfflineQueue.Memory.{memory_queue, size}
use embed_agent.NetworkError.{is_queueable_llm_error}
use embed_agent.Connectivity.{is_online}
use embed_agent.Coordinator.{Coordinator, try_flush, finish_flush_item}
use embed_agent.Session.{rollback_last_user}
use embed_agent.Connectivity.{unknown}
use embed_agent.Agent.{Agent, submit_user_message, done_called}
use embed_agent.Coordinator.{Callback, flush_item}
use embed_agent.Coordinator.Reentry.{finish_flush_item_sends_again}
use embed_agent.Coordinator.Invariant.{IsSound}
use embed_agent.Coordinator.Settling.{Settles}
use embed_agent.Coordinator.Flushing.{try_flush-Settles}
use embed_agent.Coordinator.Events.{Event, run, run-Settles, network, submits, ends, cancels}
use embed_agent.Coordinator.Queueing.{finish_flush_item-retry}
use embed_agent.Tests.Data.{
  sample_agent, sample_codec, sample_options, waiting_coordinator, online_coordinator, first_item,
  second_item,
}

waiting-IsSound : IsSound sample_codec memory_queue sample_options waiting_coordinator
waiting-IsSound = record { options = refl; session = (refl, refl); attended = λ e. cc }

online-IsSound : IsSound sample_codec memory_queue sample_options online_coordinator
online-IsSound = record { options = refl; session = (refl, refl); attended = λ e. cc }

abbrev sample_events : List (Text × ℤ × Event)
sample_events =
    (codes "t1", pos 1, submits (codes "yo") none (some 7))
    ∷ ((codes "t2", pos 2, network true)
        ∷ ((codes "t3", pos 3, ends 0 (pos 503) [] []) ∷ ((codes "t4", pos 4, cancels) ∷ [])))

run-Settles_example :
    Settles sample_codec memory_queue sample_options 3
      (run sample_codec memory_queue waiting_coordinator sample_events)
unfolding size
run-Settles_example =
    run-Settles sample_codec memory_queue sample_options 3 (omega arith) waiting_coordinator
      sample_events waiting-IsSound (omega arith)

try_flush-Settles_example :
    Settles sample_codec memory_queue sample_options 2
      (try_flush sample_codec memory_queue (codes "t") (pos 1) 3 online_coordinator)
unfolding size
try_flush-Settles_example =
    try_flush-Settles sample_codec memory_queue sample_options (codes "t") (pos 1) 3
      online_coordinator online-IsSound (omega arith)

abbrev failing_coordinator : Coordinator sample_codec memory_queue
failing_coordinator = record online_coordinator {
  flushing = true;
  flush_ctx = some (record { on_text = none; on_done = some 7 });
}

finish_flush_item-retry_example :
    (w : Coordinator sample_codec memory_queue) × (finish_flush_item sample_codec memory_queue some
        failing_coordinator false
        (codes "connection refused")
      ≡ some w)
    × (w.queue.items ≡ record first_item { attempt_count = pos 1 } ∷ (second_item ∷ []))
    × (is_online w.monitor ≡ false)
    × (w.flushing ≡ false)
    × (w.flush_ctx ≡ none)
    × (w.agent.session ≡ (rollback_last_user failing_coordinator.agent.session).0)
    × (w.agent.outputs ≡ done_called 7 false (codes "connection refused") ∷ [])
unfolding is_queueable_llm_error
finish_flush_item-retry_example =
    finish_flush_item-retry sample_codec memory_queue some failing_coordinator
      (codes "connection refused") first_item (second_item ∷ []) refl refl

-- The network's state is not known yet, and the first item's chat has just succeeded.
abbrev first_coordinator : Coordinator sample_codec memory_queue
first_coordinator = record waiting_coordinator {
  monitor = record waiting_coordinator.monitor { state = unknown };
  flushing = true;
}

abbrev second_chat : Agent sample_codec Callback
second_chat =
    (submit_user_message sample_codec Callback sample_agent (codes "t") (codes "hi") none flush_item
      false).0

finish_flush_item_sends_again_example :
    (w : Coordinator sample_codec memory_queue) × (finish_flush_item sample_codec memory_queue
        (try_flush sample_codec memory_queue (codes "t") (pos 1) 5)
        first_coordinator
        true
        []
      ≡ some w)
    × (w.agent ≡ second_chat)
    × (w.flushing ≡ true)
    × (w.queue.items ≡ second_item ∷ [])
unfolding submit_user_message
finish_flush_item_sends_again_example =
    finish_flush_item_sends_again sample_codec memory_queue (codes "t") (pos 1) 4 first_coordinator
      first_item (second_item ∷ []) second_chat refl refl refl refl refl refl

abbrev talking_coordinator : Coordinator sample_codec memory_queue
talking_coordinator = record online_coordinator {
  agent = record online_coordinator.agent { turn_active = true };
}
