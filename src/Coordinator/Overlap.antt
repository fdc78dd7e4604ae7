-- ===== src/Coordinator/Overlap.antt =====
-- A message that is submitted while the agent's turn is active (src/ea_queue_coordinator.cpp).
use embed_agent.Base.{ℕ, ◌≡◌, refl, Bool, Option, none, some, Text, codes}
use embed_agent.Cppev.{ChatCodec}
use embed_agent.OfflineQueue.{OfflineQueue}
use embed_agent.Connectivity.{offline}
use embed_agent.Coordinator.{Coordinator, call_done, rollback}

abbrev in_progress : Text
in_progress = codes "EaAgent: request already in progress"

module _ (C : ChatCodec) (Q : OfflineQueue) where
  open Q use {enqueue, size}

  call_done-monitor :
      (w : Coordinator C Q) (cb : Option ℕ) (ok : Bool) (text : Text)
      → (call_done C Q w cb ok text).monitor ≡ w.monitor
  call_done-monitor w none ok text = refl
  call_done-monitor w (some cb) ok text = refl

  -- The coordinator after the failure, before the message goes to the queue.
  abbrev pub taken_back : Coordinator C Q → Coordinator C Q
  taken_back w = rollback C Q (record w { monitor = record w.monitor { state = offline } })
