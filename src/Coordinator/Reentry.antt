-- ===== src/Coordinator/Reentry.antt =====
-- A flush that is entered again from its own success (src/ea_queue_coordinator.cpp).
use embed_agent.Base.{
  ℕ, suc, ◌≡◌, refl, ap, ◌∙◌, true, false, List, [], ◌∷◌, Option, some, Text, ℤ, leb_ℤ, arith,
  length,
}
use embed_agent.Cppev.{ChatCodec}
use embed_agent.OfflineQueue.{OfflineQueue, QueuedItem, head?, tail}
use embed_agent.Connectivity.{Monitor, online, offline, unknown, transition_to, is_online}
use embed_agent.Connectivity
use embed_agent.Agent.{Agent, waiting, submit_user_message}
use embed_agent.Coordinator.{
  Coordinator, Callback, flush_item, set_online, on_connectivity_changed, finish_flush_item,
  drop_front, try_flush, flush_front, flush_peeked, flush_text, after_agent,
}

module _ (C : ChatCodec) (Q : OfflineQueue) where
  open Q use {peek, remove_front, size, items, peek-items, size-items, items-remove_front}

  abbrev up : Coordinator C Q → Coordinator C Q
  up w = record w { monitor = record w.monitor { state = online } }

  set_online_first :
      (next : Coordinator C Q → Option (Coordinator C Q)) (w : Coordinator C Q)
      → w.monitor.state ≡ unknown
      → w.monitor.has_callback ≡ true
      → w.opts.auto_flush_on_online ≡ true
      → set_online C Q next w true ≡ next (up w)
  unfolding set_online on_connectivity_changed Connectivity.set_online transition_to
  set_online_first next w first hears auto = ground arith

  flush_front-waiting :
      (next : Coordinator C Q → Option (Coordinator C Q)) (w : Coordinator C Q) (now : Text)
      (ms : ℤ) (x : QueuedItem) (a : Agent C Callback)
      → leb_ℤ w.opts.max_item_attempts x.attempt_count ≡ false
      → submit_user_message C Callback w.agent now x.user_text
          (flush_text C Q w.flush_ctx)
          flush_item
          false
        ≡ (a, waiting)
      → flush_front C Q next w now ms x ≡ some (record w { agent = a; flushing = true })
  unfolding flush_front after_agent
  flush_front-waiting next w now ms x a below sent = rw (below, sent) refl

  try_flush-peeked :
      (now : Text) (ms : ℤ) (fuel : ℕ) (w : Coordinator C Q) (n : ℕ)
      → is_online w.monitor ≡ true
      → w.flushing ≡ false
      → size w.queue ≡ suc n
      → try_flush C Q now ms (suc fuel) w
        ≡ flush_peeked C Q (try_flush C Q now ms fuel) w now ms (peek w.queue true)
  unfolding try_flush
  try_flush-peeked now ms fuel w n on idle some_item = ground arith

  -- What tryFlush does with an item that goes to the network.
  pub try_flush-waiting :
      (now : Text) (ms : ℤ) (fuel : ℕ) (w : Coordinator C Q) (x : QueuedItem) (xs : List QueuedItem)
      (a : Agent C Callback)
      → is_online w.monitor ≡ true
      → w.flushing ≡ false
      → items w.queue ≡ x ∷ xs
      → leb_ℤ w.opts.max_item_attempts x.attempt_count ≡ false
      → submit_user_message C Callback w.agent now x.user_text
          (flush_text C Q w.flush_ctx)
          flush_item
          false
        ≡ (a, waiting)
      → try_flush C Q now ms (suc fuel) w ≡ some (record w { agent = a; flushing = true })
  try_flush-waiting now ms fuel w x xs a on idle front below sent =
      try_flush-peeked now ms fuel w (length xs) on idle (size-items w.queue ∙ ap length front)
      ∙ (ap (flush_peeked C Q (try_flush C Q now ms fuel) w now ms)
            (peek-items w.queue ∙ ap head? front)
          ∙ flush_front-waiting (try_flush C Q now ms fuel) w now ms x a below sent)

  try_flush_busy :
      (now : Text) (ms : ℤ) (fuel : ℕ) (w : Coordinator C Q)
      → w.flushing ≡ true
      → try_flush C Q now ms (suc fuel) w ≡ some w
  unfolding try_flush
  try_flush_busy now ms fuel w busy = ground arith

  -- The first success of a flush, with the monitor's state still unknown, a transition callback and
  -- autoFlushOnOnline: where the first item's text would be sent, it is sent a second time, and the
  -- item leaves the queue while that second chat is on its way and the coordinator is flushing.
  pub finish_flush_item_sends_again :
      (now : Text) (ms : ℤ) (fuel : ℕ) (w : Coordinator C Q) (x : QueuedItem) (xs : List QueuedItem)
      (a : Agent C Callback)
      → w.monitor.state ≡ unknown
      → w.monitor.has_callback ≡ true
      → w.opts.auto_flush_on_online ≡ true
      → items w.queue ≡ x ∷ xs
      → leb_ℤ w.opts.max_item_attempts x.attempt_count ≡ false
      → submit_user_message C Callback w.agent now x.user_text
          (flush_text C Q w.flush_ctx)
          flush_item
          false
        ≡ (a, waiting)
      → (w' : Coordinator C Q) × (finish_flush_item C Q (try_flush C Q now ms (suc fuel)) w true []
          ≡ some w')
        × (w'.agent ≡ a)
        × (w'.flushing ≡ true)
        × (items w'.queue ≡ xs)
  unfolding finish_flush_item is_online
  finish_flush_item_sends_again now ms fuel w x xs a first hears auto front below sent =
      let idle : Coordinator C Q = record w { flushing = false } in
      let busy : Coordinator C Q = record (up idle) { agent = a; flushing = true } in
      (
        drop_front C Q busy,
        rw
            (set_online_first (try_flush C Q now ms (suc fuel)) idle first hears auto
              ∙ try_flush-waiting now ms fuel (up idle) x xs a refl refl front below sent)
            (try_flush_busy now ms fuel (drop_front C Q busy) refl),
        refl,
        refl,
        items-remove_front w.queue ∙ ap tail front,
      )
