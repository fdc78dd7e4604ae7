-- ===== src/Coordinator/Sending.antt =====
-- A flush whose items are sent one by one (src/ea_queue_coordinator.cpp, src/ea_agent.cpp).
use embed_agent.Base.{
  ℕ, suc, ◌+◌, ◌≡◌, refl, ap, sym, ◌∙◌, true, false, List, [], ◌∷◌, ◌++◌, append-nil, Option, none,
  some, Text, ℤ, leb_ℤ, arith, length,
}
use embed_agent.Cppev.{ChatCodec, ChatRequest}
use embed_agent.OfflineQueue.{OfflineQueue, QueuedItem}
use embed_agent.Connectivity.{Monitor, online, transition_to, is_online}
use embed_agent.Connectivity
use embed_agent.Agent.{Output, done_called}
use embed_agent.Agent.Answers.{
  requests, requests-append, IsIdle, IsAwaiting, submit_user_message-IsAwaiting,
}
use embed_agent.Coordinator.{
  Coordinator, Callback, FlushContext, flush_item, set_online, on_connectivity_changed, try_flush,
  end_flush, call_done,
}
use embed_agent.Coordinator.Queueing.{report}
use embed_agent.Coordinator.Reentry.{try_flush-waiting}

-- No item has used up its attempts.
abbrev pub AllBelow : ℤ → List QueuedItem → Type 0
AllBelow limit [] = Unit {0}
AllBelow limit (x ∷ xs) = (leb_ℤ limit x.attempt_count ≡ false) × AllBelow limit xs

module _ (C : ChatCodec) (Q : OfflineQueue) where
  open Q use {peek, remove_front, size, items, peek-items, size-items, items-remove_front}

  -- The network is up, no flush goes on, and the agent is ready and idle.
  pub record IsFree (w : Coordinator C Q) : Type 0 where
    pub up : w.monitor.state ≡ online
    pub unflushing : w.flushing ≡ false
    pub agent : IsIdle C Callback w.agent

  -- The first of the items is on its way, and `total` requests are sent with those for the others.
  pub record IsSending (w : Coordinator C Q) (ctx : FlushContext) (xs : List QueuedItem) (total : ℕ)
      : Type 0 where
    pub up : w.monitor.state ≡ online
    pub flushing : w.flushing ≡ true
    pub context : w.flush_ctx ≡ some ctx
    pub agent : IsAwaiting C Callback w.agent ctx.on_text flush_item
    pub queued : items w.queue ≡ xs
    pub below : AllBelow w.opts.max_item_attempts xs
    pub sent_so_far : requests w.agent.outputs + length xs ≡ suc total

  -- The queue is empty, the flush is over, the last thing that was done was the call of the user's
  -- callback, where there is one, and `total` requests were sent from the start.
  pub record IsDrained (w : Coordinator C Q) (on_done : Option ℕ) (total : ℕ) : Type 0 where
    pub drained : items w.queue ≡ []
    pub idle : w.flushing ≡ false
    pub over : w.flush_ctx ≡ none
    pub told : (before : List Output) × (w.agent.outputs ≡ before ++ report C Q on_done true [])
    pub sent_all : requests w.agent.outputs ≡ total

  abbrev pub After : Coordinator C Q → FlushContext → List QueuedItem → ℕ → Type 0
  After w ctx [] total = IsDrained w ctx.on_done total
  After w ctx (x ∷ xs) total = IsSending w ctx (x ∷ xs) total

  is_online-online : (m : Monitor) → m.state ≡ online → is_online m ≡ true
  unfolding is_online
  is_online-online m e = rw e refl

  pub set_online-online :
      (next : Coordinator C Q → Option (Coordinator C Q)) (w : Coordinator C Q)
      → w.monitor.state ≡ online
      → set_online C Q next w true ≡ some w
  unfolding set_online on_connectivity_changed Connectivity.set_online transition_to
  set_online-online next w e = rw e refl

  end_flush-IsDrained :
      (w : Coordinator C Q) (ctx : FlushContext) (total : ℕ)
      → items w.queue ≡ []
      → w.flushing ≡ false
      → requests w.agent.outputs ≡ total
      → IsDrained (end_flush C Q w (some ctx) true []) ctx.on_done total
  end_flush-IsDrained w ctx total none_left idle sent = by_callback ctx.on_done
    where
      by_callback :
          (cb : Option ℕ)
          → IsDrained (record (call_done C Q w cb true []) { flush_ctx = none }) cb total
      by_callback none = record {
        drained = none_left;
        idle = idle;
        over = refl;
        told = (w.agent.outputs, sym (append-nil w.agent.outputs));
        sent_all = sent;
      }
      by_callback (some n) = record {
        drained = none_left;
        idle = idle;
        over = refl;
        told = (w.agent.outputs, refl);
        sent_all =
            omega (arith, sent, requests-append w.agent.outputs (done_called n true [] ∷ []));
      }

  try_flush_empty :
      (now : Text) (ms : ℤ) (fuel : ℕ) (w : Coordinator C Q)
      → is_online w.monitor ≡ true
      → w.flushing ≡ false
      → size w.queue ≡ 0
      → try_flush C Q now ms (suc fuel) w ≡ some (end_flush C Q w w.flush_ctx true [])
  unfolding try_flush
  try_flush_empty now ms fuel w on idle empty = ground arith

module _ (C : ChatCodec) (Q : OfflineQueue)
    (builds : (r : ChatRequest) → (body : Text) × (C.build_chat_request_json r ≡ some body)) where
  open Q use {peek, remove_front, size, items, peek-items, size-items, items-remove_front}

  -- tryFlush of a coordinator that is free.
  pub try_flush-After :
      (now : Text) (ms : ℤ) (fuel : ℕ) (w : Coordinator C Q) (ctx : FlushContext)
      (xs : List QueuedItem) (total : ℕ)
      → IsFree C Q w
      → w.flush_ctx ≡ some ctx
      → items w.queue ≡ xs
      → AllBelow w.opts.max_item_attempts xs
      → requests w.agent.outputs + length xs ≡ total
      → (w' : Coordinator C Q) × (try_flush C Q now ms (suc fuel) w ≡ some w')
        × After C Q w' ctx xs total
  try_flush-After now ms fuel w ctx [] total free context queued below count = (
    end_flush C Q w (some ctx) true [],
    try_flush_empty C Q now ms fuel w (is_online-online C Q w.monitor free.up) free.unflushing
          (size-items w.queue ∙ ap length queued)
        ∙ ap (λ c. some (end_flush C Q w c true [])) context,
    end_flush-IsDrained C Q w ctx total queued free.unflushing (omega arith),
  )
  try_flush-After now ms fuel w ctx (x ∷ xs) total free context queued below count =
      let (a, sent, awaits, one) =
        submit_user_message-IsAwaiting C Callback w.agent now x.user_text ctx.on_text flush_item
          builds free.agent in
      (
        record w { agent = a; flushing = true },
        try_flush-waiting C Q now ms fuel w x xs a (is_online-online C Q w.monitor free.up)
            free.unflushing queued below.0 (rw context sent),
        record {
          up = free.up;
          flushing = refl;
          context = context;
          agent = awaits;
          queued = queued;
          below = below;
          sent_so_far = omega (arith, one);
        },
      )
