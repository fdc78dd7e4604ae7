-- ===== src/Coordinator/Drain.antt =====
-- A flush whose chats succeed (src/ea_queue_coordinator.cpp, src/ea_agent.cpp).
use embed_agent.Base.{
  ℕ, suc, ◌+◌, ◌≡◌, refl, ap, ◌∙◌, true, false, List, [], ◌∷◌, Option, some, Text, ℤ, pos, arith,
  length,
}
use embed_agent.Cppev.{ChatCodec, ChatRequest}
use embed_agent.OfflineQueue.{OfflineQueue, QueuedItem, tail}
use embed_agent.Connectivity.{online}
use embed_agent.Agent.Answers.{requests, IsAnswer, respond-IsIdle}
use embed_agent.Coordinator.{
  Coordinator, Callback, FlushContext, flush_item, finish_flush_item, drop_front, try_flush, flush,
  request_ended, after_agent, fuel_for,
}
use embed_agent.Coordinator.Events.{Event, flushes, ends, step, run, run_one}
use embed_agent.Coordinator.Sending.{
  AllBelow, IsFree, IsSending, IsDrained, After, set_online-online, try_flush-After,
}

-- An answer of the network: the time at which it comes, and its body.
abbrev pub Answer : Type 0
Answer = Text × ℤ × Text

-- The answers as events, each with the HTTP code 200.
abbrev pub answered : List Answer → List (Text × ℤ × Event)
answered [] = []
answered ((now, ms, body) ∷ rest) = (now, ms, ends 0 (pos 200) body []) ∷ answered rest

module _ (C : ChatCodec) (Q : OfflineQueue)
    (builds : (r : ChatRequest) → (body : Text) × (C.build_chat_request_json r ≡ some body)) where
  open Q use {peek, remove_front, size, items, peek-items, size-items, items-remove_front}

  -- Each body is parsed to a response without tool calls.
  abbrev AllAnswers : List Answer → Type 0
  AllAnswers [] = Unit {0}
  AllAnswers ((now, ms, body) ∷ rest) = IsAnswer C Callback body × AllAnswers rest

  one_round : (n : ℕ) → n + 3 ≡ suc (n + 2)
  one_round n = omega arith

  finish_flush_item-success :
      (next : Coordinator C Q → Option (Coordinator C Q)) (w : Coordinator C Q)
      → w.monitor.state ≡ online
      → finish_flush_item C Q next w true [] ≡ next (drop_front C Q (record w { flushing = false }))
  unfolding finish_flush_item
  finish_flush_item-success next w up =
      rw (set_online-online C Q next (record w { flushing = false }) up) refl

  -- The answer to the item on its way: the item leaves the queue, and the next one is sent or the
  -- flush ends.
  request_ended-After :
      (now : Text) (ms : ℤ) (body : Text) (w : Coordinator C Q) (ctx : FlushContext)
      (x : QueuedItem) (xs : List QueuedItem) (total : ℕ)
      → IsAnswer C Callback body
      → IsSending C Q w ctx (x ∷ xs) total
      → (w' : Coordinator C Q) × (request_ended C Q w now ms 0 (pos 200) body [] ≡ some w')
        × After C Q w' ctx xs total
  unfolding request_ended after_agent
  request_ended-After now ms body w ctx x xs total answer s =
      let (a, replied, idle, same) =
        respond-IsIdle C Callback w.agent body ctx.on_text flush_item answer s.agent in
      let left = drop_front C Q (record w { agent = a; flushing = false }) in
      let (w', e, after) =
        try_flush-After C Q builds now ms (size w.queue + 2) left ctx xs total
          (record { up = s.up; unflushing = refl; agent = idle }) s.context
          (items-remove_front w.queue ∙ ap tail s.queued) s.below.1
          (omega (arith, same, s.sent_so_far)) in
      (
        w',
        rw replied (
            finish_flush_item-success (try_flush C Q now ms (fuel_for C Q w))
              (record w { agent = a }) s.up
            ∙ (ap (λ n. try_flush C Q now ms n left) (one_round (size w.queue)) ∙ e)),
        after,
      )

  -- The answers to the items that are left.
  run-IsDrained :
      (w : Coordinator C Q) (ctx : FlushContext) (xs : List QueuedItem) (total : ℕ)
      (answers : List Answer)
      → length answers ≡ length xs
      → AllAnswers answers
      → After C Q w ctx xs total
      → (w' : Coordinator C Q) × (run C Q w (answered answers) ≡ some w')
        × IsDrained C Q w' ctx.on_done total
  unfolding run step
  run-IsDrained w ctx [] total [] same all after = (w, refl, after)
  run-IsDrained w ctx [] total (a ∷ answers) same all after = absurd (omega arith)
  run-IsDrained w ctx (x ∷ xs) total [] same all after = absurd (omega arith)
  run-IsDrained w ctx (x ∷ xs) total ((now, ms, body) ∷ answers) same (answer, all) after =
      let (v, stepped, next) = request_ended-After now ms body w ctx x xs total answer after in
      let (w', rest, drained) = run-IsDrained v ctx xs total answers (omega arith) all next in
      (
        w',
        run_one C Q w v (now, ms, ends 0 (pos 200) body []) (answered answers) stepped ∙ rest,
        drained,
      )

  -- A flush of a coordinator whose monitor is online (not of unknown state) and that flushes nothing
  -- yet, with an idle agent that has no request on its way, allows a round, and has a client without
  -- mock responses, with an address, a key and a model, and with the option `stream` off (which is on
  -- by default), and a queue of items that have attempts left: where each request has a JSON text, and
  -- each is answered with the code 200 and a body that is parsed to a response without tool calls,
  -- one after the other, the queue is empty in the end. For each item one request was sent, the flush
  -- is over, and the last thing done is the call of the user's callback with true.
  pub flush-IsDrained :
      (w : Coordinator C Q) (now : Text) (ms : ℤ) (on_text on_done : Option ℕ)
      (answers : List Answer)
      → IsFree C Q w
      → AllBelow w.opts.max_item_attempts (items w.queue)
      → length answers ≡ length (items w.queue)
      → AllAnswers answers
      → (w' : Coordinator C Q) × (run C Q w ((now, ms, flushes on_text on_done) ∷ answered answers)
          ≡ some w')
        × IsDrained C Q w' on_done (requests w.agent.outputs + length (items w.queue))
  unfolding flush run step
  flush-IsDrained w now ms on_text on_done answers free below same all =
      let ctx : FlushContext = record { on_text = on_text; on_done = on_done } in
      let (v, started, after) =
        try_flush-After C Q builds now ms (size w.queue + 2) (record w { flush_ctx = some ctx }) ctx
          (items w.queue) _
          (record { up = free.up; unflushing = free.unflushing; agent = free.agent }) refl refl
          below refl in
      let (w', rest, drained) = run-IsDrained v ctx (items w.queue) _ answers same all after in
      (
        w',
        run_one C Q w v (now, ms, flushes on_text on_done) (answered answers)
              (ap (λ n. try_flush C Q now ms n (record w { flush_ctx = some ctx }))
                  (one_round (size w.queue))
                ∙ started)
            ∙ rest,
        drained,
      )
