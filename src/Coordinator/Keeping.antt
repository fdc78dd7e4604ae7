-- ===== src/Coordinator/Keeping.antt =====
-- What EaQueueCoordinator (src/ea_queue_coordinator.cpp) does to its queue goes through the queue's
-- operations.
use mathlib.Core.Path.{subst}
use embed_agent.Base.{
  ℕ, zero, suc, Bool, true, false, not, ◌&&◌, List, [], ◌∷◌, Option, none, some, Text, ℤ,
  if◌then◌else◌, if-intro, ◌==◌, leb_ℤ, inl, inr, Option-cases, leb, to_size,
}
use embed_agent.Cppev.{ChatCodec}
use embed_agent.OfflineQueue.{OfflineQueue, QueuedItem}
use embed_agent.Connectivity.{ConnectivityState, is_online, state_eq, online}
use embed_agent.Connectivity
use embed_agent.NetworkError.{is_queueable_llm_error}
use embed_agent.Agent.{
  Agent, Outcome, waiting, finished, out_of_fuel, submit_user_message, respond, receive,
}
use embed_agent.Coordinator.{
  Coordinator, Callback, direct, flush_item, FlushContext, call_done, next_item, enqueue_user_text,
  enqueue_and_report, rollback, drop_front, on_connectivity_changed, set_online, end_flush,
  count_attempt, postpone_item, finish_flush_item, finish_direct, after_agent, flush_front,
  flush_peeked, flush_text, try_flush, fuel_for, submit, flush, cancel, network_changed,
  after_response, request_ended, after_chunk, chunk_received, queue_full, queued_message, ◌>>=◌,
}
use embed_agent.Coordinator.Events.{
  Event, submits, flushes, cancels, network, chunk, ends, step, run,
}

-- All events happen at times that have a property.
abbrev pub AllAt : (ℤ → Type 0) → List (Text × ℤ × Event) → Type 0
AllAt Ok [] = Unit
AllAt Ok (e ∷ es) = Ok e.1 × AllAt Ok es

-- `Ok` is a property of the times at which items are queued, `P` one of the queue that each of the
-- operations that change it keeps.
module _ (C : ChatCodec) (Q : OfflineQueue) (Ok : ℤ → Type 0) (P : Q.State → Type 0)
    (on_enqueue : (q : Q.State) (x : QueuedItem) → Ok x.enqueued_at_ms → P q → P (Q.enqueue q x).0)
    (on_remove : (q : Q.State) → P q → P (Q.remove_front q).0)
    (on_update : (q : Q.State) (n : ℤ) → P q → P (Q.update_front_attempt q n).0) where
  open Q use {State, enqueue, peek, remove_front, update_front_attempt, size}

  -- The property holds where there is a result.
  abbrev pub Holds : Option (Coordinator C Q) → Type 0
  Holds none = Unit
  Holds (some w) = P w.queue

  abbrev Keeps : (Coordinator C Q → Option (Coordinator C Q)) → Type 0
  Keeps next = (w : Coordinator C Q) → P w.queue → Holds (next w)

  bind-Holds :
      (r : Option (Coordinator C Q)) (f : Coordinator C Q → Option (Coordinator C Q))
      → Holds r
      → Keeps f
      → Holds (◌>>=◌ C Q r f)
  bind-Holds none f h k = tt
  bind-Holds (some w) f h k = k w h

  branch-Holds :
      (b : Bool) (r s : Option (Coordinator C Q)) → Holds r → Holds s → Holds (if b then r else s)
  branch-Holds true r s hr hs = hr
  branch-Holds false r s hr hs = hs

  call_done-Keeps :
      (w : Coordinator C Q) (cb : Option ℕ) (ok : Bool) (text : Text)
      → P w.queue
      → P (call_done C Q w cb ok text).queue
  call_done-Keeps w none ok text h = h
  call_done-Keeps w (some cb) ok text h = h

  end_flush-Keeps :
      (w : Coordinator C Q) (ctx : Option FlushContext) (ok : Bool) (text : Text)
      → P w.queue
      → P (end_flush C Q w ctx ok text).queue
  end_flush-Keeps w none ok text h = h
  end_flush-Keeps w (some ctx) ok text h = call_done-Keeps w ctx.on_done ok text h

  enqueue_user_text-Keeps :
      (w : Coordinator C Q) (text : Text) (ms : ℤ)
      → Ok ms
      → P w.queue
      → P (enqueue_user_text C Q w text ms).0.queue
  unfolding enqueue_user_text
  enqueue_user_text-Keeps w text ms ok h =
      if-intro (λ (r : Coordinator C Q × Bool). P r.0.queue)
        (leb (to_size w.opts.max_queue_items) (size w.queue)) h
        (on_enqueue w.queue (next_item C Q w text ms) ok h)

  enqueue_and_report-Keeps :
      (w : Coordinator C Q) (text : Text) (ms : ℤ) (cb : Option ℕ)
      → Ok ms
      → P w.queue
      → P (enqueue_and_report C Q w text ms cb).queue
  unfolding enqueue_and_report
  enqueue_and_report-Keeps w text ms cb ok h =
      let r = enqueue_user_text C Q w text ms in
      let kept = enqueue_user_text-Keeps w text ms ok h in
      if-intro (λ (v : Coordinator C Q). P v.queue) (not r.1)
        (call_done-Keeps r.0 cb false queue_full kept)
        (call_done-Keeps r.0 cb true queued_message kept)

  on_connectivity_changed-Keeps :
      (next : Coordinator C Q → Option (Coordinator C Q)) (w : Coordinator C Q)
      (st : Option ConnectivityState)
      → Keeps next
      → P w.queue
      → Holds (on_connectivity_changed C Q next w st)
  unfolding on_connectivity_changed
  on_connectivity_changed-Keeps next w none k h = h
  on_connectivity_changed-Keeps next w (some st) k h =
      branch-Holds (state_eq st online && w.opts.auto_flush_on_online) (next w) (some w) (k w h) h

  set_online-Keeps :
      (next : Coordinator C Q → Option (Coordinator C Q)) (w : Coordinator C Q) (up : Bool)
      → Keeps next
      → P w.queue
      → Holds (set_online C Q next w up)
  unfolding set_online
  set_online-Keeps next w up k h =
      let r = Connectivity.set_online w.monitor up in
      on_connectivity_changed-Keeps next (record w { monitor = r.0 }) r.1 k h

  count_attempt-Keeps :
      (w : Coordinator C Q) (front : Option QueuedItem)
      → P w.queue
      → P (count_attempt C Q w front).queue
  count_attempt-Keeps w none h = h
  count_attempt-Keeps w (some x) h = on_update w.queue _ h

  postpone_item-Keeps :
      (w : Coordinator C Q) (error : Text) → P w.queue → P (postpone_item C Q w error).queue
  postpone_item-Keeps w error h =
      let counted = count_attempt C Q (rollback C Q w) (peek w.queue true) in
      end_flush-Keeps counted counted.flush_ctx false error
        (count_attempt-Keeps (rollback C Q w) (peek w.queue true) h)

  finish_flush_item-Keeps :
      (next : Coordinator C Q → Option (Coordinator C Q)) (w : Coordinator C Q) (ok : Bool)
      (error : Text)
      → Keeps next
      → P w.queue
      → Holds (finish_flush_item C Q next w ok error)
  unfolding finish_flush_item
  finish_flush_item-Keeps next w ok error k h =
      let idle = record w { flushing = false } in
      let retried = λ (v : Coordinator C Q). next (drop_front C Q v) in
      let failed = λ (v : Coordinator C Q). some (postpone_item C Q v error) in
      let dropped : Keeps retried = λ v hv. k (drop_front C Q v) (on_remove v.queue hv) in
      let up = ◌>>=◌ C Q (set_online C Q next idle true) retried in
      let down = ◌>>=◌ C Q (set_online C Q next idle false) failed in
      let is_final = not (is_queueable_llm_error error) in
      branch-Holds ok up (if is_final then retried idle else down)
        (bind-Holds (set_online C Q next idle true) retried (set_online-Keeps next idle true k h)
          dropped)
        (branch-Holds is_final (retried idle) down (dropped idle h) (
          bind-Holds (set_online C Q next idle false) failed (set_online-Keeps next idle false k h)
            (λ v hv. postpone_item-Keeps v error hv)))

  finish_direct-Keeps :
      (next : Coordinator C Q → Option (Coordinator C Q)) (w : Coordinator C Q) (text : Text)
      (cb : Option ℕ) (ms : ℤ) (ok : Bool) (error : Text)
      → Ok ms
      → Keeps next
      → P w.queue
      → Holds (finish_direct C Q next w text cb ms ok error)
  unfolding finish_direct
  finish_direct-Keeps next w text cb ms ok error at k h =
      let told = λ (v : Coordinator C Q). some (call_done C Q v cb true []) in
      let queued =
        λ (v : Coordinator C Q). some (enqueue_and_report C Q (rollback C Q v) text ms cb) in
      let up = ◌>>=◌ C Q (set_online C Q next w true) told in
      let down = ◌>>=◌ C Q (set_online C Q next w false) queued in
      let is_final = not (is_queueable_llm_error error) in
      let taken_back = some (call_done C Q (rollback C Q w) cb false error) in
      branch-Holds ok up (if is_final then taken_back else down)
        (bind-Holds (set_online C Q next w true) told (set_online-Keeps next w true k h)
          (λ v hv. call_done-Keeps v cb true [] hv))
        (branch-Holds is_final taken_back down (call_done-Keeps (rollback C Q w) cb false error h) (
          bind-Holds (set_online C Q next w false) queued (set_online-Keeps next w false k h)
            (λ v hv. enqueue_and_report-Keeps (rollback C Q v) text ms cb at hv)))

  after_agent-Keeps :
      (next : Coordinator C Q → Option (Coordinator C Q)) (w : Coordinator C Q) (ms : ℤ)
      (r : Agent C Callback × Outcome C Callback)
      → Ok ms
      → Keeps next
      → P w.queue
      → Holds (after_agent C Q next w ms r)
  unfolding after_agent
  after_agent-Keeps next w ms (a, waiting) at k h = h
  after_agent-Keeps next w ms (a, finished (direct text cb) ok error) at k h =
      finish_direct-Keeps next (record w { agent = a }) text cb ms ok error at k h
  after_agent-Keeps next w ms (a, finished flush_item ok error) at k h =
      finish_flush_item-Keeps next (record w { agent = a }) ok error k h
  after_agent-Keeps next w ms (a, out_of_fuel) at k h = tt

  flush_peeked-Keeps :
      (next : Coordinator C Q → Option (Coordinator C Q)) (w : Coordinator C Q) (now : Text)
      (ms : ℤ) (item : Option QueuedItem)
      → Ok ms
      → Keeps next
      → P w.queue
      → Holds (flush_peeked C Q next w now ms item)
  unfolding flush_front
  flush_peeked-Keeps next w now ms none at k h = h
  flush_peeked-Keeps next w now ms (some item) at k h =
      let started =
        submit_user_message C Callback w.agent now item.user_text (flush_text C Q w.flush_ctx)
          flush_item false in
      let flushing = record w { flushing = true } in
      branch-Holds (leb_ℤ w.opts.max_item_attempts item.attempt_count) (next (drop_front C Q w))
        (after_agent C Q next flushing ms started) (k (drop_front C Q w) (on_remove w.queue h))
        (after_agent-Keeps next flushing ms started at k h)

  try_flush-Keeps : (now : Text) (ms : ℤ) (fuel : ℕ) → Ok ms → Keeps (try_flush C Q now ms fuel)
  unfolding try_flush
  try_flush-Keeps now ms zero at w h = tt
  try_flush-Keeps now ms (suc fuel) at w h =
      let next = try_flush C Q now ms fuel in
      let front = peek w.queue true in
      let ended = some (end_flush C Q w w.flush_ctx true []) in
      let peeked = flush_peeked C Q next w now ms front in
      let is_done = size w.queue == 0 in
      let rest = if is_done then ended else peeked in
      branch-Holds (not (is_online w.monitor)) (some w) (if w.flushing then some w else rest) h (
        branch-Holds w.flushing (some w) rest h (
          branch-Holds is_done ended peeked (end_flush-Keeps w w.flush_ctx true [] h)
            (flush_peeked-Keeps next w now ms front at (try_flush-Keeps now ms fuel at) h)))

  submit-Keeps :
      (w : Coordinator C Q) (now : Text) (ms : ℤ) (text : Text) (on_text on_done : Option ℕ)
      → Ok ms
      → P w.queue
      → Holds (submit C Q w now ms text on_text on_done)
  unfolding submit
  submit-Keeps w now ms text on_text on_done at h =
      let next = try_flush C Q now ms (fuel_for C Q w) in
      let report = some (enqueue_and_report C Q w text ms on_done) in
      let queued = enqueue_and_report-Keeps w text ms on_done at h in
      let started =
        submit_user_message C Callback w.agent now text on_text (direct text on_done) false in
      let chat = after_agent C Q next w ms started in
      let sent =
        after_agent-Keeps next w ms started at (try_flush-Keeps now ms (fuel_for C Q w) at) h in
      branch-Holds (not (is_online w.monitor)) report (if w.flushing then report else chat) queued
        (branch-Holds w.flushing report chat queued sent)

  after_response-Keeps :
      (next : Coordinator C Q → Option (Coordinator C Q)) (w : Coordinator C Q) (ms : ℤ)
      (r : Option (Agent C Callback × Outcome C Callback))
      → Ok ms
      → Keeps next
      → P w.queue
      → Holds (after_response C Q next w ms r)
  after_response-Keeps next w ms none at k h = h
  after_response-Keeps next w ms (some r) at k h = after_agent-Keeps next w ms r at k h

  after_chunk-Keeps :
      (w : Coordinator C Q) (r : Option (Agent C Callback × Bool))
      → P w.queue
      → P (after_chunk C Q w r).queue
  after_chunk-Keeps w none h = h
  after_chunk-Keeps w (some (a, good)) h = h

  step-Keeps :
      (w : Coordinator C Q) (e : Text × ℤ × Event) → Ok e.1 → P w.queue → Holds (step C Q w e)
  unfolding step flush cancel network_changed request_ended chunk_received
  step-Keeps w (now, ms, submits text on_text cb) at h = submit-Keeps w now ms text on_text cb at h
  step-Keeps w (now, ms, flushes on_text cb) at h = try_flush-Keeps now ms (fuel_for C Q w) at _ h
  step-Keeps w (now, ms, cancels) at h = h
  step-Keeps w (now, ms, network up) at h =
      set_online-Keeps (try_flush C Q now ms (fuel_for C Q w)) w up
        (try_flush-Keeps now ms (fuel_for C Q w) at) h
  step-Keeps w (now, ms, chunk i c) at h = after_chunk-Keeps w (receive C Callback w.agent i c) h
  step-Keeps w (now, ms, ends i code body err) at h =
      after_response-Keeps (try_flush C Q now ms (fuel_for C Q w)) w ms
        (respond C Callback w.agent i code body err) at (try_flush-Keeps now ms (fuel_for C Q w) at)
        h

  -- A property of the queue that its operations keep is kept by every sequence of events.
  pub run-Keeps :
      (w : Coordinator C Q) (es : List (Text × ℤ × Event))
      → AllAt Ok es
      → P w.queue
      → Holds (run C Q w es)
  unfolding run
  run-Keeps w [] at h = h
  run-Keeps w (e ∷ es) (at, ats) h = elim (Option-cases (step C Q w e)) [
    | inl stopped ↦ rw (stopped, run) tt
    | inr (v, stepped) ↦
        let kept : P v.queue = subst Holds stepped (step-Keeps w e at h) in
        rw (stepped, run) (run-Keeps v es ats kept)
  ]
