-- ===== src/Coordinator.antt =====
-- EaQueueCoordinator (src/ea_queue_coordinator.cpp): an agent, an offline queue and a monitor of
-- the network. The user's callbacks do not call the coordinator back.
pub mod Invariant
pub mod Settling
pub mod Flushing
pub mod Submit
pub mod Events
pub mod Keeping
pub mod Durable
pub mod Queueing
pub mod Overlap
pub mod Reentry
pub mod Sending
pub mod Drain
use embed_agent.Base.{
  ℕ, zero, suc, ◌+◌, Bool, true, false, not, ◌&&◌, ◌||◌, List, [], ◌∷◌, ◌++◌, Option, none, some,
  Text, codes, is_empty, if◌then◌else◌, leb, leb_ℤ, ◌==◌, ℤ, pos, suc_ℤ, to_size, to_string,
}
use embed_agent.Cppev.{ChatCodec}
use embed_agent.Session.{rollback_last_user}
use embed_agent.OfflineQueue.{QueuedItem, OfflineQueue}
use embed_agent.Connectivity.{
  Monitor, ConnectivityState, online, offline, unknown, state_eq, is_online,
}
use embed_agent.Connectivity
use embed_agent.NetworkError.{is_queueable_llm_error}
use embed_agent.Agent.{
  Agent, Outcome, waiting, finished, out_of_fuel, Output, done_called, submit_user_message, respond,
  receive,
}
use embed_agent.Agent

-- EaQueueCoordinatorOptions.
pub record CoordinatorOptions : Type 0 where
  pub max_queue_items : ℤ
  pub max_item_attempts : ℤ
  pub auto_flush_on_online : Bool

-- EaQueueCoordinator::FlushContext: the user's callbacks, `none` where null.
pub record FlushContext : Type 0 where
  pub on_text : Option ℕ
  pub on_done : Option ℕ

-- The done callbacks that the coordinator gives to its agent: the lambda of submitUserMessage, with
-- the text and the user's callback that it holds, and that of tryFlush.
pub data Callback : Type 0 where
  direct : Text → Option ℕ → Callback
  flush_item : Callback

abbrev pub queue_full : Text
queue_full = codes "EaQueueCoordinator: queue full"

abbrev pub queued_message : Text
queued_message = codes "queued"

module _ (C : ChatCodec) (Q : OfflineQueue) where
  open Q use {State, enqueue, peek, remove_front, update_front_attempt, size, load}

  pub record Coordinator : Type 0 where
    pub opts : CoordinatorOptions
    pub agent : Agent C Callback
    pub queue : State
    pub monitor : Monitor
    pub flushing : Bool
    pub flush_ctx : Option FlushContext
    pub queue_serial : ℕ

  -- The constructor: the queue is loaded, and the monitor calls onConnectivityChanged.
  unfoldable pub create : CoordinatorOptions → Agent C Callback → State → Monitor → Coordinator
  create opts agent queue monitor = record {
    opts = opts;
    agent = agent;
    queue = (load queue).0;
    monitor = Connectivity.set_transition_callback monitor;
    flushing = false;
    flush_ctx = none;
    queue_serial = 0;
  }

  -- A call of a user's done callback, where it is not null.
  abbrev pub call_done : Coordinator → Option ℕ → Bool → Text → Coordinator
  call_done w none ok text = w
  call_done w (some cb) ok text = record w {
    agent = Agent.emit C Callback w.agent (done_called cb ok text);
  }

  abbrev pub pending_count : Coordinator → ℕ
  pending_count w = size w.queue

  -- `ms` is the current time. A serial number does not reach 2^31.
  abbrev pub next_item : Coordinator → Text → ℤ → QueuedItem
  next_item w text ms = record {
    id = codes "q-" ++ to_string (suc w.queue_serial);
    user_text = text;
    enqueued_at_ms = ms;
    attempt_count = pos 0;
  }

  unfoldable pub enqueue_user_text : Coordinator → Text → ℤ → Coordinator × Bool
  enqueue_user_text w text ms =
      if leb (to_size w.opts.max_queue_items) (size w.queue) then (w, false) else (
        record w {
          queue = (enqueue w.queue (next_item w text ms)).0;
          queue_serial = suc w.queue_serial;
        },
        (enqueue w.queue (next_item w text ms)).1,
      )

  -- The message goes to the queue, and the user hears whether it did.
  unfoldable pub enqueue_and_report : Coordinator → Text → ℤ → Option ℕ → Coordinator
  unfolding enqueue_user_text
  enqueue_and_report w text ms on_done =
      let r = enqueue_user_text w text ms in
      if not r.1
      then call_done r.0 on_done false queue_full
      else call_done r.0 on_done true queued_message

  abbrev pub rollback : Coordinator → Coordinator
  rollback w = record w {
    agent = record w.agent { session = (rollback_last_user w.agent.session).0 };
  }

  abbrev pub drop_front : Coordinator → Coordinator
  drop_front w = record w { queue = (remove_front w.queue).0 }

  -- `next` is tryFlush in what follows; `none` means that its fuel ran out.
  unfoldable pub on_connectivity_changed :
      (Coordinator → Option Coordinator)
      → Coordinator
      → Option ConnectivityState
      → Option Coordinator
  on_connectivity_changed next w none = some w
  on_connectivity_changed next w (some state) =
      if state_eq state online && w.opts.auto_flush_on_online then next w else some w

  -- `monitor_->setOnline(up)`, with the callback that the coordinator has registered.
  unfoldable pub set_online :
      (Coordinator → Option Coordinator) → Coordinator → Bool → Option Coordinator
  unfolding on_connectivity_changed
  set_online next w up =
      let r = Connectivity.set_online w.monitor up in
      on_connectivity_changed next (record w { monitor = r.0 }) r.1

  infixl 5 ◌>>=◌
  abbrev pub ◌>>=◌ : Option Coordinator → (Coordinator → Option Coordinator) → Option Coordinator
  none >>= f = none
  some w >>= f = f w

  abbrev pub end_flush : Coordinator → Option FlushContext → Bool → Text → Coordinator
  end_flush w none ok text = w
  end_flush w (some ctx) ok text = record (call_done w ctx.on_done ok text) { flush_ctx = none }

  abbrev pub count_attempt : Coordinator → Option QueuedItem → Coordinator
  count_attempt w none = w
  count_attempt w (some front) = record w {
    queue = (update_front_attempt w.queue (suc_ℤ front.attempt_count)).0;
  }

  -- The end of finishFlushItem for an error that is tried again later.
  abbrev pub postpone_item : Coordinator → Text → Coordinator
  postpone_item w error =
      let counted = count_attempt (rollback w) (peek w.queue true) in
      end_flush counted counted.flush_ctx false error

  unfoldable pub finish_flush_item :
      (Coordinator → Option Coordinator) → Coordinator → Bool → Text → Option Coordinator
  unfolding set_online
  finish_flush_item next w ok error =
      let idle = record w { flushing = false } in
      if ok
      then (do w' ← set_online next idle true; next (drop_front w'))
      else if not (is_queueable_llm_error error)
      then next (drop_front idle)
      else (do w' ← set_online next idle false; some (postpone_item w' error))

  -- The lambda of submitUserMessage.
  unfoldable pub finish_direct :
      (Coordinator → Option Coordinator)
      → Coordinator
      → Text
      → Option ℕ
      → ℤ
      → Bool
      → Text
      → Option Coordinator
  unfolding set_online enqueue_and_report
  finish_direct next w text on_done ms ok error =
      if ok
      then (do w' ← set_online next w true; some (call_done w' on_done true []))
      else if not (is_queueable_llm_error error)
      then some (call_done (rollback w) on_done false error)
      else (do
        w' ← set_online next w false
        some (enqueue_and_report (rollback w') text ms on_done))

  -- What the agent's call leaves to do.
  unfoldable pub after_agent :
      (Coordinator → Option Coordinator)
      → Coordinator
      → ℤ
      → Agent C Callback × Outcome C Callback
      → Option Coordinator
  unfolding finish_flush_item finish_direct
  after_agent next w ms (a, waiting) = some (record w { agent = a })
  after_agent next w ms (a, finished (direct text on_done) ok error) =
      finish_direct next (record w { agent = a }) text on_done ms ok error
  after_agent next w ms (a, finished flush_item ok error) =
      finish_flush_item next (record w { agent = a }) ok error
  after_agent next w ms (a, out_of_fuel) = none

  abbrev pub flush_text : Option FlushContext → Option ℕ
  flush_text none = none
  flush_text (some ctx) = ctx.on_text

  -- The queue's front item goes to the agent. A flushed message is appended to the session like
  -- any other.
  unfoldable pub flush_front :
      (Coordinator → Option Coordinator) → Coordinator → Text → ℤ → QueuedItem → Option Coordinator
  unfolding after_agent
  flush_front next w now ms item =
      if leb_ℤ w.opts.max_item_attempts item.attempt_count
      then next (drop_front w)
      else after_agent next (record w { flushing = true }) ms
          (submit_user_message C Callback w.agent now item.user_text (flush_text w.flush_ctx)
            flush_item false)

  abbrev pub flush_peeked :
      (Coordinator → Option Coordinator)
      → Coordinator
      → Text
      → ℤ
      → Option QueuedItem
      → Option Coordinator
  flush_peeked next w now ms none = some w
  flush_peeked next w now ms (some item) = flush_front next w now ms item

  -- Each call of itself takes one unit of fuel. The time `now`, `ms` is read once for an event.
  unfoldable pub try_flush : Text → ℤ → ℕ → Coordinator → Option Coordinator
  unfolding flush_front
  try_flush now ms zero w = none
  try_flush now ms (suc fuel) w =
      if not (is_online w.monitor)
      then some w
      else if w.flushing
      then some w
      else if size w.queue == 0
      then some (end_flush w w.flush_ctx true [])
      else flush_peeked (try_flush now ms fuel) w now ms (peek w.queue true)

  -- Enough for every item of the queue, once more for a change of the state, and a last look.
  abbrev pub fuel_for : Coordinator → ℕ
  fuel_for w = size w.queue + 3

  unfoldable pub submit : Coordinator → Text → ℤ → Text → Option ℕ → Option ℕ → Option Coordinator
  unfolding enqueue_and_report after_agent try_flush
  submit w now ms text on_text on_done =
      if not (is_online w.monitor)
      then some (enqueue_and_report w text ms on_done)
      else if w.flushing
      then some (enqueue_and_report w text ms on_done)
      else after_agent (try_flush now ms (fuel_for w)) w ms
          (submit_user_message C Callback w.agent now text on_text (direct text on_done) false)

  unfoldable pub flush : Coordinator → Text → ℤ → Option ℕ → Option ℕ → Option Coordinator
  unfolding try_flush
  flush w now ms on_text on_done =
      try_flush now ms (fuel_for w)
        (record w { flush_ctx = some (record { on_text = on_text; on_done = on_done }) })

  unfoldable pub cancel : Coordinator → Coordinator
  cancel w = record w {
    agent = Agent.cancel C Callback w.agent;
    flushing = false;
    flush_ctx = none;
  }

  -- The monitor's state is set from outside: by the application or by a probe.
  unfoldable pub network_changed : Coordinator → Text → ℤ → Bool → Option Coordinator
  unfolding set_online try_flush
  network_changed w now ms up = set_online (try_flush now ms (fuel_for w)) w up

  abbrev pub after_response :
      (Coordinator → Option Coordinator)
      → Coordinator
      → ℤ
      → Option (Agent C Callback × Outcome C Callback)
      → Option Coordinator
  after_response next w ms none = some w
  after_response next w ms (some r) = after_agent next w ms r

  -- The end of the agent's request number `i`.
  unfoldable pub request_ended : Coordinator → Text → ℤ → ℕ → ℤ → Text → Text → Option Coordinator
  unfolding after_agent try_flush
  request_ended w now ms i code body err =
      after_response (try_flush now ms (fuel_for w)) w ms
        (respond C Callback w.agent i code body err)

  abbrev pub after_chunk : Coordinator → Option (Agent C Callback × Bool) → Coordinator
  after_chunk w none = w
  after_chunk w (some (a, good)) = record w { agent = a }

  -- A chunk of the stream number `i` of the agent.
  unfoldable pub chunk_received : Coordinator → ℕ → Text → Coordinator
  unfolding receive
  chunk_received w i chunk = after_chunk w (receive C Callback w.agent i chunk)
