-- ===== src/Coordinator/Queueing.antt =====
-- What EaQueueCoordinator does with a message that it cannot send (src/ea_queue_coordinator.cpp).
use embed_agent.Base.{
  ℕ, suc, ◌≡◌, ◌≤◌, ◌<◌, refl, ◌⊎◌, append-nil, sym, ap, ◌∙◌, inl, inr, Bool, true, false, not,
  List, [], ◌∷◌, ◌++◌, Option, none, some, Text, ℤ, arith, Bool-cases, leb, to_size, if◌then◌else◌,
  suc_ℤ,
}
use embed_agent.Cppev.{ChatCodec}
use embed_agent.OfflineQueue.{OfflineQueue, QueuedItem, head?, set_front_attempt}
use embed_agent.Session.{rollback_last_user}
use embed_agent.Connectivity.{
  Monitor, ConnectivityState, online, offline, unknown, is_online, transition_to, state_eq,
}
use embed_agent.Connectivity
use embed_agent.NetworkError.{is_queueable_llm_error}
use embed_agent.Agent.{Output, done_called}
use embed_agent.Coordinator.{
  Coordinator, FlushContext, call_done, enqueue_and_report, enqueue_user_text, queue_full,
  queued_message, next_item, finish_flush_item, set_online, on_connectivity_changed, rollback,
  count_attempt, end_flush, postpone_item,
}

module _ (C : ChatCodec) (Q : OfflineQueue) where
  open Q use {
    State, enqueue, peek, size, items, items-enqueue, peek-items, items-update_front_attempt,
  }

  -- The outputs of a report to the user's callback.
  abbrev pub report : Option ℕ → Bool → Text → List Output
  report none ok text = []
  report (some cb) ok text = done_called cb ok text ∷ []

  call_done-outputs :
      (w : Coordinator C Q) (cb : Option ℕ) (ok : Bool) (text : Text)
      → (call_done C Q w cb ok text).agent.outputs ≡ w.agent.outputs ++ report cb ok text
  call_done-outputs w none ok text = sym (append-nil w.agent.outputs)
  call_done-outputs w (some cb) ok text = refl

  call_done-kept :
      (w : Coordinator C Q) (cb : Option ℕ) (ok : Bool) (text : Text)
      → ((call_done C Q w cb ok text).queue ≡ w.queue)
        × ((call_done C Q w cb ok text).agent.session ≡ w.agent.session)
        × ((call_done C Q w cb ok text).agent.in_flight ≡ w.agent.in_flight)
  call_done-kept w none ok text = (refl, refl, refl)
  call_done-kept w (some cb) ok text = (refl, refl, refl)

  -- The agent's session and requests stay. A full queue refuses the message; otherwise it becomes
  -- the last item, and the user hears what the queue's `enqueue` returned.
  pub record IsStored (w : Coordinator C Q) (text : Text) (ms : ℤ) (on_done : Option ℕ)
      (w' : Coordinator C Q) : Type 0 where
    pub session : w'.agent.session ≡ w.agent.session
    pub in_flight : w'.agent.in_flight ≡ w.agent.in_flight
    pub stored :
        ((to_size w.opts.max_queue_items ≤ size w.queue)
          × (w'.queue ≡ w.queue)
          × (w'.agent.outputs ≡ w.agent.outputs ++ report on_done false queue_full))
        ⊎ ((size w.queue < to_size w.opts.max_queue_items)
            × (items w'.queue ≡ items w.queue ++ next_item C Q w text ms ∷ [])
            × (w'.agent.outputs
                ≡ w.agent.outputs
                  ++ (if (enqueue w.queue (next_item C Q w text ms)).1
                      then report on_done true queued_message
                      else report on_done false queue_full)))

  grown : Coordinator C Q → Text → ℤ → Coordinator C Q
  grown w text ms = record w {
    queue = (enqueue w.queue (next_item C Q w text ms)).0;
    queue_serial = suc w.queue_serial;
  }

  -- A report on a message that went into the queue.
  reported-IsStored :
      (w : Coordinator C Q) (text : Text) (ms : ℤ) (on_done : Option ℕ) (stored : Bool)
      → leb (to_size w.opts.max_queue_items) (size w.queue) ≡ false
      → (enqueue w.queue (next_item C Q w text ms)).1 ≡ stored
      → IsStored w text ms on_done (
          if not stored
          then call_done C Q (grown w text ms) on_done false queue_full
          else call_done C Q (grown w text ms) on_done true queued_message)
  unfolding grown
  reported-IsStored w text ms on_done true room e =
      let (q, s, f) = call_done-kept (grown w text ms) on_done true queued_message in
      record {
        session = s;
        in_flight = f;
        stored = inr (
          ground arith,
          ap items q ∙ items-enqueue w.queue (next_item C Q w text ms),
          rw e (call_done-outputs (grown w text ms) on_done true queued_message),
        );
      }
  reported-IsStored w text ms on_done false room e =
      let (q, s, f) = call_done-kept (grown w text ms) on_done false queue_full in
      record {
        session = s;
        in_flight = f;
        stored = inr (
          ground arith,
          ap items q ∙ items-enqueue w.queue (next_item C Q w text ms),
          rw e (call_done-outputs (grown w text ms) on_done false queue_full),
        );
      }

  pub enqueue_and_report-IsStored :
      (w : Coordinator C Q) (text : Text) (ms : ℤ) (on_done : Option ℕ)
      → IsStored w text ms on_done (enqueue_and_report C Q w text ms on_done)
  unfolding enqueue_and_report enqueue_user_text grown
  enqueue_and_report-IsStored w text ms on_done =
      elim (Bool-cases (leb (to_size w.opts.max_queue_items) (size w.queue))) [
        | inl full ↦
            let (q, s, f) = call_done-kept w on_done false queue_full in
            rw full (record {
              session = s;
              in_flight = f;
              stored = inl (ground arith, q, call_done-outputs w on_done false queue_full);
            })
        | inr room ↦ rw room (reported-IsStored w text ms on_done _ room refl)
      ]

  pub set_online-offline :
      (next : Coordinator C Q → Option (Coordinator C Q)) (w : Coordinator C Q)
      → set_online C Q next w false
        ≡ some (record w { monitor = record w.monitor { state = offline } })
  unfolding set_online on_connectivity_changed Connectivity.set_online transition_to
  set_online-offline next w = go w.monitor
    where
      go :
          (m : Monitor)
          → set_online C Q next (record w { monitor = m }) false
            ≡ some (record w { monitor = record m { state = offline } })
      go m = by_state m.state m.has_callback m.probe_url m.probe_timer m.probe_in_flight m.requests
        where
          by_state :
              (st : ConnectivityState) (hears : Bool) (url : Text) (timer flight : Bool) (n : ℕ)
              → let at = λ (s : ConnectivityState). record w {
                monitor = record {
                  state = s;
                  has_callback = hears;
                  probe_url = url;
                  probe_timer = timer;
                  probe_in_flight = flight;
                  requests = n;
                };
              } in
                set_online C Q next (at st) false ≡ some (at offline)
          by_state online true url timer flight n = refl
          by_state online false url timer flight n = refl
          by_state offline hears url timer flight n = refl
          by_state unknown true url timer flight n = refl
          by_state unknown false url timer flight n = refl

  -- What the end of a flush reports to its callback, where it has one.
  abbrev pub flush_report : Option FlushContext → Bool → Text → List Output
  flush_report none ok text = []
  flush_report (some ctx) ok text = report ctx.on_done ok text

  -- A coordinator after the end of its flush: the user's callback was called, and only it.
  pub record IsEnded (w : Coordinator C Q) (ok : Bool) (text : Text) (w' : Coordinator C Q)
      : Type 0 where
    pub queue : w'.queue ≡ w.queue
    pub monitor : w'.monitor ≡ w.monitor
    pub unflushing : w'.flushing ≡ w.flushing
    pub context : w'.flush_ctx ≡ none
    pub session : w'.agent.session ≡ w.agent.session
    pub outputs : w'.agent.outputs ≡ w.agent.outputs ++ flush_report w.flush_ctx ok text

  end_flush-IsEnded :
      (w : Coordinator C Q) (ok : Bool) (text : Text)
      → IsEnded w ok text (end_flush C Q w w.flush_ctx ok text)
  end_flush-IsEnded w ok text = by_context w.flush_ctx
    where
      by_callback :
          (ctx : FlushContext) (cb : Option ℕ)
          → let v : Coordinator C Q = record w { flush_ctx = some (record ctx { on_done = cb }) } in
            IsEnded v ok text (record (call_done C Q v cb ok text) { flush_ctx = none })
      by_callback ctx none = record {
        queue = refl;
        monitor = refl;
        unflushing = refl;
        context = refl;
        session = refl;
        outputs = sym (append-nil w.agent.outputs);
      }
      by_callback ctx (some n) = record {
        queue = refl;
        monitor = refl;
        unflushing = refl;
        context = refl;
        session = refl;
        outputs = refl;
      }

      by_context :
          (c : Option FlushContext)
          → let v : Coordinator C Q = record w { flush_ctx = c } in
            IsEnded v ok text (end_flush C Q v c ok text)
      by_context none = record {
        queue = refl;
        monitor = refl;
        unflushing = refl;
        context = refl;
        session = refl;
        outputs = sym (append-nil w.agent.outputs);
      }
      by_context (some ctx) = by_callback ctx ctx.on_done

  -- postpone_item, with the front item at hand.
  postpone_item-IsEnded :
      (w : Coordinator C Q) (error : Text) (x : QueuedItem) (xs : List QueuedItem)
      → items w.queue ≡ x ∷ xs
      → IsEnded
          (count_attempt C Q (rollback C Q w) (some x))
          false
          error
          (postpone_item C Q w error)
  postpone_item-IsEnded w error x xs front =
      rw (peek-items w.queue ∙ ap head? front)
        (end_flush-IsEnded (count_attempt C Q (rollback C Q w) (some x)) false error)

  items-count_attempt :
      (w : Coordinator C Q) (x : QueuedItem) (xs : List QueuedItem)
      → items w.queue ≡ x ∷ xs
      → items (count_attempt C Q w (some x)).queue
        ≡ record x { attempt_count = suc_ℤ x.attempt_count } ∷ xs
  items-count_attempt w x xs front =
      items-update_front_attempt w.queue (suc_ℤ x.attempt_count)
      ∙ ap (set_front_attempt (suc_ℤ x.attempt_count)) front

  -- A flushed item whose chat failed for the network stays at the front with one attempt more, the
  -- coordinator is offline and no longer flushing, rollbackLastUser is applied to the session, and of
  -- the callbacks of the user that of the flush alone is called, where it has one, with the error.
  pub finish_flush_item-retry :
      (next : Coordinator C Q → Option (Coordinator C Q)) (w : Coordinator C Q) (error : Text)
      (x : QueuedItem) (xs : List QueuedItem)
      → is_queueable_llm_error error ≡ true
      → items w.queue ≡ x ∷ xs
      → (w' : Coordinator C Q) × (finish_flush_item C Q next w false error ≡ some w')
        × (items w'.queue ≡ record x { attempt_count = suc_ℤ x.attempt_count } ∷ xs)
        × (is_online w'.monitor ≡ false)
        × (w'.flushing ≡ false)
        × (w'.flush_ctx ≡ none)
        × (w'.agent.session ≡ (rollback_last_user w.agent.session).0)
        × (w'.agent.outputs ≡ w.agent.outputs ++ flush_report w.flush_ctx false error)
  unfolding finish_flush_item
  finish_flush_item-retry next w error x xs retry front =
      let idle = record w { flushing = false } in
      let down : Coordinator C Q = record idle { monitor = record w.monitor { state = offline } } in
      let e = postpone_item-IsEnded down error x xs front in
      rw (retry, set_online-offline next idle)
        (
          postpone_item C Q down error,
          refl,
          ap items e.queue ∙ items-count_attempt (rollback C Q down) x xs front,
          rw e.monitor (unfold is_online in refl),
          e.unflushing,
          e.context,
          e.session,
          e.outputs,
        )
