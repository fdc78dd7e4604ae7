-- ===== src/Coordinator/Submit.antt =====
-- submitUserMessage of EaQueueCoordinator and the end of its requests
-- (src/ea_queue_coordinator.cpp): they end, keep the invariant and respect the queue's limit.
use embed_agent.Base.{
  ℕ, suc, ◌≡◌, ◌≤◌, refl, inl, inr, ap, Bool, true, false, not, ◌||◌, List, [], Option, some, Text,
  ℤ, arith, Bool-cases, Option-cases, leb, to_size, if-intro,
}
use embed_agent.Cppev.{ChatCodec}
use embed_agent.OfflineQueue.{OfflineQueue}
use embed_agent.Connectivity.{is_online}
use embed_agent.NetworkError.{is_queueable_llm_error}
use embed_agent.Agent.{
  Agent, Outcome, InFlight, waiting, finished, out_of_fuel, respond, request_at, without,
}
use embed_agent.Agent.Turns.{respond-Ends}
use embed_agent.Coordinator.{
  Coordinator, CoordinatorOptions, Callback, direct, flush_item, rollback, call_done, finish_direct,
  after_agent, try_flush, enqueue_and_report, enqueue_user_text, queue_full, next_item, submit,
  request_ended, fuel_for,
}
use embed_agent.Coordinator.Invariant.{
  is_flush, has_flush, has_flush-append, has_flush-without, IsAnswer, IsSound,
  submit_user_message-IsAnswer, Ends-IsAnswer, size-enqueue,
}
use embed_agent.Coordinator.Settling.{
  Settles, Settles-mono, FlushesBelow, IsSound-same, rollback-IsSound, call_done-IsSound,
  call_done-queue, rank-le-one,
}
use embed_agent.Coordinator.Flushing.{
  HasFuel, set_online_up, set_online_down, finish_flush_item-Settles, try_flush-Settles,
}

module _ (C : ChatCodec) (Q : OfflineQueue) (o : CoordinatorOptions) (limit : ℕ)
    (limits : to_size o.max_queue_items ≤ limit) where
  open Q use {State, enqueue, size}

  -- The call ends in a sound state with a queue within the limit.
  abbrev SettlesWithin : Option (Coordinator C Q) → Type 0
  SettlesWithin r = Settles C Q o limit r

  -- A report to the user leaves the state as sound as it was.
  told :
      (w : Coordinator C Q) (on_done : Option ℕ) (ok : Bool) (message : Text)
      → IsSound C Q o w
      → size w.queue ≤ limit
      → SettlesWithin (some (call_done C Q w on_done ok message))
  told w on_done ok message s le = (
    call_done C Q w on_done ok message,
    refl,
    call_done-IsSound C Q o w on_done ok message s,
    rw (call_done-queue C Q o w on_done ok message) le,
  )

  enqueue_and_report-Settles :
      (w : Coordinator C Q) (text : Text) (ms : ℤ) (on_done : Option ℕ)
      → IsSound C Q o w
      → size w.queue ≤ limit
      → SettlesWithin (some (enqueue_and_report C Q w text ms on_done))
  unfolding enqueue_and_report enqueue_user_text
  enqueue_and_report-Settles w text ms on_done s le =
      elim (Bool-cases (leb (to_size w.opts.max_queue_items) (size w.queue))) [
        | inl full ↦ rw full (told w on_done false queue_full s le)
        | inr room ↦ rw room (
            if-intro (λ v. SettlesWithin (some v)) _
              (told grown on_done false _ grown_sound (fits room))
              (told grown on_done true _ grown_sound (fits room)))
      ]
    where
      grown : Coordinator C Q
      grown = record w {
        queue = (enqueue w.queue (next_item C Q w text ms)).0;
        queue_serial = suc w.queue_serial;
      }

      grown_sound : IsSound C Q o grown
      grown_sound = record { options = s.options; session = s.session; attended = s.attended }

      fits :
          leb (to_size w.opts.max_queue_items) (size w.queue) ≡ false
          → size (enqueue w.queue (next_item C Q w text ms)).0 ≤ limit
      fits room = ground (
        arith,
        limits,
        size-enqueue C Q w.queue (next_item C Q w text ms),
        ap (λ (p : CoordinatorOptions). to_size p.max_queue_items) s.options,
      )

  module _ (fuel : ℕ) (next : Coordinator C Q → Option (Coordinator C Q))
      (flushes : FlushesBelow C Q o fuel next) where
    finish_direct-Settles :
        (w : Coordinator C Q) (text : Text) (on_done : Option ℕ) (ms : ℤ) (ok : Bool) (error : Text)
        → IsSound C Q o w
        → HasFuel C Q o fuel next flushes w
        → size w.queue ≤ limit
        → SettlesWithin (finish_direct C Q next w text on_done ms ok error)
    unfolding finish_direct
    finish_direct-Settles w text on_done ms true error s has_fuel le =
        let (w', e, s', le', below) = set_online_up C Q o fuel next flushes w s has_fuel in
        rw e (told w' on_done true [] s' (omega arith))
    finish_direct-Settles w text on_done ms false error s has_fuel le =
        let (w', e, a, q, f, p) = set_online_down C Q o fuel next flushes w in
        elim (Bool-cases (is_queueable_llm_error error)) [
          | inl retry ↦
              rw (retry, e)
                (enqueue_and_report-Settles (rollback C Q w') text ms on_done
                  (rollback-IsSound C Q o w' (IsSound-same C Q o w w' a f p s))
                  (omega (arith, ap size q)))
          | inr fatal ↦
              rw fatal (told (rollback C Q w) on_done false error (rollback-IsSound C Q o w s) le)
        ]

    after_agent-Settles :
        (w : Coordinator C Q) (ms : ℤ) (before : List (InFlight C Callback)) (k : Callback)
        (r : Agent C Callback × Outcome C Callback)
        → IsAnswer C before k r
        → w.opts ≡ o
        → (w.flushing ≡ true → is_flush k ≡ false → has_flush C before ≡ true)
        → HasFuel C Q o fuel next flushes w
        → size w.queue ≤ limit
        → SettlesWithin (after_agent C Q next w ms r)
    unfolding after_agent
    after_agent-Settles w ms before k (a, waiting) s opts calm has_fuel le =
        let (f, e, d) = s.answers in
        (
          record w { agent = a },
          refl,
          record {
            options = opts;
            session = s.sound;
            attended =
                λ flushing. rw (e, has_flush-append C before f, d) (attends k (calm flushing));
          },
          le,
        )
      where
        attends :
            (k : Callback)
            → (is_flush k ≡ false → has_flush C before ≡ true)
            → (has_flush C before || is_flush k) ≡ true
        attends (direct _ _) h = rw (h refl) refl
        attends flush_item h = ground arith
    after_agent-Settles w ms before k (a, finished (direct text cb) ok error) s opts calm has_fuel
          le =
        finish_direct-Settles (record w { agent = a }) text cb ms ok error
          (record {
            options = opts;
            session = s.sound;
            attended = λ flushing. rw s.answers.0 (calm flushing (rw (← s.answers.1) refl));
          })
          has_fuel le
    after_agent-Settles w ms before k (a, finished flush_item ok error) s opts calm has_fuel le =
        Settles-mono C Q o (size w.queue) limit _ le (
          finish_flush_item-Settles C Q o fuel next flushes (record w { agent = a }) ok error opts
            s.sound has_fuel)
    after_agent-Settles w ms before k (a, out_of_fuel) s opts calm has_fuel le = absurd s.answers

  module _ (w : Coordinator C Q) (now : Text) (ms : ℤ) (s : IsSound C Q o w)
      (le : size w.queue ≤ limit) where
    has_fuel :
        HasFuel C Q o
          (fuel_for C Q w)
          (try_flush C Q now ms (fuel_for C Q w))
          (try_flush-Settles C Q o now ms (fuel_for C Q w))
          w
    has_fuel = omega (arith, rank-le-one C Q o w.monitor.state)

    -- A message of the user is answered or on its way, or it is in the queue.
    pub submit-Settles :
        (text : Text) (on_text on_done : Option ℕ)
        → SettlesWithin (submit C Q w now ms text on_text on_done)
    unfolding submit
    submit-Settles text on_text on_done =
        if-intro SettlesWithin (not (is_online w.monitor))
          (enqueue_and_report-Settles w text ms on_done s le)
          (if-intro SettlesWithin w.flushing (enqueue_and_report-Settles w text ms on_done s le) (
            after_agent-Settles (fuel_for C Q w) (try_flush C Q now ms (fuel_for C Q w))
              (try_flush-Settles C Q o now ms (fuel_for C Q w)) w ms w.agent.in_flight
              (direct text on_done) _
              (submit_user_message-IsAnswer C w.agent now text on_text (direct text on_done) false
                s.session)
              s.options (λ flushing _. s.attended flushing) has_fuel le))

    pub request_ended-Settles :
        (i : ℕ) (code : ℤ) (body err : Text)
        → SettlesWithin (request_ended C Q w now ms i code body err)
    unfolding request_ended respond
    request_ended-Settles i code body err =
        elim (Option-cases (request_at C Callback w.agent.in_flight i)) [
          | inl e ↦ rw (e, respond) (w, refl, s, le)
          | inr (f, e) ↦ ended f e
        ]
      where
        ended :
            (f : InFlight C Callback)
            → request_at C Callback w.agent.in_flight i ≡ some f
            → SettlesWithin (request_ended C Q w now ms i code body err)
        ended f e =
            let (r, e', ends) = respond-Ends C Callback w.agent i code body err f s.session e in
            rw e' (
              after_agent-Settles (fuel_for C Q w) (try_flush C Q now ms (fuel_for C Q w))
                (try_flush-Settles C Q o now ms (fuel_for C Q w)) w ms
                (without C Callback i w.agent.in_flight) f.turn.on_done r
                (Ends-IsAnswer C w.agent (without C Callback i w.agent.in_flight)
                  w.agent.turn_active f.turn.on_text f.turn.on_done r ends)
                s.options
                (λ flushing other.
                  rw (has_flush-without C i w.agent.in_flight f e other) (s.attended flushing))
                has_fuel le)
