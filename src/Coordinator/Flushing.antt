-- ===== src/Coordinator/Flushing.antt =====
-- tryFlush and finishFlushItem of EaQueueCoordinator (src/ea_queue_coordinator.cpp) end, and keep
-- the invariant.
use embed_agent.Base.{
  ℕ, zero, suc, ◌+◌, ◌-◌, ◌≡◌, ◌≤◌, ◌<◌, refl, inl, inr, ap, Bool, true, false, not, ◌==◌, List, [],
  Option, none, some, Text, ℤ, arith, Bool-cases, if-intro,
}
use embed_agent.Cppev.{ChatCodec}
use embed_agent.Session.Prompt.{IsWellFormed}
use embed_agent.OfflineQueue.{OfflineQueue, QueuedItem}
use embed_agent.Connectivity.{
  Monitor, ConnectivityState, online, offline, unknown, transition_to, state_eq, is_online,
}
use embed_agent.Connectivity
use embed_agent.NetworkError.{is_queueable_llm_error}
use embed_agent.Agent.{Agent, Outcome, InFlight, waiting, finished, out_of_fuel}
use embed_agent.Coordinator.{
  Coordinator, CoordinatorOptions, Callback, direct, flush_item, drop_front, end_flush,
  on_connectivity_changed, set_online, finish_flush_item, after_agent, flush_front, flush_peeked,
  try_flush, flush_text,
}
use embed_agent.Coordinator.Invariant.{
  has_flush-append, IsAnswer, IsSound, submit_user_message-IsAnswer, size-remove_front,
}
use embed_agent.Coordinator.Settling.{
  rank, measure, Settles, FlushesBelow, rank-le-one, rank_other, Settles-mono, IsSound-same,
  end_flush-IsSound, end_flush-queue, drop_front-IsSound, postpone_item-Settles,
}

direct≢flush : {text : Text} {cb : Option ℕ} → direct text cb ≡ flush_item → ⊥
direct≢flush e = cc

module _ (C : ChatCodec) (Q : OfflineQueue) (o : CoordinatorOptions) where
  open Q use {State, peek, remove_front, size}

  module _ (fuel : ℕ) (next : Coordinator C Q → Option (Coordinator C Q))
      (flushes : FlushesBelow C Q o fuel next) where
    -- What finishFlushItem needs of the fuel at the start, and what its last call needs.
    abbrev pub HasFuel : Coordinator C Q → Type 0
    HasFuel w =
        (size w.queue + rank w.monitor.state ≤ fuel)
        × (size w.queue - 1 + rank w.monitor.state < fuel)

    abbrev Proceeds : Coordinator C Q → Option (Coordinator C Q) → Type 0
    Proceeds w r =
        (w' : Coordinator C Q) × (r ≡ some w')
        × IsSound C Q o w'
        × (size w'.queue ≤ size w.queue)
        × (size w'.queue - 1 + rank w'.monitor.state < fuel)

    nested-Proceeds :
        (w w1 : Coordinator C Q)
        → size w.queue < fuel
        → 1 < fuel
        → size w1.queue ≤ size w.queue
        → Settles C Q o (size w1.queue) (next w1)
        → Proceeds w (next w1)
    nested-Proceeds w w1 below one le (w2, e, s, le2) =
        (w2, e, s, omega arith, omega (arith, rank-le-one C Q o w2.monitor.state))

    -- A change to online may flush.
    pub set_online_up :
        (w : Coordinator C Q)
        → IsSound C Q o w
        → HasFuel w
        → Proceeds w (set_online C Q next w true)
    unfolding set_online on_connectivity_changed transition_to Connectivity.set_online
    set_online_up w s fuel_left = elim (Bool-cases (state_eq w.monitor.state online)) [
      | inl same ↦ rw same (w, refl, s, omega arith, fuel_left.1)
      | inr other ↦ rw other (
          if-intro (λ cb. Proceeds w (on_connectivity_changed C Q next up cb))
            w.monitor.has_callback
            (if-intro (Proceeds w) w.opts.auto_flush_on_online
              (nested-Proceeds w up (omega (arith, rank_other C Q o w.monitor.state other))
                (omega (arith, rank_other C Q o w.monitor.state other)) (omega arith)
                (flushes up up_sound (omega (arith, rank_other C Q o w.monitor.state other))))
              (up, refl, up_sound, omega arith, omega arith))
            (up, refl, up_sound, omega arith, omega arith))
    ]
      where
        up : Coordinator C Q
        up = record w { monitor = record w.monitor { state = online } }

        up_sound : IsSound C Q o up
        up_sound = record { options = s.options; session = s.session; attended = s.attended }

    -- A change to offline flushes nothing.
    pub set_online_down :
        (w : Coordinator C Q)
        → (w' : Coordinator C Q) × (set_online C Q next w false ≡ some w')
          × (w'.agent ≡ w.agent)
          × (w'.queue ≡ w.queue)
          × (w'.flushing ≡ w.flushing)
          × (w'.opts ≡ w.opts)
    unfolding set_online on_connectivity_changed transition_to Connectivity.set_online
    set_online_down w = elim (Bool-cases (state_eq w.monitor.state offline)) [
      | inl same ↦ rw same (w, refl, refl, refl, refl, refl)
      | inr other ↦ rw other (elim (Bool-cases w.monitor.has_callback) [
        | inl hears ↦ rw hears (_, refl, refl, refl, refl, refl)
        | inr deaf ↦ rw deaf (_, refl, refl, refl, refl, refl)
      ])
    ]

    dropped-Settles :
        (w : Coordinator C Q) (bound : ℕ)
        → IsSound C Q o w
        → size w.queue ≤ bound
        → size w.queue - 1 + rank w.monitor.state < fuel
        → Settles C Q o bound (next (drop_front C Q w))
    dropped-Settles w bound s le below =
        let (w', e, s', le') =
          flushes (drop_front C Q w) (drop_front-IsSound C Q o w s)
            (omega (arith, size-remove_front C Q w.queue)) in
        (w', e, s', omega (arith, size-remove_front C Q w.queue))

    pub finish_flush_item-Settles :
        (w : Coordinator C Q) (ok : Bool) (error : Text)
        → w.opts ≡ o
        → IsWellFormed w.agent.session
        → HasFuel w
        → Settles C Q o (size w.queue) (finish_flush_item C Q next w ok error)
    unfolding finish_flush_item
    finish_flush_item-Settles w true error opts sound has_fuel =
        let idle = record w { flushing = false } in
        let (w', e, s', le, below) =
          set_online_up idle (record { options = opts; session = sound; attended = λ h. cc })
            has_fuel in
        rw e (dropped-Settles w' (size w.queue) s' le below)
    finish_flush_item-Settles w false error opts sound has_fuel =
        let idle = record w { flushing = false } in
        let idle_sound : IsSound C Q o idle = record {
          options = opts;
          session = sound;
          attended = λ h. cc;
        } in
        let (w', e, a, q, f, p) = set_online_down idle in
        elim (Bool-cases (is_queueable_llm_error error)) [
          | inl retry ↦
              rw (retry, e)
                (Settles-mono C Q o (size w'.queue) (size w.queue) _ (omega (arith, ap size q)) (
                  postpone_item-Settles C Q o w' error
                    (IsSound-same C Q o idle w' a f p idle_sound)))
          | inr fatal ↦
              rw fatal (dropped-Settles idle (size w.queue) idle_sound (omega arith) has_fuel.1)
        ]

    after_flush-Settles :
        (w : Coordinator C Q) (ms : ℤ) (before : List (InFlight C Callback))
        (r : Agent C Callback × Outcome C Callback)
        → IsAnswer C before flush_item r
        → w.opts ≡ o
        → HasFuel w
        → Settles C Q o (size w.queue) (after_agent C Q next (record w { flushing = true }) ms r)
    unfolding after_agent
    after_flush-Settles w ms before (a, waiting) s opts has_fuel =
        let (f, e, d) = s.answers in
        (
          record w { agent = a; flushing = true },
          refl,
          record {
            options = opts;
            session = s.sound;
            attended = λ _. rw (e, has_flush-append C before f, d) (ground arith);
          },
          omega arith,
        )
    after_flush-Settles w ms before (a, finished (direct text cb) ok error) s opts has_fuel =
        absurd (direct≢flush s.answers.1)
    after_flush-Settles w ms before (a, finished flush_item ok error) s opts has_fuel =
        finish_flush_item-Settles (record w { agent = a; flushing = true }) ok error opts s.sound
          has_fuel
    after_flush-Settles w ms before (a, out_of_fuel) s opts has_fuel = absurd s.answers

    flush_front-Settles :
        (w : Coordinator C Q) (now : Text) (ms : ℤ) (item : QueuedItem)
        → IsSound C Q o w
        → HasFuel w
        → Settles C Q o (size w.queue) (flush_front C Q next w now ms item)
    unfolding flush_front
    flush_front-Settles w now ms item s has_fuel =
        if-intro (Settles C Q o (size w.queue)) _
          (dropped-Settles w (size w.queue) s (omega arith) has_fuel.1)
          (after_flush-Settles w ms w.agent.in_flight _
            (submit_user_message-IsAnswer C w.agent now item.user_text (flush_text C Q w.flush_ctx)
              flush_item false s.session)
            s.options has_fuel)

    flush_peeked-Settles :
        (w : Coordinator C Q) (now : Text) (ms : ℤ) (item : Option QueuedItem)
        → IsSound C Q o w
        → HasFuel w
        → Settles C Q o (size w.queue) (flush_peeked C Q next w now ms item)
    flush_peeked-Settles w now ms none s has_fuel = (w, refl, s, omega arith)
    flush_peeked-Settles w now ms (some item) s has_fuel =
        flush_front-Settles w now ms item s has_fuel

  -- With fuel above the number of queued items, and one more where the network is not known to be
  -- up, tryFlush comes to its end, in a sound state and with no more items than before.
  pub try_flush-Settles :
      (now : Text) (ms : ℤ) (fuel : ℕ) (w : Coordinator C Q)
      → IsSound C Q o w
      → measure C Q o w < fuel
      → Settles C Q o (size w.queue) (try_flush C Q now ms fuel w)
  unfolding try_flush
  try_flush-Settles now ms zero w s enough = elim enough [ ]
  try_flush-Settles now ms (suc fuel) w s enough =
      if-intro P (not (is_online w.monitor)) (w, refl, s, omega arith)
        (if-intro P w.flushing (w, refl, s, omega arith)
          (elim (Bool-cases (size w.queue == 0)) [
            | inl empty ↦ rw empty (
              end_flush C Q w w.flush_ctx true [],
              refl,
              end_flush-IsSound C Q o w w.flush_ctx true [] s,
              rw (end_flush-queue C Q o w w.flush_ctx true []) (omega arith),
            )
            | inr some_item ↦ rw some_item (
                flush_peeked-Settles fuel (try_flush C Q now ms fuel)
                  (try_flush-Settles now ms fuel) w now ms (peek w.queue true) s
                  (ground arith, ground arith))
          ]))
    where
      P : Option (Coordinator C Q) → Type 0
      P = Settles C Q o (size w.queue)
