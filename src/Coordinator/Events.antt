-- ===== src/Coordinator/Events.antt =====
-- Every sequence of events of EaQueueCoordinator (src/ea_queue_coordinator.cpp).
use embed_agent.Base.{
  ℕ, ◌≡◌, ◌≤◌, refl, inl, inr, Bool, true, false, List, [], ◌∷◌, Option, none, some, Text, ℤ, arith,
  Option-cases, to_size, ap,
}
use embed_agent.Cppev.{ChatCodec}
use embed_agent.OfflineQueue.{OfflineQueue}
use embed_agent.Agent
use embed_agent.Agent.{Agent, InFlight, request_at, replace, receive, receive_pending}
use embed_agent.Llm.Client.{Pending, whole, streaming, on_chunk}
use embed_agent.Coordinator.{
  Coordinator, CoordinatorOptions, Callback, submit, flush, cancel, network_changed, request_ended,
  chunk_received, after_chunk, try_flush, fuel_for,
}
use embed_agent.Coordinator.Invariant.{has_flush-replace, IsSound}
use embed_agent.Coordinator.Settling.{Settles, Settles-mono, IsSound-same, rank-le-one}
use embed_agent.Coordinator.Flushing.{set_online_up, set_online_down, try_flush-Settles}
use embed_agent.Coordinator.Submit.{submit-Settles, request_ended-Settles}

-- What reaches a coordinator from outside: calls of its methods, a change of the network, a chunk
-- of a stream and the end of a request.
pub data Event : Type 0 where
  submits : Text → Option ℕ → Option ℕ → Event
  flushes : Option ℕ → Option ℕ → Event
  cancels : Event
  network : Bool → Event
  chunk : ℕ → Text → Event
  ends : ℕ → ℤ → Text → Text → Event

module _ (C : ChatCodec) (Q : OfflineQueue) where
  open Q use {size}

  -- An event at a time; `none` means that a loop ran out of fuel.
  unfoldable pub step : Coordinator C Q → Text × ℤ × Event → Option (Coordinator C Q)
  step w (now, ms, submits text on_text on_done) = submit C Q w now ms text on_text on_done
  step w (now, ms, flushes on_text on_done) = flush C Q w now ms on_text on_done
  step w (now, ms, cancels) = some (cancel C Q w)
  step w (now, ms, network up) = network_changed C Q w now ms up
  step w (now, ms, chunk i c) = some (chunk_received C Q w i c)
  step w (now, ms, ends i code body err) = request_ended C Q w now ms i code body err

  unfoldable pub run : Coordinator C Q → List (Text × ℤ × Event) → Option (Coordinator C Q)
  run w [] = some w
  run w (e ∷ es) = elim (step w e) [ none ↦ none | some w' ↦ run w' es ]

  pub run_one :
      (w v : Coordinator C Q) (e : Text × ℤ × Event) (es : List (Text × ℤ × Event))
      → step w e ≡ some v
      → run w (e ∷ es) ≡ run v es
  unfolding run
  run_one w v e es stepped = rw (run, stepped) refl

module _ (C : ChatCodec) (Q : OfflineQueue) (o : CoordinatorOptions) (limit : ℕ)
    (limits : to_size o.max_queue_items ≤ limit) where
  open Q use {size}

  flush-Settles :
      (w : Coordinator C Q) (now : Text) (ms : ℤ) (on_text on_done : Option ℕ)
      → IsSound C Q o w
      → size w.queue ≤ limit
      → Settles C Q o limit (flush C Q w now ms on_text on_done)
  unfolding flush
  flush-Settles w now ms on_text _ s le = Settles-mono C Q o (size w.queue) limit _ le (
      try_flush-Settles C Q o now ms (fuel_for C Q w) _
        (record { options = s.options; session = s.session; attended = s.attended })
        (omega (arith, rank-le-one C Q o w.monitor.state)))

  network_changed-Settles :
      (w : Coordinator C Q) (now : Text) (ms : ℤ) (up : Bool)
      → IsSound C Q o w
      → size w.queue ≤ limit
      → Settles C Q o limit (network_changed C Q w now ms up)
  unfolding network_changed
  network_changed-Settles w now ms true s le =
      let (w', e, s', le', _) =
        set_online_up C Q o (fuel_for C Q w) (try_flush C Q now ms (fuel_for C Q w))
          (try_flush-Settles C Q o now ms (fuel_for C Q w)) w s
          (omega (arith, rank-le-one C Q o w.monitor.state)) in
      (w', e, s', omega arith)
  network_changed-Settles w now ms false s le =
      let (w', e, a, q, f, p) =
        set_online_down C Q o (fuel_for C Q w) (try_flush C Q now ms (fuel_for C Q w))
          (try_flush-Settles C Q o now ms (fuel_for C Q w)) w in
      (w', e, IsSound-same C Q o w w' a f p s, omega (arith, ap size q))

  chunk_pending-Settles :
      (w : Coordinator C Q) (i : ℕ) (c : Text) (f : InFlight C Callback) (p : Pending C)
      → request_at C Callback w.agent.in_flight i ≡ some f
      → IsSound C Q o w
      → size w.queue ≤ limit
      → Settles C Q o limit
          (some (after_chunk C Q w (receive_pending C Callback w.agent i c f.turn p)))
  unfolding receive_pending
  chunk_pending-Settles w i c f whole here s le = (w, refl, s, le)
  chunk_pending-Settles w i c f (streaming ctx) here s le = (
    _,
    refl,
    record {
      options = s.options;
      session = s.session;
      attended = λ flushing.
          rw
            (has_flush-replace C i w.agent.in_flight f
              (record { turn = f.turn; pending = streaming (on_chunk C ctx c).0 }) here refl)
            (s.attended flushing);
    },
    le,
  )

  chunk_received-Settles :
      (w : Coordinator C Q) (i : ℕ) (c : Text)
      → IsSound C Q o w
      → size w.queue ≤ limit
      → Settles C Q o limit (some (chunk_received C Q w i c))
  unfolding chunk_received receive
  chunk_received-Settles w i c s le =
      elim (Option-cases (request_at C Callback w.agent.in_flight i)) [
        | inl e ↦ rw (e, receive) (w, refl, s, le)
        | inr (f, e) ↦ rw (e, receive) (chunk_pending-Settles w i c f f.pending e s le)
      ]

  step-Settles :
      (w : Coordinator C Q) (e : Text × ℤ × Event)
      → IsSound C Q o w
      → size w.queue ≤ limit
      → Settles C Q o limit (step C Q w e)
  unfolding step cancel Agent.cancel
  step-Settles w (now, ms, submits text on_text on_done) s le =
      submit-Settles C Q o limit limits w now ms s le text on_text on_done
  step-Settles w (now, ms, flushes on_text on_done) s le =
      flush-Settles w now ms on_text on_done s le
  step-Settles w (now, ms, cancels) s le =
      (_, refl, record { options = s.options; session = s.session; attended = λ e. cc }, le)
  step-Settles w (now, ms, network up) s le = network_changed-Settles w now ms up s le
  step-Settles w (now, ms, chunk i c) s le = chunk_received-Settles w i c s le
  step-Settles w (now, ms, ends i code body err) s le =
      request_ended-Settles C Q o limit limits w now ms s le i code body err

  -- From a sound coordinator with no more items than the limit allows, every sequence of events is
  -- worked off, each loop ending within its fuel, and leads to a sound coordinator (the session
  -- well-formed, a request on its way for every flush) with no more items than the limit allows.
  pub run-Settles :
      (w : Coordinator C Q) (es : List (Text × ℤ × Event))
      → IsSound C Q o w
      → size w.queue ≤ limit
      → Settles C Q o limit (run C Q w es)
  unfolding run
  run-Settles w [] s le = (w, refl, s, le)
  run-Settles w (e ∷ es) s le =
      let (w', q, s', le') = step-Settles w e s le in rw (q, run) (run-Settles w' es s' le')
