-- ===== src/Connectivity/Probe.antt =====
-- The states of EaConnectivityMonitor under its calls and events
-- (src/ea_connectivity_monitor.cpp).
use embed_agent.Base.{
  ℕ, suc, ◌≡◌, ◌≢◌, ◌<◌, ◌↔◌, Bool, true, false, not, ◌&&◌, some, Text, ℤ, pos, leb_ℤ, is_empty,
  arith,
}
use embed_agent.Connectivity.{
  unknown, Monitor, create, is_online, transition_to, set_online, run_probe, stop_probe,
  start_probe, probe_done, set_transition_callback,
}

-- What happens to a monitor: calls of its methods, a tick of its timer, the end of a request.
pub data Event (m : Monitor) : Monitor → Type 0 where
  sets_online : (up : Bool) → Event m (set_online m up).0
  registers : Event m (set_transition_callback m)
  starts : (url : Text) → Event m (start_probe m url)
  stops : Event m (stop_probe m)
  ticks : m.probe_timer ≡ true → Event m (run_probe m)
  responds :
      {n : ℕ} (code : ℤ) (err : Text)
      → m.requests ≡ suc n
      → Event m (probe_done (record m { requests = n }) code err).0

pub data Reach (m : Monitor) : Monitor → Type 0 where
  here : Reach m m
  next : {k l : Monitor} → Reach m k → Event k l → Reach m l

-- A request that the flag records is on its way, and a timer runs only for a URL.
pub record IsConsistent (m : Monitor) : Type 0 where
  pub recorded : m.probe_in_flight ≡ true → 0 < m.requests
  pub addressed : m.probe_timer ≡ true → is_empty m.probe_url ≡ false

abbrev IsKnown : Monitor → Type 0
IsKnown m = m.state ≢ unknown

Event-IsConsistent : {m k : Monitor} → Event m k → IsConsistent m → IsConsistent k
unfolding set_online run_probe stop_probe start_probe probe_done transition_to
Event-IsConsistent (sets_online up) c = ground (arith, c.recorded, c.addressed)
Event-IsConsistent registers c = ground (arith, c.recorded, c.addressed)
Event-IsConsistent (starts url) c = ground (arith, c.recorded, c.addressed)
Event-IsConsistent stops c = ground (arith, c.recorded, c.addressed)
Event-IsConsistent (ticks on) c = ground (arith, c.recorded, c.addressed)
Event-IsConsistent (responds code err some_request) c = ground (arith, c.recorded, c.addressed)

Event-known : {m k : Monitor} → Event m k → m.state ≢ unknown → k.state ≢ unknown
unfolding set_online run_probe stop_probe start_probe probe_done transition_to
Event-known (sets_online up) h = ground arith
Event-known registers h = h
Event-known (starts url) h = ground arith
Event-known stops h = h
Event-known (ticks on) h = ground arith
Event-known (responds code err some_request) h = ground arith

create-IsConsistent : IsConsistent create
unfolding create
create-IsConsistent = record { recorded = λ e. cc; addressed = λ e. cc }

-- In every state that a new monitor can reach, probeInFlight_ is set only while a request of the
-- probe is on its way, and the probe's timer runs only with a URL.
pub Reach-IsConsistent : {m : Monitor} → Reach create m → IsConsistent m
Reach-IsConsistent here = create-IsConsistent
Reach-IsConsistent (next r e) = Event-IsConsistent e (Reach-IsConsistent r)

-- Once the state is known it stays known.
Reach-known : {m k : Monitor} → m.state ≢ unknown → Reach m k → k.state ≢ unknown
Reach-known h here = h
Reach-known h (next r e) = Event-known e (Reach-known h r)

-- A finished probe leaves the monitor online exactly where the request had no error and its code
-- is from 200 to 399, offline otherwise, and calls the registered callback exactly where this is a
-- change, with the new state.
probe_done_lem :
    (m : Monitor) (code : ℤ) (err : Text)
    → let r = probe_done m code err in
      (is_online r.0 ≡ (is_empty err && leb_ℤ (pos 200) code && not (leb_ℤ (pos 400) code)))
      × (r.0.state ≢ unknown)
      × (r.0.probe_in_flight ≡ false)
      × ((r.1 ≡ some r.0.state) ↔ ((m.has_callback ≡ true) × (r.0.state ≢ m.state)))
unfolding probe_done transition_to is_online
probe_done_lem m code err =
    (ground arith, ground arith, ground arith, (λ e. ground arith, λ e. ground arith))
