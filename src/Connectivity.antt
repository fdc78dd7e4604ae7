-- ===== src/Connectivity.antt =====
-- EaConnectivityMonitor (src/ea_connectivity_monitor.cpp).
pub mod Probe
use embed_agent.Base.{
  ℕ, zero, suc, ◌+◌, ◌≡◌, refl, Bool, true, false, not, ◌&&◌, ◌||◌, List, [], ◌∷◌, ◌++◌, Option,
  none, some, Text, ℤ, pos, negsuc, leb_ℤ, is_empty, if◌then◌else◌,
}

-- EaConnectivityState.
pub data ConnectivityState : Type 0 where
  online offline unknown : ConnectivityState

abbrev pub state_eq : ConnectivityState → ConnectivityState → Bool
state_eq online online = true
state_eq offline offline = true
state_eq unknown unknown = true
state_eq _ _ = false

-- `timers` counts the timers of the event loop that call runProbe, `requests` the GET requests of
-- the probe that are on their way.
pub record Monitor : Type 0 where
  pub state : ConnectivityState
  pub has_callback : Bool
  pub probe_url : Text
  pub probe_timer : Bool
  pub probe_in_flight : Bool
  pub requests : ℕ

unfoldable pub create : Monitor
create = record {
  state = unknown;
  has_callback = false;
  probe_url = [];
  probe_timer = false;
  probe_in_flight = false;
  requests = 0;
}

unfoldable pub is_online : Monitor → Bool
is_online m = not (state_eq m.state offline)

abbrev pub set_transition_callback : Monitor → Monitor
set_transition_callback m = record m { has_callback = true }

-- The new monitor, and the argument of the callback where it is called.
unfoldable pub transition_to : Monitor → ConnectivityState → Monitor × Option ConnectivityState
transition_to m state =
    if state_eq m.state state
    then (m, none)
    else (record m { state = state }, if m.has_callback then some state else none)

unfoldable pub set_online : Monitor → Bool → Monitor × Option ConnectivityState
unfolding transition_to
set_online m up = transition_to m (if up then online else offline)

unfoldable pub run_probe : Monitor → Monitor
run_probe m =
    if is_empty m.probe_url || m.probe_in_flight
    then m
    else record m { probe_in_flight = true; requests = suc m.requests }

unfoldable pub stop_probe : Monitor → Monitor
stop_probe m = record m { probe_timer = false; probe_in_flight = false }

-- The interval only sets the period of the timer.
unfoldable pub start_probe : Monitor → Text → Monitor
unfolding run_probe stop_probe
start_probe m url =
    let stopped = record (stop_probe m) { probe_url = url } in
    if is_empty url then stopped else run_probe (record stopped { probe_timer = true })

-- The callback of the probe's request, with its HTTP code and its error text.
unfoldable pub probe_done : Monitor → ℤ → Text → Monitor × Option ConnectivityState
unfolding transition_to
probe_done m code err =
    let m' = record m { probe_in_flight = false } in
    if not (is_empty err) || not (leb_ℤ (pos 200) code) || leb_ℤ (pos 400) code
    then transition_to m' offline
    else transition_to m' online
