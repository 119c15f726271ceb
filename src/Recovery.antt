-- ===== src/Recovery.antt =====
-- connection/network_recovery_handler.rs and connection/constants.rs: recovery from network errors
-- by delayed network changes with an exponential backoff. A `Duration` and an `Instant` of the
-- monotonic clock are numbers of nanoseconds.
pub mod Backoff
pub mod Timing
use protun.Base.{
  ℕ, ◌+◌, ◌-◌, ◌*◌, Bool, true, false, ◌&&◌, Option, none, some, List, [], ◌∷◌, min, leb, ltb,
  if◌then◌else◌,
}
use protun.Io.{ErrorKind, IoError, network_down, network_unreachable}
use protun.Api.Config.{ConnectivityEvent, up, down, network_switch}

-- One second.
abbrev pub initial_delayed_network_change_duration : ℕ
initial_delayed_network_change_duration = 1_000_000_000

-- The build for Android waits longer: 30 seconds, where the others wait 10.
abbrev pub max_delayed_network_change_duration : Bool → ℕ
max_delayed_network_change_duration true = 30_000_000_000
max_delayed_network_change_duration false = 10_000_000_000

pub record NetworkRecoveryHandler : Type 0 where
  pub send_delayed_network_change_at : Option ℕ
  pub delayed_network_change_duration : ℕ
  pub network_available : Bool
  pub initial_duration : ℕ
  pub max_duration : ℕ

pub new_with : Bool → ℕ → ℕ → NetworkRecoveryHandler
new_with network_available initial max = record {
  send_delayed_network_change_at = none;
  delayed_network_change_duration = initial;
  network_available = network_available;
  initial_duration = initial;
  max_duration = max;
}

unfoldable pub new : Bool → Bool → NetworkRecoveryHandler
unfolding new_with
new android network_available =
    new_with network_available initial_delayed_network_change_duration
      (max_delayed_network_change_duration android)

-- The result says whether the callback `notify_network_change` was called.
unfoldable pub on_resumed : NetworkRecoveryHandler → ℕ → NetworkRecoveryHandler × Bool
on_resumed h now = elim h.send_delayed_network_change_at [
  | none ↦ (h, false)
  | some notify_at ↦
      if h.network_available && leb notify_at now
      then (
        record h {
          send_delayed_network_change_at = none;
          delayed_network_change_duration =
              min (h.delayed_network_change_duration * 2) h.max_duration;
        },
        true,
      )
      else (h, false)
]

-- How long the poll may sleep before the next delayed network change is due.
unfoldable pub wakeup_delay : NetworkRecoveryHandler → ℕ → Option ℕ
wakeup_delay h now = elim h.send_delayed_network_change_at [
  | none ↦ none
  | some notify_at ↦
      if h.network_available then some (if ltb now notify_at then notify_at - now else 0) else none
]

unfoldable pub on_successful_socket_open : NetworkRecoveryHandler → NetworkRecoveryHandler
on_successful_socket_open h = record h { send_delayed_network_change_at = none }

unfoldable pub on_connected : NetworkRecoveryHandler → NetworkRecoveryHandler
on_connected h = record h {
  send_delayed_network_change_at = none;
  delayed_network_change_duration = h.initial_duration;
}

-- The network is available after every event but `down`.
abbrev pub is_up : ConnectivityEvent → Bool
is_up up = true
is_up network_switch = true
is_up down = false

unfoldable pub on_connectivity_change :
    NetworkRecoveryHandler → ConnectivityEvent → NetworkRecoveryHandler
on_connectivity_change h event = record h {
  send_delayed_network_change_at = none;
  delayed_network_change_duration = h.initial_duration;
  network_available = is_up event;
}

abbrev pub is_network_error : ErrorKind → Bool
is_network_error network_unreachable = true
is_network_error network_down = true
is_network_error _ = false

unfoldable pub on_stream_error : NetworkRecoveryHandler → IoError → ℕ → NetworkRecoveryHandler
on_stream_error h e now =
    if h.network_available
    then if is_network_error e.kind
      then record h {
        send_delayed_network_change_at = some (now + h.delayed_network_change_duration);
      }
      else h
    else h

-- What the connection loop does to the handler, with the time at which it does it.
pub data Call : Type 0 where
  resumed : ℕ → Call
  socket_opened : Call
  connected : Call
  connectivity_changed : ConnectivityEvent → Call
  stream_failed : IoError → ℕ → Call

unfoldable pub step : NetworkRecoveryHandler → Call → NetworkRecoveryHandler
unfolding on_resumed on_successful_socket_open on_connected on_connectivity_change on_stream_error
step h (resumed now) = (on_resumed h now).0
step h socket_opened = on_successful_socket_open h
step h connected = on_connected h
step h (connectivity_changed event) = on_connectivity_change h event
step h (stream_failed e now) = on_stream_error h e now

unfoldable pub run : NetworkRecoveryHandler → List Call → NetworkRecoveryHandler
unfolding step
run h [] = h
run h (c ∷ cs) = run (step h c) cs
