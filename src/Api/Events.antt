-- ===== src/Api/Events.antt =====
-- api/events.rs: the events that the library delivers. Durations are numbers of nanoseconds, and
-- the estimated loss, an f32 that the crate only copies, is its bit pattern.
use protun.Base.{ℕ, Bool, true, false, Option}
use protun.Base.Int.{ℤ}
use protun.Api.Config.{PcapFileInfo}

pub data LocalAgentSettingType : Type 0 where
  netshield_level bouncing port_forwarding split_tcp safe_mode random_nat : LocalAgentSettingType

pub data ErrorEvent : Type 0 where
  api_session_expired : ErrorEvent
  local_agent_setting_policy_refused : LocalAgentSettingType → ErrorEvent
  certificate_refresh_fatal_error : ErrorEvent

pub data CaptureStopReason : Type 0 where
  request max_size_reached disconnected : PcapFileInfo → CaptureStopReason
  already_stopped : CaptureStopReason

pub record ConnectionStats : Type 0 where
  pub timestamp_ms : ℤ
  pub received_bytes : ℕ
  pub sent_bytes : ℕ
  pub time_since_last_handshake : ℕ
  pub estimated_loss : ℕ
  pub estimated_round_trip_time : ℕ

pub record LocalAgentStats : Type 0 where
  pub bytes_received : Option ℕ
  pub bytes_sent : Option ℕ
  pub malicious_blocked : Option ℕ
  pub ads_blocked : Option ℕ
  pub trackers_blocked : Option ℕ
  pub adult_content_blocked : Option ℕ
  pub data_saved : Option ℕ

pub data Event : Type 0 where
  connection_stats : ConnectionStats → Event
  packet_capture_started : PcapFileInfo → Event
  packet_capture_stopped : CaptureStopReason → Event
  local_agent_stats : LocalAgentStats → Event
  error : ErrorEvent → Event

-- The events about packet captures.
abbrev pub is_capture : Event → Bool
is_capture (packet_capture_started info) = true
is_capture (packet_capture_stopped reason) = true
is_capture _ = false
