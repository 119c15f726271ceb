-- ===== src/Agent.antt =====
-- connection/local_agent_handler.rs: what the local agent says of the connection. The code that reads
-- no field of a value drops the value here too.
pub mod Stats
pub mod Jails
pub mod Reports
pub mod Collecting
pub mod Waiting
use mathlib.Core.Option
use protun.Base.{
  ℕ, Bool, true, false, not, Option, none, some, String, List, [], ◌∷◌, map, if◌then◌else◌, ite,
}
use protun.Io.{IpAddr, v4, v6}
use protun.Api.LocalAgent.{
  AgentConnectionInfo, LocalAgentSettings, WaitJailReason, Restriction, default_agent_info,
}
use protun.Api.State.{
  AgentConnectionWaitReason, ConnectionState, PeerConnectionInfo, PeerConnectionInfo-discrete,
  soft_jailed, hard_jailed, connected, connecting_to_local_agent,
}
use protun.Api.Events.{
  Event, ErrorEvent, LocalAgentSettingType, api_session_expired, local_agent_setting_policy_refused,
  certificate_refresh_fatal_error,
}
use protun.Client.Agent.{
  LocalAgentMessage, LocalAgentValue, LocalAgentError, LocalAgentServerError, LocalAgentSelector,
}
use protun.Client.Agent
use protun.Convert.{from_client_level, from_client_restriction}
use Stats.{StatsAccumulator, StatsField, no_stats, accumulate}
use Jails.{wait_jail_reasons}

pub record LocalAgentHandler : Type 0 where
  pub is_connected : Bool
  pub last_peer : Option PeerConnectionInfo
  pub agent_info : AgentConnectionInfo
  pub established_ts : Option ℕ
  pub exit_label : Option String
  pub jails : List WaitJailReason
  pub restrictions : List Restriction
  pub local_agent_stats : StatsAccumulator

unfoldable pub new : LocalAgentHandler
new = record {
  is_connected = false;
  last_peer = none;
  agent_info = default_agent_info;
  established_ts = none;
  exit_label = none;
  jails = [];
  restrictions = [];
  local_agent_stats = no_stats;
}

jail_reason : List WaitJailReason → Option AgentConnectionWaitReason
jail_reason [] = none
jail_reason (j ∷ js) = some (hard_jailed (j ∷ js))

wait_reason : Option Bool → List WaitJailReason → Option AgentConnectionWaitReason
unfolding jail_reason
wait_reason (some true) js = some soft_jailed
wait_reason (some false) js = jail_reason js
wait_reason none js = jail_reason js

unfoldable pub get_wait_reason : LocalAgentHandler → Option AgentConnectionWaitReason
unfolding wait_reason
get_wait_reason h = wait_reason h.agent_info.settings.soft_jail h.jails

unfoldable pub get_state : LocalAgentHandler → PeerConnectionInfo → ConnectionState
unfolding get_wait_reason
get_state h peer = elim (get_wait_reason h) [
  | some reason ↦ connecting_to_local_agent peer (some reason)
  | none ↦
      if h.is_connected
      then connected peer (some h.agent_info)
      else connecting_to_local_agent peer none
]

-- What is left of the handler when the peer is another one than before.
pub reset_for_new_peer : LocalAgentHandler → LocalAgentHandler
reset_for_new_peer h = record h {
  is_connected = false;
  established_ts = none;
  exit_label = none;
  agent_info = default_agent_info;
  jails = [];
}

check_peer : LocalAgentHandler → PeerConnectionInfo → Option PeerConnectionInfo → LocalAgentHandler
unfolding reset_for_new_peer
check_peer h peer none = h
check_peer h peer (some last_peer) =
    ite (PeerConnectionInfo-discrete peer last_peer) h (reset_for_new_peer h)

unfoldable pub on_connected_to_peer : LocalAgentHandler → PeerConnectionInfo → LocalAgentHandler
unfolding check_peer
on_connected_to_peer h peer = record (check_peer h peer h.last_peer) {
  last_peer = some peer;
  local_agent_stats = no_stats;
}

abbrev pub error_event : ErrorEvent → Option Event
error_event e = some (Event.error e)

abbrev pub policy_refused : LocalAgentSettingType → Option Event
policy_refused setting = error_event (local_agent_setting_policy_refused setting)

-- An error of the server is reported if it refuses a setting, and only logged otherwise.
pub handle_server_error : LocalAgentServerError → Option Event
handle_server_error LocalAgentServerError.netshield_level_policy_refused =
    policy_refused LocalAgentSettingType.netshield_level
handle_server_error LocalAgentServerError.bouncing_policy_refused =
    policy_refused LocalAgentSettingType.bouncing
handle_server_error LocalAgentServerError.port_fw_policy_refused =
    policy_refused LocalAgentSettingType.port_forwarding
handle_server_error LocalAgentServerError.split_tcp_policy_refused =
    policy_refused LocalAgentSettingType.split_tcp
handle_server_error LocalAgentServerError.safe_mode_policy_refused =
    policy_refused LocalAgentSettingType.safe_mode
handle_server_error LocalAgentServerError.random_nat_policy_refused =
    policy_refused LocalAgentSettingType.random_nat
handle_server_error _ = none

unfoldable pub handle_error : LocalAgentError → Option Event
unfolding handle_server_error
handle_error (LocalAgentError.muon_auth e) = error_event api_session_expired
handle_error (LocalAgentError.muon_error_on_cert_refresh e) =
    error_event certificate_refresh_fatal_error
handle_error LocalAgentError.too_many_tries_on_cert_refresh =
    error_event certificate_refresh_fatal_error
handle_error (LocalAgentError.server_error e) = handle_server_error e

handle_jails : LocalAgentHandler → Option (List Agent.Jail) → LocalAgentHandler
unfolding wait_jail_reasons
handle_jails h none = record h { jails = [] }
handle_jails h (some jails) = record h { jails = wait_jail_reasons jails }

abbrev on_info :
    LocalAgentHandler
    → (AgentConnectionInfo → AgentConnectionInfo)
    → LocalAgentHandler × Option Event
on_info h f = (record h { agent_info = f h.agent_info }, none)

abbrev on_settings :
    LocalAgentHandler → (LocalAgentSettings → LocalAgentSettings) → LocalAgentHandler × Option Event
on_settings h f = on_info h (λ i. record i { settings = f i.settings })

abbrev on_stats : LocalAgentHandler → StatsField → Option ℕ → LocalAgentHandler × Option Event
on_stats h field val =
    let (stats, event) = accumulate field val h.local_agent_stats in
    (record h { local_agent_stats = stats }, event)

pub handle_value : LocalAgentHandler → LocalAgentValue → LocalAgentHandler × Option Event
unfolding handle_jails accumulate
handle_value h (LocalAgentValue.info_established timestamp) =
    (record h { established_ts = timestamp }, none)
handle_value h (LocalAgentValue.info_groups value) =
    on_info h (λ i. record i { groups = Option.get_or value [] })
handle_value h (LocalAgentValue.info_remote_real address) =
    on_info h (λ i. record i { user_isp_ip = address })
handle_value h (LocalAgentValue.info_remote_real_location_code code) =
    on_info h (λ i. record i { user_isp_country_code = code })
handle_value h (LocalAgentValue.info_exit_ipv4 address) =
    on_info h (λ i. record i { server_exit_v4 = Option.map v4 address })
handle_value h (LocalAgentValue.info_exit_ipv6 address) =
    on_info h (λ i. record i { server_exit_v6 = Option.map v6 address })
handle_value h (LocalAgentValue.restrictions rs) =
    (record h { restrictions = map from_client_restriction (Option.get_or rs []) }, none)
handle_value h (LocalAgentValue.settings_circumvention_routing value) =
    on_settings h (λ s. record s { circumvention_routing = value })
handle_value h (LocalAgentValue.settings_label value) = (record h { exit_label = value }, none)
handle_value h (LocalAgentValue.settings_netshield_level value) =
    on_settings h (λ s. record s { netshield_level = Option.map from_client_level value })
handle_value h (LocalAgentValue.settings_port_forwarding value) =
    on_settings h (λ s. record s { port_forwarding = value })
handle_value h (LocalAgentValue.settings_random_nat value) =
    on_settings h (λ s. record s { random_nat = value })
handle_value h (LocalAgentValue.settings_softjail value) =
    on_settings h (λ s. record s { soft_jail = value })
handle_value h (LocalAgentValue.settings_split_tcp value) =
    on_settings h (λ s. record s { split_tcp = value })
handle_value h (LocalAgentValue.stats_bytes_received val) = on_stats h StatsField.bytes_received val
handle_value h (LocalAgentValue.stats_bytes_sent val) = on_stats h StatsField.bytes_sent val
handle_value h (LocalAgentValue.stats_netshield_block_count_malicious val) =
    on_stats h StatsField.malicious_blocked val
handle_value h (LocalAgentValue.stats_netshield_block_count_ads val) =
    on_stats h StatsField.ads_blocked val
handle_value h (LocalAgentValue.stats_netshield_block_count_tracking val) =
    on_stats h StatsField.trackers_blocked val
handle_value h (LocalAgentValue.stats_netshield_block_count_adult val) =
    on_stats h StatsField.adult_content_blocked val
handle_value h (LocalAgentValue.jails jails) = (handle_jails h jails, none)
handle_value h LocalAgentValue.info_platform = (h, none)
handle_value h LocalAgentValue.info_remote = (h, none)
handle_value h LocalAgentValue.other = (h, none)

unfoldable pub handle_message :
    LocalAgentHandler → LocalAgentMessage → LocalAgentHandler × Option Event
unfolding handle_value handle_error
handle_message h (LocalAgentMessage.value v) = handle_value h v
handle_message h (LocalAgentMessage.error e) = (h, handle_error e)
handle_message h LocalAgentMessage.muon_fork_selector_needed = (h, error_event api_session_expired)
handle_message h LocalAgentMessage.local_agent_connected = (record h { is_connected = true }, none)

abbrev pub local_agent_selectors_to_watch : List LocalAgentSelector
local_agent_selectors_to_watch =
    LocalAgentSelector.info_established ∷ LocalAgentSelector.info_groups
    ∷ LocalAgentSelector.info_remote ∷ LocalAgentSelector.restrictions
    ∷ LocalAgentSelector.settings_circumvention_routing ∷ LocalAgentSelector.settings_label
    ∷ LocalAgentSelector.settings_netshield_level ∷ LocalAgentSelector.settings_port_forwarding
    ∷ LocalAgentSelector.settings_random_nat ∷ LocalAgentSelector.settings_softjail
    ∷ LocalAgentSelector.settings_split_tcp ∷ LocalAgentSelector.jails ∷ []

-- What the connection loop does to the handler.
pub data Call : Type 0 where
  peer_connected : PeerConnectionInfo → Call
  message : LocalAgentMessage → Call

unfoldable pub step : LocalAgentHandler → Call → LocalAgentHandler
unfolding on_connected_to_peer handle_message
step h (peer_connected peer) = on_connected_to_peer h peer
step h (message m) = (handle_message h m).0

unfoldable pub run : LocalAgentHandler → List Call → LocalAgentHandler
unfolding step
run h [] = h
run h (c ∷ cs) = run (step h c) cs
