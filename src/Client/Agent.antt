-- ===== src/Client/Agent.antt =====
-- The local agent's messages, errors, values, actions and settings of `pvpnclient`: the constructors
-- that connection/local_agent_handler.rs and api/type_conversions.rs name. A set of jails is a list.
use protun.Base.{ℕ, Bool, String, Option, List}
use protun.Client.Tunnel.{VpnProtocol}

pub data NetshieldLevel : Type 0 where
  none malware_filter ads_and_malware_filter adult_and_ads_and_malware_filter : NetshieldLevel

pub data Restriction : Type 0 where
  streaming torrent : String → Restriction
  other : String → String → Restriction

pub data HandledJail : Type 0 where
  system_error expired_certificate revoked_certificate key_already_used : String → HandledJail
  invalid_certificate_signature : String → HandledJail

pub data ToHandleJail : Type 0 where
  require_recent_2fa expired_2fa require_2fa waiting_client_challenge_reply : String → ToHandleJail
  policy_violation_1 policy_violation_2 bad_user_behavior disabled_user : String → ToHandleJail
  session_over_limit free_session_over_limit basic_session_over_limit : String → ToHandleJail
  plus_session_over_limit visionary_session_over_limit : String → ToHandleJail
  pro_session_over_limit guest_session restricted_server : String → ToHandleJail
  no_certificate_provided session_installation_in_progress : String → ToHandleJail
  unknown : ℕ → String → ToHandleJail

pub data Jail : Type 0 where
  internally_handled : HandledJail → Jail
  to_handle : ToHandleJail → Jail

-- `other` is a value that the crate does not recognise.
pub data LocalAgentValue : Type 0 where
  info_established : Option ℕ → LocalAgentValue
  info_groups : Option (List String) → LocalAgentValue
  info_platform info_remote other : LocalAgentValue
  info_remote_real info_remote_real_location_code settings_label : Option String → LocalAgentValue
  info_exit_ipv4 info_exit_ipv6 : Option ℕ → LocalAgentValue
  restrictions : Option (List Restriction) → LocalAgentValue
  settings_circumvention_routing settings_port_forwarding : Option Bool → LocalAgentValue
  settings_random_nat settings_softjail settings_split_tcp : Option Bool → LocalAgentValue
  settings_netshield_level : Option NetshieldLevel → LocalAgentValue
  stats_bytes_received stats_bytes_sent : Option ℕ → LocalAgentValue
  stats_netshield_block_count_malicious stats_netshield_block_count_ads : Option ℕ → LocalAgentValue
  stats_netshield_block_count_tracking : Option ℕ → LocalAgentValue
  stats_netshield_block_count_adult : Option ℕ → LocalAgentValue
  jails : Option (List Jail) → LocalAgentValue

pub data LocalAgentServerError : Type 0 where
  unknown_feature_request bad_message_syntax session_not_found : LocalAgentServerError
  session_error unknown_field : LocalAgentServerError
  netshield_level_policy_refused bouncing_policy_refused : LocalAgentServerError
  port_fw_policy_refused split_tcp_policy_refused : LocalAgentServerError
  safe_mode_policy_refused random_nat_policy_refused : LocalAgentServerError
  netshield_level_system_err netshield_level_invalid_input : LocalAgentServerError
  bouncing_system_err bouncing_invalid_input port_fw_system_err : LocalAgentServerError
  port_fw_invalid_input port_fw_not_available random_nat_system_err : LocalAgentServerError
  random_nat_invalid_input split_tcp_system_err split_tcp_invalid_input : LocalAgentServerError
  soft_jail_system_err soft_jail_invalid_input safe_mode_system_err : LocalAgentServerError
  safe_mode_invalid_input conflict_bouncing_vs_random_nat : LocalAgentServerError
  conflict_bouncing_vs_split_tcp conflict_bouncing_vs_port_fw : LocalAgentServerError
  other : String → LocalAgentServerError

pub data LocalAgentError : Type 0 where
  muon_auth muon_error_on_cert_refresh : String → LocalAgentError
  too_many_tries_on_cert_refresh : LocalAgentError
  server_error : LocalAgentServerError → LocalAgentError

pub data LocalAgentMessage : Type 0 where
  value : LocalAgentValue → LocalAgentMessage
  error : LocalAgentError → LocalAgentMessage
  muon_fork_selector_needed local_agent_connected : LocalAgentMessage

pub data LocalAgentSelector : Type 0 where
  info_established info_groups info_remote restrictions : LocalAgentSelector
  settings_circumvention_routing settings_label settings_netshield_level : LocalAgentSelector
  settings_port_forwarding settings_random_nat settings_softjail : LocalAgentSelector
  settings_split_tcp jails stats_bytes_sent stats_bytes_received : LocalAgentSelector
  stats_netshield_block_count_ads stats_netshield_block_count_malicious : LocalAgentSelector
  stats_netshield_block_count_tracking stats_netshield_block_count_adult : LocalAgentSelector

pub data LocalAgentAction : Type 0 where
  watch get : LocalAgentSelector → LocalAgentAction
  provide_auth_fork_selector : String → List (String × String) → LocalAgentAction

pub record SessionSettings : Type 0 where
  pub split_tcp : Option Bool
  pub netshield_level : Option NetshieldLevel
  pub softjail : Option Bool
  pub port_forwarding : Option Bool
  pub random_nat : Option Bool
  pub circumvention_routing : Option Bool

pub record Settings : Type 0 where
  pub authorized_protocols : List VpnProtocol
  pub session_settings : SessionSettings
