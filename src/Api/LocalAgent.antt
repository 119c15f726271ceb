-- ===== src/Api/LocalAgent.antt =====
-- api/local_agent.rs: the local agent's settings and what it reports. A coordinate is the bit
-- pattern of its f64; no code of the crate sets or compares one.
use protun.Base.{ℕ, Bool, String, Option, List, [], ℕ_discrete, String_discrete}
use protun.Io.{IpAddr}

pub data NetshieldLevel : Type 0 where
  none malware_filter ads_and_malware_filter adult_and_ads_and_malware_filter : NetshieldLevel

pub record LocalAgentSettings : Type 0 where
  pub split_tcp : Option Bool
  pub netshield_level : Option NetshieldLevel
  pub soft_jail : Option Bool
  pub port_forwarding : Option Bool
  pub random_nat : Option Bool
  pub circumvention_routing : Option Bool

pub record Coordinates : Type 0 where
  pub latitude : ℕ
  pub longitude : ℕ

pub data WaitJailReason : Type 0 where
  bad_user_behavior disabled_user low_plan need_2fa pending_invoice : String → WaitJailReason
  session_over_limit waiting_client_challenge_reply internal : String → WaitJailReason
  other : ℕ → String → WaitJailReason

pub data Restriction : Type 0 where
  streaming torrent : String → Restriction
  other : String → String → Restriction

pub record AgentConnectionInfo : Type 0 where
  pub server_exit_v4 : Option IpAddr
  pub server_exit_v6 : Option IpAddr
  pub user_isp_ip : Option String
  pub user_isp_country_code : Option String
  pub user_isp_name : Option String
  pub user_isp_coordinates : Option Coordinates
  pub restrictions : List Restriction
  pub groups : List String
  pub settings : LocalAgentSettings

-- The derived `Default` of the two records.
abbrev pub default_settings : LocalAgentSettings
default_settings = record {
  split_tcp = Option.none;
  netshield_level = Option.none;
  soft_jail = Option.none;
  port_forwarding = Option.none;
  random_nat = Option.none;
  circumvention_routing = Option.none;
}

abbrev pub default_agent_info : AgentConnectionInfo
default_agent_info = record {
  server_exit_v4 = Option.none;
  server_exit_v6 = Option.none;
  user_isp_ip = Option.none;
  user_isp_country_code = Option.none;
  user_isp_name = Option.none;
  user_isp_coordinates = Option.none;
  restrictions = [];
  groups = [];
  settings = default_settings;
}

pub LocalAgentSettings-discrete : Discrete LocalAgentSettings
LocalAgentSettings-discrete = hlevel

pub AgentConnectionInfo-discrete : Discrete AgentConnectionInfo
AgentConnectionInfo-discrete = hlevel (ℕ_discrete, String_discrete)
