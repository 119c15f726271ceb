-- ===== src/Convert.antt =====
-- connection/util.rs and api/type_conversions.rs: the crate's values as those of `pvpnclient` and back.
pub mod Ports
use protun.Base.{
  ℕ, Bool, true, false, Option, none, some, String, List, [], ◌∷◌, map, ◌==◌, if◌then◌else◌, ite,
  length, ◌≡◌,
}
use protun.Base.Int.{ℤ, to_i16}
use protun.Io.{ErrorKind, IpAddr, v4, v6}
use protun.Io
use protun.Api.Config.{PeerInfo, Cookie}
use protun.Api.LocalAgent
use protun.Api.LocalAgent.{LocalAgentSettings}
use protun.Api.State
use protun.Api.State.{Protocol}
use protun.Api.Events.{Event, connection_stats}
use protun.Client.Tunnel
use protun.Client.Tunnel.{SystemError, PeerAddr, Peer, VpnProtocol, TunnelStats}
use protun.Client.Agent
use protun.Client.Agent.{SessionSettings, Settings}
use mathlib.Core.Option

unfoldable pub error_kind_to_socket_err : ErrorKind → SystemError
error_kind_to_socket_err ErrorKind.addr_in_use = SystemError.address_in_use
error_kind_to_socket_err ErrorKind.addr_not_available = SystemError.addr_not_available
error_kind_to_socket_err ErrorKind.already_exists = SystemError.already_exists
error_kind_to_socket_err ErrorKind.broken_pipe = SystemError.broken_pipe
error_kind_to_socket_err ErrorKind.connection_aborted = SystemError.connection_aborted
error_kind_to_socket_err ErrorKind.connection_refused = SystemError.connection_refused
error_kind_to_socket_err ErrorKind.connection_reset = SystemError.connection_reset
error_kind_to_socket_err ErrorKind.host_unreachable = SystemError.host_unreachable
error_kind_to_socket_err ErrorKind.interrupted = SystemError.interrupted
error_kind_to_socket_err ErrorKind.invalid_data = SystemError.invalid_data
error_kind_to_socket_err ErrorKind.invalid_input = SystemError.invalid_input
error_kind_to_socket_err ErrorKind.network_down = SystemError.network_down
error_kind_to_socket_err ErrorKind.network_unreachable = SystemError.network_unreachable
error_kind_to_socket_err ErrorKind.not_connected = SystemError.not_connected
error_kind_to_socket_err ErrorKind.not_found = SystemError.not_found
error_kind_to_socket_err ErrorKind.permission_denied = SystemError.permission_denied
error_kind_to_socket_err ErrorKind.quota_exceeded = SystemError.quota_exceeded
error_kind_to_socket_err ErrorKind.resource_busy = SystemError.resource_busy
error_kind_to_socket_err ErrorKind.timed_out = SystemError.timeout
error_kind_to_socket_err ErrorKind.unexpected_eof = SystemError.unexpected_eof
error_kind_to_socket_err ErrorKind.would_block = SystemError.would_block
error_kind_to_socket_err ErrorKind.write_zero = SystemError.write_zero
error_kind_to_socket_err _ = SystemError.unknown

-- The ports but 0.
unfoldable pub to_non_zero_vec : List ℕ → List ℕ
to_non_zero_vec [] = []
to_non_zero_vec (x ∷ xs) = if x == 0 then to_non_zero_vec xs else x ∷ to_non_zero_vec xs

abbrev pub ip_addr : IpAddr → PeerAddr
ip_addr (v4 a) = record { ipv4 = some a; ipv6 = none }
ip_addr (v6 a) = record { ipv4 = none; ipv6 = some a }

unfoldable pub addr : PeerInfo → PeerAddr
addr p = ip_addr p.server_ip

unfoldable pub as_peer : PeerInfo → Peer
unfolding addr to_non_zero_vec to_i16
as_peer p = record {
  addr = addr p;
  public_key = p.server_public_key;
  tag = some p.peer_id;
  udp_ports = to_non_zero_vec p.udp_ports;
  tcp_ports = to_non_zero_vec p.tcp_ports;
  tls_ports = to_non_zero_vec p.tls_ports;
  priority = to_i16 p.priority;
  bouncing_labels = Option.map (λ label. label ∷ []) p.exit_label;
}

unfoldable pub to_protocol : VpnProtocol → Protocol
to_protocol VpnProtocol.wireguard_udp = Protocol.wireguard_udp
to_protocol VpnProtocol.wireguard_tcp = Protocol.wireguard_tcp
to_protocol VpnProtocol.stealth = Protocol.stealth

unfoldable pub to_client_level : LocalAgent.NetshieldLevel → Agent.NetshieldLevel
to_client_level LocalAgent.NetshieldLevel.none = Agent.NetshieldLevel.none
to_client_level LocalAgent.NetshieldLevel.malware_filter = Agent.NetshieldLevel.malware_filter
to_client_level LocalAgent.NetshieldLevel.ads_and_malware_filter =
    Agent.NetshieldLevel.ads_and_malware_filter
to_client_level LocalAgent.NetshieldLevel.adult_and_ads_and_malware_filter =
    Agent.NetshieldLevel.adult_and_ads_and_malware_filter

unfoldable pub from_client_level : Agent.NetshieldLevel → LocalAgent.NetshieldLevel
from_client_level Agent.NetshieldLevel.none = LocalAgent.NetshieldLevel.none
from_client_level Agent.NetshieldLevel.malware_filter = LocalAgent.NetshieldLevel.malware_filter
from_client_level Agent.NetshieldLevel.ads_and_malware_filter =
    LocalAgent.NetshieldLevel.ads_and_malware_filter
from_client_level Agent.NetshieldLevel.adult_and_ads_and_malware_filter =
    LocalAgent.NetshieldLevel.adult_and_ads_and_malware_filter

unfoldable pub from_client_restriction : Agent.Restriction → LocalAgent.Restriction
from_client_restriction (Agent.Restriction.streaming reason) =
    LocalAgent.Restriction.streaming reason
from_client_restriction (Agent.Restriction.torrent reason) = LocalAgent.Restriction.torrent reason
from_client_restriction (Agent.Restriction.other name reason) =
    LocalAgent.Restriction.other name reason

unfoldable pub to_session_settings : LocalAgentSettings → SessionSettings
unfolding to_client_level
to_session_settings s = record {
  split_tcp = s.split_tcp;
  netshield_level = Option.map to_client_level s.netshield_level;
  softjail = s.soft_jail;
  port_forwarding = s.port_forwarding;
  random_nat = s.random_nat;
  circumvention_routing = s.circumvention_routing;
}

-- `pvpn_settings`, of connection/pvpn_connection.rs.
unfoldable pub pvpn_settings : SessionSettings → Settings
pvpn_settings s = record {
  authorized_protocols =
      VpnProtocol.wireguard_udp ∷ VpnProtocol.wireguard_tcp ∷ VpnProtocol.stealth ∷ [];
  session_settings = s;
}

unfoldable pub from_tunnel_stats : TunnelStats → ℤ → Event
from_tunnel_stats s timestamp_ms = connection_stats (record {
  timestamp_ms = timestamp_ms;
  received_bytes = s.rx;
  sent_bytes = s.tx;
  time_since_last_handshake = s.time_since_last_handshake;
  estimated_loss = s.estimated_loss;
  estimated_round_trip_time = s.estimated_rtt;
})

unfoldable pub to_muon_cookies : List Cookie → List (String × String)
to_muon_cookies = map (λ c. (c.name, c.value))
