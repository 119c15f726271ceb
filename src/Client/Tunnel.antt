-- ===== src/Client/Tunnel.antt =====
-- Peers, tunnels, stream actions and statistics of `pvpnclient`. A peer is what its builder is told.
use protun.Base.{ℕ, String, Option, List}
use protun.Base.Int.{ℤ}
use protun.Io.{SocketAddr}

-- `PeerAddr::try_from` of an optional IPv4 and an optional IPv6 address.
pub record PeerAddr : Type 0 where
  pub ipv4 : Option ℕ
  pub ipv6 : Option ℕ

pub record Peer : Type 0 where
  pub addr : PeerAddr
  pub public_key : List ℕ
  pub tag : Option String
  pub udp_ports : List ℕ
  pub tcp_ports : List ℕ
  pub tls_ports : List ℕ
  pub priority : ℤ
  pub bouncing_labels : Option (List String)

pub data VpnProtocol : Type 0 where
  wireguard_udp wireguard_tcp stealth : VpnProtocol

pub record Tunnel : Type 0 where
  pub protocol : VpnProtocol
  pub peer_addr : SocketAddr
  pub peer : Peer

pub data TunnelInfo : Type 0 where
  connected connecting : Tunnel → TunnelInfo
  disconnected : TunnelInfo

pub data VpnStreamKind : Type 0 where
  udp tcp : VpnStreamKind

pub record OpenStream : Type 0 where
  pub kind : VpnStreamKind
  pub addr : SocketAddr

pub data SystemError : Type 0 where
  address_in_use addr_not_available already_exists broken_pipe connection_aborted : SystemError
  connection_refused connection_reset host_unreachable interrupted invalid_data : SystemError
  invalid_input network_down network_unreachable not_connected not_found : SystemError
  permission_denied quota_exceeded resource_busy timeout unexpected_eof : SystemError
  would_block write_zero unknown : SystemError

pub data ActionKind (SocketOption : Type 0) : Type 0 where
  open_stream : OpenStream → Option (List ℕ) → ActionKind SocketOption
  write read : List ℕ → ActionKind SocketOption
  set : SocketOption → ActionKind SocketOption
  close shutdown done : ActionKind SocketOption
  error : SystemError → ActionKind SocketOption

pub record TunnelStats : Type 0 where
  pub rx : ℕ
  pub tx : ℕ
  pub time_since_last_handshake : ℕ
  pub estimated_loss : ℕ
  pub estimated_rtt : ℕ
