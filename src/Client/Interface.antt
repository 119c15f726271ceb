-- ===== src/Client/Interface.antt =====
-- The trait `PvpnClient` of connection/pvpn_client.rs, as the connection loop uses it, and the
-- identifiers of streams. A method that mutates the client returns the new one.
use protun.Base.{ℕ, Bool, false, Option, ◌≡◌}
use protun.Io.{ErrorKind}
use protun.Client.Tunnel.{PeerAddr, Peer, TunnelInfo, TunnelStats, ActionKind}
use protun.Client.Agent.{LocalAgentMessage, LocalAgentAction, Settings}

-- `StreamId` with its named constants and the test `stream_id > StreamId::TUN_STREAM_ID`, and the
-- type of socket options, which the streams ignore.
pub record StreamIds : Type 1 where
  pub StreamId : Type 0
  pub SocketOption : Type 0
  pub StreamId-discrete : Discrete StreamId
  pub tun_stream_id : StreamId
  pub pcap_stream_id : StreamId
  pub privkey_stream_id : StreamId
  pub cert_stream_id : StreamId
  pub muon_auth_stream_id : StreamId
  pub after_tun : StreamId → Bool
  pub tun_not_after_tun : after_tun tun_stream_id ≡ false

-- The parts of a `pvpnclient::Action`.
abbrev pub Action : StreamIds → Type 0
Action ids = ids.StreamId × ActionKind ids.SocketOption

pub record PvpnClient (ids : StreamIds) : Type 1 where
  pub Client : Type 0
  pub set_current_time : Client → Client × (ℕ × ℕ)
  pub need_pull : Client → Bool
  pub peer_add : Client → Peer → Client
  pub peer_remove : Client → PeerAddr → Client
  pub pull : Client → Client × Option (Action ids)
  pub push : Client → Action ids → Client
  pub push_error : Client → ids.StreamId → ErrorKind → Client
  pub get_tunnel_info : Client → Client × Option TunnelInfo
  pub wakeup_deadline : Client → Option ℕ
  pub notify_network_change : Client → Client
  pub notify_network_down : Client → Client
  pub get_stats : Client → Client × Option TunnelStats
  pub monotonic_now : Client → Client × ℕ
  pub set_packet_capture_enabled : Client → Bool → Client
  pub set_settings : Client → Settings → Client
  pub pull_local_agent : Client → Client × Option LocalAgentMessage
  pub push_local_agent : Client → LocalAgentAction → Client
