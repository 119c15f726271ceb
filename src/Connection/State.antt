-- ===== src/Connection/State.antt =====
-- connection/pvpn_connection.rs: the state of the connection loop, what it reports, and the packet
-- capture.
use protun.Base.{ℕ, Bool, true, false, Option, none, some, String, List, [], ◌∷◌, ite}
use protun.Io.{IpAddr, IoResult, ok, err, SocketAddr}
use protun.Api.Config.{PeerInfo, PcapFileInfo, CacheKey}
use protun.Api.LocalAgent.{LocalAgentSettings}
use protun.Api.State.{
  ConnectionState, ConnectionState-discrete, InterfaceError, io_error, VpnState, PeerConnectionInfo,
  connecting, waiting_for_network,
}
use protun.Api.Events.{
  Event, CaptureStopReason, packet_capture_started, packet_capture_stopped, already_stopped,
}
use protun.Client.Tunnel.{Tunnel, TunnelInfo, Peer}
use protun.Client.Interface.{StreamIds, PvpnClient}
use protun.Streams.{Streams, StreamResult}
use protun.Pcap
use protun.Pcap.{FileSystem, PcapStream}
use protun.Recovery.{NetworkRecoveryHandler}
use protun.Agent.{LocalAgentHandler}
use protun.Convert.{to_protocol}
use mathlib.Core.Option

-- What the loop is given: the client, the streams, the file system, the real-time clock in
-- milliseconds, the way in which an address is printed, and the platform.
pub record Deps : Type 1 where
  pub ids : StreamIds
  pub client : PvpnClient ids
  pub streams : Streams ids
  pub files : FileSystem
  pub Clock : Type 0
  pub read_clock : Clock → Clock × ℕ
  pub print_ip : IpAddr → String
  pub android : Bool

-- A call of one of the callbacks, or of the persistent cache.
pub data Output : Type 0 where
  state_changed : VpnState → Output
  event : Event → Output
  cache_put : CacheKey → List ℕ → Output

-- `outputs` holds the calls of the callbacks, last one first.
pub record PvpnConnection (deps : Deps) : Type 0 where
  pub client : deps.client.Client
  pub streams : deps.streams.Table
  pub disk : deps.files.Disk
  pub realtime_clock : deps.Clock
  pub connection_state : ConnectionState
  pub peers : List PeerInfo
  pub should_stop : Bool
  pub current_tun_error : Option InterfaceError
  pub network_recovery_handler : NetworkRecoveryHandler
  pub pcap_stream : Option (PcapStream deps.files)
  pub local_agent_settings : Option LocalAgentSettings
  pub local_agent_handler : Option LocalAgentHandler
  pub outputs : List Output

module _ (deps : Deps) where
  abbrev pub output : Output → PvpnConnection deps → PvpnConnection deps
  output o c = record c { outputs = o ∷ c.outputs }

  unfoldable pub emit_event : PvpnConnection deps → Event → PvpnConnection deps
  emit_event c e = output (event e) c

  report : PvpnConnection deps → ConnectionState → PvpnConnection deps
  report c new_state = output (state_changed vpn_state) (record c { connection_state = new_state })
    where
      vpn_state : VpnState
      vpn_state = record {
        interface_state = deps.streams.get_tun_interface_state c.streams c.current_tun_error;
        connection_state = new_state;
      }

  unfoldable pub set_state : PvpnConnection deps → ConnectionState → PvpnConnection deps
  unfolding report
  set_state c new_state =
      ite (ConnectionState-discrete new_state c.connection_state) c (report c new_state)

  unfoldable pub started :
      PvpnConnection deps
      → PcapFileInfo
      → deps.files.Disk × IoResult (PcapStream deps.files)
      → PvpnConnection deps
  unfolding emit_event
  started c info (disk, err e) = record c { disk = disk }
  started c info (disk, ok stream) =
      emit_event
        (record c {
          disk = disk;
          pcap_stream = some stream;
          client = deps.client.set_packet_capture_enabled c.client true;
        })
        (packet_capture_started info)

  unfoldable pub start_packet_capture : PvpnConnection deps → PcapFileInfo → PvpnConnection deps
  unfolding started
  start_packet_capture c info = started c info (Pcap.new deps.files c.disk info)

  unfoldable pub stopped :
      PvpnConnection deps
      → (PcapFileInfo → CaptureStopReason)
      → Option (PcapStream deps.files)
      → PvpnConnection deps
  unfolding emit_event
  stopped c reason none = emit_event c (packet_capture_stopped already_stopped)
  stopped c reason (some stream) =
      emit_event (record c { pcap_stream = none })
        (packet_capture_stopped (reason stream.file_info))

  unfoldable pub stop_packet_capture :
      PvpnConnection deps → (PcapFileInfo → CaptureStopReason) → PvpnConnection deps
  unfolding stopped
  stop_packet_capture c reason =
      stopped (record c { client = deps.client.set_packet_capture_enabled c.client false }) reason
        c.pcap_stream

  unfoldable pub get_peer_id : Peer → SocketAddr → String
  get_peer_id peer peer_addr = Option.get_or peer.tag (deps.print_ip peer_addr.ip)

  unfoldable pub get_peer_connection_info : Tunnel → PeerConnectionInfo
  unfolding get_peer_id to_protocol
  get_peer_connection_info t = record {
    peer_id = get_peer_id t.peer t.peer_addr;
    entry_ip = t.peer_addr.ip;
    protocol = to_protocol t.protocol;
    port = t.peer_addr.port;
  }

  unfoldable pub tunnel_peers : Option TunnelInfo → List PeerConnectionInfo
  unfolding get_peer_connection_info
  tunnel_peers none = []
  tunnel_peers (some (TunnelInfo.connected t)) = get_peer_connection_info t ∷ []
  tunnel_peers (some (TunnelInfo.connecting t)) = get_peer_connection_info t ∷ []
  tunnel_peers (some TunnelInfo.disconnected) = []

  unfoldable pub network_unavailable_state : Option TunnelInfo → ConnectionState
  unfolding tunnel_peers
  network_unavailable_state info = connecting (tunnel_peers info) (waiting_for_network ∷ [])

unfoldable pub to_tun_error : StreamResult → Option InterfaceError
to_tun_error (StreamResult.done t) = none
to_tun_error (StreamResult.failed e) = some (io_error e.message)
to_tun_error StreamResult.stream_closed = some (io_error "Stream closed")
