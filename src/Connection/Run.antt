-- ===== src/Connection/Run.antt =====
-- connection/pvpn_connection.rs: the state of the connection, the rounds of the loop, its start and
-- its end.
use protun.Base.{
  ℕ, ◌&&◌, Bool, true, false, Option, none, some, List, [], ◌∷◌, map, min, if◌then◌else◌,
}
use protun.Base.Loop.{◌>>=◌}
use protun.Io.{IoResult}
use protun.Api.Config.{PeerInfo, PcapFileInfo}
use protun.Api.LocalAgent.{LocalAgentSettings}
use protun.Api.State.{ConnectionState, PeerConnectionInfo, connecting, waiting_for_network}
use protun.Api.Events
use protun.Client.Tunnel.{TunnelInfo}
use protun.Client.Agent.{LocalAgentAction}
use protun.Streams.{PollResult}
use protun.Peers
use protun.Convert.{as_peer, pvpn_settings, to_session_settings}
use protun.Recovery
use protun.Agent
use protun.Agent.{LocalAgentHandler}
use protun.Pcap.{PcapStream}
use protun.Connection.State.{
  Deps, PvpnConnection, set_state, start_packet_capture, stop_packet_capture,
  network_unavailable_state, get_peer_connection_info,
}
use protun.Connection.Pull.{pull_from_client}
use protun.Connection.Read.{handle_polled}
use protun.Connection.Messages.{PvpnMessage, handle_messages, push_all}

module _ (deps : Deps) where
  abbrev Conn : Type 0
  Conn = PvpnConnection deps

  unfoldable pub connected_state :
      Conn → PeerConnectionInfo → Option LocalAgentHandler → Conn × ConnectionState
  unfolding Agent.on_connected_to_peer Agent.get_state
  connected_state c peer none = (c, ConnectionState.connected peer none)
  connected_state c peer (some h) =
      let h' = Agent.on_connected_to_peer h peer in
      (record c { local_agent_handler = some h' }, Agent.get_state h' peer)

  unfoldable pub available_state : Conn → Option TunnelInfo → Conn × ConnectionState
  unfolding connected_state get_peer_connection_info Peers.is_empty
  available_state c (some (TunnelInfo.connected t)) =
      connected_state c (get_peer_connection_info deps t) c.local_agent_handler
  available_state c (some (TunnelInfo.connecting t)) =
      (c, connecting (get_peer_connection_info deps t ∷ []) [])
  available_state c (some TunnelInfo.disconnected) =
      (c, if Peers.is_empty c.peers then ConnectionState.disconnected none else connecting [] [])
  available_state c none = (c, ConnectionState.disconnected none)

  unfoldable pub get_peer_connection_state : Conn → Option TunnelInfo → Conn × ConnectionState
  unfolding available_state network_unavailable_state
  get_peer_connection_state c info =
      if c.network_recovery_handler.network_available
      then available_state c info
      else (c, network_unavailable_state deps info)

  abbrev pub is_connected : ConnectionState → Bool
  is_connected (ConnectionState.connected peer info) = true
  is_connected _ = false

  unfoldable pub state_set : Conn × ConnectionState → Conn
  unfolding set_state
  state_set (c, s) =
      let c' = set_state deps c s in
      if is_connected c'.connection_state
      then record c' {
        network_recovery_handler = Recovery.on_connected c'.network_recovery_handler;
      }
      else c'

  unfoldable pub informed : Conn → deps.client.Client × Option TunnelInfo → Conn
  unfolding state_set get_peer_connection_state
  informed c (client, info) =
      state_set (get_peer_connection_state (record c { client = client }) info)

  unfoldable pub update_state : Conn → Conn
  unfolding informed
  update_state c = informed c (deps.client.get_tunnel_info c.client)

  earlier : Option ℕ → Option ℕ → Option ℕ
  earlier none pvpn_delay = pvpn_delay
  earlier (some network_handler_delay) none = some network_handler_delay
  earlier (some network_handler_delay) (some pvpn_delay) =
      some (min pvpn_delay network_handler_delay)

  unfoldable pub is_pending : Option ℕ → Bool
  is_pending none = false
  is_pending (some at) = true

  -- The clock is read only if a network change is pending and there is a network.
  unfoldable pub clock_read : Conn → deps.client.Client × ℕ → Conn × Option ℕ
  unfolding earlier is_pending Recovery.wakeup_delay
  clock_read c (client, now) =
      let h = c.network_recovery_handler in
      let delay = earlier (Recovery.wakeup_delay h now) (deps.client.wakeup_deadline c.client) in
      if h.network_available && is_pending h.send_delayed_network_change_at
      then (record c { client = client }, delay)
      else (c, delay)

  unfoldable pub poll_deadline : Conn → Conn × Option ℕ
  unfolding clock_read
  poll_deadline c = clock_read c (deps.client.monotonic_now c.client)

  unfoldable pub resume : Conn → ℕ → Conn
  unfolding Recovery.on_resumed
  resume c now =
      let (h, notified) = Recovery.on_resumed c.network_recovery_handler now in
      record c {
        network_recovery_handler = h;
        client = if notified then deps.client.notify_network_change c.client else c.client;
      }

  unfoldable pub polled :
      ℕ → Conn → deps.streams.Table × IoResult (List (PollResult deps.ids.StreamId)) → Option Conn
  unfolding resume
  polled fuel c (streams, results) =
      let (client, now) = deps.client.set_current_time c.client in
      handle_polled deps fuel (resume (record c { streams = streams; client = client }) now.0)
        results

  unfoldable pub poll_from_streams : ℕ → Conn → Option Conn
  unfolding polled poll_deadline
  poll_from_streams fuel c =
      let (c', deadline) = poll_deadline c in polled fuel c' (deps.streams.poll c.streams deadline)

  -- The body of the loop in `run`, after the messages.
  unfoldable pub run_round : ℕ → Conn → Option Conn
  unfolding pull_from_client update_state poll_from_streams
  run_round fuel c =
      pull_from_client deps fuel (record c { client = (deps.client.set_current_time c.client).0 })
      >>= λ c'. poll_from_streams fuel (update_state c')

  unfoldable pub capture_ended : Conn → Option (PcapStream deps.files) → Conn
  unfolding stop_packet_capture
  capture_ended c none = c
  capture_ended c (some stream) = stop_packet_capture deps c Events.disconnected

  unfoldable pub state_ended : Conn → ConnectionState → Conn
  unfolding set_state
  state_ended c (ConnectionState.disconnected reason) = c
  state_ended c _ = set_state deps c (ConnectionState.disconnected none)

  unfoldable pub on_connection_loop_end : Conn → Conn
  unfolding capture_ended state_ended
  on_connection_loop_end c =
      let c' = capture_ended c c.pcap_stream in state_ended c' c'.connection_state

  -- The messages that wait at each round; `none` if the messages do not stop the loop, or if `fuel`
  -- is too little for an inner one.
  unfoldable pub run : ℕ → Conn → List (List PvpnMessage) → Option Conn
  unfolding handle_messages run_round on_connection_loop_end
  run fuel c [] = none
  run fuel c (ms ∷ rounds) =
      let c' = handle_messages deps c ms in
      if c'.should_stop
      then some (on_connection_loop_end c')
      else (run_round fuel c' >>= λ c''. run fuel c'' rounds)

  unfoldable pub network_checked : Conn → Conn
  unfolding set_state
  network_checked c =
      if c.network_recovery_handler.network_available
      then c
      else set_state deps (record c { client = deps.client.notify_network_down c.client })
          (connecting [] (waiting_for_network ∷ []))

  unfoldable pub capture_begun : Conn → Option PcapFileInfo → Conn
  unfolding start_packet_capture
  capture_begun c none = c
  capture_begun c (some info) = start_packet_capture deps c info

  unfoldable pub agent_watched : Conn → Option LocalAgentSettings → Conn
  unfolding push_all pvpn_settings to_session_settings
  agent_watched c none = c
  agent_watched c (some settings) = record c {
    client =
        deps.client.set_settings
          (push_all deps (map LocalAgentAction.watch Agent.local_agent_selectors_to_watch) c.client)
          (pvpn_settings (to_session_settings settings));
  }

  unfoldable pub new_agent : Option LocalAgentSettings → Option LocalAgentHandler
  unfolding Agent.new
  new_agent none = none
  new_agent (some settings) = some Agent.new

  unfoldable pub initial :
      deps.client.Client
      → deps.streams.Table
      → deps.files.Disk
      → deps.Clock
      → Bool
      → List PeerInfo
      → Option LocalAgentSettings
      → Conn
  unfolding Recovery.new new_agent
  initial client streams disk clock network_available peers settings = record {
    client = client;
    streams = streams;
    disk = disk;
    realtime_clock = clock;
    connection_state = ConnectionState.disconnected none;
    peers = peers;
    should_stop = false;
    current_tun_error = none;
    network_recovery_handler = Recovery.new deps.android network_available;
    pcap_stream = none;
    local_agent_settings = settings;
    local_agent_handler = new_agent settings;
    outputs = [];
  }

  abbrev pub add_all : List PeerInfo → deps.client.Client → deps.client.Client
  add_all [] client = client
  add_all (p ∷ ps) client = add_all ps (deps.client.peer_add client (as_peer p))

  unfoldable pub new :
      deps.client.Client
      → deps.streams.Table
      → deps.files.Disk
      → deps.Clock
      → Bool
      → List PeerInfo
      → Option PcapFileInfo
      → Option LocalAgentSettings
      → Conn
  unfolding initial network_checked capture_begun agent_watched Peers.from
  new client streams disk clock network_available peers pcap_file settings =
      let c = initial client streams disk clock network_available (Peers.from peers) settings in
      agent_watched
        (capture_begun (network_checked (record c { client = add_all c.peers c.client })) pcap_file)
        settings
