-- ===== src/Connection/Messages.antt =====
-- connection/pvpn_connection.rs: the messages to the connection loop.
use protun.Base.{Bool, true, false, Option, none, some, List, [], ◌∷◌, map, if◌then◌else◌, ite}
use protun.Base.Int.{to_i64}
use protun.Io.{IoResult, ok, err}
use protun.Api.Config.{
  PeerInfo, PeerInfo-discrete, ConnectivityEvent, PcapFileInfo, ConfigUpdate, ForkSelectorInfo,
  TunStreamInfo,
}
use protun.Api.LocalAgent.{LocalAgentSettings, LocalAgentSettings-discrete}
use protun.Api.Events.{request}
use protun.Client.Tunnel.{TunnelInfo, TunnelStats}
use protun.Client.Agent.{LocalAgentAction, LocalAgentSelector}
use protun.Peers
use protun.Convert.{
  addr, as_peer, pvpn_settings, to_session_settings, from_tunnel_stats, to_muon_cookies,
}
use protun.Recovery
use protun.Connection.State.{
  Deps, PvpnConnection, set_state, emit_event, start_packet_capture, stop_packet_capture,
  network_unavailable_state,
}

pub data PvpnMessage : Type 0 where
  disconnect : PvpnMessage
  connectivity_change : ConnectivityEvent → PvpnMessage
  start_capture : PcapFileInfo → PvpnMessage
  stop_capture : PvpnMessage
  request_stats : PvpnMessage
  update : ConfigUpdate → PvpnMessage
  provide_api_fork_selector : ForkSelectorInfo → PvpnMessage
  request_local_agent_stats : PvpnMessage

pub PeerInfos-discrete : Discrete (List PeerInfo)
PeerInfos-discrete = hlevel PeerInfo-discrete

abbrev pub stats_selectors : List LocalAgentSelector
stats_selectors =
    LocalAgentSelector.stats_bytes_sent ∷ LocalAgentSelector.stats_bytes_received
    ∷ LocalAgentSelector.stats_netshield_block_count_ads
    ∷ LocalAgentSelector.stats_netshield_block_count_malicious
    ∷ LocalAgentSelector.stats_netshield_block_count_tracking
    ∷ LocalAgentSelector.stats_netshield_block_count_adult ∷ []

module _ (deps : Deps) where
  abbrev Conn : Type 0
  Conn = PvpnConnection deps

  abbrev Client : Type 0
  Client = deps.client.Client

  unfoldable pub on_connectivity_change : Conn → ConnectivityEvent → Option TunnelInfo → Conn
  unfolding set_state network_unavailable_state
  on_connectivity_change c event info =
      let c' = record c {
        network_recovery_handler = Recovery.on_connectivity_change c.network_recovery_handler event;
      } in
      if c'.network_recovery_handler.network_available
      then record c' { client = deps.client.notify_network_change c.client }
      else set_state deps (record c' { client = deps.client.notify_network_down c.client })
          (network_unavailable_state deps info)

  unfoldable pub changed_settings : Conn → LocalAgentSettings → Option LocalAgentSettings → Conn
  unfolding pvpn_settings to_session_settings
  changed_settings c settings none = c
  changed_settings c settings (some current) =
      ite (LocalAgentSettings-discrete current settings) c (record c {
        local_agent_settings = some settings;
        client = deps.client.set_settings c.client (pvpn_settings (to_session_settings settings));
      })

  unfoldable pub update_local_agent_settings : Conn → LocalAgentSettings → Conn
  unfolding changed_settings
  update_local_agent_settings c settings = changed_settings c settings c.local_agent_settings

  unfoldable pub remove_old : List PeerInfo → List PeerInfo → Client → Client
  unfolding Peers.contains addr
  remove_old new_peers [] client = client
  remove_old new_peers (p ∷ ps) client =
      remove_old new_peers ps
        (if Peers.contains new_peers p then client else deps.client.peer_remove client (addr p))

  unfoldable pub add_new : List PeerInfo → List PeerInfo → Client → Client
  unfolding Peers.contains as_peer
  add_new old_peers [] client = client
  add_new old_peers (p ∷ ps) client =
      add_new old_peers ps
        (if Peers.contains old_peers p then client else deps.client.peer_add client (as_peer p))

  unfoldable pub update_peers : Conn → List PeerInfo → Conn
  unfolding remove_old add_new
  update_peers c new_peers = ite (PeerInfos-discrete c.peers new_peers) c (record c {
    client = add_new c.peers new_peers (remove_old new_peers c.peers c.client);
    peers = new_peers;
  })

  unfoldable pub tun_updated : Conn → deps.streams.Table × IoResult (Unit {0}) → Conn
  tun_updated c (streams, err e) = record c { streams = streams }
  tun_updated c (streams, ok u) = record c { streams = streams; current_tun_error = none }

  unfoldable pub update_tun : Conn → TunStreamInfo → Conn
  unfolding tun_updated
  update_tun c info = tun_updated c (deps.streams.update_tun c.streams info)

  unfoldable pub updated_peers : Conn → Option (List PeerInfo) → Conn
  unfolding update_peers Peers.from
  updated_peers c none = c
  updated_peers c (some peers) = update_peers c (Peers.from peers)

  unfoldable pub updated_settings : Conn → Option LocalAgentSettings → Conn
  unfolding update_local_agent_settings
  updated_settings c none = c
  updated_settings c (some settings) = update_local_agent_settings c settings

  unfoldable pub updated_tun : Conn → Option TunStreamInfo → Conn
  unfolding update_tun
  updated_tun c none = c
  updated_tun c (some info) = update_tun c info

  unfoldable pub handle_update : Conn → ConfigUpdate → Conn
  unfolding updated_peers updated_settings updated_tun
  handle_update c u = updated_tun (updated_settings (updated_peers c u.peers) u.settings) u.tun

  unfoldable pub stats_received : Conn → Client × Option TunnelStats → Conn
  unfolding emit_event from_tunnel_stats to_i64
  stats_received c (client, none) = record c { client = client }
  stats_received c (client, some stats) =
      let (clock, now) = deps.read_clock c.realtime_clock in
      emit_event deps (record c { client = client; realtime_clock = clock })
        (from_tunnel_stats stats (to_i64 now))

  unfoldable pub push_all : List LocalAgentAction → Client → Client
  push_all [] client = client
  push_all (a ∷ actions) client = push_all actions (deps.client.push_local_agent client a)

  unfoldable pub changed_network : Conn → ConnectivityEvent → Client × Option TunnelInfo → Conn
  unfolding on_connectivity_change
  changed_network c event (client, info) =
      on_connectivity_change (record c { client = client }) event info

  unfoldable pub handle_message : Conn → PvpnMessage → Conn
  unfolding changed_network start_packet_capture stop_packet_capture stats_received handle_update
      push_all to_muon_cookies
  handle_message c disconnect = record c { should_stop = true }
  handle_message c (connectivity_change event) =
      changed_network c event (deps.client.get_tunnel_info c.client)
  handle_message c (start_capture info) = start_packet_capture deps c info
  handle_message c stop_capture = stop_packet_capture deps c request
  handle_message c request_stats = stats_received c (deps.client.get_stats c.client)
  handle_message c (update u) = handle_update c u
  handle_message c (provide_api_fork_selector info) = record c {
    client =
        deps.client.push_local_agent c.client (
          LocalAgentAction.provide_auth_fork_selector info.selector (to_muon_cookies info.cookies));
  }
  handle_message c request_local_agent_stats = record c {
    client = push_all (map LocalAgentAction.get stats_selectors) c.client;
  }

  abbrev pub is_disconnect : PvpnMessage → Bool
  is_disconnect disconnect = true
  is_disconnect _ = false

  -- The messages that wait, oldest first. Those after a disconnect are not read.
  unfoldable pub handle_messages : Conn → List PvpnMessage → Conn
  unfolding handle_message
  handle_messages c [] = c
  handle_messages c (m ∷ ms) =
      if is_disconnect m then handle_message c m else handle_messages (handle_message c m) ms
