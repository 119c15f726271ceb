-- ===== src/Connection/Refines/Messages.antt =====
-- The messages to the loop of connection/pvpn_connection.rs, seen through the contract.
use protun.Base.{
  is_some, ◌≡◌, refl, ap, subst, sym, Option, none, some, List, [], ◌∷◌, if_elim, ite_elim,
}
use protun.Io.{IoResult, ok, err}
use protun.Api.Config.{
  ConnectivityEvent, up, down, network_switch, TunStreamInfo, ConfigUpdate, PeerInfo,
}
use protun.Api.LocalAgent.{LocalAgentSettings, LocalAgentSettings-discrete}
use protun.Api.State.{ConnectionState-discrete}
use protun.Api.Events.{request}
use protun.Client.Tunnel.{TunnelInfo, TunnelStats}
use protun.Peers
use protun.Peers.Unique.{from-IsUnique}
use protun.Recovery
use protun.Convert.{from_tunnel_stats}
use protun.Connection.State.{Deps, PvpnConnection, set_state, network_unavailable_state}
use protun.Connection.Messages.{
  PvpnMessage, disconnect, connectivity_change, start_capture, stop_capture, request_stats, update,
  provide_api_fork_selector, request_local_agent_stats, PeerInfos-discrete, on_connectivity_change,
  changed_settings, update_local_agent_settings, update_peers, tun_updated, update_tun,
  updated_peers, updated_settings, updated_tun, handle_update, stats_received, changed_network,
  handle_message, handle_messages, is_disconnect,
}
use protun.Connection.Contract.{View, Steps, ◌▸◌, Step, is_waiting}
use protun.Connection.Refines.{
  view, Allowed, emit_event-Allowed, start_packet_capture-Allowed, stop_packet_capture-Allowed,
}

module _ (deps : Deps) (v : View) where
  abbrev Conn : Type 0
  Conn = PvpnConnection deps

  abbrev Ok : Conn → Type 0
  Ok = Allowed deps v

  on_connectivity_change-Allowed :
      (c : Conn) (event : ConnectivityEvent) (info : Option TunnelInfo)
      → Ok c
      → Ok (on_connectivity_change deps c event info)
  unfolding on_connectivity_change Recovery.on_connectivity_change set_state
      network_unavailable_state
  on_connectivity_change-Allowed c up info h = h ▸ Step.network_up
  on_connectivity_change-Allowed c network_switch info h = h ▸ Step.network_up
  on_connectivity_change-Allowed c down info h =
      let s = network_unavailable_state deps info in
      ite_elim Ok (ConnectionState-discrete s c.connection_state)
        (λ e. h ▸ Step.network_down (ap is_waiting (sym e)))
        (λ new. h ▸ Step.reported _ new refl (λ n r. refl) ▸ Step.network_down refl)

  changed_settings-Allowed :
      (c : Conn) (settings : LocalAgentSettings) (o : Option LocalAgentSettings)
      → c.local_agent_settings ≡ o
      → Ok c
      → Ok (changed_settings deps c settings o)
  unfolding changed_settings
  changed_settings-Allowed c settings none e h = h
  changed_settings-Allowed c settings (some current) e h =
      ite_elim Ok (LocalAgentSettings-discrete current settings) (λ same. h)
        (λ new. subst (λ b. Steps v (record (view deps c) { settings = b })) (ap is_some e) h)

  updated_peers-Allowed :
      (c : Conn) (o : Option (List PeerInfo)) → Ok c → Ok (updated_peers deps c o)
  unfolding updated_peers update_peers
  updated_peers-Allowed c none h = h
  updated_peers-Allowed c (some peers) h =
      ite_elim Ok (PeerInfos-discrete c.peers (Peers.from peers)) (λ e. h)
        (λ new. h ▸ Step.peers_updated (Peers.from peers) (from-IsUnique peers).0)

  updated_settings-Allowed :
      (c : Conn) (o : Option LocalAgentSettings) → Ok c → Ok (updated_settings deps c o)
  unfolding updated_settings update_local_agent_settings
  updated_settings-Allowed c none h = h
  updated_settings-Allowed c (some settings) h =
      changed_settings-Allowed c settings c.local_agent_settings refl h

  tun_updated-Allowed :
      (c : Conn) (r : deps.streams.Table × IoResult (Unit {0})) → Ok c → Ok (tun_updated deps c r)
  unfolding tun_updated
  tun_updated-Allowed c (streams, err e) h = h
  tun_updated-Allowed c (streams, ok u) h = h

  updated_tun-Allowed : (c : Conn) (o : Option TunStreamInfo) → Ok c → Ok (updated_tun deps c o)
  unfolding updated_tun update_tun
  updated_tun-Allowed c none h = h
  updated_tun-Allowed c (some info) h =
      tun_updated-Allowed c (deps.streams.update_tun c.streams info) h

  handle_update-Allowed : (c : Conn) (u : ConfigUpdate) → Ok c → Ok (handle_update deps c u)
  unfolding handle_update
  handle_update-Allowed c u h =
      let peered = updated_peers deps c u.peers in
      updated_tun-Allowed (updated_settings deps peered u.settings) u.tun
        (updated_settings-Allowed peered u.settings (updated_peers-Allowed c u.peers h))

  stats_received-Allowed :
      (c : Conn) (r : deps.client.Client × Option TunnelStats) → Ok c → Ok (stats_received deps c r)
  unfolding stats_received from_tunnel_stats
  stats_received-Allowed c (client, none) h = h
  stats_received-Allowed c (client, some stats) h =
      emit_event-Allowed deps v
        (record c { client = client; realtime_clock = (deps.read_clock c.realtime_clock).0 }) _ refl
        h

  changed_network-Allowed :
      (c : Conn) (event : ConnectivityEvent) (r : deps.client.Client × Option TunnelInfo)
      → Ok c
      → Ok (changed_network deps c event r)
  unfolding changed_network
  changed_network-Allowed c event (client, info) h =
      on_connectivity_change-Allowed (record c { client = client }) event info h

  pub handle_message-Allowed : (c : Conn) (m : PvpnMessage) → Ok c → Ok (handle_message deps c m)
  unfolding handle_message
  handle_message-Allowed c disconnect h = h ▸ Step.stop_asked
  handle_message-Allowed c (connectivity_change event) h =
      changed_network-Allowed c event (deps.client.get_tunnel_info c.client) h
  handle_message-Allowed c (start_capture info) h = start_packet_capture-Allowed deps v c info h
  handle_message-Allowed c stop_capture h =
      stop_packet_capture-Allowed deps v c request (λ info. refl) h
  handle_message-Allowed c request_stats h =
      stats_received-Allowed c (deps.client.get_stats c.client) h
  handle_message-Allowed c (update u) h = handle_update-Allowed c u h
  handle_message-Allowed c (provide_api_fork_selector info) h = h
  handle_message-Allowed c request_local_agent_stats h = h

  pub handle_messages-Allowed :
      (ms : List PvpnMessage) (c : Conn) → Ok c → Ok (handle_messages deps c ms)
  unfolding handle_messages
  handle_messages-Allowed [] c h = h
  handle_messages-Allowed (m ∷ ms) c h =
      if_elim Ok (is_disconnect deps m) (λ e. handle_message-Allowed c m h)
        (λ e. handle_messages-Allowed ms (handle_message deps c m) (handle_message-Allowed c m h))
