-- ===== src/Connection/Refines/Whole.antt =====
-- The loop of connection/pvpn_connection.rs from its start to its end, seen through the contract.
use protun.Base.{
  is_some, ℕ, ◌&&◌, ◌≡◌, refl, ap, subst, sym, ◌∙◌, Bool, true, false, Option, none, some, List, [],
  ◌∷◌, if_elim, ite_elim,
}
use protun.Base.Loop.{OnSome, bind-OnSome}
use protun.Io.{IoResult}
use protun.Api.Config.{PeerInfo, PcapFileInfo}
use protun.Api.LocalAgent.{LocalAgentSettings}
use protun.Api.State.{
  fits_mode, ConnectionState, ConnectionState-discrete, PeerConnectionInfo, connecting,
  waiting_for_network,
}
use protun.Api.Events
use protun.Client.Tunnel.{TunnelInfo}
use protun.Streams.{PollResult}
use protun.Peers
use protun.Peers.Unique.{IsUnique, from-IsUnique}
use protun.Recovery
use protun.Recovery.Backoff.{on_connected-network, on_resumed-network}
use protun.Agent
use protun.Agent.{LocalAgentHandler}
use protun.Agent.Waiting.{get_state-fits}
use protun.Pcap.{PcapStream}
use protun.Connection.State.{
  Deps, PvpnConnection, Output, state_changed, set_state, emit_event, network_unavailable_state,
  get_peer_connection_info, stop_packet_capture, stopped,
}
use protun.Connection.Messages.{PvpnMessage, handle_messages}
use protun.Connection.Run.{
  connected_state, available_state, get_peer_connection_state, is_connected, state_set, informed,
  update_state, is_pending, clock_read, poll_deadline, resume, polled, poll_from_streams, run_round,
  capture_ended, state_ended, on_connection_loop_end, run, network_checked, capture_begun,
  agent_watched, new_agent, initial, add_all, new,
}
use protun.Connection.Contract.{View, Steps, start, ◌▸◌, Step, is_waiting, fresh}
use protun.Connection.Refines.{
  view, Allowed, set_state-Allowed, recovering-Allowed, start_packet_capture-Allowed,
  stop_packet_capture-Allowed,
}
use protun.Connection.Refines.Loops.{pull_from_client-Allowed, handle_polled-Allowed}
use protun.Connection.Refines.Messages.{handle_messages-Allowed}

module _ (deps : Deps) (v : View) where
  abbrev Conn : Type 0
  Conn = PvpnConnection deps

  abbrev Ok : Conn → Type 0
  Ok = Allowed deps v

  -- A state that the connection may report.
  abbrev Fits : Conn × ConnectionState → Type 0
  Fits (c, s) =
      Ok c
      × (fits_mode (is_some c.local_agent_handler) s ≡ true)
      × (c.network_recovery_handler.network_available ≡ false → is_waiting s ≡ true)

  connected_state-Fits :
      (c : Conn) (peer : PeerConnectionInfo) (o : Option LocalAgentHandler)
      → c.local_agent_handler ≡ o
      → c.network_recovery_handler.network_available ≡ true
      → Ok c
      → Fits (connected_state deps c peer o)
  unfolding connected_state
  connected_state-Fits c peer none e network h =
      (h, ap (λ o. fits_mode (is_some o) (ConnectionState.connected peer none)) e, λ n. cc)
  connected_state-Fits c peer (some handler) e network h = (
    subst (λ b. Steps v (record (view deps c) { agent = b })) (ap is_some e) h,
    get_state-fits (Agent.on_connected_to_peer handler peer) peer,
    λ n. cc,
  )

  available_state-Fits :
      (c : Conn) (info : Option TunnelInfo)
      → c.network_recovery_handler.network_available ≡ true
      → Ok c
      → Fits (available_state deps c info)
  unfolding available_state
  available_state-Fits c none network h = (h, refl, λ n. cc)
  available_state-Fits c (some (TunnelInfo.connected t)) network h =
      connected_state-Fits c (get_peer_connection_info deps t) c.local_agent_handler refl network h
  available_state-Fits c (some (TunnelInfo.connecting t)) network h = (h, refl, λ n. cc)
  available_state-Fits c (some TunnelInfo.disconnected) network h = (
    h,
    if_elim (λ s. fits_mode (is_some c.local_agent_handler) s ≡ true) (Peers.is_empty c.peers)
        (λ e. refl) (λ e. refl),
    λ n. cc,
  )

  get_peer_connection_state-Fits :
      (c : Conn) (info : Option TunnelInfo) → Ok c → Fits (get_peer_connection_state deps c info)
  unfolding get_peer_connection_state network_unavailable_state
  get_peer_connection_state-Fits c info h =
      if_elim Fits c.network_recovery_handler.network_available
        (λ network. available_state-Fits c info network h) (λ none_there. (h, refl, λ n. refl))

  state_set-Allowed : (r : Conn × ConnectionState) → Fits r → Ok (state_set deps r)
  unfolding state_set
  state_set-Allowed (c, s) (h, fits, waits) =
      let c' = set_state deps c s in
      let set = set_state-Allowed deps v c s fits (λ n stopping. waits n) h in
      if_elim Ok (is_connected deps c'.connection_state)
        (λ e.
          recovering-Allowed deps v c' (Recovery.on_connected c'.network_recovery_handler)
            (on_connected-network c'.network_recovery_handler) set)
        (λ e. set)

  update_state-Allowed : (c : Conn) → Ok c → Ok (update_state deps c)
  unfolding update_state informed
  update_state-Allowed c h =
      let (client, info) = deps.client.get_tunnel_info c.client in
      state_set-Allowed (get_peer_connection_state deps (record c { client = client }) info)
        (get_peer_connection_state-Fits (record c { client = client }) info h)

  resume-Allowed : (c : Conn) (now : ℕ) → Ok c → Ok (resume deps c now)
  unfolding resume
  resume-Allowed c now h =
      let r = c.network_recovery_handler in
      recovering-Allowed deps v c (Recovery.on_resumed r now).0 (on_resumed-network r now) h

  clock_read-Allowed : (c : Conn) (r : deps.client.Client × ℕ) → Ok c → Ok (clock_read deps c r).0
  unfolding clock_read
  clock_read-Allowed c (client, now) h =
      if_elim (λ (q : Conn × Option ℕ). Ok q.0)
        (c.network_recovery_handler.network_available
          && is_pending deps c.network_recovery_handler.send_delayed_network_change_at)
        (λ e. h) (λ e. h)

  polled-Allowed :
      (fuel : ℕ) (c : Conn)
      (r : deps.streams.Table × IoResult (List (PollResult deps.ids.StreamId)))
      → Ok c
      → OnSome Ok (polled deps fuel c r)
  unfolding polled
  polled-Allowed fuel c (streams, results) h =
      let (client, now) = deps.client.set_current_time c.client in
      let c' = record c { streams = streams; client = client } in
      handle_polled-Allowed deps v fuel (resume deps c' now.0) results (resume-Allowed c' now.0 h)

  poll_from_streams-Allowed :
      (fuel : ℕ) (c : Conn) → Ok c → OnSome Ok (poll_from_streams deps fuel c)
  unfolding poll_from_streams poll_deadline
  poll_from_streams-Allowed fuel c h =
      let (c', deadline) = poll_deadline deps c in
      polled-Allowed fuel c' (deps.streams.poll c.streams deadline)
        (clock_read-Allowed c (deps.client.monotonic_now c.client) h)

  pub run_round-Allowed : (fuel : ℕ) (c : Conn) → Ok c → OnSome Ok (run_round deps fuel c)
  unfolding run_round
  run_round-Allowed fuel c h =
      bind-OnSome Ok Ok _ (λ c'. poll_from_streams deps fuel (update_state deps c'))
        (pull_from_client-Allowed deps v fuel
          (record c { client = (deps.client.set_current_time c.client).0 }) h)
        (λ c' q. poll_from_streams-Allowed fuel (update_state deps c') (update_state-Allowed c' q))

  capture_ended-Allowed :
      (c : Conn) (o : Option (PcapStream deps.files)) → Ok c → Ok (capture_ended deps c o)
  unfolding capture_ended
  capture_ended-Allowed c none h = h
  capture_ended-Allowed c (some stream) h =
      stop_packet_capture-Allowed deps v c Events.disconnected (λ info. refl) h

  stopped-stopping :
      (c : Conn) (reason : PcapFileInfo → Events.CaptureStopReason)
      (o : Option (PcapStream deps.files))
      → (stopped deps c reason o).should_stop ≡ c.should_stop
  unfolding stopped emit_event
  stopped-stopping c reason none = refl
  stopped-stopping c reason (some stream) = refl

  capture_ended-stopping :
      (c : Conn) (o : Option (PcapStream deps.files))
      → (capture_ended deps c o).should_stop ≡ c.should_stop
  unfolding capture_ended stop_packet_capture
  capture_ended-stopping c none = refl
  capture_ended-stopping c (some stream) =
      stopped-stopping (record c { client = deps.client.set_packet_capture_enabled c.client false })
        Events.disconnected c.pcap_stream

  state_ended-Allowed :
      (c : Conn) (s : ConnectionState) → c.should_stop ≡ true → Ok c → Ok (state_ended deps c s)
  unfolding state_ended
  state_ended-Allowed c (ConnectionState.disconnected reason) stopping h = h
  state_ended-Allowed c (connecting peers reasons) stopping h =
      set_state-Allowed deps v c (ConnectionState.disconnected none) refl (λ n running. cc) h
  state_ended-Allowed c (ConnectionState.connecting_to_local_agent peer reason) stopping h =
      set_state-Allowed deps v c (ConnectionState.disconnected none) refl (λ n running. cc) h
  state_ended-Allowed c (ConnectionState.connected peer info) stopping h =
      set_state-Allowed deps v c (ConnectionState.disconnected none) refl (λ n running. cc) h

  pub on_connection_loop_end-Allowed :
      (c : Conn) → c.should_stop ≡ true → Ok c → Ok (on_connection_loop_end deps c)
  unfolding on_connection_loop_end
  on_connection_loop_end-Allowed c stopping h =
      let c' = capture_ended deps c c.pcap_stream in
      state_ended-Allowed c' c'.connection_state (capture_ended-stopping c c.pcap_stream ∙ stopping)
        (capture_ended-Allowed c c.pcap_stream h)

  pub run-Allowed :
      (fuel : ℕ) (rounds : List (List PvpnMessage)) (c : Conn)
      → Ok c
      → OnSome Ok (run deps fuel c rounds)
  unfolding run
  run-Allowed fuel [] c h = tt
  run-Allowed fuel (ms ∷ rounds) c h =
      let c' = handle_messages deps c ms in
      let handled = handle_messages-Allowed deps v ms c h in
      if_elim (OnSome Ok) c'.should_stop
        (λ stopping. on_connection_loop_end-Allowed c' stopping handled)
        (λ running.
          bind-OnSome Ok Ok (run_round deps fuel c') (λ c''. run deps fuel c'' rounds)
            (run_round-Allowed fuel c' handled) (λ c'' q. run-Allowed fuel rounds c'' q))

module _ (deps : Deps) where
  abbrev offline : ConnectionState
  offline = connecting [] (waiting_for_network ∷ [])

  abbrev offline_report : PvpnConnection deps → Output
  offline_report c = state_changed (record {
    interface_state = deps.streams.get_tun_interface_state c.streams c.current_tun_error;
    connection_state = offline;
  })

  offline-Allowed :
      (c : PvpnConnection deps) (agent : Bool)
      → IsUnique c.peers
      → view deps c ≡ record (fresh agent) { network = false; peers = c.peers }
      → Allowed deps (fresh agent) (set_state deps c offline)
  unfolding set_state
  offline-Allowed c agent u e =
      ite_elim (Allowed deps (fresh agent)) (ConnectionState-discrete offline c.connection_state)
        (λ same. cc (same ∙ ap View.state e))
        (λ new.
          subst
            (λ w.
              Steps (fresh agent)
                (record w { state = offline; outputs = offline_report c ∷ w.outputs }))
            (sym e)
            (start
              ▸ Step.peers_updated c.peers u
              ▸ Step.reported _ (λ q. cc) refl (λ n r. refl)
              ▸ Step.network_down refl))

  network_checked-Allowed :
      (client : deps.client.Client) (streams : deps.streams.Table) (disk : deps.files.Disk)
      (clock : deps.Clock) (network_available : Bool) (peers : List PeerInfo)
      (settings : Option LocalAgentSettings)
      → IsUnique peers
      → Allowed deps (fresh (is_some settings)) (
          network_checked deps
            (record (initial deps client streams disk clock network_available peers settings) {
              client = add_all deps peers client;
            }))
  unfolding network_checked initial new_agent Recovery.new set_state
  network_checked-Allowed client streams disk clock true peers none u =
      start ▸ Step.peers_updated peers u
  network_checked-Allowed client streams disk clock true peers (some settings) u =
      start ▸ Step.peers_updated peers u
  network_checked-Allowed client streams disk clock false peers none u =
      offline-Allowed _ false u refl
  network_checked-Allowed client streams disk clock false peers (some settings) u =
      offline-Allowed _ true u refl

  capture_begun-Allowed :
      (v : View) (c : PvpnConnection deps) (o : Option PcapFileInfo)
      → Allowed deps v c
      → Allowed deps v (capture_begun deps c o)
  unfolding capture_begun
  capture_begun-Allowed v c none h = h
  capture_begun-Allowed v c (some info) h = start_packet_capture-Allowed deps v c info h

  agent_watched-Allowed :
      (v : View) (c : PvpnConnection deps) (o : Option LocalAgentSettings)
      → Allowed deps v c
      → Allowed deps v (agent_watched deps c o)
  unfolding agent_watched
  agent_watched-Allowed v c none h = h
  agent_watched-Allowed v c (some settings) h = h

  pub new-Allowed :
      (client : deps.client.Client) (streams : deps.streams.Table) (disk : deps.files.Disk)
      (clock : deps.Clock) (network_available : Bool) (peers : List PeerInfo)
      (pcap_file : Option PcapFileInfo) (settings : Option LocalAgentSettings)
      → Allowed deps
          (fresh (is_some settings))
          (new deps client streams disk clock network_available peers pcap_file settings)
  unfolding new
  new-Allowed client streams disk clock network_available peers pcap_file settings =
      let v = fresh (is_some settings) in
      agent_watched-Allowed v _ settings (
        capture_begun-Allowed v _ pcap_file (
          network_checked-Allowed client streams disk clock network_available (Peers.from peers)
            settings (from-IsUnique peers).0))
