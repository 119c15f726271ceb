-- ===== src/Connection/Refines.antt =====
-- The connection loop of connection/pvpn_connection.rs seen through its contract, and its reports one
-- by one: the state, the packet capture and the writes.
pub mod Loops
pub mod Messages
pub mod Whole
use protun.Base.{
  ℕ, ◌&&◌, not, ◌≡◌, ◌≢◌, refl, sym, ◌∙◌, ap, Bool, true, false, Option, none, some, List, [], ◌∷◌,
  ite, is_some, if_elim, ite_elim, if◌then◌else◌, Bool-cases, subst,
}
use protun.Io.{IoError, IoResult, ok, err, OnOk}
use protun.Api.Config.{PcapFileInfo}
use protun.Api.State.{fits_mode, ConnectionState, ConnectionState-discrete}
use protun.Api.Events.{
  is_capture, Event, CaptureStopReason, max_size_reached, packet_capture_started,
  packet_capture_stopped, already_stopped,
}
use protun.Streams.{StreamResult}
use protun.Pcap
use protun.Pcap.{PcapStream}
use protun.Recovery
use protun.Recovery.{NetworkRecoveryHandler}
use protun.Recovery.Backoff.{on_stream_error-network, socket_open-network}
use protun.Pcap.Limit.{new-file_info, write-file_info}
use protun.Client.Tunnel.{OpenStream}
use protun.Connection.State.{
  Deps, PvpnConnection, event, set_state, emit_event, start_packet_capture, started,
  stop_packet_capture, stopped,
}
use protun.Connection.Write.{
  handle_stream_error, handle_write, handle_open, poll_write, handle_stream_write_result,
  write_result, write_stream, opened, is_pending, is_udp, write_capture, note_tun_result,
}
use protun.Connection.Contract.{View, Step, Steps, start, ◌▸◌, is_waiting, IsReasonFor}
use mathlib.Core.Option

module _ (deps : Deps) where
  abbrev Conn : Type 0
  Conn = PvpnConnection deps

  abbrev pub file_of : PcapStream deps.files → PcapFileInfo
  file_of s = s.file_info

  abbrev pub view : Conn → View
  view c = record {
    state = c.connection_state;
    peers = c.peers;
    network = c.network_recovery_handler.network_available;
    capture = Option.map file_of c.pcap_stream;
    agent = is_some c.local_agent_handler;
    settings = is_some c.local_agent_settings;
    stopping = c.should_stop;
    outputs = c.outputs;
  }

  module _ (v : View) where
    -- The contract allows what the connection did since `v`.
    abbrev pub Allowed : Conn → Type 0
    Allowed c = Steps v (view c)

    pub set_state-Allowed :
        (c : Conn) (s : ConnectionState)
        → fits_mode (is_some c.local_agent_handler) s ≡ true
        → (c.network_recovery_handler.network_available ≡ false
            → c.should_stop ≡ false
            → is_waiting s ≡ true)
        → Allowed c
        → Allowed (set_state deps c s)
    unfolding set_state
    set_state-Allowed c s fits waits h =
        ite_elim Allowed (ConnectionState-discrete s c.connection_state) (λ e. h)
          (λ new. h ▸ Step.reported _ new fits waits)

    pub emit_event-Allowed :
        (c : Conn) (e : Event) → is_capture e ≡ false → Allowed c → Allowed (emit_event deps c e)
    unfolding emit_event
    emit_event-Allowed c e no_capture h = h ▸ Step.told no_capture

    stopped-Allowed :
        (c : Conn) (reason : PcapFileInfo → CaptureStopReason) (o : Option (PcapStream deps.files))
        → Option.map file_of c.pcap_stream ≡ Option.map file_of o
        → ((info : PcapFileInfo) → IsReasonFor (some info) (reason info))
        → Allowed c
        → Allowed (stopped deps c reason o)
    unfolding stopped emit_event
    stopped-Allowed c reason none e right h =
        subst
          (λ f. Steps v (record (view c) {
            capture = f;
            outputs = event (packet_capture_stopped already_stopped) ∷ c.outputs;
          }))
          (sym e)
          (h
            ▸ Step.capture_stopped {r = already_stopped}
                (subst (λ f. IsReasonFor f already_stopped) (sym e) refl))
    stopped-Allowed c reason (some s) e right h =
        h
        ▸ Step.capture_stopped
            (subst (λ f. IsReasonFor f (reason s.file_info)) (sym e) (right s.file_info))

    pub stop_packet_capture-Allowed :
        (c : Conn) (reason : PcapFileInfo → CaptureStopReason)
        → ((info : PcapFileInfo) → IsReasonFor (some info) (reason info))
        → Allowed c
        → Allowed (stop_packet_capture deps c reason)
    unfolding stop_packet_capture
    stop_packet_capture-Allowed c reason right h =
        stopped-Allowed _ reason c.pcap_stream refl right h

    started-Allowed :
        (c : Conn) (info : PcapFileInfo) (r : deps.files.Disk × IoResult (PcapStream deps.files))
        → OnOk (λ s. s.file_info ≡ info) r.1
        → Allowed c
        → Allowed (started deps c info r)
    unfolding started emit_event
    started-Allowed c info (disk, err e) same h = h
    started-Allowed c info (disk, ok s) same h =
        subst
          (λ f. Steps v (record (view c) {
            capture = some f;
            outputs = event (packet_capture_started info) ∷ c.outputs;
          }))
          (sym same) (h ▸ Step.capture_started info)

    pub start_packet_capture-Allowed :
        (c : Conn) (info : PcapFileInfo) → Allowed c → Allowed (start_packet_capture deps c info)
    unfolding start_packet_capture
    start_packet_capture-Allowed c info h =
        started-Allowed c info (Pcap.new deps.files c.disk info)
          (new-file_info deps.files c.disk info) h

    -- The recovery handler may change in all but the network.
    pub recovering-Allowed :
        (c : Conn) (r : NetworkRecoveryHandler)
        → r.network_available ≡ c.network_recovery_handler.network_available
        → Allowed c
        → Allowed (record c { network_recovery_handler = r })
    recovering-Allowed c r same h =
        subst (λ n. Steps v (record (view c) { network = n })) (sym same) h

    pub handle_stream_error-Allowed :
        (c : Conn) (id : deps.ids.StreamId) (e : IoError)
        → Allowed c
        → Allowed (handle_stream_error deps c id e)
    unfolding handle_stream_error
    handle_stream_error-Allowed c id e h =
        if_elim Allowed (deps.ids.after_tun id)
          (λ a.
            let now = (deps.client.monotonic_now c.client).1 in
            let r = c.network_recovery_handler in
            recovering-Allowed c (Recovery.on_stream_error r e now)
              (on_stream_error-network r e now) h)
          (λ a. h)

    pub note_tun_result-Allowed :
        (c : Conn) (id : deps.ids.StreamId) (res : StreamResult)
        → Allowed c
        → Allowed (note_tun_result deps c id res)
    unfolding note_tun_result
    note_tun_result-Allowed c id res h =
        ite_elim Allowed (deps.ids.StreamId-discrete id deps.ids.tun_stream_id) (λ e. h) (λ e. h)

    write_result-Allowed :
        (c : Conn) (id : deps.ids.StreamId) (res : StreamResult)
        → Allowed c
        → Allowed (write_result deps c id res)
    unfolding write_result
    write_result-Allowed c id (StreamResult.done t) h =
        if_elim Allowed (not (is_pending deps t.pends) && deps.ids.after_tun id) (λ e. h) (λ e. h)
    write_result-Allowed c id (StreamResult.failed e) h = handle_stream_error-Allowed c id e h
    write_result-Allowed c id StreamResult.stream_closed h = h

    write_stream-Allowed :
        (c : Conn) (id : deps.ids.StreamId) (r : Option (deps.streams.Table × StreamResult))
        → Allowed c
        → Allowed (write_stream deps c id r)
    unfolding write_stream handle_stream_write_result
    write_stream-Allowed c id none h = h
    write_stream-Allowed c id (some (streams, res)) h =
        write_result-Allowed (note_tun_result deps (record c { streams = streams }) id res) id res
          (note_tun_result-Allowed (record c { streams = streams }) id res h)

    write_capture-Allowed :
        (c : Conn) (bytes : List ℕ) (o : Option (PcapStream deps.files))
        → c.pcap_stream ≡ o
        → Allowed c
        → Allowed (write_capture deps c bytes o)
    unfolding write_capture
    write_capture-Allowed c bytes none e h = h
    write_capture-Allowed c bytes (some stream) e h =
        let kept =
          subst (λ f. Steps v (record (view c) { capture = f }))
            (ap (Option.map file_of) e ∙ ap some (sym (write-file_info deps.files stream bytes)))
            h in
        if_elim Allowed (Pcap.write deps.files stream bytes).at_max_size
          (λ full.
            stop_packet_capture-Allowed
              (record c { pcap_stream = some (Pcap.write deps.files stream bytes) })
              max_size_reached (λ info. refl) kept)
          (λ more. kept)

    pub handle_write-Allowed :
        (c : Conn) (id : deps.ids.StreamId) (bytes : List ℕ)
        → Allowed c
        → Allowed (handle_write deps c id bytes)
    unfolding handle_write
    handle_write-Allowed c id bytes h =
        ite_elim Allowed (deps.ids.StreamId-discrete id deps.ids.pcap_stream_id)
          (λ e. write_capture-Allowed c bytes c.pcap_stream refl h)
          λ e.
            ite_elim Allowed (deps.ids.StreamId-discrete id deps.ids.privkey_stream_id)
              (λ e. h ▸ Step.cached _ bytes)
              λ e.
                ite_elim Allowed (deps.ids.StreamId-discrete id deps.ids.cert_stream_id)
                  (λ e. h ▸ Step.cached _ bytes)
                  λ e.
                    ite_elim Allowed (deps.ids.StreamId-discrete id deps.ids.muon_auth_stream_id)
                      (λ e. h ▸ Step.cached _ bytes) λ e. write_stream-Allowed c id _ h

    pub poll_write-Allowed :
        (c : Conn) (id : deps.ids.StreamId) → Allowed c → Allowed (poll_write deps c id)
    unfolding poll_write
    poll_write-Allowed c id h = write_stream-Allowed c id _ h

    opened-Allowed :
        (c : Conn) (id : deps.ids.StreamId) (is_datagram : Bool)
        (r : deps.streams.Table × IoResult (Unit {0}))
        → Allowed c
        → Allowed (opened deps c id is_datagram r)
    unfolding opened
    opened-Allowed c id is_datagram (streams, ok u) h =
        let r = c.network_recovery_handler in
        recovering-Allowed c (Recovery.on_successful_socket_open r) (socket_open-network r) h
    opened-Allowed c id is_datagram (streams, err e) h =
        handle_stream_error-Allowed (record c { streams = streams }) id e h

    pub handle_open-Allowed :
        (c : Conn) (id : deps.ids.StreamId) (o : OpenStream)
        → Allowed c
        → Allowed (handle_open deps c id o)
    unfolding handle_open
    handle_open-Allowed c id o h =
        opened-Allowed c id (is_udp deps o.kind)
          (if is_udp deps o.kind
            then deps.streams.open_new_udp_stream c.streams id o.addr
            else deps.streams.open_new_tcp_stream c.streams id o.addr)
          h
