-- ===== src/Connection/Write.antt =====
-- connection/pvpn_connection.rs: opening streams and writing to them.
use protun.Base.{ℕ, Bool, true, false, Option, none, some, List, ◌&&◌, not, if◌then◌else◌, ite}
use protun.Io.{IoError, IoResult, ok, err}
use protun.Api.Config.{private_key, certificate, api_session}
use protun.Api.Events.{max_size_reached}
use protun.Client.Tunnel.{OpenStream, VpnStreamKind, udp, tcp, ActionKind}
use protun.Streams.{StreamResult, PendingWrite, pending_write, no_pending_write}
use protun.Pcap
use protun.Pcap.{PcapStream}
use protun.Recovery
use protun.Connection.State.{
  Deps, PvpnConnection, output, cache_put, stop_packet_capture, to_tun_error,
}

module _ (deps : Deps) where
  abbrev Conn : Type 0
  Conn = PvpnConnection deps

  abbrev StreamKey : Type 0
  StreamKey = deps.ids.StreamId

  abbrev pub push : Conn → StreamKey → ActionKind deps.ids.SocketOption → Conn
  push c id kind = record c { client = deps.client.push c.client (id, kind) }

  -- Only errors of sockets reach the client.
  unfoldable pub handle_stream_error : Conn → StreamKey → IoError → Conn
  handle_stream_error c id e =
      if deps.ids.after_tun id
      then (let (client, now) = deps.client.monotonic_now c.client in
          record c {
            network_recovery_handler = Recovery.on_stream_error c.network_recovery_handler e now;
            client = deps.client.push_error client id e.kind;
          })
      else c

  abbrev pub is_pending : PendingWrite → Bool
  is_pending pending_write = true
  is_pending no_pending_write = false

  unfoldable pub note_tun_result : Conn → StreamKey → StreamResult → Conn
  unfolding to_tun_error
  note_tun_result c id res =
      ite (deps.ids.StreamId-discrete id deps.ids.tun_stream_id)
        (record c { current_tun_error = to_tun_error res }) c

  unfoldable pub write_result : Conn → StreamKey → StreamResult → Conn
  unfolding handle_stream_error
  write_result c id (StreamResult.done t) =
      let c' = record c {
        streams = deps.streams.set_poll_enable_wait_for_write c.streams id (is_pending t.pends);
      } in
      if not (is_pending t.pends) && deps.ids.after_tun id then push c' id ActionKind.done else c'
  write_result c id (StreamResult.failed e) = handle_stream_error c id e
  write_result c id StreamResult.stream_closed = push c id ActionKind.close

  unfoldable pub handle_stream_write_result : Conn → StreamKey → StreamResult → Conn
  unfolding write_result note_tun_result
  handle_stream_write_result c id res = write_result (note_tun_result c id res) id res

  unfoldable pub write_capture : Conn → List ℕ → Option (PcapStream deps.files) → Conn
  unfolding stop_packet_capture
  write_capture c bytes none = c
  write_capture c bytes (some stream) =
      let stream' = Pcap.write deps.files stream bytes in
      let c' = record c { pcap_stream = some stream' } in
      if stream'.at_max_size then stop_packet_capture deps c' max_size_reached else c'

  unfoldable pub write_stream : Conn → StreamKey → Option (deps.streams.Table × StreamResult) → Conn
  unfolding handle_stream_write_result
  write_stream c id none = c
  write_stream c id (some (streams, res)) =
      handle_stream_write_result (record c { streams = streams }) id res

  unfoldable pub handle_write : Conn → StreamKey → List ℕ → Conn
  unfolding write_capture write_stream
  handle_write c id bytes =
      ite (deps.ids.StreamId-discrete id deps.ids.pcap_stream_id)
        (write_capture c bytes c.pcap_stream)
        (ite (deps.ids.StreamId-discrete id deps.ids.privkey_stream_id)
          (output deps (cache_put private_key bytes) c)
          (ite (deps.ids.StreamId-discrete id deps.ids.cert_stream_id)
            (output deps (cache_put certificate bytes) c)
            (ite (deps.ids.StreamId-discrete id deps.ids.muon_auth_stream_id)
              (output deps (cache_put api_session bytes) c)
              (write_stream c id (deps.streams.write c.streams id bytes)))))

  unfoldable pub poll_write : Conn → StreamKey → Conn
  unfolding write_stream
  poll_write c id = write_stream c id (deps.streams.write_from_buffer c.streams id)

  abbrev pub is_udp : VpnStreamKind → Bool
  is_udp udp = true
  is_udp tcp = false

  unfoldable pub opened : Conn → StreamKey → Bool → deps.streams.Table × IoResult (Unit {0}) → Conn
  unfolding handle_stream_error
  opened c id is_datagram (streams, ok u) = record c {
    network_recovery_handler = Recovery.on_successful_socket_open c.network_recovery_handler;
    streams =
        if is_datagram
        then streams
        else deps.streams.set_poll_enable_wait_for_write streams id true;
  }
  opened c id is_datagram (streams, err e) =
      handle_stream_error (record c { streams = streams }) id e

  unfoldable pub handle_open : Conn → StreamKey → OpenStream → Conn
  unfolding opened
  handle_open c id o = opened c id (is_udp o.kind) (
      if is_udp o.kind
      then deps.streams.open_new_udp_stream c.streams id o.addr
      else deps.streams.open_new_tcp_stream c.streams id o.addr)
