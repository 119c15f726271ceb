-- ===== src/Mio/Interface.antt =====
-- connection/mio/streams.rs: the table of the streams as the streams of the connection loop. The
-- operations of its streams are those of the trait object.
pub mod Calls
pub mod Bytes
pub mod Delivery
pub mod Reaching
use protun.Base.{ℕ, Option, none, some, List, [], ◌∷◌, ite}
use protun.Base.Loop.{◌>>=◌}
use protun.Client.Interface.{StreamIds}
use protun.Streams.{Stream, Streams, StreamResult}
use protun.Mio.Table
use protun.Mio.Table.{Mio, MioStreamInfo, MioStreams, get_stream_by_id, put_stream}

module _ (ids : StreamIds) (mio : Mio) (o : Stream mio.Stream ids.SocketOption) where
  abbrev pub get_stream : MioStreams ids mio → ids.StreamId → Option (MioStreamInfo ids mio)
  get_stream t id = get_stream_by_id ids mio t.streams id

  abbrev pub mio_streams : Streams ids
  mio_streams = record {
    Table = MioStreams ids mio;
    read = λ t id. get_stream t id >>= λ s.
        let (stream, result, bytes) = o.read s.stream in
        some (put_stream ids mio t id stream, result, bytes);
    write = λ t id bytes. get_stream t id >>= λ s.
        let (stream, result) = o.write s.stream bytes in
        some (put_stream ids mio t id stream, result);
    write_from_buffer = λ t id. get_stream t id >>= λ s.
        let (stream, result) = o.write_from_buffer s.stream in
        some (put_stream ids mio t id stream, result);
    set_option =
        λ t id x. get_stream t id >>= λ s. some (put_stream ids mio t id (o.set_option s.stream x));
    shutdown_write =
        λ t id. get_stream t id >>= λ s. some (put_stream ids mio t id (o.shutdown_write s.stream));
    open_new_tcp_stream = Table.open_new_tcp_stream ids mio;
    open_new_udp_stream = Table.open_new_udp_stream ids mio;
    close_stream = Table.close_stream ids mio;
    poll = Table.poll ids mio;
    set_poll_enable_wait_for_write = Table.set_poll_enable_wait_for_write ids mio;
    update_tun = Table.update_tun ids mio;
    get_tun_interface_state = Table.get_tun_interface_state ids mio;
  }
