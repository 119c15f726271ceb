-- ===== src/Mio/Interface/Delivery.antt =====
-- connection/mio/streams.rs: what the loop writes to a stream of the table gets to its socket.
use protun.Base.{ℕ, ◌≡◌, refl, sym, ap, ◌∙◌, some, List, [], ◌∷◌, ◌++◌, All}
use protun.Base.Loop.{◌>>=◌}
use protun.Client.Interface.{StreamIds}
use protun.Streams.{Stream, Streams, KeepsOrder}
use protun.Mio.Table
use protun.Mio.Table.{
  Mio, MioStreamInfo, MioStreams, Interest, Interest-discrete, get_stream_by_id, retain, registered,
  set_interest, interest_set, interest_of, polled, register_stream, socket_made, MioEvent,
  put_stream,
}
use protun.Mio.Interface.{mio_streams}
use mathlib.Core.List.{append_assoc, append-nil}
use protun.Mio.Interface.Calls.{
  Call, to_read, to_write_from_buffer, to_shutdown_write, to_close, to_write, to_set_option,
  to_open_tcp, to_open_udp, to_poll, to_wait_for_write, to_update_tun, after_op, after_read,
  after_change, called, all_called, written_by, written, Leaves,
}
use protun.Mio.Interface.Bytes.{
  bytes_in, op-bytes, quiet-bytes, made-bytes, closed-bytes, tun-bytes, polled-bytes, waiting-bytes,
}

module _ (ids : StreamIds) (mio : Mio) (o : Stream mio.Stream ids.SocketOption) (k : KeepsOrder o)
    (j : ids.StreamId) where
  abbrev S : Streams ids
  S = mio_streams ids mio o

  -- One call adds what it writes.
  called-bytes :
      (c : Call ids) (t : MioStreams ids mio) (before : List ℕ)
      → Leaves ids j c
      → bytes_in ids mio o k j t.streams ≡ some before
      → bytes_in ids mio o k j (called ids S c t).streams ≡ some (before ++ written_by ids j c)
  unfolding Table.open_new_tcp_stream Table.open_new_udp_stream Table.close_stream Table.poll
      Table.set_poll_enable_wait_for_write
  called-bytes (to_write id bytes) t before u had =
      op-bytes ids mio o k j t id (λ s. (o.write s bytes).0) bytes before
        (λ x. after_op ids S t (
          x >>= λ s.
          some (put_stream ids mio t id (o.write s.stream bytes).0, (o.write s.stream bytes).1)))
        refl (λ s. refl) (λ s xs. k.of_write s bytes xs) had
  called-bytes (to_read id) t before u had =
      quiet-bytes ids mio o k j t id (λ s. (o.read s).0) before
        (λ x. after_read ids S t (
          x >>= λ s.
          some (
            put_stream ids mio t id (o.read s.stream).0,
            (o.read s.stream).1,
            (o.read s.stream).2,
          )))
        refl (λ s. refl) k.of_read had
  called-bytes (to_write_from_buffer id) t before u had =
      quiet-bytes ids mio o k j t id (λ s. (o.write_from_buffer s).0) before
        (λ x. after_op ids S t (
          x >>= λ s. some (
            put_stream ids mio t id (o.write_from_buffer s.stream).0,
            (o.write_from_buffer s.stream).1,
          )))
        refl (λ s. refl) k.of_write_from_buffer had
  called-bytes (to_shutdown_write id) t before u had =
      quiet-bytes ids mio o k j t id o.shutdown_write before
        (λ x.
          after_change ids S t
            (x >>= λ s. some (put_stream ids mio t id (o.shutdown_write s.stream))))
        refl (λ s. refl) k.of_shutdown_write had
  called-bytes (to_set_option id x) t before u had =
      quiet-bytes ids mio o k j t id (λ s. o.set_option s x) before
        (λ y.
          after_change ids S t
            (y >>= λ s. some (put_stream ids mio t id (o.set_option s.stream x))))
        refl (λ s. refl) (λ s xs. k.of_set_option s x xs) had
  called-bytes (to_open_tcp id addr) t before u had =
      made-bytes ids mio o k j t id _ (mio.new_tcp_socket t.socket_factory addr) before had
      ∙ ap some (sym (append-nil before))
  called-bytes (to_open_udp id addr) t before u had =
      made-bytes ids mio o k j t id _ (mio.new_udp_socket t.socket_factory addr) before had
      ∙ ap some (sym (append-nil before))
  called-bytes (to_close id) t before other had =
      closed-bytes ids mio o k j t.streams id before other had ∙ ap some (sym (append-nil before))
  called-bytes (to_poll deadline) t before u had =
      polled-bytes ids mio o k j t (mio.poll t.poll deadline)
      ∙ (had ∙ ap some (sym (append-nil before)))
  called-bytes (to_wait_for_write id wait) t before u had =
      waiting-bytes ids mio o k j t id (interest_of ids mio wait)
        (get_stream_by_id ids mio t.streams id)
      ∙ (had ∙ ap some (sym (append-nil before)))
  called-bytes (to_update_tun info) t before other had =
      tun-bytes ids mio o k j t info before other had ∙ ap some (sym (append-nil before))

  -- Let the stream of an identifier be one that sends in order; of the other streams, as those of UDP and
  -- of the tun, nothing is asked. Then whatever calls the loop makes on the table, for any identifiers, new
  -- tun devices too: as long as none closes the stream of this identifier, the bytes that this stream has
  -- sent and those that wait are what they were, followed by what the loop wrote to this identifier, in
  -- order, and by nothing else. A new tun device closes the stream of the tun.
  pub all_called-bytes :
      (cs : List (Call ids)) (t : MioStreams ids mio) (before : List ℕ)
      → All (Leaves ids j) cs
      → bytes_in ids mio o k j t.streams ≡ some before
      → bytes_in ids mio o k j (all_called ids S cs t).streams ≡ some (before ++ written ids j cs)
  all_called-bytes [] t before all had = had ∙ ap some (sym (append-nil before))
  all_called-bytes (c ∷ cs) t before all had =
      all_called-bytes cs (called ids S c t) (before ++ written_by ids j c) all.1
        (called-bytes c t before all.0 had)
      ∙ ap some (append_assoc before (written_by ids j c) (written ids j cs))
