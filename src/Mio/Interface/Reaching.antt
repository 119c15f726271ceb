-- ===== src/Mio/Interface/Reaching.antt =====
-- connection/mio/streams.rs: the tables that the loop reaches are those after its calls.
use protun.Base.{◌≡◌, refl, sym, subst, Option, none, some, List, [], ◌∷◌}
use protun.Base.Loop.{◌>>=◌}
use protun.Client.Interface.{StreamIds}
use protun.Streams.{Stream, Streams}
use protun.Mio.Table.{Mio, MioStreamInfo, MioStreams, put_stream}
use protun.Mio.Table.Tokens
use protun.Mio.Table.Tokens.{Reachable}
use protun.Mio.Interface.{mio_streams, get_stream}
use protun.Mio.Interface.Calls.{
  Call, to_read, to_write_from_buffer, to_shutdown_write, to_close, to_write, to_set_option,
  to_open_tcp, to_open_udp, to_poll, to_wait_for_write, to_update_tun, called, all_called, after_op,
  after_read, after_change,
}

module _ (ids : StreamIds) (mio : Mio) (o : Stream mio.Stream ids.SocketOption) where
  abbrev S : Streams ids
  S = mio_streams ids mio o

  -- What an operation makes of the table, by the stream that it is on.
  used-Reachable :
      (t : MioStreams ids mio) (id : ids.StreamId) (f : mio.Stream → mio.Stream)
      (after : Option (MioStreamInfo ids mio) → MioStreams ids mio)
      → after none ≡ t
      → ((s : MioStreamInfo ids mio) → after (some s) ≡ put_stream ids mio t id (f s.stream))
      → Reachable ids mio t
      → (x : Option (MioStreamInfo ids mio)) → Reachable ids mio (after x)
  used-Reachable t id f after at_none at_some r none = subst (Reachable ids mio) (sym at_none) r
  used-Reachable t id f after at_none at_some r (some s) =
      subst (Reachable ids mio) (sym (at_some s)) (Tokens.used id (f s.stream) r)

  called-Reachable :
      (c : Call ids) (t : MioStreams ids mio)
      → Reachable ids mio t
      → Reachable ids mio (called ids S c t)
  called-Reachable (to_write id bytes) t r =
      used-Reachable t id (λ s. (o.write s bytes).0)
        (λ x. after_op ids S t (
          x >>= λ s.
          some (put_stream ids mio t id (o.write s.stream bytes).0, (o.write s.stream bytes).1)))
        refl (λ s. refl) r (get_stream ids mio o t id)
  called-Reachable (to_read id) t r =
      used-Reachable t id (λ s. (o.read s).0)
        (λ x. after_read ids S t (
          x >>= λ s.
          some (
            put_stream ids mio t id (o.read s.stream).0,
            (o.read s.stream).1,
            (o.read s.stream).2,
          )))
        refl (λ s. refl) r (get_stream ids mio o t id)
  called-Reachable (to_write_from_buffer id) t r =
      used-Reachable t id (λ s. (o.write_from_buffer s).0)
        (λ x. after_op ids S t (
          x >>= λ s. some (
            put_stream ids mio t id (o.write_from_buffer s.stream).0,
            (o.write_from_buffer s.stream).1,
          )))
        refl (λ s. refl) r (get_stream ids mio o t id)
  called-Reachable (to_shutdown_write id) t r =
      used-Reachable t id o.shutdown_write
        (λ x.
          after_change ids S t
            (x >>= λ s. some (put_stream ids mio t id (o.shutdown_write s.stream))))
        refl (λ s. refl) r (get_stream ids mio o t id)
  called-Reachable (to_set_option id y) t r =
      used-Reachable t id (λ s. o.set_option s y)
        (λ x.
          after_change ids S t
            (x >>= λ s. some (put_stream ids mio t id (o.set_option s.stream y))))
        refl (λ s. refl) r (get_stream ids mio o t id)
  called-Reachable (to_open_tcp id addr) t r = Tokens.tcp_opened id addr r
  called-Reachable (to_open_udp id addr) t r = Tokens.udp_opened id addr r
  called-Reachable (to_close id) t r = Tokens.closed id r
  called-Reachable (to_poll deadline) t r = Tokens.was_polled deadline r
  called-Reachable (to_wait_for_write id wait) t r = Tokens.waits_set id wait r
  called-Reachable (to_update_tun info) t r = Tokens.tun_updated info r

  -- Whatever calls the loop makes on a table that it reaches, it reaches the table after them.
  pub all_called-Reachable :
      (cs : List (Call ids)) (t : MioStreams ids mio)
      → Reachable ids mio t
      → Reachable ids mio (all_called ids S cs t)
  all_called-Reachable [] t r = r
  all_called-Reachable (c ∷ cs) t r =
      all_called-Reachable cs (called ids S c t) (called-Reachable c t r)
