-- ===== src/Mio/Table/Tokens.antt =====
-- connection/mio/streams.rs: no two streams have one token, so an event reaches the stream that it is
-- about.
use protun.Base.{
  ℕ, suc, zero, Bool, ◌+◌, ◌<◌, ◌≡◌, refl, ap, Option, none, some, List, [], ◌∷◌, get_elem?, arith,
  ite_elim,
}
use mathlib.Core.Option.{some-injective}
use protun.Io.{IoResult, ok, err, SocketAddr}
use protun.Api.Config.{TunStreamInfo, no_tun, tun_fd}
use protun.Client.Interface.{StreamIds}
use protun.Mio.Table.{
  Mio, MioEvent, MioStreamInfo, MioStreams, Interest, Interest-discrete, readable,
  readable_writable, get_stream_by_token, put_stream, registered, register_stream, socket_made,
  open_new_tcp_stream, open_new_udp_stream, close_stream, update_tun, interest_of, interest_set,
  set_poll_enable_wait_for_write, polled, poll, poll_results, empty, new, event_result,
  poll_waker_token,
}
use protun.Mio.Table.TokenLists.{
  Infos, AreTokens, snoc-AreTokens, later-AreTokens, retain-AreTokens, set-AreTokens, put-AreTokens,
}

module _ (ids : StreamIds) (mio : Mio) where
  abbrev Table : Type 0
  Table = MioStreams ids mio

  abbrev pub HasTokens : Table → Type 0
  HasTokens t = (poll_waker_token < t.next_token) × AreTokens ids mio t.next_token t.streams

  registered-HasTokens :
      (t : Table) (info : MioStreamInfo ids mio) (r : mio.Poll × IoResult (Unit {0}))
      → HasTokens t
      → info.token ≡ t.next_token
      → HasTokens (registered ids mio (record t { next_token = t.next_token + 1 }) info r).0
  unfolding registered
  registered-HasTokens t info (poll, err e) (positive, h) is_next =
      (omega arith, later-AreTokens ids mio t.next_token t.streams h)
  registered-HasTokens t info (poll, ok u) (positive, h) is_next =
      (omega arith, snoc-AreTokens ids mio t.next_token t.streams info h positive is_next)

  register-HasTokens :
      (t : Table) (id : ids.StreamId) (stream : mio.Stream) (interest : Interest)
      → HasTokens t
      → HasTokens (register_stream ids mio t id stream interest).0
  unfolding register_stream
  register-HasTokens t id stream interest h =
      registered-HasTokens t
        (record { stream_id = id; stream = stream; token = t.next_token; interest = interest })
        (mio.register t.poll stream t.next_token interest) h refl

  made-HasTokens :
      (t : Table) (id : ids.StreamId) (interest : Interest) (r : mio.Factory × IoResult mio.Stream)
      → HasTokens t
      → HasTokens (socket_made ids mio t id interest r).0
  unfolding socket_made
  made-HasTokens t id interest (factory, err e) h = h
  made-HasTokens t id interest (factory, ok stream) h =
      register-HasTokens (record t { socket_factory = factory }) id stream interest h

  close_stream-HasTokens :
      (t : Table) (id : ids.StreamId) → HasTokens t → HasTokens (close_stream ids mio t id)
  unfolding close_stream
  close_stream-HasTokens t id (positive, h) =
      (positive, retain-AreTokens ids mio id t.next_token t.streams h)

  waited-HasTokens :
      (t : Table) (id : ids.StreamId) (interest : Interest) (o : Option (MioStreamInfo ids mio))
      → HasTokens t
      → HasTokens (interest_set ids mio t id interest o)
  unfolding interest_set
  waited-HasTokens t id interest none h = h
  waited-HasTokens t id interest (some s) (positive, h) =
      ite_elim HasTokens (Interest-discrete s.interest interest) (λ e. (positive, h))
        (λ new. (positive, set-AreTokens ids mio id interest t.next_token t.streams h))

  tun-HasTokens :
      (t : Table) (info : TunStreamInfo) → HasTokens t → HasTokens (update_tun ids mio t info).0
  unfolding update_tun
  tun-HasTokens t no_tun h = close_stream-HasTokens t ids.tun_stream_id h
  tun-HasTokens t (tun_fd fd) h =
      register-HasTokens (close_stream ids mio t ids.tun_stream_id) ids.tun_stream_id
        (mio.tun_stream fd) readable (close_stream-HasTokens t ids.tun_stream_id h)

  polled-HasTokens :
      (t : Table) (r : mio.Poll × IoResult (List MioEvent))
      → HasTokens t
      → HasTokens (polled ids mio t r).0
  unfolding polled
  polled-HasTokens t (poll, err e) h = h
  polled-HasTokens t (poll, ok events) h = h

  -- What the connection loop does to the table. A read, a write or another operation on a stream puts the
  -- stream after it, whatever it is, in the place of the stream.
  pub data Reachable : Table → Type 0 where
    made :
        (tun : Option mio.Stream) (factory : mio.Factory) (p : mio.Poll)
        → Reachable (new ids mio tun factory p).0
    tcp_opened :
        {t : Table} (id : ids.StreamId) (addr : SocketAddr)
        → Reachable t
        → Reachable (open_new_tcp_stream ids mio t id addr).0
    udp_opened :
        {t : Table} (id : ids.StreamId) (addr : SocketAddr)
        → Reachable t
        → Reachable (open_new_udp_stream ids mio t id addr).0
    used :
        {t : Table} (id : ids.StreamId) (stream : mio.Stream)
        → Reachable t
        → Reachable (put_stream ids mio t id stream)
    closed : {t : Table} (id : ids.StreamId) → Reachable t → Reachable (close_stream ids mio t id)
    waits_set :
        {t : Table} (id : ids.StreamId) (b : Bool)
        → Reachable t
        → Reachable (set_poll_enable_wait_for_write ids mio t id b)
    tun_updated :
        {t : Table} (info : TunStreamInfo) → Reachable t → Reachable (update_tun ids mio t info).0
    was_polled :
        {t : Table} (deadline : Option ℕ) → Reachable t → Reachable (poll ids mio t deadline).0

  new-HasTokens :
      (tun : Option mio.Stream) (factory : mio.Factory) (p : mio.Poll)
      → HasTokens (new ids mio tun factory p).0
  unfolding new
  new-HasTokens none factory p = (omega arith, tt)
  new-HasTokens (some tun) factory p =
      register-HasTokens (empty ids mio factory p) ids.tun_stream_id tun readable (omega arith, tt)

  -- In every table that the loop reaches, whatever mio answers, the tokens of the streams differ, and
  -- none is the waker's or is one that is still to be given.
  pub reachable-HasTokens : (t : Table) → Reachable t → HasTokens t
  unfolding open_new_tcp_stream open_new_udp_stream set_poll_enable_wait_for_write poll
  reachable-HasTokens _ (Reachable.made tun factory p) = new-HasTokens tun factory p
  reachable-HasTokens _ (Reachable.tcp_opened {t} id addr r) =
      made-HasTokens t id readable_writable _ (reachable-HasTokens t r)
  reachable-HasTokens _ (Reachable.udp_opened {t} id addr r) =
      made-HasTokens t id readable _ (reachable-HasTokens t r)
  reachable-HasTokens _ (Reachable.used {t} id stream r) =
      let (positive, h) = reachable-HasTokens t r in
      (positive, put-AreTokens ids mio id stream t.next_token t.streams h)
  reachable-HasTokens _ (Reachable.closed {t} id r) =
      close_stream-HasTokens t id (reachable-HasTokens t r)
  reachable-HasTokens _ (Reachable.waits_set {t} id b r) =
      waited-HasTokens t id (interest_of ids mio b) _ (reachable-HasTokens t r)
  reachable-HasTokens _ (Reachable.tun_updated {t} info r) =
      tun-HasTokens t info (reachable-HasTokens t r)
  reachable-HasTokens _ (Reachable.was_polled {t} deadline r) =
      polled-HasTokens t (mio.poll t.poll deadline) (reachable-HasTokens t r)

  found_by_token :
      (next i : ℕ) (ss : Infos ids mio) (s : MioStreamInfo ids mio)
      → AreTokens ids mio next ss
      → get_elem? ss i ≡ some s
      → (get_stream_by_token ids mio ss s.token ≡ some s) × (poll_waker_token < s.token)
  found_by_token next i [] s h e = cc
  found_by_token next zero (x ∷ ss) s h e =
      ground (arith, ap MioStreamInfo.token (some-injective x s e), h.0)
  found_by_token next (suc i) (x ∷ ss) s h e = ground (arith, found_by_token next i ss s h.3 e, h.2)

  -- The events of a poll, in a table that the loop reaches, whatever it opens, uses, closes and polls and
  -- whatever the streams and mio answer: one with the token of a stream is reported for the identifier of
  -- that stream and no other, and one of the waker is not reported.
  pub event_reaches_stream :
      (t : Table) (i : ℕ) (s : MioStreamInfo ids mio) (e : MioEvent) (more : List MioEvent)
      → Reachable t
      → get_elem? t.streams i ≡ some s
      → (e.token ≡ s.token
          → poll_results ids mio t.streams (e ∷ more)
            ≡ record {
              stream_id = s.stream_id;
              is_readable = e.is_readable;
              is_writable = e.is_writable;
              is_error = e.is_error;
            }
              ∷ poll_results ids mio t.streams more)
        × (e.token ≡ poll_waker_token
            → poll_results ids mio t.streams (e ∷ more) ≡ poll_results ids mio t.streams more)
  unfolding poll_results event_result
  event_reaches_stream t i s e more r at = (
    (λ same.
        let (found, above) =
          found_by_token t.next_token i t.streams s (reachable-HasTokens t r).1 at in
        ground (arith, same, found, above)),
    λ waker. ground (arith, waker),
  )
