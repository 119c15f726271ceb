-- ===== src/Mio/Table/Lookups.antt =====
-- connection/mio/streams.rs: which stream an identifier has after the table changes.
use protun.Base.{◌+◌, ◌≡◌, ◌≢◌, refl, ap, Option, none, some, List, [], ◌∷◌, ◌++◌, ite, arith}
use protun.Base.Int.{ℤ}
use protun.Io.{IoResult, ok, err, SocketAddr}
use protun.Api.Config.{no_tun, tun_fd}
use protun.Api.State.{InterfaceError, up, down}
use protun.Client.Interface.{StreamIds}
use protun.Connection.PeerSync.Members.{or_else}
use protun.Mio.Table.{
  Mio, MioStreamInfo, MioStreams, Interest, readable, readable_writable, get_stream_by_id,
  registered, register_stream, socket_made, open_new_tcp_stream, retain, close_stream, update_tun,
  get_tun_interface_state, interface_state,
}

module _ (ids : StreamIds) (mio : Mio) where
  abbrev Infos : Type 0
  Infos = List (MioStreamInfo ids mio)

  abbrev Found : Type 0
  Found = Option (MioStreamInfo ids mio)

  pub get_by_id-retain :
      (id j : ids.StreamId) (ss : Infos)
      → get_stream_by_id ids mio (retain ids mio id ss) j
        ≡ ite (ids.StreamId-discrete id j) none (get_stream_by_id ids mio ss j)
  get_by_id-retain id j [] = ground arith
  get_by_id-retain id j (s ∷ ss) = ground (arith, get_by_id-retain id j ss)

  pub get_by_id-snoc :
      (j : ids.StreamId) (ss : Infos) (x : MioStreamInfo ids mio)
      → get_stream_by_id ids mio (ss ++ x ∷ []) j
        ≡ or_else
            (get_stream_by_id ids mio ss j)
            (ite (ids.StreamId-discrete x.stream_id j) (some x) none)
  get_by_id-snoc j [] x = refl
  get_by_id-snoc j (s ∷ ss) x = ground (arith, get_by_id-snoc j ss x)

  -- After a stream is closed its identifier has no stream, and every other one has the stream that it
  -- had.
  pub close_stream-lookup :
      (t : MioStreams ids mio) (id : ids.StreamId)
      → (get_stream_by_id ids mio (close_stream ids mio t id).streams id ≡ none)
        × ((j : ids.StreamId)
            → j ≢ id
            → get_stream_by_id ids mio (close_stream ids mio t id).streams j
              ≡ get_stream_by_id ids mio t.streams j)
  unfolding close_stream
  close_stream-lookup t id = (
    ground (arith, get_by_id-retain id id t.streams),
    λ j other. ground (arith, get_by_id-retain id j t.streams),
  )

  -- The identifier has a new stream, that waits as it should, and the others have theirs; if it failed,
  -- nothing has changed.
  abbrev pub IsOpened :
      Infos → ids.StreamId → Interest → MioStreams ids mio × IoResult (Unit {0}) → Type 0
  IsOpened before id interest (t, ok u) =
      ((s : MioStreamInfo ids mio) × (get_stream_by_id ids mio t.streams id ≡ some s)
        × (s.interest ≡ interest))
      × ((j : ids.StreamId)
          → j ≢ id
          → get_stream_by_id ids mio t.streams j ≡ get_stream_by_id ids mio before j)
  IsOpened before id interest (t, err e) = t.streams ≡ before

  registered-IsOpened :
      (t : MioStreams ids mio) (info : MioStreamInfo ids mio) (r : mio.Poll × IoResult (Unit {0}))
      → get_stream_by_id ids mio t.streams info.stream_id ≡ none
      → IsOpened t.streams info.stream_id info.interest (registered ids mio t info r)
  unfolding registered
  registered-IsOpened t info (poll, err e) free = refl
  registered-IsOpened t info (poll, ok u) free = (
    (info, ground (arith, get_by_id-snoc info.stream_id t.streams info, free), refl),
    λ j other. ground (arith, get_by_id-snoc j t.streams info),
  )

  socket_made-IsOpened :
      (t : MioStreams ids mio) (id : ids.StreamId) (interest : Interest)
      (r : mio.Factory × IoResult mio.Stream)
      → get_stream_by_id ids mio t.streams id ≡ none
      → IsOpened t.streams id interest (socket_made ids mio t id interest r)
  unfolding socket_made register_stream
  socket_made-IsOpened t id interest (factory, err e) free = refl
  socket_made-IsOpened t id interest (factory, ok stream) free =
      registered-IsOpened (record t { socket_factory = factory; next_token = t.next_token + 1 })
        (record { stream_id = id; stream = stream; token = t.next_token; interest = interest })
        (mio.register t.poll stream t.next_token interest) free

  -- Opening a TCP stream for an identifier that has none gives it one that waits to be readable or
  -- writable, and leaves the streams of the others alone; if it fails it changes no stream.
  pub open_new_tcp_stream-IsOpened :
      (t : MioStreams ids mio) (id : ids.StreamId) (addr : SocketAddr)
      → get_stream_by_id ids mio t.streams id ≡ none
      → IsOpened t.streams id readable_writable (open_new_tcp_stream ids mio t id addr)
  unfolding open_new_tcp_stream
  open_new_tcp_stream-IsOpened t id addr free =
      socket_made-IsOpened t id readable_writable (mio.new_tcp_socket t.socket_factory addr) free

  -- The interface is up exactly if the device was registered.
  abbrev pub IsTunState : Option InterfaceError → MioStreams ids mio × IoResult (Unit {0}) → Type 0
  IsTunState error (t, ok u) = get_tun_interface_state ids mio t error ≡ up error
  IsTunState error (t, err e) = get_tun_interface_state ids mio t error ≡ down error

  registered-IsTunState :
      (t : MioStreams ids mio) (info : MioStreamInfo ids mio) (r : mio.Poll × IoResult (Unit {0}))
      (error : Option InterfaceError)
      → info.stream_id ≡ ids.tun_stream_id
      → get_stream_by_id ids mio t.streams ids.tun_stream_id ≡ none
      → IsTunState error (registered ids mio t info r)
  unfolding registered get_tun_interface_state
  registered-IsTunState t info (poll, err e) error is_tun free =
      ap (λ o. interface_state ids mio o error) free
  registered-IsTunState t info (poll, ok u) error is_tun free =
      ground (arith, get_by_id-snoc ids.tun_stream_id t.streams info, free, is_tun)

  -- Whatever tun device there was: after an update to no device the interface is down, and after an
  -- update to a device it is up if the device could be registered and down if not.
  pub update_tun-state :
      (t : MioStreams ids mio) (fd : ℤ) (error : Option InterfaceError)
      → (get_tun_interface_state ids mio (update_tun ids mio t no_tun).0 error ≡ down error)
        × IsTunState error (update_tun ids mio t (tun_fd fd))
  unfolding update_tun register_stream get_tun_interface_state
  update_tun-state t fd error =
      let closed = close_stream ids mio t ids.tun_stream_id in
      let free = (close_stream-lookup t ids.tun_stream_id).0 in
      (
        ap (λ o. interface_state ids mio o error) free,
        registered-IsTunState (record closed { next_token = closed.next_token + 1 }) _
            (mio.register closed.poll (mio.tun_stream fd) closed.next_token readable) error refl
            free,
      )
