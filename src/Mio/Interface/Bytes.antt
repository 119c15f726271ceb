-- ===== src/Mio/Interface/Bytes.antt =====
-- connection/mio/streams.rs: how an operation on the table changes the bytes of its streams.
use protun.Base.{
  ℕ, ◌+◌, ◌≡◌, ◌≢◌, refl, sym, ap, ◌∙◌, Option, none, some, List, [], ◌∷◌, ◌++◌, ite, ite_elim,
  if_neg, arith,
}
use protun.Io.{IoResult, ok, err}
use protun.Client.Interface.{StreamIds}
use protun.Streams.{Stream, KeepsOrder}
use protun.Mio.Table.{
  Mio, MioStreamInfo, MioStreams, Interest, Interest-discrete, get_stream_by_id, retain, registered,
  set_interest, interest_set, polled, register_stream, socket_made, MioEvent, set_stream,
  put_stream, update_tun, close_stream, readable,
}
use protun.Mio.Table.Lookups.{get_by_id-snoc, get_by_id-retain}
use protun.Api.Config.{TunStreamInfo, no_tun, tun_fd}
use protun.Mio.Interface.{get_stream}
use mathlib.Core.List.{append-nil}
use protun.Connection.PeerSync.Members.{or_else}

module _ (ids : StreamIds) (mio : Mio) (o : Stream mio.Stream ids.SocketOption) (k : KeepsOrder o)
    (j : ids.StreamId) where
  abbrev pub Tbl : Type 0
  Tbl = MioStreams ids mio

  abbrev pub Infos : Type 0
  Infos = List (MioStreamInfo ids mio)

  abbrev with_stream : mio.Stream → Option (MioStreamInfo ids mio) → Option (MioStreamInfo ids mio)
  with_stream stream none = none
  with_stream stream (some s) = some (record s { stream = stream })

  get_by_id-set_stream :
      (ss : Infos) (id : ids.StreamId) (stream : mio.Stream)
      → get_stream_by_id ids mio (set_stream ids mio ss id stream) j
        ≡ ite
            (ids.StreamId-discrete id j)
            (with_stream stream (get_stream_by_id ids mio ss j))
            (get_stream_by_id ids mio ss j)
  get_by_id-set_stream [] id stream = ground arith
  get_by_id-set_stream (s ∷ ss) id stream = ground (arith, get_by_id-set_stream ss id stream)

  abbrev with_interest : Interest → Option (MioStreamInfo ids mio) → Option (MioStreamInfo ids mio)
  with_interest interest none = none
  with_interest interest (some s) = some (record s { interest = interest })

  get_by_id-set_interest :
      (ss : Infos) (id : ids.StreamId) (interest : Interest)
      → get_stream_by_id ids mio (set_interest ids mio id interest ss) j
        ≡ ite
            (ids.StreamId-discrete id j)
            (with_interest interest (get_stream_by_id ids mio ss j))
            (get_stream_by_id ids mio ss j)
  get_by_id-set_interest [] id interest = ground arith
  get_by_id-set_interest (s ∷ ss) id interest =
      ground (arith, get_by_id-set_interest ss id interest)

  -- The bytes of the stream that the identifier has, if it is one that keeps order.
  abbrev pub bytes_of : Option (MioStreamInfo ids mio) → Option (List ℕ)
  bytes_of none = none
  bytes_of (some s) = k.all_bytes s.stream

  abbrev pub bytes_in : Infos → Option (List ℕ)
  bytes_in ss = bytes_of (get_stream_by_id ids mio ss j)

  set_stream-bytes :
      (ss : Infos) (id : ids.StreamId) (stream : mio.Stream) (u : MioStreamInfo ids mio)
      (before more : List ℕ)
      → get_stream_by_id ids mio ss id ≡ some u
      → ((xs : List ℕ) → k.all_bytes u.stream ≡ some xs → k.all_bytes stream ≡ some (xs ++ more))
      → bytes_in ss ≡ some before
      → bytes_in (set_stream ids mio ss id stream)
        ≡ some (before ++ ite (ids.StreamId-discrete id j) more [])
  set_stream-bytes ss id stream u before more found grown had =
      ap bytes_of (get_by_id-set_stream ss id stream) ∙ by_id (ids.StreamId-discrete id j)
    where
      by_id :
          (d : Dec (id ≡ j))
          → bytes_of (
              ite d
                (with_stream stream (get_stream_by_id ids mio ss j))
                (get_stream_by_id ids mio ss j))
            ≡ some (before ++ ite d more [])
      by_id (yes e) =
          let at_j : get_stream_by_id ids mio ss j ≡ some u = cc in
          ap (λ x. bytes_of (with_stream stream x)) at_j
          ∙ grown before (sym (ap bytes_of at_j) ∙ had)
      by_id (no ne) = had ∙ ap some (sym (append-nil before))

  pub op-bytes :
      (t : Tbl) (id : ids.StreamId) (f : mio.Stream → mio.Stream) (more before : List ℕ)
      (after : Option (MioStreamInfo ids mio) → Tbl)
      → after none ≡ t
      → ((s : MioStreamInfo ids mio) → after (some s) ≡ put_stream ids mio t id (f s.stream))
      → ((s : mio.Stream) (xs : List ℕ)
          → k.all_bytes s ≡ some xs
          → k.all_bytes (f s) ≡ some (xs ++ more))
      → bytes_in t.streams ≡ some before
      → bytes_in (after (get_stream ids mio o t id)).streams
        ≡ some (before ++ ite (ids.StreamId-discrete id j) more [])
  op-bytes t id f more before after at_none at_some grown had =
      by_found (get_stream ids mio o t id) refl
    where
      by_id :
          (d : Dec (id ≡ j))
          → get_stream_by_id ids mio t.streams id ≡ none
          → bytes_in t.streams ≡ some (before ++ ite d more [])
      by_id (yes e) missing =
          let at_j : get_stream_by_id ids mio t.streams j ≡ none = cc in
          let was : none ≡ some before = sym (ap bytes_of at_j) ∙ had in cc
      by_id (no ne) missing = had ∙ ap some (sym (append-nil before))

      by_found :
          (x : Option (MioStreamInfo ids mio))
          → get_stream_by_id ids mio t.streams id ≡ x
          → bytes_in (after x).streams ≡ some (before ++ ite (ids.StreamId-discrete id j) more [])
      by_found none missing =
          ap (λ u. bytes_in u.streams) at_none ∙ by_id (ids.StreamId-discrete id j) missing
      by_found (some s) found =
          ap (λ u. bytes_in u.streams) (at_some s)
          ∙ set_stream-bytes t.streams id (f s.stream) s before more found (grown s.stream) had

  -- An operation that writes nothing.
  pub quiet-bytes :
      (t : Tbl) (id : ids.StreamId) (f : mio.Stream → mio.Stream) (before : List ℕ)
      (after : Option (MioStreamInfo ids mio) → Tbl)
      → after none ≡ t
      → ((s : MioStreamInfo ids mio) → after (some s) ≡ put_stream ids mio t id (f s.stream))
      → ((s : mio.Stream) (xs : List ℕ) → k.all_bytes s ≡ some xs → k.all_bytes (f s) ≡ some xs)
      → bytes_in t.streams ≡ some before
      → bytes_in (after (get_stream ids mio o t id)).streams ≡ some (before ++ [])
  quiet-bytes t id f before after at_none at_some same had =
      op-bytes t id f [] before after at_none at_some
        (λ s xs e. same s xs e ∙ ap some (sym (append-nil xs))) had
      ∙ ite_elim (λ xs. some (before ++ xs) ≡ some (before ++ [])) (ids.StreamId-discrete id j)
          (λ e. refl) (λ ne. refl)

  registered-bytes :
      (t : Tbl) (info : MioStreamInfo ids mio) (r : mio.Poll × IoResult (Unit {0}))
      (before : List ℕ)
      → bytes_in t.streams ≡ some before
      → bytes_in (registered ids mio t info r).0.streams ≡ some before
  unfolding registered
  registered-bytes t info (poll, err e) before had = had
  registered-bytes t info (poll, ok u) before had =
      ap bytes_of (get_by_id-snoc ids mio j t.streams info)
      ∙ by_found (get_stream_by_id ids mio t.streams j) had
    where
      by_found :
          (x : Option (MioStreamInfo ids mio))
          → bytes_of x ≡ some before
          → bytes_of (or_else x (ite (ids.StreamId-discrete info.stream_id j) (some info) none))
            ≡ some before
      by_found none h = cc
      by_found (some s) h = h

  pub made-bytes :
      (t : Tbl) (id : ids.StreamId) (interest : Interest) (r : mio.Factory × IoResult mio.Stream)
      (before : List ℕ)
      → bytes_in t.streams ≡ some before
      → bytes_in (socket_made ids mio t id interest r).0.streams ≡ some before
  unfolding socket_made register_stream
  made-bytes t id interest (factory, err e) before had = had
  made-bytes t id interest (factory, ok stream) before had =
      registered-bytes (record t { socket_factory = factory; next_token = t.next_token + 1 })
        (record { stream_id = id; stream = stream; token = t.next_token; interest = interest })
        (mio.register t.poll stream t.next_token interest) before had

  pub closed-bytes :
      (ss : Infos) (id : ids.StreamId) (before : List ℕ)
      → id ≢ j
      → bytes_in ss ≡ some before
      → bytes_in (retain ids mio id ss) ≡ some before
  closed-bytes ss id before other had =
      ap bytes_of (get_by_id-retain ids mio id j ss)
      ∙ (ap bytes_of
            (if_neg (ids.StreamId-discrete id j) other none (get_stream_by_id ids mio ss j))
          ∙ had)

  pub tun-bytes :
      (t : Tbl) (info : TunStreamInfo) (before : List ℕ)
      → ids.tun_stream_id ≢ j
      → bytes_in t.streams ≡ some before
      → bytes_in (update_tun ids mio t info).0.streams ≡ some before
  unfolding update_tun close_stream register_stream
  tun-bytes t no_tun before other had = closed-bytes t.streams ids.tun_stream_id before other had
  tun-bytes t (tun_fd fd) before other had =
      let t' = close_stream ids mio t ids.tun_stream_id in
      registered-bytes (record t' { next_token = t'.next_token + 1 })
        (record {
          stream_id = ids.tun_stream_id;
          stream = mio.tun_stream fd;
          token = t'.next_token;
          interest = readable;
        })
        (mio.register t'.poll (mio.tun_stream fd) t'.next_token readable) before
        (closed-bytes t.streams ids.tun_stream_id before other had)

  pub polled-bytes :
      (t : Tbl) (r : mio.Poll × IoResult (List MioEvent))
      → bytes_in (polled ids mio t r).0.streams ≡ bytes_in t.streams
  unfolding polled
  polled-bytes t (poll, err e) = refl
  polled-bytes t (poll, ok events) = refl

  interest-bytes :
      (ss : Infos) (id : ids.StreamId) (interest : Interest)
      → bytes_in (set_interest ids mio id interest ss) ≡ bytes_in ss
  interest-bytes ss id interest =
      ap bytes_of (get_by_id-set_interest ss id interest)
      ∙ ite_elim (λ x. bytes_of x ≡ bytes_in ss) (ids.StreamId-discrete id j)
          (λ e. same (get_stream_by_id ids mio ss j)) (λ ne. refl)
    where
      same : (x : Option (MioStreamInfo ids mio)) → bytes_of (with_interest interest x) ≡ bytes_of x
      same none = refl
      same (some s) = refl

  pub waiting-bytes :
      (t : Tbl) (id : ids.StreamId) (interest : Interest) (x : Option (MioStreamInfo ids mio))
      → bytes_in (interest_set ids mio t id interest x).streams ≡ bytes_in t.streams
  unfolding interest_set
  waiting-bytes t id interest none = refl
  waiting-bytes t id interest (some s) =
      ite_elim (λ (u : Tbl). bytes_in u.streams ≡ bytes_in t.streams)
        (Interest-discrete s.interest interest) (λ e. refl)
        (λ ne. interest-bytes t.streams id interest)
