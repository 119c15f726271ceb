-- ===== src/Mio/Table.antt =====
-- connection/mio/streams.rs: the table of the streams, each with the token that mio knows it by.
pub mod Lookups
pub mod TokenLists
pub mod Tokens
use protun.Base.{
  ℕ, ◌+◌, Bool, true, false, Option, none, some, List, [], ◌∷◌, ◌++◌, ◌==◌, if◌then◌else◌, ite,
}
use protun.Base.Int.{ℤ}
use protun.Io.{IoResult, ok, err, SocketAddr}
use protun.Api.Config.{TunStreamInfo, no_tun, tun_fd}
use protun.Api.State.{InterfaceError, InterfaceState, up, down}
use protun.Client.Interface.{StreamIds}
use protun.Streams.{PollResult}

pub data Interest : Type 0 where
  readable readable_writable : Interest

pub Interest-discrete : Discrete Interest
Interest-discrete = hlevel

pub record MioEvent : Type 0 where
  pub token : ℕ
  pub is_readable : Bool
  pub is_writable : Bool
  pub is_error : Bool

-- The sockets, the poll and the registry of mio, and the factory of sockets.
pub record Mio : Type 1 where
  pub Stream : Type 0
  pub Poll : Type 0
  pub Factory : Type 0
  pub register : Poll → Stream → ℕ → Interest → Poll × IoResult (Unit {0})
  pub reregister : Poll → Stream → ℕ → Interest → Poll × IoResult (Unit {0})
  pub deregister : Poll → Stream → Poll × IoResult (Unit {0})
  pub poll : Poll → Option ℕ → Poll × IoResult (List MioEvent)
  pub new_tcp_socket : Factory → SocketAddr → Factory × IoResult Stream
  pub new_udp_socket : Factory → SocketAddr → Factory × IoResult Stream
  pub tun_stream : ℤ → Stream

-- The token of the waker of the poll.
abbrev pub poll_waker_token : ℕ
poll_waker_token = 0

module _ (ids : StreamIds) (mio : Mio) where
  pub record MioStreamInfo : Type 0 where
    pub stream_id : ids.StreamId
    pub stream : mio.Stream
    pub token : ℕ
    pub interest : Interest

  pub record MioStreams : Type 0 where
    pub streams : List MioStreamInfo
    pub poll : mio.Poll
    pub next_token : ℕ
    pub socket_factory : mio.Factory

  abbrev pub get_stream_by_id : List MioStreamInfo → ids.StreamId → Option MioStreamInfo
  get_stream_by_id [] id = none
  get_stream_by_id (s ∷ ss) id =
      ite (ids.StreamId-discrete s.stream_id id) (some s) (get_stream_by_id ss id)

  abbrev pub get_stream_by_token : List MioStreamInfo → ℕ → Option MioStreamInfo
  get_stream_by_token [] token = none
  get_stream_by_token (s ∷ ss) token =
      if s.token == token then some s else get_stream_by_token ss token

  -- The stream that `get_stream` gives, after an operation on it.
  abbrev pub set_stream : List MioStreamInfo → ids.StreamId → mio.Stream → List MioStreamInfo
  set_stream [] id stream = []
  set_stream (s ∷ ss) id stream =
      ite (ids.StreamId-discrete s.stream_id id) (record s { stream = stream } ∷ ss)
        (s ∷ set_stream ss id stream)

  abbrev pub put_stream : MioStreams → ids.StreamId → mio.Stream → MioStreams
  put_stream t id stream = record t { streams = set_stream t.streams id stream }

  unfoldable pub registered :
      MioStreams → MioStreamInfo → mio.Poll × IoResult (Unit {0}) → MioStreams × IoResult (Unit {0})
  registered t info (poll, err e) = (record t { poll = poll }, err e)
  registered t info (poll, ok u) =
      (record t { poll = poll; streams = t.streams ++ info ∷ [] }, ok tt)

  unfoldable pub register_stream :
      MioStreams → ids.StreamId → mio.Stream → Interest → MioStreams × IoResult (Unit {0})
  unfolding registered
  register_stream t id stream interest =
      registered (record t { next_token = t.next_token + 1 })
        (record { stream_id = id; stream = stream; token = t.next_token; interest = interest })
        (mio.register t.poll stream t.next_token interest)

  unfoldable pub socket_made :
      MioStreams
      → ids.StreamId
      → Interest
      → mio.Factory × IoResult mio.Stream
      → MioStreams × IoResult (Unit {0})
  unfolding register_stream
  socket_made t id interest (factory, err e) = (record t { socket_factory = factory }, err e)
  socket_made t id interest (factory, ok stream) =
      register_stream (record t { socket_factory = factory }) id stream interest

  unfoldable pub open_new_tcp_stream :
      MioStreams → ids.StreamId → SocketAddr → MioStreams × IoResult (Unit {0})
  unfolding socket_made
  open_new_tcp_stream t id addr =
      socket_made t id readable_writable (mio.new_tcp_socket t.socket_factory addr)

  unfoldable pub open_new_udp_stream :
      MioStreams → ids.StreamId → SocketAddr → MioStreams × IoResult (Unit {0})
  unfolding socket_made
  open_new_udp_stream t id addr =
      socket_made t id readable (mio.new_udp_socket t.socket_factory addr)

  -- The poll after the stream is deregistered, if there is one; an error is only logged.
  unfoldable pub deregistered : mio.Poll → Option MioStreamInfo → mio.Poll
  deregistered poll none = poll
  deregistered poll (some s) = (mio.deregister poll s.stream).0

  abbrev pub retain : ids.StreamId → List MioStreamInfo → List MioStreamInfo
  retain id [] = []
  retain id (s ∷ ss) = ite (ids.StreamId-discrete s.stream_id id) (retain id ss) (s ∷ retain id ss)

  unfoldable pub close_stream : MioStreams → ids.StreamId → MioStreams
  unfolding deregistered
  close_stream t id = record t {
    poll = deregistered t.poll (get_stream_by_id t.streams id);
    streams = retain id t.streams;
  }

  unfoldable pub event_result : Option MioStreamInfo → MioEvent → List (PollResult ids.StreamId)
  event_result none e = []
  event_result (some s) e =
      record {
        stream_id = s.stream_id;
        is_readable = e.is_readable;
        is_writable = e.is_writable;
        is_error = e.is_error;
      }
      ∷ []

  -- The waker's event, and the events of streams that are gone, are only logged.
  unfoldable pub poll_results : List MioStreamInfo → List MioEvent → List (PollResult ids.StreamId)
  unfolding event_result
  poll_results ss [] = []
  poll_results ss (e ∷ es) =
      (if e.token == poll_waker_token then [] else event_result (get_stream_by_token ss e.token) e)
      ++ poll_results ss es

  unfoldable pub polled :
      MioStreams
      → mio.Poll × IoResult (List MioEvent)
      → MioStreams × IoResult (List (PollResult ids.StreamId))
  unfolding poll_results
  polled t (poll, err e) = (record t { poll = poll }, err e)
  polled t (poll, ok events) = (record t { poll = poll }, ok (poll_results t.streams events))

  unfoldable pub poll :
      MioStreams → Option ℕ → MioStreams × IoResult (List (PollResult ids.StreamId))
  unfolding polled
  poll t deadline = polled t (mio.poll t.poll deadline)

  abbrev pub interest_of : Bool → Interest
  interest_of true = readable_writable
  interest_of false = readable

  -- The first stream of this identifier gets the interest.
  abbrev pub set_interest : ids.StreamId → Interest → List MioStreamInfo → List MioStreamInfo
  set_interest id interest [] = []
  set_interest id interest (s ∷ ss) =
      ite (ids.StreamId-discrete s.stream_id id) (record s { interest = interest } ∷ ss)
        (s ∷ set_interest id interest ss)

  unfoldable pub interest_set :
      MioStreams → ids.StreamId → Interest → Option MioStreamInfo → MioStreams
  interest_set t id interest none = t
  interest_set t id interest (some s) = ite (Interest-discrete s.interest interest) t (record t {
    streams = set_interest id interest t.streams;
    poll = (mio.reregister t.poll s.stream s.token interest).0;
  })

  unfoldable pub set_poll_enable_wait_for_write : MioStreams → ids.StreamId → Bool → MioStreams
  unfolding interest_set
  set_poll_enable_wait_for_write t id wait_for_write =
      interest_set t id (interest_of wait_for_write) (get_stream_by_id t.streams id)

  unfoldable pub update_tun : MioStreams → TunStreamInfo → MioStreams × IoResult (Unit {0})
  unfolding close_stream register_stream
  update_tun t no_tun = (close_stream t ids.tun_stream_id, ok tt)
  update_tun t (tun_fd fd) =
      register_stream (close_stream t ids.tun_stream_id) ids.tun_stream_id (mio.tun_stream fd)
        readable

  abbrev pub interface_state : Option MioStreamInfo → Option InterfaceError → InterfaceState
  interface_state none error = down error
  interface_state (some s) error = up error

  unfoldable pub get_tun_interface_state : MioStreams → Option InterfaceError → InterfaceState
  get_tun_interface_state t error =
      interface_state (get_stream_by_id t.streams ids.tun_stream_id) error

  abbrev pub empty : mio.Factory → mio.Poll → MioStreams
  empty factory poll = record {
    streams = [];
    poll = poll;
    next_token = poll_waker_token + 1;
    socket_factory = factory;
  }

  unfoldable pub new : Option mio.Stream → mio.Factory → mio.Poll → MioStreams × IoResult (Unit {0})
  unfolding register_stream
  new none factory poll = (empty factory poll, ok tt)
  new (some tun) factory poll = register_stream (empty factory poll) ids.tun_stream_id tun readable
