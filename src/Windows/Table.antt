-- ===== src/Windows/Table.antt =====
-- connection/windows/streams.rs: the table of the streams, and the handles that a poll waits for.
pub mod Handles
use protun.Base.{
  ℕ, ◌^◌, ◌-◌, ◌/◌, Bool, true, false, Option, none, some, String, List, [], ◌∷◌, ◌++◌, map, min,
  ◌==◌, ite, if◌then◌else◌,
}
use protun.Io.{IoError, IoResult, ok, err, SocketAddr}
use protun.Api.State.{InterfaceError, InterfaceState, up, down}
use protun.Client.Interface.{StreamIds}
use protun.Streams.{PollResult}
use protun.Windows.Interfaces.{Network}
use protun.Windows.Socket.{WinSocket, WindowsStreamState}
use protun.Windows.Tcp
use protun.Windows.Tcp.{TcpSocketStream}
use protun.Windows.Udp
use protun.Windows.Udp.{UdpSocketStream}
use protun.Windows.Tun
use protun.Windows.Tun.{Wintun, TunStreamWindows}
use protun.Windows.Opening.{Sockets, new_tcp_stream, new_udp_stream}

-- `WAIT_TIMEOUT` and `WSA_INFINITE`.
abbrev pub timeout_event : ℕ
timeout_event = 258

abbrev pub waker_event : ℕ
waker_event = 0

abbrev pub wsa_infinite : ℕ
wsa_infinite = 2 ^ 32 - 1

-- What the table asks of the system: the sockets and the tun device, which signal handles, the wait for a
-- list of handles, and the network as it is.
pub record WinSystem : Type 1 where
  pub winsock : WinSocket
  pub sockets : Sockets winsock
  pub wintun : Wintun
  pub text : IoError → String
  pub Handle : Type 0
  pub socket_handle : winsock.Handle → Handle
  pub tun_handle : wintun.Handle → Handle
  pub network : sockets.System → Network
  pub reset : sockets.System → Handle → sockets.System
  pub wait : sockets.System → List Handle → ℕ → sockets.System × ℕ

module _ (ids : StreamIds) (w : WinSystem) where
  -- `Box<dyn WindowsStream>`.
  pub data WindowsStream : Type 0 where
    tcp : TcpSocketStream w.winsock → WindowsStream
    udp : UdpSocketStream w.winsock → WindowsStream
    tun : TunStreamWindows w.wintun w.text → WindowsStream

  abbrev pub handle : WindowsStream → w.Handle
  handle (tcp s) = w.socket_handle s.handle
  handle (udp s) = w.socket_handle s.handle
  handle (tun s) = w.tun_handle s.handle

  unfoldable pub get_state : WindowsStream → WindowsStream × WindowsStreamState
  unfolding Tcp.get_state Udp.get_state
  get_state (tcp s) = let (s', state) = Tcp.get_state w.winsock s in (tcp s', state)
  get_state (udp s) = let (s', state) = Udp.get_state w.winsock s in (udp s', state)
  get_state (tun s) = (tun s, Tun.get_state w.wintun w.text s)

  unfoldable pub has_error : WindowsStream → WindowsStream × Bool
  unfolding Tcp.has_error Udp.has_error
  has_error (tcp s) = let (s', e) = Tcp.has_error w.winsock s in (tcp s', e)
  has_error (udp s) = let (s', e) = Udp.has_error w.winsock s in (udp s', e)
  has_error (tun s) = (tun s, false)

  pub record WindowsStreamInfo : Type 0 where
    pub stream_id : ids.StreamId
    pub stream : WindowsStream

  pub record WindowsStreams : Type 0 where
    pub streams : List WindowsStreamInfo
    pub waker : w.Handle
    pub handles : List w.Handle
    pub system : w.sockets.System

  abbrev pub stream_handle : WindowsStreamInfo → w.Handle
  stream_handle s = handle s.stream

  unfoldable pub reset_handles : WindowsStreams → WindowsStreams
  reset_handles t = record t { handles = t.waker ∷ map stream_handle t.streams }

  unfoldable pub register_stream : WindowsStreams → ids.StreamId → WindowsStream → WindowsStreams
  unfolding reset_handles
  register_stream t id stream =
      reset_handles
        (record t { streams = t.streams ++ record { stream_id = id; stream = stream } ∷ [] })

  unfoldable pub new :
      TunStreamWindows w.wintun w.text → w.Handle → w.sockets.System → WindowsStreams
  unfolding register_stream
  new stream waker system =
      register_stream (record { streams = []; waker = waker; handles = []; system = system })
        ids.tun_stream_id (tun stream)

  unfoldable pub create_poll_result :
      WindowsStreamInfo → WindowsStreamInfo × PollResult ids.StreamId
  unfolding get_state has_error
  create_poll_result s =
      let (stream, state) = get_state s.stream in
      let (stream', is_error) = has_error stream in
      (
        record s { stream = stream' },
        record {
          stream_id = s.stream_id;
          is_readable = state.is_readable;
          is_writable = state.is_writable;
          is_error = is_error;
        },
      )

  -- The results of the streams from the last to the first.
  unfoldable pub get_all_streams_as_poll_results :
      List WindowsStreamInfo → List WindowsStreamInfo × List (PollResult ids.StreamId)
  unfolding create_poll_result
  get_all_streams_as_poll_results [] = ([], [])
  get_all_streams_as_poll_results (s ∷ ss) =
      let (s', result) = create_poll_result s in
      let (ss', results) = get_all_streams_as_poll_results ss in (s' ∷ ss', results ++ result ∷ [])

  abbrev pub get_stream_ref : List WindowsStreamInfo → ids.StreamId → Option WindowsStreamInfo
  get_stream_ref [] id = none
  get_stream_ref (s ∷ ss) id =
      ite (ids.StreamId-discrete s.stream_id id) (some s) (get_stream_ref ss id)

  -- The first stream of this identifier after a use of it.
  abbrev pub set_stream :
      List WindowsStreamInfo → ids.StreamId → WindowsStream → List WindowsStreamInfo
  set_stream [] id stream = []
  set_stream (s ∷ ss) id stream =
      ite (ids.StreamId-discrete s.stream_id id) (record s { stream = stream } ∷ ss)
        (s ∷ set_stream ss id stream)

  abbrev pub opened :
      WindowsStreams → ids.StreamId → IoResult WindowsStream → WindowsStreams × IoResult (Unit {0})
  opened t id (ok stream) = (register_stream t id stream, ok tt)
  opened t id (err e) = (t, err e)

  abbrev pub as_tcp : IoResult (TcpSocketStream w.winsock) → IoResult WindowsStream
  as_tcp (ok s) = ok (tcp s)
  as_tcp (err e) = err e

  abbrev pub as_udp : IoResult (UdpSocketStream w.winsock) → IoResult WindowsStream
  as_udp (ok s) = ok (udp s)
  as_udp (err e) = err e

  unfoldable pub open_new_tcp_stream :
      WindowsStreams → ids.StreamId → SocketAddr → WindowsStreams × IoResult (Unit {0})
  unfolding register_stream new_tcp_stream
  open_new_tcp_stream t id remote =
      let (system, r) = new_tcp_stream w.winsock w.sockets t.system (w.network t.system) remote in
      opened (record t { system = system }) id (as_tcp r)

  unfoldable pub open_new_udp_stream :
      WindowsStreams → ids.StreamId → SocketAddr → WindowsStreams × IoResult (Unit {0})
  unfolding register_stream new_udp_stream
  open_new_udp_stream t id remote =
      let (system, r) = new_udp_stream w.winsock w.sockets t.system (w.network t.system) remote in
      opened (record t { system = system }) id (as_udp r)

  abbrev pub retain : ids.StreamId → List WindowsStreamInfo → List WindowsStreamInfo
  retain id [] = []
  retain id (s ∷ ss) = ite (ids.StreamId-discrete s.stream_id id) (retain id ss) (s ∷ retain id ss)

  unfoldable pub close_stream : WindowsStreams → ids.StreamId → WindowsStreams
  unfolding reset_handles
  close_stream t id = reset_handles (record t { streams = retain id t.streams })

  -- A deadline is in nanoseconds.
  unfoldable pub timeout_as_millis : Option ℕ → ℕ
  timeout_as_millis none = wsa_infinite
  timeout_as_millis (some t) = min (t / 1_000_000) wsa_infinite

  unfoldable pub waited :
      WindowsStreams → w.sockets.System → ℕ → WindowsStreams × List (PollResult ids.StreamId)
  unfolding get_all_streams_as_poll_results
  waited t system index =
      if index == timeout_event
      then (record t { system = system }, [])
      else if index == waker_event
      then (record t { system = w.reset system t.waker }, [])
      else (let (streams, results) = get_all_streams_as_poll_results t.streams in
          (record t { system = system; streams = streams }, results))

  unfoldable pub poll :
      WindowsStreams → Option ℕ → WindowsStreams × IoResult (List (PollResult ids.StreamId))
  unfolding waited timeout_as_millis
  poll t deadline =
      let (system, index) = w.wait t.system t.handles (timeout_as_millis deadline) in
      let (t', results) = waited t system index in (t', ok results)

  abbrev pub interface_state : Option WindowsStreamInfo → Option InterfaceError → InterfaceState
  interface_state none error = down error
  interface_state (some s) error = up error

  unfoldable pub get_tun_interface_state : WindowsStreams → Option InterfaceError → InterfaceState
  get_tun_interface_state t error =
      interface_state (get_stream_ref t.streams ids.tun_stream_id) error
