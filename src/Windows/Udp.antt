-- ===== src/Windows/Udp.antt =====
-- connection/windows/udp.rs: a UDP socket, which has no write buffer.
use protun.Base.{ℕ, Bool, true, false, List, length}
use protun.Io.{IoError, IoResult, ok, err}
use protun.Streams
use protun.Streams.{StreamResult, would_block, would_not_block, no_pending_write}
use protun.Windows.Socket.{WinSocket, WindowsStreamState, merged, is_error}
use protun.Windows.SocketErrors.{SocketErrorAction, to_socket_error_action, udp}

module _ (w : WinSocket) where
  pub record UdpSocketStream : Type 0 where
    pub socket : w.Sock
    pub handle : w.Handle
    pub state : WindowsStreamState

  abbrev pub new : w.Sock → w.Handle → UdpSocketStream
  new socket handle = record {
    socket = socket;
    handle = handle;
    state = record { is_readable = false; is_writable = false };
  }

  unfoldable pub has_error : UdpSocketStream → UdpSocketStream × Bool
  has_error s =
      let (socket, error) = w.take_error s.socket in (record s { socket = socket }, is_error error)

  unfoldable pub get_state : UdpSocketStream → UdpSocketStream × WindowsStreamState
  get_state s =
      let (socket, events) = w.get_events s.socket in
      let state = merged s.state events in (record s { socket = socket; state = state }, state)

  abbrev pub with_readable : Bool → UdpSocketStream → UdpSocketStream
  with_readable b s = record s {
    state = record { is_readable = b; is_writable = s.state.is_writable };
  }

  abbrev pub with_writable : Bool → UdpSocketStream → UdpSocketStream
  with_writable b s = record s {
    state = record { is_readable = s.state.is_readable; is_writable = b };
  }

  -- The result of an error, by which nothing was read or written.
  abbrev pub no_transfer : SocketErrorAction → IoError → StreamResult
  no_transfer SocketErrorAction.fatal_socket_error e = StreamResult.failed e
  no_transfer SocketErrorAction.would_block e = Streams.ok 0 would_block no_pending_write

  unfoldable pub received : UdpSocketStream → IoResult (List ℕ) → UdpSocketStream × StreamResult
  unfolding to_socket_error_action
  received s (ok bytes) =
      (with_readable true s, Streams.ok (length bytes) would_not_block no_pending_write)
  received s (err e) = (with_readable false s, no_transfer (to_socket_error_action e udp) e)

  -- With the result, the bytes that were read.
  unfoldable pub read : UdpSocketStream → UdpSocketStream × IoResult (List ℕ) × StreamResult
  unfolding received
  read s =
      let (socket, ret) = w.read s.socket in
      let (s', result) = received (record s { socket = socket }) ret in (s', ret, result)

  unfoldable pub sent : UdpSocketStream → IoResult ℕ → UdpSocketStream × StreamResult
  unfolding to_socket_error_action
  sent s (ok size) = (with_writable true s, Streams.ok size would_not_block no_pending_write)
  sent s (err e) = (with_writable false s, no_transfer (to_socket_error_action e udp) e)

  unfoldable pub write : UdpSocketStream → List ℕ → UdpSocketStream × StreamResult
  unfolding sent
  write s bytes =
      let (socket, ret) = w.write s.socket bytes in sent (record s { socket = socket }) ret

  unfoldable pub write_from_buffer : UdpSocketStream → UdpSocketStream × StreamResult
  write_from_buffer s = (s, Streams.ok 0 would_not_block no_pending_write)
