-- ===== src/Windows/Tcp.antt =====
-- connection/windows/tcp.rs: a TCP socket with a buffer of what it could not send yet. The loop over the
-- buffer takes fuel.
pub mod Order
pub mod History
pub mod Ready
pub mod Ending
use protun.Base.{
  ℕ, ◌+◌, Bool, true, false, Option, some, List, [], ◌∷◌, ◌++◌, length, if◌then◌else◌,
}
use protun.Base.Loop.{◌>>=◌}
use protun.Io.{IoError, IoResult, ok, err}
use protun.Streams.{StreamResult, PendingWrite, pending_write, no_pending_write, would_not_block}
use protun.Streams
use protun.Device.Sending.{Sending, again, returned, sending}
use protun.Device.Buffer.{unsent}
use protun.Windows.Socket.{WinSocket, WindowsStreamState, merged, is_error}
use protun.Windows.SocketErrors.{SocketErrorAction, to_socket_error_action, tcp}

module _ (w : WinSocket) where
  pub record TcpSocketStream : Type 0 where
    pub socket : w.Sock
    pub write_buffer : List (List ℕ)
    pub handle : w.Handle
    pub state : WindowsStreamState

  abbrev pub new : w.Sock → w.Handle → TcpSocketStream
  new socket handle = record {
    socket = socket;
    handle = handle;
    write_buffer = [];
    state = record { is_readable = false; is_writable = false };
  }

  unfoldable pub has_error : TcpSocketStream → TcpSocketStream × Bool
  has_error s =
      let (socket, error) = w.take_error s.socket in (record s { socket = socket }, is_error error)

  unfoldable pub get_state : TcpSocketStream → TcpSocketStream × WindowsStreamState
  get_state s =
      let (socket, events) = w.get_events s.socket in
      let state = merged s.state events in (record s { socket = socket; state = state }, state)

  abbrev pub with_readable : Bool → TcpSocketStream → TcpSocketStream
  with_readable b s = record s {
    state = record { is_readable = b; is_writable = s.state.is_writable };
  }

  abbrev pub with_writable : Bool → TcpSocketStream → TcpSocketStream
  with_writable b s = record s {
    state = record { is_readable = s.state.is_readable; is_writable = b };
  }

  abbrev pub buffer_pends : List (List ℕ) → PendingWrite
  buffer_pends [] = no_pending_write
  buffer_pends (bytes ∷ more) = pending_write

  -- The result of an error: `blocked`, if it is temporary.
  abbrev pub on_error : SocketErrorAction → IoError → StreamResult → StreamResult
  on_error SocketErrorAction.fatal_socket_error e blocked = StreamResult.failed e
  on_error SocketErrorAction.would_block e blocked = blocked

  unfoldable pub received :
      TcpSocketStream → IoResult (List ℕ) → PendingWrite → TcpSocketStream × StreamResult
  unfolding to_socket_error_action
  received s (ok []) p = (with_readable false s, StreamResult.stream_closed)
  received s (ok (b ∷ bytes)) p =
      (with_readable true s, Streams.ok (length (b ∷ bytes)) would_not_block p)
  received s (err e) p = (
    with_readable false s,
    on_error (to_socket_error_action e tcp) e (Streams.ok 0 Streams.would_block p),
  )

  -- With the result, the bytes that were read.
  unfoldable pub read : TcpSocketStream → TcpSocketStream × IoResult (List ℕ) × StreamResult
  unfolding received
  read s =
      let (socket, ret) = w.read s.socket in
      let (s', result) =
        received (record s { socket = socket }) ret (buffer_pends s.write_buffer) in
      (s', ret, result)

  unfoldable pub sent :
      TcpSocketStream → w.Sock × IoResult ℕ → List ℕ → List (List ℕ) → ℕ → Sending TcpSocketStream
  unfolding to_socket_error_action
  sent s (socket, ok count) bytes more written =
      again (record s { socket = socket; write_buffer = unsent count bytes more }) (written + count)
  sent s (socket, err e) bytes more written =
      returned (with_writable false (record s { socket = socket; write_buffer = bytes ∷ more })) (
        on_error (to_socket_error_action e tcp) e
          (Streams.ok written Streams.would_block pending_write))

  unfoldable pub write_round : TcpSocketStream → List (List ℕ) → ℕ → Sending TcpSocketStream
  unfolding sent
  write_round s [] written =
      returned (with_writable true s) (Streams.ok written would_not_block no_pending_write)
  write_round s (bytes ∷ more) written = sent s (w.write s.socket bytes) bytes more written

  unfoldable pub write_from_buffer : ℕ → TcpSocketStream → Option (TcpSocketStream × StreamResult)
  unfolding sending write_round
  write_from_buffer fuel s = sending (λ u written. write_round u u.write_buffer written) fuel s 0

  unfoldable pub write : ℕ → TcpSocketStream → List ℕ → Option (TcpSocketStream × StreamResult)
  unfolding write_from_buffer
  write fuel s bytes =
      write_from_buffer fuel (record s { write_buffer = s.write_buffer ++ bytes ∷ [] })

  unfoldable pub shutdown_write : TcpSocketStream → TcpSocketStream
  shutdown_write s = record s { socket = w.shutdown s.socket }
