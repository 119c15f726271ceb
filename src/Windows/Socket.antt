-- ===== src/Windows/Socket.antt =====
-- connection/windows/helpers/socket_handle.rs, and what TCP and UDP sockets share: the events that have
-- come stay known until a read or a write blocks.
use protun.Base.{Bool, true, false, ◌||◌, Option, none, some}
use protun.Io.{IoError, IoResult, ok, err}
use protun.Device.{Device}

pub record SocketEvent : Type 0 where
  pub is_readable : Bool
  pub is_writable : Bool

-- What Winsock tells of a socket: its pending error, and the events since it was last asked, each once. A
-- handle is that of the event that it signals.
pub record WinSocket : Type 1 where
  pub device : Device
  pub open device use *
  pub Handle : Type 0
  pub take_error : Sock → Sock × IoResult (Option IoError)
  pub get_events : Sock → Sock × SocketEvent

pub record WindowsStreamState : Type 0 where
  pub is_readable : Bool
  pub is_writable : Bool

-- The result of `has_error`: there is an error, or none could be fetched.
abbrev pub is_error : IoResult (Option IoError) → Bool
is_error (ok none) = false
is_error (ok (some e)) = true
is_error (err e) = true

abbrev pub merged : WindowsStreamState → SocketEvent → WindowsStreamState
merged s events = record {
  is_readable = s.is_readable || events.is_readable;
  is_writable = s.is_writable || events.is_writable;
}
