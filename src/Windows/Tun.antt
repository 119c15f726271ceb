-- ===== src/Windows/Tun.antt =====
-- connection/windows/tun_windows.rs: the tun device of Wintun. The loop of a write takes fuel.
pub mod Packets
use protun.Base.{
  ℕ, zero, suc, Bool, Option, none, some, String, List, [], ◌∷◌, drop, take, length, min,
}
use protun.Io.{IoError, other}
use protun.Streams
use protun.Streams.{StreamResult, would_block, would_not_block, no_pending_write}
use protun.Windows.Socket.{WindowsStreamState}
use protun.Windows.ProTunError.{Fallible, done, fatal, wintun_session_handle_creation_failed}

pub data WintunError : Type 0 where
  io : IoError → WintunError
  another : String → WintunError

pub data WintunResult (A : Type 0) : Type 0 where
  ok : A → WintunResult A
  err : WintunError → WintunResult A

-- A session of Wintun: its event, a packet that has come, if there is one, and the size of a packet
-- that it allocates and the sending of it.
pub record Wintun : Type 1 where
  pub Session : Type 0
  pub Handle : Type 0
  pub get_read_wait_event : Session → WintunResult Handle
  pub try_receive : Session → Session × WintunResult (Option (List ℕ))
  pub allocate_send_packet : Session → ℕ → Session × WintunResult ℕ
  pub send_packet : Session → List ℕ → Session

abbrev pub u16_max : ℕ
u16_max = 65535

abbrev pub other_error : String → IoError
other_error message = record { kind = other; raw_os_error = none; message = message }

-- `io::Error::new(ErrorKind::Other, error)`, whose text is that of the error.
abbrev pub as_other : (IoError → String) → WintunError → StreamResult
as_other text (io e) = StreamResult.failed (other_error (text e))
as_other text (another message) = StreamResult.failed (other_error message)

unfoldable pub wintun_error_to_result : WintunError → StreamResult
wintun_error_to_result (io e) = StreamResult.failed e
wintun_error_to_result (another message) = StreamResult.failed (other_error message)

module _ (t : Wintun) (text : IoError → String) where
  pub record TunStreamWindows : Type 0 where
    pub tun : t.Session
    pub handle : t.Handle

  abbrev pub made : t.Session → WintunResult t.Handle → Fallible TunStreamWindows
  made tun (ok event) = done (record { tun = tun; handle = event })
  made tun (err e) = fatal wintun_session_handle_creation_failed

  unfoldable pub new : t.Session → Fallible TunStreamWindows
  new tun = made tun (t.get_read_wait_event tun)

  -- It has no error state.
  abbrev pub get_state : TunStreamWindows → WindowsStreamState
  get_state s = record { is_readable = Bool.true; is_writable = Bool.true }

  abbrev pub packet_read :
      TunStreamWindows
      → ℕ
      → t.Session × WintunResult (Option (List ℕ))
      → TunStreamWindows × List ℕ × StreamResult
  packet_read s buf_size (tun, ok (some packet)) =
      let n_bytes = min buf_size (length packet) in
      (
        record s { tun = tun },
        take n_bytes packet,
        Streams.ok n_bytes would_not_block no_pending_write,
      )
  packet_read s buf_size (tun, ok none) =
      (record s { tun = tun }, [], Streams.ok 0 would_block no_pending_write)
  packet_read s buf_size (tun, err e) = (record s { tun = tun }, [], as_other text e)

  -- With the result, the bytes that were read into a buffer of this size.
  unfoldable pub read : TunStreamWindows → ℕ → TunStreamWindows × List ℕ × StreamResult
  read s buf_size = packet_read s buf_size (t.try_receive s.tun)

  abbrev pub or_failed :
      TunStreamWindows
      → t.Session × WintunResult ℕ
      → (t.Session → ℕ → Option (TunStreamWindows × StreamResult))
      → Option (TunStreamWindows × StreamResult)
  or_failed s (tun, err e) go = some (record s { tun = tun }, wintun_error_to_result e)
  or_failed s (tun, ok size) go = go tun size

  -- The packet is filled with the first of the bytes that are not written.
  unfoldable pub write_unwritten :
      ℕ → TunStreamWindows → ℕ → List ℕ → Option (TunStreamWindows × StreamResult)
  unfolding wintun_error_to_result
  write_unwritten zero s data_len unwritten = none
  write_unwritten (suc fuel) s data_len [] =
      some (s, Streams.ok data_len would_not_block no_pending_write)
  write_unwritten (suc fuel) s data_len (b ∷ bytes) =
      or_failed s (t.allocate_send_packet s.tun (min (length (b ∷ bytes)) u16_max)) (λ tun size.
        write_unwritten fuel (record s { tun = t.send_packet tun (take size (b ∷ bytes)) }) data_len
          (drop size (b ∷ bytes)))

  unfoldable pub write : ℕ → TunStreamWindows → List ℕ → Option (TunStreamWindows × StreamResult)
  unfolding write_unwritten
  write fuel s bytes = write_unwritten fuel s (length bytes) bytes

  unfoldable pub write_from_buffer : TunStreamWindows → TunStreamWindows × StreamResult
  write_from_buffer s = (s, Streams.ok 0 would_not_block no_pending_write)
