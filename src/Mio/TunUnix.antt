-- ===== src/Mio/TunUnix.antt =====
-- connection/mio/tun_unix.rs: the tun device on Unix. The loop of a write takes fuel.
use protun.Base.{ℕ, ◌+◌, Option, none, List, [], ◌∷◌, drop, length, ltb, if◌then◌else◌}
use protun.Io.{IoError, IoResult, ok, err, unexpected_eof}
use protun.Streams
use protun.Streams.{StreamResult, would_block, would_not_block, no_pending_write}
use protun.Device.{Device, is_would_block}
use protun.Device.Sending.{Sending, again, returned, sending}
use protun.Mio.Udp.{no_transfer}

module _ (d : Device) where
  pub record TunStreamUnix : Type 0 where
    pub file : d.Sock

  abbrev eof : IoError
  eof = record { kind = unexpected_eof; raw_os_error = none; message = "tun read: unexpected EOF" }

  pub received : IoResult (List ℕ) → StreamResult
  received (ok []) = StreamResult.failed eof
  received (ok (b ∷ bytes)) = Streams.ok (length (b ∷ bytes)) would_not_block no_pending_write
  received (err e) = no_transfer e

  unfoldable pub read : TunStreamUnix → TunStreamUnix × IoResult (List ℕ) × StreamResult
  unfolding received
  read s = let (file, ret) = d.read s.file in (record { file = file }, ret, received ret)

  unfoldable pub wrote : d.Sock × IoResult ℕ → ℕ → Sending TunStreamUnix
  wrote (file, ok count) written = again (record { file = file }) (written + count)
  wrote (file, err e) written =
      returned (record { file = file })
        (if is_would_block e.kind
          then Streams.ok written would_block no_pending_write
          else StreamResult.failed e)

  unfoldable pub write_round : TunStreamUnix → List ℕ → ℕ → Sending TunStreamUnix
  unfolding wrote
  write_round s bytes written =
      if ltb written (length bytes)
      then wrote (d.write s.file (drop written bytes)) written
      else returned s (Streams.ok written would_not_block no_pending_write)

  unfoldable pub write_from : ℕ → TunStreamUnix → List ℕ → ℕ → Option (TunStreamUnix × StreamResult)
  unfolding sending write_round
  write_from fuel s bytes written = sending (λ u n. write_round u bytes n) fuel s written

  unfoldable pub write : ℕ → TunStreamUnix → List ℕ → Option (TunStreamUnix × StreamResult)
  unfolding write_from
  write fuel s bytes = write_from fuel s bytes 0

  unfoldable pub write_from_buffer : TunStreamUnix → TunStreamUnix × StreamResult
  write_from_buffer s = (s, Streams.ok 0 would_not_block no_pending_write)
