-- ===== src/Mio/TunApple.antt =====
-- connection/mio/tun_apple.rs: the tun device on Apple systems, whose packets have a header of four
-- bytes. The loop of a write takes fuel.
pub mod Packets
pub mod Ending
use protun.Base.{
  ℕ, zero, suc, ◌+◌, ◌-◌, ◌/◌, Option, none, some, String, List, [], ◌∷◌, ◌++◌, drop, length, ltb,
  leb, ◌==◌, if◌then◌else◌,
}
use protun.Io.{ErrorKind, IoError, IoResult, ok, err, invalid_data, other, write_zero}
use protun.Streams
use protun.Streams.{StreamResult, would_block, would_not_block, no_pending_write}
use protun.Device.{Device, is_would_block}
use protun.Device.Sending.{Sending, again, returned, sending}
use protun.Mio.Udp.{no_transfer}

abbrev pub apple_tun_packet_header_len : ℕ
apple_tun_packet_header_len = 4

-- `AF_INET` and `AF_INET6` of the system, and the texts that `format!` makes of a number.
pub record Apple : Type 0 where
  pub af_inet : ℕ
  pub af_inet6 : ℕ
  pub bad_version : ℕ → String
  pub short_packet : ℕ → String
  pub partial_header : ℕ → String

abbrev pub io_error : ErrorKind → String → IoError
io_error kind message = record { kind = kind; raw_os_error = none; message = message }

module _ (apple : Apple) (d : Device) where
  unfoldable pub address_family : ℕ → IoResult ℕ
  address_family byte =
      let ip_version = byte / 16 in
      if ip_version == 4
      then ok apple.af_inet
      else if ip_version == 6
      then ok apple.af_inet6
      else err (io_error invalid_data (apple.bad_version ip_version))

  -- The write buffer is cleared by each write before it is used.
  pub record TunStreamApple : Type 0 where
    pub file : d.Sock
    pub write_buffer : List ℕ

  unfoldable pub received : IoResult (List ℕ) → StreamResult
  received (ok bytes) =
      if leb apple_tun_packet_header_len (length bytes)
      then StreamResult.done (record {
        bytes_count = length bytes - apple_tun_packet_header_len;
        start_offset = apple_tun_packet_header_len;
        blocks = would_not_block;
        pends = no_pending_write;
      })
      else StreamResult.failed (io_error invalid_data (apple.short_packet (length bytes)))
  received (err e) = no_transfer e

  unfoldable pub read : TunStreamApple → TunStreamApple × IoResult (List ℕ) × StreamResult
  unfolding received
  read s = let (file, ret) = d.read s.file in (record s { file = file }, ret, received ret)

  unfoldable pub wrote : TunStreamApple → d.Sock × IoResult ℕ → ℕ → Sending TunStreamApple
  wrote s (file, ok zero) written =
      returned (record s { file = file })
        (StreamResult.failed (io_error write_zero "Failed to write packet to TUN device"))
  wrote s (file, ok (suc count)) written = again (record s { file = file }) (written + suc count)
  wrote s (file, err e) written =
      returned (record s { file = file })
        (if is_would_block e.kind
          then if leb apple_tun_packet_header_len written
            then Streams.ok (written - apple_tun_packet_header_len) would_block no_pending_write
            else StreamResult.failed (io_error other (apple.partial_header written))
          else StreamResult.failed e)

  unfoldable pub write_round : TunStreamApple → ℕ → ℕ → Sending TunStreamApple
  unfolding wrote
  write_round s data_len written =
      if ltb written (length s.write_buffer)
      then wrote s (d.write s.file (drop written s.write_buffer)) written
      else returned s (Streams.ok data_len would_not_block no_pending_write)

  unfoldable pub write_from : ℕ → ℕ → TunStreamApple → ℕ → Option (TunStreamApple × StreamResult)
  unfolding sending write_round
  write_from fuel data_len = sending (λ s written. write_round s data_len written) fuel

  abbrev pub header : ℕ → List ℕ
  header af = 0 ∷ 0 ∷ 0 ∷ af ∷ []

  unfoldable pub write_packet :
      ℕ → TunStreamApple → List ℕ → IoResult ℕ → Option (TunStreamApple × StreamResult)
  unfolding write_from
  write_packet fuel s bytes (err e) = some (s, StreamResult.failed e)
  write_packet fuel s bytes (ok af) =
      write_from fuel (length bytes) (record s { write_buffer = header af ++ bytes }) 0

  unfoldable pub write : ℕ → TunStreamApple → List ℕ → Option (TunStreamApple × StreamResult)
  unfolding write_packet address_family
  write fuel s [] = write_packet fuel s [] (err (io_error invalid_data "Empty packet"))
  write fuel s (b ∷ bytes) = write_packet fuel s (b ∷ bytes) (address_family b)

  unfoldable pub write_from_buffer : TunStreamApple → TunStreamApple × StreamResult
  write_from_buffer s = (s, Streams.ok 0 would_not_block no_pending_write)
