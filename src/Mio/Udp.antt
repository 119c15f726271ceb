-- ===== src/Mio/Udp.antt =====
-- connection/mio/udp.rs: a UDP socket, which has no write buffer.
use protun.Base.{ℕ, List, length, if◌then◌else◌}
use protun.Io.{IoError, IoResult, ok, err}
use protun.Streams
use protun.Streams.{StreamResult, would_block, would_not_block, no_pending_write}
use protun.Device.{Device, is_would_block}

-- The result of an error, by which nothing was read or written.
abbrev pub no_transfer : IoError → StreamResult
no_transfer e =
    if is_would_block e.kind
    then Streams.ok 0 would_block no_pending_write
    else StreamResult.failed e

module _ (d : Device) where
  pub record UdpSocketStream : Type 0 where
    pub sock : d.Sock

  pub received : IoResult (List ℕ) → StreamResult
  received (ok bytes) = Streams.ok (length bytes) would_not_block no_pending_write
  received (err e) = no_transfer e

  unfoldable pub read : UdpSocketStream → UdpSocketStream × IoResult (List ℕ) × StreamResult
  unfolding received
  read s = let (sock, ret) = d.read s.sock in (record { sock = sock }, ret, received ret)

  pub sent : IoResult ℕ → StreamResult
  sent (ok size) = Streams.ok size would_not_block no_pending_write
  sent (err e) = no_transfer e

  unfoldable pub write : UdpSocketStream → List ℕ → UdpSocketStream × StreamResult
  unfolding sent
  write s bytes = let (sock, ret) = d.write s.sock bytes in (record { sock = sock }, sent ret)

  unfoldable pub write_from_buffer : UdpSocketStream → UdpSocketStream × StreamResult
  write_from_buffer s = (s, Streams.ok 0 would_not_block no_pending_write)
