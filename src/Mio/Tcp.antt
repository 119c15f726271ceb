-- ===== src/Mio/Tcp.antt =====
-- connection/mio/tcp.rs: a TCP socket with a buffer of what it could not send yet. The loop over the
-- buffer takes fuel.
pub mod Order
pub mod Ending
pub mod Object
use protun.Base.{
  ℕ, zero, suc, ◌+◌, Option, none, some, List, [], ◌∷◌, ◌++◌, drop, length, ltb, if◌then◌else◌,
}
use protun.Io.{IoResult, ok, err}
use protun.Streams.{StreamResult, PendingWrite, pending_write, no_pending_write, would_not_block}
use protun.Streams
use protun.Device.{Device, is_would_block}
use protun.Device.Sending.{Sending, again, returned, sending}

module _ (d : Device) where
  pub record TcpSocketStream : Type 0 where
    pub sock : d.Sock
    pub write_buffer : List (List ℕ)

  abbrev pub new : d.Sock → TcpSocketStream
  new tcp = record { sock = tcp; write_buffer = [] }

  abbrev pub buffer_pends : List (List ℕ) → PendingWrite
  buffer_pends [] = no_pending_write
  buffer_pends (bytes ∷ more) = pending_write

  pub read_result : IoResult (List ℕ) → PendingWrite → StreamResult
  read_result (ok []) p = StreamResult.stream_closed
  read_result (ok (b ∷ bytes)) p = Streams.ok (length (b ∷ bytes)) would_not_block p
  read_result (err e) p =
      if is_would_block e.kind then Streams.ok 0 Streams.would_block p else StreamResult.failed e

  -- With the result, the bytes that were read.
  unfoldable pub read : TcpSocketStream → TcpSocketStream × IoResult (List ℕ) × StreamResult
  unfolding read_result
  read s =
      let (sock, ret) = d.read s.sock in
      (record s { sock = sock }, ret, read_result ret (buffer_pends s.write_buffer))

  unfoldable pub sent : d.Sock × IoResult ℕ → List ℕ → List (List ℕ) → ℕ → Sending TcpSocketStream
  sent (sock, ok count) bytes more written =
      again
        (record {
          sock = sock;
          write_buffer = if ltb count (length bytes) then drop count bytes ∷ more else more;
        })
        (written + count)
  sent (sock, err e) bytes more written =
      returned (record { sock = sock; write_buffer = bytes ∷ more })
        (if is_would_block e.kind
          then Streams.ok written Streams.would_block pending_write
          else StreamResult.failed e)

  unfoldable pub write_round : TcpSocketStream → List (List ℕ) → ℕ → Sending TcpSocketStream
  unfolding sent
  write_round s [] written = returned s (Streams.ok written would_not_block no_pending_write)
  write_round s (bytes ∷ more) written = sent (d.write s.sock bytes) bytes more written

  unfoldable pub write_buffered : ℕ → TcpSocketStream → ℕ → Option (TcpSocketStream × StreamResult)
  unfolding sending write_round
  write_buffered = sending (λ s written. write_round s s.write_buffer written)

  unfoldable pub write_from_buffer : ℕ → TcpSocketStream → Option (TcpSocketStream × StreamResult)
  unfolding write_buffered
  write_from_buffer fuel s = write_buffered fuel s 0

  unfoldable pub write : ℕ → TcpSocketStream → List ℕ → Option (TcpSocketStream × StreamResult)
  unfolding write_from_buffer
  write fuel s bytes =
      write_from_buffer fuel (record s { write_buffer = s.write_buffer ++ bytes ∷ [] })

  unfoldable pub shutdown_write : TcpSocketStream → TcpSocketStream
  shutdown_write s = record s { sock = d.shutdown s.sock }
