-- ===== src/Streams.antt =====
-- connection/streams.rs: the interface to the sockets and the tun device.
use protun.Base.{ℕ, Bool, Option, some, List, ◌++◌, ◌≡◌}
use protun.Io.{IoError, IoResult, SocketAddr}
use protun.Api.Config.{TunStreamInfo}
use protun.Api.State.{InterfaceError, InterfaceState}
use protun.Client.Interface.{StreamIds}

pub data WouldBlock : Type 0 where
  would_block would_not_block : WouldBlock

pub data PendingWrite : Type 0 where
  pending_write no_pending_write : PendingWrite

pub record Transfer : Type 0 where
  pub bytes_count : ℕ
  pub start_offset : ℕ
  pub blocks : WouldBlock
  pub pends : PendingWrite

pub data StreamResult : Type 0 where
  done : Transfer → StreamResult
  failed : IoError → StreamResult
  stream_closed : StreamResult

-- `StreamResult::ok`, with no offset.
unfoldable pub ok : ℕ → WouldBlock → PendingWrite → StreamResult
ok n b p = done (record { bytes_count = n; start_offset = 0; blocks = b; pends = p })

pub record PollResult (StreamKey : Type 0) : Type 0 where
  pub stream_id : StreamKey
  pub is_readable : Bool
  pub is_writable : Bool
  pub is_error : Bool

-- The trait `Stream` for the streams `S`, with the socket options `O`. A read also gives the buffer that
-- it filled.
pub record Stream (S O : Type 0) : Type 0 where
  pub read : S → S × StreamResult × List ℕ
  pub write : S → List ℕ → S × StreamResult
  pub write_from_buffer : S → S × StreamResult
  pub set_option : S → O → S
  pub shutdown_write : S → S

-- Some of the streams send what is written to them in order: the bytes that such a stream has sent and
-- those that wait grow by what is written, and by nothing else. It is `none` for the other streams, of
-- which nothing is asked.
pub record KeepsOrder {S O : Type 0} (o : Stream S O) : Type 0 where
  pub all_bytes : S → Option (List ℕ)
  pub of_read : (s : S) (xs : List ℕ) → all_bytes s ≡ some xs → all_bytes (o.read s).0 ≡ some xs
  pub of_write :
      (s : S) (bytes xs : List ℕ)
      → all_bytes s ≡ some xs
      → all_bytes (o.write s bytes).0 ≡ some (xs ++ bytes)
  pub of_write_from_buffer :
      (s : S) (xs : List ℕ) → all_bytes s ≡ some xs → all_bytes (o.write_from_buffer s).0 ≡ some xs
  pub of_set_option :
      (s : S) (x : O) (xs : List ℕ) → all_bytes s ≡ some xs → all_bytes (o.set_option s x) ≡ some xs
  pub of_shutdown_write :
      (s : S) (xs : List ℕ) → all_bytes s ≡ some xs → all_bytes (o.shutdown_write s) ≡ some xs

-- The trait `Streams`. An operation on the stream that `get_stream` returns is one field, with `none`
-- where there is no such stream; a read also gives the buffer that it filled.
pub record Streams (ids : StreamIds) : Type 1 where
  pub Table : Type 0
  pub read : Table → ids.StreamId → Option (Table × StreamResult × List ℕ)
  pub write : Table → ids.StreamId → List ℕ → Option (Table × StreamResult)
  pub write_from_buffer : Table → ids.StreamId → Option (Table × StreamResult)
  pub set_option : Table → ids.StreamId → ids.SocketOption → Option Table
  pub shutdown_write : Table → ids.StreamId → Option Table
  pub open_new_tcp_stream : Table → ids.StreamId → SocketAddr → Table × IoResult (Unit {0})
  pub open_new_udp_stream : Table → ids.StreamId → SocketAddr → Table × IoResult (Unit {0})
  pub close_stream : Table → ids.StreamId → Table
  pub poll : Table → Option ℕ → Table × IoResult (List (PollResult ids.StreamId))
  pub set_poll_enable_wait_for_write : Table → ids.StreamId → Bool → Table
  pub update_tun : Table → TunStreamInfo → Table × IoResult (Unit {0})
  pub get_tun_interface_state : Table → Option InterfaceError → InterfaceState
