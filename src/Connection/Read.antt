-- ===== src/Connection/Read.antt =====
-- connection/pvpn_connection.rs: reading from the streams, and what a poll found. The loop over the
-- streams that still have data takes fuel.
use protun.Base.{
  ℕ, Bool, true, false, ◌&&◌, Option, none, some, List, [], ◌∷◌, ltb, if◌then◌else◌, take, drop,
}
use protun.Base.Loop.{Round, stop, next, loop, ◌>>=◌}
use protun.Io.{IoResult, ok, err}
use protun.Client.Tunnel.{ActionKind}
use protun.Streams.{StreamResult, Transfer, WouldBlock, would_block, would_not_block, PollResult}
use protun.Connection.State.{Deps, PvpnConnection}
use protun.Connection.Write.{handle_stream_error, note_tun_result, push, poll_write}
use protun.Connection.Pull.{pull_from_client}

module _ (deps : Deps) where
  abbrev Conn : Type 0
  Conn = PvpnConnection deps

  abbrev StreamKey : Type 0
  StreamKey = deps.ids.StreamId

  abbrev has_more : WouldBlock → Bool
  has_more would_block = false
  has_more would_not_block = true

  -- Without a network the data of the tun device is dropped.
  unfoldable pub forward : ℕ → Conn → StreamKey → Transfer → List ℕ → Option Conn
  unfolding pull_from_client
  forward fuel c id t buffer =
      if ltb 0 t.bytes_count && c.network_recovery_handler.network_available
      then pull_from_client deps fuel
          (push deps c id (ActionKind.read (take t.bytes_count (drop t.start_offset buffer))))
      else some c

  -- The result says whether the stream is to be read again.
  unfoldable pub handle_read : ℕ → Conn → StreamKey → StreamResult → List ℕ → Option (Conn × Bool)
  unfolding forward handle_stream_error
  handle_read fuel c id (StreamResult.done t) buffer =
      forward fuel c id t buffer >>= λ c'. some (c', has_more t.blocks && ltb 0 t.bytes_count)
  handle_read fuel c id (StreamResult.failed e) buffer =
      some (handle_stream_error deps c id e, false)
  handle_read fuel c id StreamResult.stream_closed buffer =
      some (push deps c id ActionKind.close, false)

  unfoldable pub read_result :
      ℕ
      → Conn
      → StreamKey
      → Option (deps.streams.Table × StreamResult × List ℕ)
      → Option (Conn × Bool)
  unfolding handle_read note_tun_result
  read_result fuel c id none = some (c, false)
  read_result fuel c id (some (streams, res, buffer)) =
      handle_read fuel (note_tun_result deps (record c { streams = streams }) id res) id res buffer

  unfoldable pub read_stream : ℕ → Conn → StreamKey → Option (Conn × Bool)
  unfolding read_result
  read_stream fuel c id = read_result fuel c id (deps.streams.read c.streams id)

  abbrev pub read_each : ℕ → List StreamKey → Conn → Option (Conn × List StreamKey)
  read_each fuel [] c = some (c, [])
  read_each fuel (id ∷ ids) c = read_stream fuel c id >>= λ r.
      read_each fuel ids r.0 >>= λ q. some (q.0, if r.1 then id ∷ q.1 else q.1)

  unfoldable pub read_round : ℕ → Conn × List StreamKey → Option (Round (Conn × List StreamKey))
  unfolding read_stream
  read_round fuel (c, []) = some (stop (c, []))
  read_round fuel (c, id ∷ ids) = read_each fuel (id ∷ ids) c >>= λ r. some (next r)

  unfoldable pub read_from_streams : ℕ → Conn → List StreamKey → Option Conn
  read_from_streams fuel c ids = loop (read_round fuel) fuel (c, ids) >>= λ r. some r.0

  abbrev pub readable : List (PollResult StreamKey) → List StreamKey
  readable [] = []
  readable (r ∷ rs) = if r.is_readable then r.stream_id ∷ readable rs else readable rs

  unfoldable pub poll_writes : Conn → List (PollResult StreamKey) → Conn
  unfolding poll_write
  poll_writes c [] = c
  poll_writes c (r ∷ rs) =
      poll_writes (if r.is_writable then poll_write deps c r.stream_id else c) rs

  unfoldable pub handle_poll_results : ℕ → Conn → List (PollResult StreamKey) → Option Conn
  unfolding poll_writes read_from_streams
  handle_poll_results fuel c results =
      read_from_streams fuel (poll_writes c results) (readable results)

  -- A poll that fails is only logged.
  abbrev pub handle_polled : ℕ → Conn → IoResult (List (PollResult StreamKey)) → Option Conn
  handle_polled fuel c (ok results) = handle_poll_results fuel c results
  handle_polled fuel c (err e) = some c
