-- ===== src/Mio/Interface/Calls.antt =====
-- connection/streams.rs: the calls of the loop on its streams, and what they write.
use protun.Base.{ℕ, ◌≢◌, Bool, Option, none, some, List, [], ◌∷◌, ◌++◌, ite}
use protun.Io.{SocketAddr}
use protun.Api.Config.{TunStreamInfo}
use protun.Client.Interface.{StreamIds}
use protun.Streams.{Streams, StreamResult}

-- Calls of the loop on its streams.
pub data Call (ids : StreamIds) : Type 0 where
  to_read to_write_from_buffer to_shutdown_write to_close : ids.StreamId → Call ids
  to_write : ids.StreamId → List ℕ → Call ids
  to_set_option : ids.StreamId → ids.SocketOption → Call ids
  to_open_tcp to_open_udp : ids.StreamId → SocketAddr → Call ids
  to_poll : Option ℕ → Call ids
  to_wait_for_write : ids.StreamId → Bool → Call ids
  to_update_tun : TunStreamInfo → Call ids

module _ (ids : StreamIds) (streams : Streams ids) where
  -- The table after a call; it stays if there is no such stream.
  abbrev pub after_op : streams.Table → Option (streams.Table × StreamResult) → streams.Table
  after_op t none = t
  after_op t (some (t', r)) = t'

  abbrev pub after_read :
      streams.Table → Option (streams.Table × StreamResult × List ℕ) → streams.Table
  after_read t none = t
  after_read t (some (t', r, bytes)) = t'

  abbrev pub after_change : streams.Table → Option streams.Table → streams.Table
  after_change t none = t
  after_change t (some t') = t'

  abbrev pub called : Call ids → streams.Table → streams.Table
  called (to_read id) t = after_read t (streams.read t id)
  called (to_write id bytes) t = after_op t (streams.write t id bytes)
  called (to_write_from_buffer id) t = after_op t (streams.write_from_buffer t id)
  called (to_shutdown_write id) t = after_change t (streams.shutdown_write t id)
  called (to_set_option id x) t = after_change t (streams.set_option t id x)
  called (to_open_tcp id addr) t = (streams.open_new_tcp_stream t id addr).0
  called (to_open_udp id addr) t = (streams.open_new_udp_stream t id addr).0
  called (to_close id) t = streams.close_stream t id
  called (to_poll deadline) t = (streams.poll t deadline).0
  called (to_wait_for_write id wait) t = streams.set_poll_enable_wait_for_write t id wait
  called (to_update_tun info) t = (streams.update_tun t info).0

  abbrev pub all_called : List (Call ids) → streams.Table → streams.Table
  all_called [] t = t
  all_called (c ∷ cs) t = all_called cs (called c t)

-- The bytes that a call writes to the stream.
abbrev pub written_by : (ids : StreamIds) → ids.StreamId → Call ids → List ℕ
written_by ids j (to_write id bytes) = ite (ids.StreamId-discrete id j) bytes []
written_by ids j _ = []

abbrev pub written : (ids : StreamIds) → ids.StreamId → List (Call ids) → List ℕ
written ids j [] = []
written ids j (c ∷ cs) = written_by ids j c ++ written ids j cs

-- The call does not close the stream; a new tun device closes that of the tun.
abbrev pub Leaves : (ids : StreamIds) → ids.StreamId → Call ids → Type 0
Leaves ids j (to_close id) = id ≢ j
Leaves ids j (to_update_tun info) = ids.tun_stream_id ≢ j
Leaves ids j _ = Unit
