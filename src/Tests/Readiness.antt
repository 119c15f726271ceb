-- ===== src/Tests/Readiness.antt =====
-- The theorem about the readiness of a TCP stream on Windows, tried on a socket that is polled, written to
-- and read.
use protun.Base.{refl, ◌≡◌, true, false, some, List, [], ◌∷◌}
use protun.Streams
use protun.Streams.{would_not_block, no_pending_write}
use protun.Device.Sending.{sending}
use protun.Windows.Tcp
use protun.Windows.Tcp.{TcpSocketStream, get_state, read, write_from_buffer, write_round}
use protun.Windows.Tcp.History.{Did, polled, got_nothing, sent_all}
use protun.Windows.Tcp.Ready.{IsReady, made, asked, was_read, was_flushed, reached-IsReady}
use protun.Tests.Windows.{winsock}

abbrev polled_once : TcpSocketStream winsock
polled_once = (get_state winsock (Tcp.new winsock (1 ∷ []) 7)).0

abbrev written : TcpSocketStream winsock
written = record {
  socket = 1 ∷ [];
  write_buffer = [];
  handle = 7;
  state = record { is_readable = true; is_writable = true };
}

all_written :
    write_from_buffer winsock 1 polled_once
    ≡ some (written, Streams.ok 0 would_not_block no_pending_write)
unfolding write_from_buffer sending write_round get_state
all_written = refl

-- Readable as the poll told, until the read gave nothing; writable after all was sent.
abbrev dids : List Did
dids = got_nothing ∷ sent_all ∷ polled (record { is_readable = true; is_writable = false }) ∷ []

reached-IsReady_example : IsReady winsock (read winsock written).0 dids
unfolding read Streams.ok
reached-IsReady_example = reached-IsReady winsock (read winsock written).0 dids (
    was_read written _ (
      was_flushed polled_once written _ 1 (Streams.ok 0 would_not_block no_pending_write)
        (asked (Tcp.new winsock (1 ∷ []) 7) [] (made (1 ∷ []) 7)) all_written))
