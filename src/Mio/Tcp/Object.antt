-- ===== src/Mio/Tcp/Object.antt =====
-- connection/mio/tcp.rs: a TCP stream as a stream of the interface. If the socket makes progress, its
-- loops end, so its operations need no fuel.
use protun.Base.{ℕ, suc, ◌+◌, ◌≡◌, ap, ◌∙◌, some, List, [], ◌++◌, length, arith}
use mathlib.Core.Option
use protun.Base.Fuel.{Ends}
use protun.Io.{IoResult, ok, err}
use protun.Streams.{Stream, KeepsOrder}
use protun.Device.{Device, TakesInOrder, MakesProgress}
use protun.Device.Buffer.{weight, concat}
use protun.Mio.Tcp.{TcpSocketStream, read, write, write_from_buffer, shutdown_write}
use protun.Mio.Tcp.Order.{all_bytes, write-IsSentAll, write_from_buffer-IsSentAll}
use protun.Mio.Tcp.Ending.{tcp_write-Ends, write_from_buffer-Ends}

-- What was read, as it stands in the buffer of the read.
abbrev pub bytes_read : IoResult (List ℕ) → List ℕ
bytes_read (ok bytes) = bytes
bytes_read (err e) = []

module _ (d : Device) (progress : MakesProgress d) (O : Type 0) where
  -- The results on fuel that is enough.
  pub written :
      (s : TcpSocketStream d) (bytes : List ℕ)
      → Ends (write d (suc (weight s.write_buffer + suc (length bytes))) s bytes)
  written s bytes = tcp_write-Ends d progress _ s bytes (omega arith)

  pub sent_on : (s : TcpSocketStream d) → Ends (write_from_buffer d (suc (weight s.write_buffer)) s)
  sent_on s = write_from_buffer-Ends d progress _ s (omega arith)

  -- `set_option` is not implemented in the source.
  abbrev pub tcp_stream : Stream (TcpSocketStream d) O
  tcp_stream = record {
    read = λ s. let (s', ret, result) = read d s in (s', result, bytes_read ret);
    write = λ s bytes. (written s bytes).0;
    write_from_buffer = λ s. (sent_on s).0;
    set_option = λ s o. s;
    shutdown_write = shutdown_write d;
  }

  module _ (t : TakesInOrder d) (reads : (s : d.Sock) → t.taken (d.read s).0 ≡ t.taken s)
      (shuts : (s : d.Sock) → t.taken (d.shutdown s) ≡ t.taken s) where
    pub read_same : (s : TcpSocketStream d) → all_bytes d t (read d s).0 ≡ all_bytes d t s
    unfolding read
    read_same s = ap (λ xs. xs ++ concat s.write_buffer) (reads s.sock)

    pub shutdown_same :
        (s : TcpSocketStream d) → all_bytes d t (shutdown_write d s) ≡ all_bytes d t s
    unfolding shutdown_write
    shutdown_same s = ap (λ xs. xs ++ concat s.write_buffer) (shuts s.sock)

    abbrev pub keeps_order : KeepsOrder tcp_stream
    keeps_order = record {
      all_bytes = λ s. some (all_bytes d t s);
      of_read = λ s xs e. ap some (read_same s) ∙ e;
      of_write = λ s bytes xs e.
          ap some (write-IsSentAll d t _ s _ bytes _ (written s bytes).1).0
          ∙ ap (Option.map (λ ys. ys ++ bytes)) e;
      of_write_from_buffer =
          λ s xs e. ap some (write_from_buffer-IsSentAll d t _ s _ _ (sent_on s).1).0 ∙ e;
      of_set_option = λ s x xs e. e;
      of_shutdown_write = λ s xs e. ap some (shutdown_same s) ∙ e;
    }
