-- ===== src/Tests/Delivery.antt =====
-- The theorem about the calls of the loop on a table of streams, tried on one of TCP, one of UDP and a tun.
use protun.Base.{ℕ, ◌≡◌, refl, Option, some, none, true, List, [], ◌∷◌, ◌++◌, length}
use protun.Base.Int.{pos}
use protun.Api.Config.{tun_fd}
use protun.Io.{ok, v4}
use protun.Streams.{Stream, StreamResult, stream_closed, KeepsOrder}
use protun.Mio.Tcp.{TcpSocketStream}
use protun.Mio.Tcp.Object.{tcp_stream, keeps_order}
use protun.Mio.Table.{Mio, MioStreams, readable}
use protun.Mio.Interface.{mio_streams}
use protun.Mio.Interface.Calls.{
  Call, all_called, to_write, to_close, to_open_udp, to_update_tun, to_poll, to_wait_for_write,
}
use protun.Mio.Interface.Bytes.{bytes_in}
use protun.Mio.Interface.Delivery.{all_called-bytes}
use protun.Tests.{ids}
use protun.Tests.Sockets.{device, in_order, progress, tcp}

-- A stream of TCP, or another that only answers.
data Socket : Type 0 where
  of_tcp : TcpSocketStream device → Socket
  other : ℕ → Socket

abbrev both_mio : Mio
both_mio = record {
  Stream = Socket;
  Poll = Unit {0};
  Factory = Unit {0};
  register = λ p s token interest. (p, ok tt);
  reregister = λ p s token interest. (p, ok tt);
  deregister = λ p s. (p, ok tt);
  poll = λ p deadline. (p, ok []);
  new_tcp_socket = λ f addr. (f, ok (of_tcp tcp));
  new_udp_socket = λ f addr. (f, ok (other 0));
  tun_stream = λ fd. other 1;
}

abbrev tcp_object : Stream (TcpSocketStream device) (Unit {0})
tcp_object = tcp_stream device progress (Unit {0})

abbrev tcp_keeps : KeepsOrder tcp_object
tcp_keeps = keeps_order device progress (Unit {0}) in_order (λ s. refl) (λ s. refl)

abbrev read : Socket → Socket × StreamResult × List ℕ
read (of_tcp s) = let (s', result, bytes) = tcp_object.read s in (of_tcp s', result, bytes)
read (other n) = (other n, stream_closed, [])

abbrev write : Socket → List ℕ → Socket × StreamResult
write (of_tcp s) bytes = let (s', result) = tcp_object.write s bytes in (of_tcp s', result)
write (other n) bytes = (other (length bytes), stream_closed)

abbrev write_from_buffer : Socket → Socket × StreamResult
write_from_buffer (of_tcp s) =
    let (s', result) = tcp_object.write_from_buffer s in (of_tcp s', result)
write_from_buffer (other n) = (other n, stream_closed)

abbrev shutdown_write : Socket → Socket
shutdown_write (of_tcp s) = of_tcp (tcp_object.shutdown_write s)
shutdown_write (other n) = other n

abbrev object : Stream Socket (Unit {0})
object = record {
  read = read;
  write = write;
  write_from_buffer = write_from_buffer;
  set_option = λ s x. s;
  shutdown_write = shutdown_write;
}

abbrev sent_bytes : Socket → Option (List ℕ)
sent_bytes (of_tcp s) = tcp_keeps.all_bytes s
sent_bytes (other n) = none

read_kept : (s : Socket) (xs : List ℕ) → sent_bytes s ≡ some xs → sent_bytes (read s).0 ≡ some xs
read_kept (of_tcp s) xs e = tcp_keeps.of_read s xs e
read_kept (other n) xs e = cc

write_kept :
    (s : Socket) (bytes xs : List ℕ)
    → sent_bytes s ≡ some xs
    → sent_bytes (write s bytes).0 ≡ some (xs ++ bytes)
write_kept (of_tcp s) bytes xs e = tcp_keeps.of_write s bytes xs e
write_kept (other n) bytes xs e = cc

write_from_buffer_kept :
    (s : Socket) (xs : List ℕ)
    → sent_bytes s ≡ some xs
    → sent_bytes (write_from_buffer s).0 ≡ some xs
write_from_buffer_kept (of_tcp s) xs e = tcp_keeps.of_write_from_buffer s xs e
write_from_buffer_kept (other n) xs e = cc

shutdown_kept :
    (s : Socket) (xs : List ℕ) → sent_bytes s ≡ some xs → sent_bytes (shutdown_write s) ≡ some xs
shutdown_kept (of_tcp s) xs e = tcp_keeps.of_shutdown_write s xs e
shutdown_kept (other n) xs e = cc

abbrev keeps : KeepsOrder object
keeps = record {
  all_bytes = sent_bytes;
  of_read = read_kept;
  of_write = write_kept;
  of_write_from_buffer = write_from_buffer_kept;
  of_set_option = λ s x xs e. e;
  of_shutdown_write = shutdown_kept;
}

-- The stream has sent 1, and 2, 3 and 4 wait; there is a tun too.
abbrev one_stream : MioStreams ids both_mio
one_stream = record {
  streams =
      record { stream_id = 5; stream = other 1; token = 1; interest = readable }
      ∷ record { stream_id = 7; stream = of_tcp tcp; token = 2; interest = readable }
      ∷ [];
  poll = tt;
  next_token = 3;
  socket_factory = tt;
}

abbrev calls : List (Call ids)
calls =
    to_write 7 (5 ∷ [])
    ∷ to_open_udp 8 (record { ip = v4 1; port = 443 })
    ∷ to_write 8 (9 ∷ [])
    ∷ to_update_tun (tun_fd (pos 3))
    ∷ to_poll none
    ∷ to_close 8
    ∷ to_wait_for_write 7 true
    ∷ to_write 7 (6 ∷ 7 ∷ [])
    ∷ []

all_called-bytes_example :
    bytes_in ids both_mio object keeps 7
      (all_called ids (mio_streams ids both_mio object) calls one_stream).streams
    ≡ some (1 ∷ 2 ∷ 3 ∷ 4 ∷ 5 ∷ 6 ∷ 7 ∷ [])
unfolding protun.Base.ℕ_discrete
all_called-bytes_example =
    all_called-bytes ids both_mio object keeps 7 calls one_stream (1 ∷ 2 ∷ 3 ∷ 4 ∷ [])
      (tt, (tt, (tt, ((λ e. cc), (tt, ((λ e. cc), (tt, (tt, tt)))))))) refl
