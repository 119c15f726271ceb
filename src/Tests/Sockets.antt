-- ===== src/Tests/Sockets.antt =====
-- The theorems about the streams over mio, tried on a device that takes two bytes at a time.
use protun.Base.{
  ℕ, ◌≤◌, ◌<◌, ◌≡◌, ◌≢◌, refl, true, false, some, List, [], ◌∷◌, ◌++◌, take, drop, get_elem?,
  length, arith,
}
use protun.Base.Fuel.{Ends}
use protun.Io.{ok, SocketAddr, v4}
use protun.Streams
use protun.Streams.{StreamResult, Transfer, would_block, would_not_block, no_pending_write}
use protun.Device.{Device, TakesInOrder}
use protun.Mio.Tcp
use protun.Mio.Tcp.{TcpSocketStream, write_from_buffer, write_buffered, write_round, sent}
use protun.Mio.Tcp.Order.{all_bytes, IsSettled, write-IsSentAll}
use protun.Mio.TunApple
use protun.Mio.TunApple.{
  Apple, TunStreamApple, header, received, address_family, apple_tun_packet_header_len,
}
use protun.Mio.TunApple.Packets.{received-header, write-IsWhole}
use protun.Mio.TunApple.Ending.{tun_write-Ends}
use protun.Mio.Table.{
  put_stream, open_new_tcp_stream, socket_made, Mio, MioEvent, MioStreamInfo, MioStreams, readable,
  poll_results, poll_waker_token, new, register_stream, registered,
}
use protun.Mio.Table.Tokens.{Reachable, event_reaches_stream}
use protun.Tests.{ids}

abbrev pub device : Device
device = record {
  Sock = List ℕ;
  read = λ s. (s, ok []);
  write = λ s bytes. (s ++ take 2 bytes, ok (length (take 2 bytes)));
  shutdown = λ s. s;
}

pub device_takes :
    (s bytes : List ℕ)
    → (length (take 2 bytes) ≤ length bytes)
      × (s ++ take 2 bytes ≡ s ++ take (length (take 2 bytes)) bytes)
device_takes s [] = (omega arith, refl)
device_takes s (a ∷ []) = (omega arith, refl)
device_takes s (a ∷ b ∷ bytes) = (omega arith, refl)

abbrev pub in_order : TakesInOrder device
in_order = record { taken = λ s. s; takes = device_takes }

pub progress : (s bytes : List ℕ) → 0 < length bytes → (device.write s bytes).1 ≢ ok 0
progress s [] h = absurd (omega arith)
progress s (a ∷ []) h = λ e. cc
progress s (a ∷ b ∷ bytes) h = λ e. cc

abbrev pub tcp : TcpSocketStream device
tcp = record { sock = 1 ∷ []; write_buffer = (2 ∷ 3 ∷ 4 ∷ []) ∷ [] }

abbrev tcp_after : TcpSocketStream device
tcp_after = record { sock = 1 ∷ 2 ∷ 3 ∷ 4 ∷ 5 ∷ []; write_buffer = [] }

tcp_written :
    Tcp.write device 9 tcp (5 ∷ [])
    ≡ some (tcp_after, Streams.ok 4 would_not_block no_pending_write)
unfolding Tcp.write write_from_buffer write_buffered write_round sent
tcp_written = refl

write-IsSentAll_example :
    (all_bytes device in_order tcp_after ≡ all_bytes device in_order tcp ++ 5 ∷ [])
    × IsSettled device in_order tcp_after (Streams.ok 4 would_not_block no_pending_write)
write-IsSentAll_example =
    write-IsSentAll device in_order 9 tcp tcp_after (5 ∷ [])
      (Streams.ok 4 would_not_block no_pending_write) tcp_written

abbrev apple : Apple
apple = record {
  af_inet = 2;
  af_inet6 = 30;
  bad_version = λ n. "version";
  short_packet = λ n. "short";
  partial_header = λ n. "partial";
}

abbrev tun : TunStreamApple apple device
tun = record { file = 9 ∷ []; write_buffer = [] }

abbrev tun_after : TunStreamApple apple device
tun_after = record {
  file = 9 ∷ 0 ∷ 0 ∷ 0 ∷ 2 ∷ 69 ∷ 7 ∷ [];
  write_buffer = 0 ∷ 0 ∷ 0 ∷ 2 ∷ 69 ∷ 7 ∷ [];
}

abbrev whole : Transfer
whole = record {
  bytes_count = 2;
  start_offset = 0;
  blocks = would_not_block;
  pends = no_pending_write;
}

abbrev packet : List ℕ
packet = 69 ∷ 7 ∷ []

tun_written :
    TunApple.write apple device 9 tun (69 ∷ 7 ∷ []) ≡ some (tun_after, StreamResult.done whole)
unfolding TunApple.write TunApple.write_packet TunApple.write_from TunApple.write_round
    TunApple.wrote address_family Streams.ok
tun_written = refl

family : address_family apple device 69 ≡ ok 2
unfolding address_family
family = refl

write-IsWhole_example :
    (9 ∷ 0 ∷ 0 ∷ 0 ∷ 2 ∷ 69 ∷ 7 ∷ [] ≡ (9 ∷ []) ++ (header apple device 2 ++ 69 ∷ 7 ∷ []))
    × (whole.bytes_count ≡ length packet)
write-IsWhole_example =
    write-IsWhole apple device in_order 9 2 69 (7 ∷ []) tun tun_after whole family tun_written refl

tun_write-Ends_example : Ends (TunApple.write apple device 9 tun (69 ∷ 7 ∷ []))
tun_write-Ends_example = tun_write-Ends apple device 9 tun (69 ∷ 7 ∷ []) (omega arith)

received-header_example :
    (received apple device (ok (header apple device 30 ++ 96 ∷ 7 ∷ []))
      ≡ StreamResult.done (record {
        bytes_count = 2;
        start_offset = apple_tun_packet_header_len;
        blocks = would_not_block;
        pends = no_pending_write;
      }))
    × (take 2 (drop apple_tun_packet_header_len (header apple device 30 ++ 96 ∷ 7 ∷ []))
        ≡ 96 ∷ 7 ∷ [])
received-header_example = received-header apple device 30 (96 ∷ 7 ∷ [])

-- Streams that are numbers, and a poll that always succeeds.
abbrev mio : Mio
mio = record {
  Stream = ℕ;
  Poll = Unit {0};
  Factory = Unit {0};
  register = λ p s token interest. (p, ok tt);
  reregister = λ p s token interest. (p, ok tt);
  deregister = λ p s. (p, ok tt);
  poll = λ p deadline. (p, ok []);
  new_tcp_socket = λ f addr. (f, ok 7);
  new_udp_socket = λ f addr. (f, ok 8);
  tun_stream = λ fd. 9;
}

abbrev some_addr : SocketAddr
some_addr = record { ip = v4 1; port = 443 }

abbrev first_table : MioStreams ids mio
first_table = (new ids mio (some 9) tt tt).0

abbrev first_info : MioStreamInfo ids mio
first_info = record { stream_id = 5; stream = 10; token = 1; interest = readable }

-- The tun has answered a read, and a socket was opened.
abbrev used_table : MioStreams ids mio
used_table = (open_new_tcp_stream ids mio (put_stream ids mio first_table 5 10) 7 some_addr).0

first_at : get_elem? used_table.streams 0 ≡ some first_info
unfolding new register_stream registered open_new_tcp_stream socket_made protun.Base.ℕ_discrete
first_at = refl

abbrev readable_event : MioEvent
readable_event = record { token = 1; is_readable = true; is_writable = false; is_error = false }

event_reaches_stream_example :
    (readable_event.token ≡ first_info.token
      → poll_results ids mio used_table.streams (readable_event ∷ [])
        ≡ record { stream_id = 5; is_readable = true; is_writable = false; is_error = false }
          ∷ poll_results ids mio used_table.streams [])
    × (readable_event.token ≡ poll_waker_token
        → poll_results ids mio used_table.streams (readable_event ∷ [])
          ≡ poll_results ids mio used_table.streams [])
event_reaches_stream_example =
    event_reaches_stream ids mio used_table 0 first_info readable_event []
      (Reachable.tcp_opened 7 some_addr (Reachable.used 5 10 (Reachable.made (some 9) tt tt)))
      first_at
