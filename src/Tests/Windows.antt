-- ===== src/Tests/Windows.antt =====
-- The theorems about the parts for Windows, tried on a socket that takes two bytes at a time, a session of
-- Wintun that takes all, and a network with two default_routes for all destinations.
use protun.Base.{
  ℕ, suc, ◌^◌, ◌≤◌, ◌≡◌, refl, true, false, Option, none, some, List, [], ◌∷◌, ◌++◌, ◌==◌, inl,
  length, if◌then◌else◌, arith,
}
use protun.Io.{ok, OnOk, SocketAddr, v4}
use protun.Streams
use protun.Streams.{StreamResult, would_not_block, no_pending_write}
use protun.Device.Sending.{sending}
use protun.Windows.ProTunError.{done}
use protun.Windows.Socket.{WinSocket}
use protun.Windows.Tcp
use protun.Windows.Tcp.{TcpSocketStream, write_from_buffer, write_round, sent}
use protun.Windows.Tcp.Order.{all_bytes, IsSettled, write-Settles}
use protun.Windows.Tun
use protun.Windows.Tun.{Wintun, WintunResult, TunStreamWindows}
use protun.Windows.Tun.Packets.{SendsInOrder, IsWritten, wintun_write-Returns}
use protun.Windows.Interfaces.{
  ForwardRow, AddressRow, Fetched, Network, adapter_guid, InternetInterface, ipv4, ipv6,
  Ipv4InternetInterface, Ipv6InternetInterface, find_v4, find_v6, sort_by_key, effective_metric,
}
use protun.Windows.Interfaces.Best.{best_v4, best_v6, find-sort_by_key}
use protun.Windows.Opening.{Sockets, new_tcp_stream, new_udp_stream}
use protun.Windows.Opening.Bound.{RemembersAddress, IsOutside, streams-IsOutside}
use protun.Windows.Session.{
  RingCapacity, get_valid_wintun_buffer_size, Adapter, set_adapter_ip_addresses, ipv4_10,
}
use protun.Windows.Session.Sizes.{IsValidSize, buffer_size-IsValidSize}
use protun.Windows.Session.Addresses.{IsPair, IsOtherEnd, addresses_paired}
use protun.Windows.Table
use protun.Windows.Table.{WinSystem, WindowsStreams}
use protun.Windows.Table.Handles.{created, tcp_opened, closed, IsInStep, handles-IsInStep}
use protun.Tests.{ids}
use protun.Tests.Sockets.{device, in_order}

abbrev pub winsock : WinSocket
winsock = record {
  device = device;
  Handle = ℕ;
  take_error = λ s. (s, ok none);
  get_events = λ s. (s, record { is_readable = true; is_writable = false });
}

abbrev stream : TcpSocketStream winsock
stream = record {
  socket = 1 ∷ [];
  write_buffer = (2 ∷ 3 ∷ 4 ∷ []) ∷ [];
  handle = 7;
  state = record { is_readable = false; is_writable = false };
}

abbrev stream_after : TcpSocketStream winsock
stream_after = record {
  socket = 1 ∷ 2 ∷ 3 ∷ 4 ∷ 5 ∷ [];
  write_buffer = [];
  handle = 7;
  state = record { is_readable = false; is_writable = true };
}

stream_written :
    Tcp.write winsock 9 stream (5 ∷ [])
    ≡ some (stream_after, Streams.ok 4 would_not_block no_pending_write)
unfolding Tcp.write write_from_buffer sending write_round sent
stream_written = refl

write-Settles_example :
    (all_bytes winsock in_order stream_after ≡ all_bytes winsock in_order stream ++ 5 ∷ [])
    × IsSettled winsock in_order stream_after (Streams.ok 4 would_not_block no_pending_write)
write-Settles_example =
    write-Settles winsock in_order 9 stream stream_after (5 ∷ [])
      (Streams.ok 4 would_not_block no_pending_write) stream_written

abbrev wintun : Wintun
wintun = record {
  Session = List ℕ;
  Handle = ℕ;
  get_read_wait_event = λ s. WintunResult.ok 3;
  try_receive = λ s. (s, WintunResult.ok none);
  allocate_send_packet = λ s n. (s, WintunResult.ok n);
  send_packet = λ s bytes. s ++ bytes;
}

abbrev sends : SendsInOrder wintun
sends = record {
  taken = λ s. s;
  allocated = λ s n. inl refl;
  nothing_sent = λ s n. refl;
  sent = λ s bytes. refl;
}

abbrev tun : TunStreamWindows wintun (λ e. e.message)
tun = record { tun = 1 ∷ []; handle = 3 }

wintun_write-Returns_example :
    (x : TunStreamWindows wintun (λ e. e.message) × StreamResult) × (Tun.write wintun
        (λ e. e.message)
        4
        tun
        (2 ∷ 3 ∷ [])
      ≡ some x)
    × IsWritten wintun (λ e. e.message) sends (1 ∷ []) (2 ∷ 3 ∷ []) 2 x
wintun_write-Returns_example =
    wintun_write-Returns wintun (λ e. e.message) sends 4 tun (2 ∷ 3 ∷ []) (omega arith)

abbrev wifi : Ipv4InternetInterface
wifi = record {
  interface_metric = 35;
  any_route_metric = 0;
  local_ip = 5;
  interface_index = 2;
  next_hop = 1;
}

abbrev cable : Ipv4InternetInterface
cable = record {
  interface_metric = 25;
  any_route_metric = 0;
  local_ip = 6;
  interface_index = 3;
  next_hop = 1;
}

abbrev cable_v6 : Ipv6InternetInterface
cable_v6 = record {
  interface_metric = 5;
  any_route_metric = 0;
  local_ip = 8;
  interface_index = 3;
  next_hop = 9;
}

abbrev interfaces : List InternetInterface
interfaces = ipv4 wifi ∷ ipv6 cable_v6 ∷ ipv4 cable ∷ []

find-sort_by_key_example :
    (find_v4 (sort_by_key interfaces) ≡ best_v4 interfaces)
    × (find_v6 (sort_by_key interfaces) ≡ best_v6 interfaces)
find-sort_by_key_example = find-sort_by_key interfaces

the_best : best_v4 interfaces ≡ some cable
unfolding effective_metric
the_best = refl

-- The interface 1 is that of ProTun, with the better metric.
abbrev pub default_routes : List ForwardRow
default_routes =
    record {
      prefix_length = 0;
      interface_luid = 1;
      interface_index = 1;
      next_hop = some (v4 1);
      metric = 0;
    }
    ∷ record {
      prefix_length = 0;
      interface_luid = 2;
      interface_index = 2;
      next_hop = some (v4 1);
      metric = 0;
    }
    ∷ []

abbrev pub addresses : List AddressRow
addresses =
    record { address = some (v4 4); interface_luid = 1 }
    ∷ record { address = some (v4 5); interface_luid = 2 }
    ∷ []

abbrev pub network : Network
network = record {
  forward_table = Fetched.rows default_routes;
  unicast_table = Fetched.rows addresses;
  guid = λ luid. if luid == 1 then some adapter_guid else some 17;
  if_entry =
      λ luid. some (record { is_admin_up = true; is_oper_up = true; is_media_connected = true });
  interface_metric = λ luid family. some (if luid == 1 then 5 else 35);
}

-- A socket that is its address.
abbrev bare : WinSocket
bare = record {
  device = record {
    Sock = Option SocketAddr;
    read = λ s. (s, ok []);
    write = λ s bytes. (s, ok (length bytes));
    shutdown = λ s. s;
  };
  Handle = ℕ;
  take_error = λ s. (s, ok none);
  get_events = λ s. (s, record { is_readable = true; is_writable = true });
}

abbrev sockets : Sockets bare
sockets = record {
  System = ℕ;
  new_tcp = λ n domain. (suc n, ok none);
  bind = λ s addr. (some addr, ok tt);
  set_nonblocking = λ s. (s, ok tt);
  connect = λ s addr. (s, ok tt);
  bind_udp = λ n addr. (suc n, ok (some addr));
  disable_connection_reset = λ s. (s, ok tt);
  set_buffer_sizes = λ s. s;
  new_handle = λ s. (s, ok 4);
}

abbrev remembers : RemembersAddress bare sockets
remembers = record {
  bound = λ s. s;
  bind_lem = λ s addr e. refl;
  bind_udp_lem = λ n addr. refl;
  set_nonblocking_lem = λ s. refl;
  connect_lem = λ s addr. refl;
  disable_connection_reset_lem = λ s. refl;
  set_buffer_sizes_lem = λ s. refl;
  new_handle_lem = λ s. refl;
}

abbrev server : SocketAddr
server = record { ip = v4 99; port = 443 }

streams-IsOutside_example :
    OnOk
      (λ s. IsOutside bare sockets remembers network default_routes addresses s.socket)
      (new_tcp_stream bare sockets 0 network server).1
    × OnOk
        (λ s. IsOutside bare sockets remembers network default_routes addresses s.socket)
        (new_udp_stream bare sockets 0 network server).1
streams-IsOutside_example =
    streams-IsOutside bare sockets remembers network default_routes addresses refl refl 0 server

abbrev capacity : RingCapacity
capacity = record { min_ring_capacity = 2 ^ 17; max_ring_capacity = 2 ^ 26 }

buffer_size-IsValidSize_example :
    IsValidSize capacity 1_000_000 (get_valid_wintun_buffer_size capacity 1_000_000)
buffer_size-IsValidSize_example =
    buffer_size-IsValidSize capacity 1_000_000 (17, refl) (26, refl) (omega arith) (omega arith)

-- The first address is taken already, and IPv6 is off.
abbrev adapter : Adapter
adapter = record {
  State = ℕ;
  set_adapter_ipv4_address = λ s ip. (suc s, if s == 0 then false else true);
  set_adapter_ipv6_address = λ s ip. (suc s, false);
  set_ipv4_dns_server = λ s servers. (s, true);
  set_ipv6_dns_server = λ s servers. (s, true);
}

second_taken : (set_adapter_ip_addresses adapter 0).1 ≡ done (ipv4_10 3 2, none)
unfolding set_adapter_ip_addresses
second_taken = refl

addresses_paired_example :
    (i : ℕ) × (2 ≤ i)
    × (i ≤ 255)
    × IsPair adapter i (ipv4_10 3 2, none)
    × IsOtherEnd adapter i (ipv4_10 3 2, none)
addresses_paired_example = addresses_paired adapter 0 (ipv4_10 3 2, none) second_taken

abbrev system : WinSystem
system = record {
  winsock = bare;
  sockets = sockets;
  wintun = wintun;
  text = λ e. e.message;
  Handle = ℕ;
  socket_handle = λ h. h;
  tun_handle = λ h. h;
  network = λ n. network;
  reset = λ n h. n;
  wait = λ n handles timeout. (suc n, 1);
}

abbrev first_table : WindowsStreams ids system
first_table = Table.new ids system tun 11 0

abbrev open_table : WindowsStreams ids system
open_table = (Table.open_new_tcp_stream ids system first_table 7 server).0

abbrev closed_table : WindowsStreams ids system
closed_table = Table.close_stream ids system open_table 5

handles-IsInStep_example : IsInStep ids system closed_table
handles-IsInStep_example =
    handles-IsInStep ids system closed_table
      (closed open_table 5 (tcp_opened first_table 7 server (created tun 11 0)))
