-- ===== src/Tests.antt =====
-- A small client, with streams and files, on which the theorems are tried.
mod Components
mod Connections
mod Delivery
mod Handles
mod Library
mod Readiness
mod Routes
mod Sessions
mod Sockets
mod Vector
mod Windows
use protun.Base.{
  ℕ, suc, Bool, true, false, Option, none, some, String, List, [], ◌∷◌, ◌++◌, ◌≡◌, refl, ltb,
  length, ite, if◌then◌else◌, ℕ_discrete, arith,
}
use protun.Io.{IpAddr, IoResult, ok}
use protun.Client.Tunnel.{Peer, PeerAddr, TunnelInfo, ActionKind}
use protun.Client.Agent.{LocalAgentMessage}
use protun.Client.Interface.{StreamIds, PvpnClient, Action}
use protun.Streams.{
  Streams, StreamResult, ok as transferred, would_block, no_pending_write, PollResult,
}
use protun.Pcap.{FileSystem}
use protun.Api.State.{InterfaceState, up}
use protun.Connection.State.{Deps}
use protun.Connection.PeerSync.{PeerTable}
use protun.Connection.PeerSync.Members.{PeerAddr-discrete}

abbrev pub ids : StreamIds
ids = record {
  StreamId = ℕ;
  SocketOption = Unit {0};
  StreamId-discrete = ℕ_discrete;
  tun_stream_id = 5;
  pcap_stream_id = 0;
  privkey_stream_id = 1;
  cert_stream_id = 2;
  muon_auth_stream_id = 3;
  after_tun = ltb 5;
  tun_not_after_tun = refl;
}

-- A client with a queue of bytes for the private key, and with peers.
pub record Client : Type 0 where
  pub queue : List ℕ
  pub peers : List Peer
  pub info : Option TunnelInfo

abbrev pub is_nonempty : List ℕ → Bool
is_nonempty [] = false
is_nonempty (x ∷ xs) = true

abbrev pub pop : Client → List ℕ → Client × Option (Action ids)
pop c [] = (c, none)
pop c (x ∷ xs) = (record c { queue = xs }, some (1, ActionKind.write (x ∷ [])))

abbrev pub without : PeerAddr → List Peer → List Peer
without b [] = []
without b (p ∷ ps) = ite (PeerAddr-discrete p.addr b) (without b ps) (p ∷ without b ps)

abbrev pub find : List Peer → PeerAddr → Option Peer
find [] a = none
find (p ∷ ps) a = ite (PeerAddr-discrete p.addr a) (some p) (find ps a)

abbrev pub client : PvpnClient ids
client = record {
  Client = Client;
  set_current_time = λ c. (c, (0, 0));
  need_pull = λ c. is_nonempty c.queue;
  peer_add = λ c p. record c { peers = p ∷ c.peers };
  peer_remove = λ c b. record c { peers = without b c.peers };
  pull = λ c. pop c c.queue;
  push = λ c a. c;
  push_error = λ c id kind. c;
  get_tunnel_info = λ c. (c, c.info);
  wakeup_deadline = λ c. none;
  notify_network_change = λ c. c;
  notify_network_down = λ c. c;
  get_stats = λ c. (c, none);
  monotonic_now = λ c. (c, 0);
  set_packet_capture_enabled = λ c enabled. c;
  set_settings = λ c settings. c;
  pull_local_agent = λ c. (c, none);
  push_local_agent = λ c action. c;
}

abbrev pub streams : Streams ids
streams = record {
  Table = Unit {0};
  read = λ t id. none;
  write = λ t id bytes. some (t, transferred (length bytes) would_block no_pending_write);
  write_from_buffer = λ t id. none;
  set_option = λ t id o. none;
  shutdown_write = λ t id. none;
  open_new_tcp_stream = λ t id a. (t, ok tt);
  open_new_udp_stream = λ t id a. (t, ok tt);
  close_stream = λ t id. t;
  poll = λ t deadline. (t, ok []);
  set_poll_enable_wait_for_write = λ t id b. t;
  update_tun = λ t info. (t, ok tt);
  get_tun_interface_state = λ t e. up e;
}

-- Files that take all that is written to them.
abbrev pub files : FileSystem
files = record {
  File = List ℕ;
  Disk = Unit {0};
  parent = λ path. none;
  create_dir_all = λ d path. (d, ok tt);
  open_path = λ d path append. (d, ok []);
  from_raw_fd = λ fd. [];
  len = λ f. ok (length f);
  write_all = λ f bytes. (f ++ bytes, ok tt);
}

abbrev pub deps : Deps
deps = record {
  ids = ids;
  client = client;
  streams = streams;
  files = files;
  Clock = Unit {0};
  read_clock = λ k. (k, 0);
  print_ip = λ ip. "ip";
  android = false;
}

pub find-without :
    (ps : List Peer) (b a : PeerAddr)
    → find (without b ps) a ≡ ite (PeerAddr-discrete b a) none (find ps a)
find-without [] b a = ground arith
find-without (p ∷ ps) b a = ground (arith, find-without ps b a)

abbrev pub table : PeerTable deps
table = record {
  table = λ c a. find c.peers a;
  added_peer = λ c p a. refl;
  removed_peer = λ c b a. find-without c.peers b a;
}
