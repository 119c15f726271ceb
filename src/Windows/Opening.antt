-- ===== src/Windows/Opening.antt =====
-- connection/windows/tcp.rs and udp.rs: the sockets are made bound to the local address of an interface
-- to the internet.
pub mod Bound
use protun.Base.{ℕ, Option, none, some, if◌then◌else◌}
use protun.Io.{
  IpAddr, v4, v6, SocketAddr, IoError, IoResult, ok, err, ErrorKind, addr_not_available,
  would_block,
}
use protun.Device.{is_would_block}
use protun.Windows.ProTunError.{Fallible, done, fatal}
use protun.Windows.Interfaces.{
  Network, Ipv4InternetInterface, Ipv6InternetInterface, get_ipv4_internet_interface,
  get_ipv6_internet_interface,
}
use protun.Windows.Socket.{WinSocket}
use protun.Windows.Tcp
use protun.Windows.Tcp.{TcpSocketStream}
use protun.Windows.Udp
use protun.Windows.Udp.{UdpSocketStream}

pub data Domain : Type 0 where
  ipv4 ipv6 : Domain

-- The calls that make a socket. A call on a socket gives the socket after it.
pub record Sockets (w : WinSocket) : Type 1 where
  pub System : Type 0
  pub new_tcp : System → Domain → System × IoResult w.Sock
  pub bind : w.Sock → SocketAddr → w.Sock × IoResult (Unit {0})
  pub set_nonblocking : w.Sock → w.Sock × IoResult (Unit {0})
  pub connect : w.Sock → SocketAddr → w.Sock × IoResult (Unit {0})
  pub bind_udp : System → SocketAddr → System × IoResult w.Sock
  pub disable_connection_reset : w.Sock → w.Sock × IoResult (Unit {0})
  pub set_buffer_sizes : w.Sock → w.Sock
  pub new_handle : w.Sock → w.Sock × IoResult w.Handle

abbrev pub not_available : IoError
not_available = record {
  kind = addr_not_available;
  raw_os_error = none;
  message = "Can't find an internet interface";
}

abbrev pub at_ipv4 : Fallible (Option Ipv4InternetInterface) → IoResult SocketAddr
at_ipv4 (fatal e) = err not_available
at_ipv4 (done none) = err not_available
at_ipv4 (done (some i)) = ok (record { ip = v4 i.local_ip; port = 0 })

abbrev pub at_ipv6 : Fallible (Option Ipv6InternetInterface) → IoResult SocketAddr
at_ipv6 (fatal e) = err not_available
at_ipv6 (done none) = err not_available
at_ipv6 (done (some i)) = ok (record { ip = v6 i.local_ip; port = 0 })

unfoldable pub local_address : Network → IpAddr → IoResult SocketAddr
unfolding get_ipv4_internet_interface get_ipv6_internet_interface
local_address net (v4 ip) = at_ipv4 (get_ipv4_internet_interface net)
local_address net (v6 ip) = at_ipv6 (get_ipv6_internet_interface net)

abbrev pub domain_of : IpAddr → Domain
domain_of (v4 ip) = ipv4
domain_of (v6 ip) = ipv6

-- The result of calls on a socket: the socket if none failed.
abbrev pub next_call : {S A : Type 0} → S × IoResult A → (S → IoResult S) → IoResult S
next_call (s, ok a) f = f s
next_call (s, err e) f = err e

-- A connection that is not made yet is no error.
abbrev pub connecting : {S : Type 0} → S × IoResult (Unit {0}) → IoResult S
connecting (s, ok u) = ok s
connecting (s, err e) = if is_would_block e.kind then ok s else err e

module _ (w : WinSocket) (sys : Sockets w) where
  abbrev pub made :
      sys.System → IoResult w.Sock → (w.Sock → IoResult w.Sock) → sys.System × IoResult w.Sock
  made system (err e) f = (system, err e)
  made system (ok socket) f = (system, f socket)

  unfoldable pub bind_and_connect : SocketAddr → SocketAddr → w.Sock → IoResult w.Sock
  bind_and_connect addr remote socket =
      next_call (sys.bind socket addr)
        (λ s. next_call (sys.set_nonblocking s) (λ s. connecting (sys.connect s remote)))

  abbrev pub tcp_at : sys.System → SocketAddr → IoResult SocketAddr → sys.System × IoResult w.Sock
  tcp_at system remote (err e) = (system, err e)
  tcp_at system remote (ok addr) =
      let (system', socket) = sys.new_tcp system (domain_of remote.ip) in
      made system' socket (bind_and_connect addr remote)

  unfoldable pub create_tcp_stream :
      sys.System → Network → SocketAddr → sys.System × IoResult w.Sock
  unfolding local_address bind_and_connect
  create_tcp_stream system net remote = tcp_at system remote (local_address net remote.ip)

  unfoldable pub set_up_udp : SocketAddr → w.Sock → IoResult w.Sock
  set_up_udp remote socket = next_call (sys.disable_connection_reset socket) (λ s.
      next_call (sys.set_nonblocking (sys.set_buffer_sizes s))
        (λ s. next_call (sys.connect s remote) ok))

  abbrev pub udp_at : sys.System → SocketAddr → IoResult SocketAddr → sys.System × IoResult w.Sock
  udp_at system remote (err e) = (system, err e)
  udp_at system remote (ok addr) =
      let (system', socket) = sys.bind_udp system addr in made system' socket (set_up_udp remote)

  unfoldable pub create_udp_socket :
      sys.System → Network → SocketAddr → sys.System × IoResult w.Sock
  unfolding local_address set_up_udp
  create_udp_socket system net remote = udp_at system remote (local_address net remote.ip)

  abbrev pub with_handle :
      {S : Type 0} → (w.Sock → w.Handle → S) → w.Sock × IoResult w.Handle → IoResult S
  with_handle stream (socket, ok handle) = ok (stream socket handle)
  with_handle stream (socket, err e) = err e

  abbrev pub as_stream : {S : Type 0} → (w.Sock → w.Handle → S) → IoResult w.Sock → IoResult S
  as_stream stream (err e) = err e
  as_stream stream (ok socket) = with_handle stream (sys.new_handle socket)

  unfoldable pub new_tcp_stream :
      sys.System → Network → SocketAddr → sys.System × IoResult (TcpSocketStream w)
  unfolding create_tcp_stream
  new_tcp_stream system net remote =
      let (system', socket) = create_tcp_stream system net remote in
      (system', as_stream (Tcp.new w) socket)

  unfoldable pub new_udp_stream :
      sys.System → Network → SocketAddr → sys.System × IoResult (UdpSocketStream w)
  unfolding create_udp_socket
  new_udp_stream system net remote =
      let (system', socket) = create_udp_socket system net remote in
      (system', as_stream (Udp.new w) socket)
