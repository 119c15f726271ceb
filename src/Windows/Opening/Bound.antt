-- ===== src/Windows/Opening/Bound.antt =====
-- connection/windows/tcp.rs and udp.rs: no socket is bound to the tunnel.
use protun.Base.{◌≡◌, refl, sym, ◌∙◌, Option, none, some, List, if_elim, subst}
use protun.Io.{IpAddr, v4, v6, SocketAddr, IoResult, ok, err, OnOk, OnOk-mono}
use protun.Device.{is_would_block}
use protun.Windows.ProTunError.{Fallible, done, fatal, ◌>>=◌}
use protun.Windows.Interfaces.{
  ForwardRow, AddressRow, Fetched, Network, InternetInterface, ipv4, ipv6, Ipv4InternetInterface,
  Ipv6InternetInterface, get_internet_interfaces, get_ipv4_internet_interface,
  get_ipv6_internet_interface,
}
use protun.Windows.Interfaces.Internet.{local_ip_of, IsInternet, interfaces-IsInternet}
use protun.Windows.Socket.{WinSocket}
use protun.Windows.Tcp
use protun.Windows.Tcp.{TcpSocketStream}
use protun.Windows.Udp
use protun.Windows.Udp.{UdpSocketStream}
use protun.Windows.Opening.{
  Sockets, local_address, at_ipv4, at_ipv6, next_call, connecting, made, bind_and_connect, tcp_at,
  create_tcp_stream, set_up_udp, udp_at, create_udp_socket, with_handle, as_stream, new_tcp_stream,
  new_udp_stream, domain_of,
}

-- A socket has the address that it was bound to last, whatever else is called on it.
pub record RemembersAddress (w : WinSocket) (sys : Sockets w) : Type 1 where
  pub bound : w.Sock → Option SocketAddr
  pub bind_lem :
      (s : w.Sock) (addr : SocketAddr)
      → (sys.bind s addr).1 ≡ ok tt
      → bound (sys.bind s addr).0 ≡ some addr
  pub bind_udp_lem :
      (system : sys.System) (addr : SocketAddr)
      → OnOk (λ s. bound s ≡ some addr) (sys.bind_udp system addr).1
  pub set_nonblocking_lem : (s : w.Sock) → bound (sys.set_nonblocking s).0 ≡ bound s
  pub connect_lem : (s : w.Sock) (addr : SocketAddr) → bound (sys.connect s addr).0 ≡ bound s
  pub disable_connection_reset_lem :
      (s : w.Sock) → bound (sys.disable_connection_reset s).0 ≡ bound s
  pub set_buffer_sizes_lem : (s : w.Sock) → bound (sys.set_buffer_sizes s) ≡ bound s
  pub new_handle_lem : (s : w.Sock) → bound (sys.new_handle s).0 ≡ bound s

next_call-OnOk :
    {S A : Type 0} (P : S → Type 0) (r : S × IoResult A) (f : S → IoResult S)
    → ((a : A) → r.1 ≡ ok a → P r.0)
    → ((s : S) → P s → OnOk P (f s))
    → OnOk P (next_call r f)
next_call-OnOk P (s, ok a) f h g = g s (h a refl)
next_call-OnOk P (s, err e) f h g = tt

connecting-OnOk :
    {S : Type 0} (P : S → Type 0) (r : S × IoResult (Unit {0})) → P r.0 → OnOk P (connecting r)
connecting-OnOk P (s, ok u) h = h
connecting-OnOk P (s, err e) h = if_elim (OnOk P) (is_would_block e.kind) (λ b. h) (λ b. tt)

module _ (w : WinSocket) (sys : Sockets w) (law : RemembersAddress w sys) where
  abbrev IsAt : SocketAddr → w.Sock → Type 0
  IsAt addr s = law.bound s ≡ some addr

  made-OnOk :
      (P : w.Sock → Type 0) (system : sys.System) (r : IoResult w.Sock)
      (f : w.Sock → IoResult w.Sock)
      → ((s : w.Sock) → r ≡ ok s → OnOk P (f s))
      → OnOk P (made w sys system r f).1
  made-OnOk P system (ok s) f h = h s refl
  made-OnOk P system (err e) f h = tt

  bind_and_connect-IsAt :
      (addr remote : SocketAddr) (s : w.Sock)
      → OnOk (IsAt addr) (bind_and_connect w sys addr remote s)
  unfolding bind_and_connect
  bind_and_connect-IsAt addr remote s =
      next_call-OnOk (IsAt addr) (sys.bind s addr) _ (λ u e. law.bind_lem s addr e)
        (λ s1 h1.
          next_call-OnOk (IsAt addr) (sys.set_nonblocking s1) _
            (λ u e. law.set_nonblocking_lem s1 ∙ h1)
            (λ s2 h2.
              connecting-OnOk (IsAt addr) (sys.connect s2 remote) (law.connect_lem s2 remote ∙ h2)))

  set_up_udp-IsAt :
      (addr remote : SocketAddr) (s : w.Sock)
      → IsAt addr s
      → OnOk (IsAt addr) (set_up_udp w sys remote s)
  unfolding set_up_udp
  set_up_udp-IsAt addr remote s h =
      next_call-OnOk (IsAt addr) (sys.disable_connection_reset s) _
        (λ u e. law.disable_connection_reset_lem s ∙ h)
        (λ s1 h1.
          next_call-OnOk (IsAt addr) (sys.set_nonblocking (sys.set_buffer_sizes s1)) _
            (λ u e.
              law.set_nonblocking_lem (sys.set_buffer_sizes s1) ∙ law.set_buffer_sizes_lem s1 ∙ h1)
            (λ s2 h2.
              next_call-OnOk (IsAt addr) (sys.connect s2 remote) ok
                (λ u e. law.connect_lem s2 remote ∙ h2) (λ s3 h3. h3)))

  tcp_at-IsAt :
      (system : sys.System) (remote addr : SocketAddr)
      → OnOk (IsAt addr) (tcp_at w sys system remote (ok addr)).1
  tcp_at-IsAt system remote addr =
      let r = sys.new_tcp system (domain_of remote.ip) in
      made-OnOk (IsAt addr) r.0 r.1 _ (λ s e. bind_and_connect-IsAt addr remote s)

  udp_at-IsAt :
      (system : sys.System) (remote addr : SocketAddr)
      → OnOk (IsAt addr) (udp_at w sys system remote (ok addr)).1
  udp_at-IsAt system remote addr =
      let r = sys.bind_udp system addr in
      made-OnOk (IsAt addr) r.0 r.1 _ (λ s e.
        set_up_udp-IsAt addr remote s (subst (OnOk (IsAt addr)) e (law.bind_udp_lem system addr)))

  as_stream-OnOk :
      {S : Type 0} (socket_of : S → w.Sock) (stream : w.Sock → w.Handle → S)
      (P : Option SocketAddr → Type 0) (r : IoResult w.Sock)
      → ((s : w.Sock) (handle : w.Handle) → socket_of (stream s handle) ≡ s)
      → OnOk (λ s. P (law.bound s)) r
      → OnOk (λ s. P (law.bound (socket_of s))) (as_stream w sys stream r)
  as_stream-OnOk socket_of stream P (err e) same h = tt
  as_stream-OnOk socket_of stream P (ok s) same h =
      handled (sys.new_handle s) (subst P (sym (law.new_handle_lem s)) h)
    where
      handled :
          (r : w.Sock × IoResult w.Handle)
          → P (law.bound r.0)
          → OnOk (λ s. P (law.bound (socket_of s))) (with_handle w sys stream r)
      handled (s, ok handle) p = subst (λ u. P (law.bound u)) (sym (same s handle)) p
      handled (s, err e) p = tt

  module _ (net : Network) (routes : List ForwardRow) (rows : List AddressRow) where
    -- The address, if there is one, is the local one of an interface to the internet, with a port that the
    -- system chooses.
    abbrev pub IsOutside : Option SocketAddr → Type 0
    IsOutside none = ⊥
    IsOutside (some addr) =
        (i : InternetInterface) × IsInternet net routes rows i
        × (addr.ip ≡ local_ip_of i)
        × (addr.port ≡ 0)

    abbrev IsOut : IoResult SocketAddr → Type 0
    IsOut = OnOk (λ addr. IsOutside (some addr))

    module _ (has_routes : net.forward_table ≡ Fetched.rows routes)
        (has_rows : net.unicast_table ≡ Fetched.rows rows) where
      of_v4 :
          (r : Fallible (Option Ipv4InternetInterface × Option Ipv6InternetInterface))
          → get_internet_interfaces net ≡ r
          → IsOut (at_ipv4 (r >>= λ p. done p.0))
      of_v4 (fatal e) h = tt
      of_v4 (done (none, best6)) h = tt
      of_v4 (done (some i, best6)) h = (
        ipv4 i,
        (interfaces-IsInternet net routes rows (some i) best6 has_routes has_rows h).0,
        refl,
        refl,
      )

      of_v6 :
          (r : Fallible (Option Ipv4InternetInterface × Option Ipv6InternetInterface))
          → get_internet_interfaces net ≡ r
          → IsOut (at_ipv6 (r >>= λ p. done p.1))
      of_v6 (fatal e) h = tt
      of_v6 (done (best4, none)) h = tt
      of_v6 (done (best4, some i)) h = (
        ipv6 i,
        (interfaces-IsInternet net routes rows best4 (some i) has_routes has_rows h).1,
        refl,
        refl,
      )

      local_address-IsOut : (ip : IpAddr) → IsOut (local_address net ip)
      unfolding local_address get_ipv4_internet_interface get_ipv6_internet_interface
      local_address-IsOut (v4 ip) = of_v4 (get_internet_interfaces net) refl
      local_address-IsOut (v6 ip) = of_v6 (get_internet_interfaces net) refl

      tcp-IsOutside :
          (system : sys.System) (remote : SocketAddr) (r : IoResult SocketAddr)
          → IsOut r
          → OnOk (λ s. IsOutside (law.bound s)) (tcp_at w sys system remote r).1
      tcp-IsOutside system remote (err e) h = tt
      tcp-IsOutside system remote (ok addr) h =
          OnOk-mono (IsAt addr) (λ s. IsOutside (law.bound s)) (λ s e. subst IsOutside (sym e) h)
            (tcp_at w sys system remote (ok addr)).1 (tcp_at-IsAt system remote addr)

      udp-IsOutside :
          (system : sys.System) (remote : SocketAddr) (r : IoResult SocketAddr)
          → IsOut r
          → OnOk (λ s. IsOutside (law.bound s)) (udp_at w sys system remote r).1
      udp-IsOutside system remote (err e) h = tt
      udp-IsOutside system remote (ok addr) h =
          OnOk-mono (IsAt addr) (λ s. IsOutside (law.bound s)) (λ s e. subst IsOutside (sym e) h)
            (udp_at w sys system remote (ok addr)).1 (udp_at-IsAt system remote addr)

      -- Let a socket have the address that it was bound to, and let the system have these tables of routes
      -- and of addresses. Then each stream that is made for a remote address, over TCP or UDP, has a socket
      -- that is bound to the local address of an interface to the internet: one with a route for all
      -- destinations that is up and is not the adapter of ProTun.
      pub streams-IsOutside :
          (system : sys.System) (remote : SocketAddr)
          → OnOk (λ s. IsOutside (law.bound s.socket)) (new_tcp_stream w sys system net remote).1
            × OnOk (λ s. IsOutside (law.bound s.socket)) (new_udp_stream w sys system net remote).1
      unfolding new_tcp_stream new_udp_stream create_tcp_stream create_udp_socket
      streams-IsOutside system remote = (
        as_stream-OnOk (λ (s : TcpSocketStream w). s.socket) (Tcp.new w) IsOutside _ (λ s h. refl)
            (tcp-IsOutside system remote _ (local_address-IsOut remote.ip)),
        as_stream-OnOk (λ (s : UdpSocketStream w). s.socket) (Udp.new w) IsOutside _ (λ s h. refl)
            (udp-IsOutside system remote _ (local_address-IsOut remote.ip)),
      )
