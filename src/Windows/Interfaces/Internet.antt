-- ===== src/Windows/Interfaces/Internet.antt =====
-- connection/windows/helpers/local_ip_finder.rs: the interfaces that are found lead to the internet, and
-- not into the tunnel.
use protun.Base.{
  ℕ, ◌≡◌, refl, sym, ◌∙◌, ap, true, false, Option, none, some, List, [], ◌∷◌, inl, inr, if_elim,
  All, Any, All-append, All-mono, subst,
}
use protun.Base.Loop.{OnSome}
use protun.Io.{IpAddr, v4, v6}
use protun.Windows.ProTunError.{Fallible, done, fatal, ◌>>=◌}
use protun.Windows.Interfaces.Addresses.{HasAddress, addresses-HasAddress}
use protun.Windows.Interfaces.{
  ForwardRow, AddressRow, Fetched, Network, Ipv4InternetInterface, Ipv6InternetInterface,
  InternetInterface, ipv4, ipv6, get, addresses_by_luid, is_route_interface_up,
  create_internet_interface, v4_interface, v6_interface, of_addresses, of_known,
  get_internet_interfaces_from_route, is_candidate, get_internet_interfaces_from_routes, insert,
  key_le, sort_by_key, nonempty, fetched, get_potential_internet_interfaces, find_v4, find_v6,
  get_internet_interfaces,
}

abbrev pub local_ip_of : InternetInterface → IpAddr
local_ip_of (ipv4 i) = v4 i.local_ip
local_ip_of (ipv6 i) = v6 i.local_ip

module _ (net : Network) where
  -- The interface has the index, the next hop and the metrics of the route.
  abbrev pub IsOf : ForwardRow → InternetInterface → Type 0
  IsOf route (ipv4 i) =
      (i.interface_index ≡ route.interface_index)
      × (route.next_hop ≡ some (v4 i.next_hop))
      × (i.any_route_metric ≡ route.metric)
      × (net.interface_metric route.interface_luid true ≡ some i.interface_metric)
  IsOf route (ipv6 i) =
      (i.interface_index ≡ route.interface_index)
      × (route.next_hop ≡ some (v6 i.next_hop))
      × (i.any_route_metric ≡ route.metric)
      × (net.interface_metric route.interface_luid false ≡ some i.interface_metric)

  -- It is of a route for all destinations, on an interface that is up and is not ProTun's, and has an
  -- address of that interface.
  abbrev pub Fits : List AddressRow → InternetInterface → ForwardRow → Type 0
  Fits rows i route =
      (is_candidate net route ≡ true)
      × (is_route_interface_up net route ≡ true)
      × IsOf route i
      × HasAddress rows route.interface_luid (local_ip_of i)

  abbrev pub IsInternet : List ForwardRow → List AddressRow → InternetInterface → Type 0
  IsInternet routes rows i = Any (Fits rows i) routes

All-insert :
    (P : InternetInterface → Type 0) (i : InternetInterface) (is : List InternetInterface)
    → P i
    → All P is
    → All P (insert i is)
unfolding insert
All-insert P i [] p h = (p, tt)
All-insert P i (j ∷ js) p h =
    if_elim (All P) (key_le i j) (λ e. (p, h)) (λ e. (h.0, All-insert P i js p h.1))

All-sort_by_key :
    (P : InternetInterface → Type 0) (is : List InternetInterface)
    → All P is
    → All P (sort_by_key is)
unfolding sort_by_key
All-sort_by_key P [] h = tt
All-sort_by_key P (i ∷ is) h = All-insert P i (sort_by_key is) h.0 (All-sort_by_key P is h.1)

found_v4 :
    (P : InternetInterface → Type 0) (is : List InternetInterface)
    → All P is
    → OnSome (λ i. P (ipv4 i)) (find_v4 is)
found_v4 P [] h = tt
found_v4 P (ipv4 i ∷ is) h = h.0
found_v4 P (ipv6 i ∷ is) h = found_v4 P is h.1

found_v6 :
    (P : InternetInterface → Type 0) (is : List InternetInterface)
    → All P is
    → OnSome (λ i. P (ipv6 i)) (find_v6 is)
found_v6 P [] h = tt
found_v6 P (ipv4 i ∷ is) h = found_v6 P is h.1
found_v6 P (ipv6 i ∷ is) h = h.0

module _ (net : Network) where
  create-IsOf :
      (route : ForwardRow) (ip : IpAddr) (next_hop : Option IpAddr)
      → route.next_hop ≡ next_hop
      → All
          (λ i. IsOf net route i × (local_ip_of i ≡ ip))
          (create_internet_interface net route ip next_hop)
  unfolding create_internet_interface
  create-IsOf route (v4 ip) (some (v4 h)) e =
      v4_made (net.interface_metric route.interface_luid true) refl
    where
      v4_made :
          (o : Option ℕ)
          → net.interface_metric route.interface_luid true ≡ o
          → All (λ i. IsOf net route i × (local_ip_of i ≡ v4 ip)) (v4_interface net route ip h o)
      v4_made none m = tt
      v4_made (some metric) m = (((refl, e, refl, m), refl), tt)
  create-IsOf route (v4 ip) (some (v6 h)) e = tt
  create-IsOf route (v4 ip) none e = tt
  create-IsOf route (v6 ip) (some (v6 h)) e =
      v6_made (net.interface_metric route.interface_luid false) refl
    where
      v6_made :
          (o : Option ℕ)
          → net.interface_metric route.interface_luid false ≡ o
          → All (λ i. IsOf net route i × (local_ip_of i ≡ v6 ip)) (v6_interface net route ip h o)
      v6_made none m = tt
      v6_made (some metric) m = (((refl, e, refl, m), refl), tt)
  create-IsOf route (v6 ip) (some (v4 h)) e = tt
  create-IsOf route (v6 ip) none e = tt

  module _ (rows : List AddressRow) where
    of_addresses-IsOf :
        (route : ForwardRow) (ips : List IpAddr)
        → All (HasAddress rows route.interface_luid) ips
        → All
            (λ i. IsOf net route i × HasAddress rows route.interface_luid (local_ip_of i))
            (of_addresses net route ips)
    unfolding of_addresses
    of_addresses-IsOf route [] h = tt
    of_addresses-IsOf route (ip ∷ ips) h =
        All-append _ (create_internet_interface net route ip route.next_hop)
          (of_addresses net route ips)
          (All-mono (λ i. IsOf net route i × (local_ip_of i ≡ ip)) _
            (λ i p. (p.0, subst (HasAddress rows route.interface_luid) (sym p.1) h.0))
            (create_internet_interface net route ip route.next_hop)
            (create-IsOf route ip route.next_hop refl))
          (of_addresses-IsOf route ips h.1)

    of_known-IsOf :
        (route : ForwardRow) (o : Option (List IpAddr))
        → OnSome (All (HasAddress rows route.interface_luid)) o
        → All
            (λ i. IsOf net route i × HasAddress rows route.interface_luid (local_ip_of i))
            (of_known net route o)
    of_known-IsOf route none h = tt
    of_known-IsOf route (some ips) h = of_addresses-IsOf route ips h

    of_route-Fits :
        (route : ForwardRow)
        → is_candidate net route ≡ true
        → All
            (λ i. Fits net rows i route)
            (get_internet_interfaces_from_route net route (addresses_by_luid rows []))
    unfolding get_internet_interfaces_from_route
    of_route-Fits route candidate =
        if_elim (All (λ i. Fits net rows i route)) (is_route_interface_up net route)
          (λ up.
            All-mono _ (λ i. Fits net rows i route) (λ i h. (candidate, up, h.0, h.1))
              (of_known net route (get route.interface_luid (addresses_by_luid rows [])))
              (of_known-IsOf route _ (addresses-HasAddress rows route.interface_luid)))
          (λ down. tt)

    of_routes-IsInternet :
        (routes : List ForwardRow)
        → All
            (IsInternet net routes rows)
            (get_internet_interfaces_from_routes net routes (addresses_by_luid rows []))
    unfolding get_internet_interfaces_from_routes
    of_routes-IsInternet [] = tt
    of_routes-IsInternet (route ∷ routes) =
        All-append (IsInternet net (route ∷ routes) rows) _ _
          (if_elim (All (IsInternet net (route ∷ routes) rows)) (is_candidate net route)
            (λ candidate.
              All-mono (λ i. Fits net rows i route) (IsInternet net (route ∷ routes) rows)
                (λ i h. inl h) _ (of_route-Fits route candidate))
            (λ other. tt))
          (All-mono (IsInternet net routes rows) (IsInternet net (route ∷ routes) rows)
            (λ i h. inr h) _ (of_routes-IsInternet routes))

  abbrev AreInternet :
      List ForwardRow
      → List AddressRow
      → Fallible (Option Ipv4InternetInterface × Option Ipv6InternetInterface)
      → Type 0
  AreInternet routes rows (fatal e) = Unit
  AreInternet routes rows (done (best4, best6)) =
      OnSome (λ i. IsInternet net routes rows (ipv4 i)) best4
      × OnSome (λ i. IsInternet net routes rows (ipv6 i)) best6

  of_nonempty :
      (routes : List ForwardRow) (rows : List AddressRow) (is : List InternetInterface)
      → All (IsInternet net routes rows) is
      → AreInternet routes rows (nonempty is >>= λ l. done (find_v4 l, find_v6 l))
  of_nonempty routes rows [] h = tt
  of_nonempty routes rows (i ∷ is) h = (
    found_v4 (IsInternet net routes rows) (i ∷ is) h,
    found_v6 (IsInternet net routes rows) (i ∷ is) h,
  )

  -- What `get_internet_interfaces` gives for two tables.
  abbrev answer :
      Fetched ForwardRow
      → Fetched AddressRow
      → Fallible (Option Ipv4InternetInterface × Option Ipv6InternetInterface)
  answer forward unicast = do
    interfaces ← do
      routes ← fetched forward
      rows ← fetched unicast
      nonempty
          (sort_by_key (get_internet_interfaces_from_routes net routes (addresses_by_luid rows [])))
    done (find_v4 interfaces, find_v6 interfaces)

  -- Let the system have these tables of routes and of addresses. Then an interface that is found, for IPv4
  -- or for IPv6, has the index, the metrics and the next hop, an address of that protocol, of a route for
  -- all destinations on an interface that is up and is not the adapter of ProTun, and its local address is
  -- one that the table gives to that interface.
  pub interfaces-IsInternet :
      (routes : List ForwardRow) (rows : List AddressRow) (best4 : Option Ipv4InternetInterface)
      (best6 : Option Ipv6InternetInterface)
      → net.forward_table ≡ Fetched.rows routes
      → net.unicast_table ≡ Fetched.rows rows
      → get_internet_interfaces net ≡ done (best4, best6)
      → OnSome (λ i. IsInternet net routes rows (ipv4 i)) best4
        × OnSome (λ i. IsInternet net routes rows (ipv6 i)) best6
  unfolding get_internet_interfaces get_potential_internet_interfaces
  interfaces-IsInternet routes rows best4 best6 has_routes has_rows e =
      subst (AreInternet routes rows)
        (ap (λ t. answer t (Fetched.rows rows)) (sym has_routes)
          ∙ ap (answer net.forward_table) (sym has_rows)
          ∙ e)
        (of_nonempty routes rows _ (All-sort_by_key _ _ (of_routes-IsInternet rows routes)))
