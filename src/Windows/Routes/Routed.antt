-- ===== src/Windows/Routes/Routed.antt =====
-- connection/windows/helpers/routes.rs: what goes to the servers does not go through the adapter.
use protun.Base.{
  ℕ, ◌≡◌, refl, sym, ap, ◌∙◌, subst, ◌⊎◌, inl, inr, Option, none, some, String, List, [], ◌∷◌, All,
  Any, Any-mono,
}
use protun.Io
use protun.Io.{IpAddr}
use protun.Windows.ProTunError.{done, ◌>>=◌}
use protun.Base.Loop.{OnSome}
use protun.Windows.Interfaces.Internet.{interfaces-IsInternet}
use protun.Windows.Interfaces.Outside.{LeadsOut, chosen-LeadsOut}
use protun.Windows.Interfaces.{
  ForwardRow, AddressRow, Fetched, ipv4, ipv6, Network, Ipv4InternetInterface,
  Ipv6InternetInterface, get_internet_interfaces,
}
use protun.Windows.RoutingTable.{
  Row, row_of, Route, v4, v6, RouteCreationError, RouteResult, ok, err, no_error, RoutingTable,
  add_v4_route, add_v6_route, add_route,
}
use protun.Windows.Registry.{Registry, get_created_routes}
use protun.Windows.Routes.{
  Json, World, server_routes, create_server_routes, create_ipv4_host_route, create_ipv6_host_route,
  add_server_routes, add_adapter_routes, with_server_routes, create, host_route,
}
use protun.Windows.Routes.Added.{HoldsRows, RoundTrips, OnAdded, add_route-OnAdded}

-- A row for this address only, through this hop and interface.
abbrev IsHostRow : IpAddr → ℕ → IpAddr → ℕ → Row → Type 0
IsHostRow ip length hop index row =
    (row.destination ≡ ip)
    × (row.prefix_length ≡ length)
    × (row.next_hop ≡ some hop)
    × (row.interface_index ≡ index)

abbrev IsServed4 : Option Ipv4InternetInterface → List Row → ℕ → Type 0
IsServed4 none rows ip = Unit
IsServed4 (some i) rows ip = Any (IsHostRow (Io.v4 ip) 32 (Io.v4 i.next_hop) i.interface_index) rows

abbrev IsServed6 : Option Ipv6InternetInterface → List Row → ℕ → Type 0
IsServed6 none rows ip = Unit
IsServed6 (some i) rows ip =
    Any (IsHostRow (Io.v6 ip) 128 (Io.v6 i.next_hop) i.interface_index) rows

-- If there is an interface to the internet for the protocol of the server, a row takes what goes to it
-- there.
abbrev pub IsServed :
    Option Ipv4InternetInterface × Option Ipv6InternetInterface → List Row → IpAddr → Type 0
IsServed interfaces rows (Io.v4 ip) = IsServed4 interfaces.0 rows ip
IsServed interfaces rows (Io.v6 ip) = IsServed6 interfaces.1 rows ip

abbrev HasRows : List Row → List Route → Type 0
HasRows rows = All (λ route. Any (λ x. row_of route ≡ x) rows)

same-IsHostRow :
    (row x : Row) (hop : IpAddr)
    → row.next_hop ≡ some hop
    → row ≡ x
    → IsHostRow row.destination row.prefix_length hop row.interface_index x
same-IsHostRow row x hop e same = (
  ap (λ y. y.destination) (sym same),
  ap (λ y. y.prefix_length) (sym same),
  ap (λ y. y.next_hop) (sym same) ∙ e,
  ap (λ y. y.interface_index) (sym same),
)

server_routes-IsServed :
    (o4 : Option Ipv4InternetInterface) (o6 : Option Ipv6InternetInterface) (rows : List Row)
    (ips : List IpAddr)
    → HasRows rows (server_routes (o4, o6) ips)
    → All (IsServed (o4, o6) rows) ips
unfolding server_routes row_of create_ipv4_host_route create_ipv6_host_route host_route
server_routes-IsServed o4 o6 rows [] h = tt
server_routes-IsServed none o6 rows (Io.v4 ip ∷ ips) h =
    (tt, server_routes-IsServed none o6 rows ips h)
server_routes-IsServed (some i) o6 rows (Io.v4 ip ∷ ips) h = (
  Any-mono _ (IsHostRow (Io.v4 ip) 32 (Io.v4 i.next_hop) i.interface_index)
      (λ row.
        same-IsHostRow (row_of (v4 (create_ipv4_host_route ip (some i.next_hop) i.interface_index)))
          row (Io.v4 i.next_hop) refl)
      rows h.0,
  server_routes-IsServed (some i) o6 rows ips h.1,
)
server_routes-IsServed o4 none rows (Io.v6 ip ∷ ips) h =
    (tt, server_routes-IsServed o4 none rows ips h)
server_routes-IsServed o4 (some i) rows (Io.v6 ip ∷ ips) h = (
  Any-mono _ (IsHostRow (Io.v6 ip) 128 (Io.v6 i.next_hop) i.interface_index)
      (λ row.
        same-IsHostRow (row_of (v6 (create_ipv6_host_route ip (some i.next_hop) i.interface_index)))
          row (Io.v6 i.next_hop) refl)
      rows h.0,
  server_routes-IsServed o4 (some i) rows ips h.1,
)

module _ (r : RoutingTable) (g : Registry) (json : Json) (h : HoldsRows r)
    (j : RoundTrips json) where
  OnAdded-keeps :
      (P : Row → Type 0) (t t' : r.Table) (row : Row)
      (result : RouteResult RouteCreationError (Unit {0}))
      → OnAdded r g json h j t t' row result
      → Any P (h.entries t)
      → Any P (h.entries t')
  OnAdded-keeps P t t' row (ok u) e n = subst (Any P) (sym e) (inr n)
  OnAdded-keeps P t t' row (err code) e n = subst (Any P) (sym e) n

  add_route_keeps :
      (P : Row → Type 0) (t : r.Table) (route : Route)
      → Any P (h.entries t)
      → Any P (h.entries (add_route r t route).0)
  add_route_keeps P t route =
      OnAdded-keeps P t _ (row_of route) (add_route r t route).1
        (add_route-OnAdded r g json h j t route)

  add_server_routes_keeps :
      (P : Row → Type 0) (t : r.Table) (routes : List Route) (texts : List String)
      → Any P (h.entries t)
      → Any P (h.entries (add_server_routes r g json t routes texts).0)
  unfolding add_server_routes
  add_server_routes_keeps P t [] texts n = n
  add_server_routes_keeps P t (route ∷ routes) texts n =
      add_server_routes_keeps P (add_route r t route).0 routes _ (add_route_keeps P t route n)

  module _
      (adds : (t : r.Table) (row : Row)
        → ((r.create_entry t row).1 ≡ no_error) ⊎ Any (λ x. row ≡ x) (h.entries t)) where
    created_has :
        (t : r.Table) (row : Row)
        → (r.create_entry t row).1 ≡ no_error
        → Any (λ x. row ≡ x) (h.entries (r.create_entry t row).0)
    created_has t row e = subst (Any (λ x. row ≡ x)) (sym (h.created t row e)) (inl refl)

    add_route_has :
        (t : r.Table) (route : Route)
        → Any (λ x. row_of route ≡ x) (h.entries (add_route r t route).0)
    unfolding add_route add_v4_route add_v6_route
    add_route_has t (v4 route) = elim (adds t (row_of (v4 route))) [
      | inl e ↦ created_has t (row_of (v4 route)) e
      | inr n ↦ add_route_keeps (λ x. row_of (v4 route) ≡ x) t (v4 route) n
    ]
    add_route_has t (v6 route) = elim (adds t (row_of (v6 route))) [
      | inl e ↦ created_has t (row_of (v6 route)) e
      | inr n ↦ add_route_keeps (λ x. row_of (v6 route) ≡ x) t (v6 route) n
    ]

    add_server_routes-HasRows :
        (t : r.Table) (routes : List Route) (texts : List String)
        → HasRows (h.entries (add_server_routes r g json t routes texts).0) routes
    unfolding add_server_routes
    add_server_routes-HasRows t [] texts = tt
    add_server_routes-HasRows t (route ∷ routes) texts = (
      add_server_routes_keeps (λ x. row_of route ≡ x) (add_route r t route).0 routes _
          (add_route_has t route),
      add_server_routes-HasRows (add_route r t route).0 routes _,
    )

    create_has :
        (w : World r g json) (network : r.Table → Network) (server4 : ℕ) (server6 : Option ℕ)
        (index : ℕ) (ips : List IpAddr)
        (interfaces : Option Ipv4InternetInterface × Option Ipv6InternetInterface)
        → get_internet_interfaces
            (network (add_adapter_routes r g json w.table server4 server6 index))
          ≡ done interfaces
        → All
            (IsServed interfaces
              (h.entries (create r g json w network server4 server6 index ips).0.table))
            ips
    unfolding create create_server_routes
    create_has w network server4 server6 index ips interfaces found =
        let t = add_adapter_routes r g json w.table server4 server6 index in
        let routes = server_routes interfaces ips in
        let made : create_server_routes (network t) ips ≡ done routes =
          ap (λ o. o >>= λ i. done (server_routes i ips)) found in
        subst
          (λ o.
            All
              (IsServed interfaces
                (h.entries (with_server_routes r g json t w.store index o).0.table))
              ips)
          (sym made)
          (server_routes-IsServed interfaces.0 interfaces.1 _ ips
            (add_server_routes-HasRows t routes (get_created_routes g w.store)))

    -- Let the system create every row that it is told to, unless it is there; and let it have these
    -- routes and addresses while the routes of the adapter are in the table, from which these interfaces to
    -- the internet are found. Then after `create` each server of a protocol that has an interface has a row
    -- for its address only, with the index and the next hop of that interface; and these are the index and
    -- the next hop of a route for all destinations whose interface has a GUID that is not that of the
    -- adapter of ProTun.
    pub create_serves :
        (w : World r g json) (network : r.Table → Network) (server4 : ℕ) (server6 : Option ℕ)
        (index : ℕ) (ips : List IpAddr)
        (interfaces : Option Ipv4InternetInterface × Option Ipv6InternetInterface)
        (routes : List ForwardRow) (rows : List AddressRow)
        → (network (add_adapter_routes r g json w.table server4 server6 index)).forward_table
          ≡ Fetched.rows routes
        → (network (add_adapter_routes r g json w.table server4 server6 index)).unicast_table
          ≡ Fetched.rows rows
        → get_internet_interfaces
            (network (add_adapter_routes r g json w.table server4 server6 index))
          ≡ done interfaces
        → All
            (IsServed interfaces
              (h.entries (create r g json w network server4 server6 index ips).0.table))
            ips
          × OnSome
              (λ i.
                LeadsOut
                  (network (add_adapter_routes r g json w.table server4 server6 index))
                  routes
                  (ipv4 i))
              interfaces.0
          × OnSome
              (λ i.
                LeadsOut
                  (network (add_adapter_routes r g json w.table server4 server6 index))
                  routes
                  (ipv6 i))
              interfaces.1
    create_serves w network server4 server6 index ips (best4, best6) routes rows forward unicast
          found =
        let net = network (add_adapter_routes r g json w.table server4 server6 index) in
        let internet = interfaces-IsInternet net routes rows best4 best6 forward unicast found in
        (
          create_has w network server4 server6 index ips (best4, best6) found,
          chosen-LeadsOut net routes rows ipv4 best4 internet.0,
          chosen-LeadsOut net routes rows ipv6 best6 internet.1,
        )
