-- ===== src/Windows/Routes.antt =====
-- connection/windows/helpers/routes.rs: the routes of a connection. Those to the servers go through an
-- interface to the internet and outlive the adapter, so they are kept in the registry.
pub mod Added
pub mod Tracked
pub mod Cleaned
pub mod Removed
pub mod Routed
use protun.Base.{ℕ, Option, none, some, String, List, [], ◌∷◌, ◌++◌}
use protun.Io
use protun.Io.{IpAddr}
use protun.Windows.ProTunError.{Fallible, done, fatal, ◌>>=◌}
use protun.Windows.Interfaces.{
  Network, Ipv4InternetInterface, Ipv6InternetInterface, get_internet_interfaces,
}
use protun.Windows.RoutingTable.{
  IpRoute, Route, v4, v6, RouteCreationError, RouteDeletionSuccess, RouteResult, ok, err,
  RoutingTable, add_v4_route, add_v6_route, add_route, delete_route, delete_routes,
}
use protun.Windows.Registry.{Registry, get_created_routes, set_created_routes}

-- `serde_json` for routes: a text may be no route.
pub record Json : Type 0 where
  pub to_string : Route → Option String
  pub from_str : String → Option Route

unfoldable pub host_route : ℕ → ℕ → Option ℕ → ℕ → IpRoute
host_route prefix_length server_ip next_hop interface_index = record {
  destination_ip_addr = server_ip;
  destination_prefix_length = prefix_length;
  next_hop_address = next_hop;
  interface_index = interface_index;
}

unfoldable pub create_ipv4_host_route : ℕ → Option ℕ → ℕ → IpRoute
unfolding host_route
create_ipv4_host_route = host_route 32

unfoldable pub create_ipv6_host_route : ℕ → Option ℕ → ℕ → IpRoute
unfolding host_route
create_ipv6_host_route = host_route 128

unfoldable pub create_any_route : ℕ → IpRoute
create_any_route interface_index = record {
  destination_ip_addr = 0;
  destination_prefix_length = 0;
  next_hop_address = none;
  interface_index = interface_index;
}

abbrev pub v4_server_route : ℕ → Option Ipv4InternetInterface → List Route
v4_server_route ip none = []
v4_server_route ip (some i) =
    v4 (create_ipv4_host_route ip (some i.next_hop) i.interface_index) ∷ []

abbrev pub v6_server_route : ℕ → Option Ipv6InternetInterface → List Route
v6_server_route ip none = []
v6_server_route ip (some i) =
    v6 (create_ipv6_host_route ip (some i.next_hop) i.interface_index) ∷ []

-- One route for each server of a protocol that has an interface.
unfoldable pub server_routes :
    Option Ipv4InternetInterface × Option Ipv6InternetInterface → List IpAddr → List Route
unfolding create_ipv4_host_route create_ipv6_host_route
server_routes interfaces [] = []
server_routes interfaces (Io.v4 ip ∷ ips) =
    v4_server_route ip interfaces.0 ++ server_routes interfaces ips
server_routes interfaces (Io.v6 ip ∷ ips) =
    v6_server_route ip interfaces.1 ++ server_routes interfaces ips

unfoldable pub create_server_routes : Network → List IpAddr → Fallible (List Route)
unfolding get_internet_interfaces server_routes
create_server_routes net server_ips = do
  interfaces ← get_internet_interfaces net
  done (server_routes interfaces server_ips)

module _ (r : RoutingTable) (g : Registry) (json : Json) where
  -- The table of the system and the registry.
  pub record World : Type 0 where
    pub table : r.Table
    pub store : g.Store

  pub record Routes : Type 0 where
    pub interface_index : ℕ

  -- The texts to be kept after a route was added, or not.
  abbrev pub noted :
      List String → RouteResult RouteCreationError (Unit {0}) → Option String → List String
  noted created (err e) text = created
  noted created (ok u) none = created
  noted created (ok u) (some text) = created ++ text ∷ []

  unfoldable pub add_server_routes : r.Table → List Route → List String → r.Table × List String
  unfolding add_route
  add_server_routes t [] created = (t, created)
  add_server_routes t (route ∷ routes) created =
      let (t', result) = add_route r t route in
      add_server_routes t' routes (noted created result (json.to_string route))

  abbrev pub add_ipv6_routes : r.Table → Option ℕ → ℕ → r.Table
  add_ipv6_routes t none index = t
  add_ipv6_routes t (some server) index =
      let t' = (add_v6_route r t (create_ipv6_host_route server none index)).0 in
      (add_v6_route r t' (create_any_route index)).0

  abbrev pub add_adapter_routes : r.Table → ℕ → Option ℕ → ℕ → r.Table
  add_adapter_routes t server_ipv4 server_ipv6 index =
      let t' = (add_v4_route r t (create_ipv4_host_route server_ipv4 none index)).0 in
      let t'' = (add_v4_route r t' (create_any_route index)).0 in
      add_ipv6_routes t'' server_ipv6 index

  abbrev pub with_server_routes :
      r.Table → g.Store → ℕ → Fallible (List Route) → World × Fallible Routes
  with_server_routes t store index (fatal e) = (record { table = t; store = store }, fatal e)
  with_server_routes t store index (done routes) =
      let (t', created) = add_server_routes t routes (get_created_routes g store) in
      (
        record { table = t'; store = set_created_routes g store created },
        done (record { interface_index = index }),
      )

  -- The network is as the routes of the adapter leave it.
  unfoldable pub create :
      World → (r.Table → Network) → ℕ → Option ℕ → ℕ → List IpAddr → World × Fallible Routes
  unfolding add_v4_route add_v6_route add_server_routes get_created_routes set_created_routes
      create_ipv4_host_route create_ipv6_host_route create_any_route create_server_routes
  create w network server_ipv4 server_ipv6 index server_ips =
      let t = add_adapter_routes w.table server_ipv4 server_ipv6 index in
      with_server_routes t w.store index (create_server_routes (network t) server_ips)

  -- A route that could not be deleted is kept for later; a text that is no route is dropped.
  abbrev pub kept : String → RouteResult ℕ RouteDeletionSuccess → List String
  kept text (ok s) = []
  kept text (err e) = text ∷ []

  abbrev pub delete_text : r.Table → String → Option Route → r.Table × List String
  delete_text t text none = (t, [])
  delete_text t text (some route) =
      let (t', result) = delete_route r t route in (t', kept text result)

  unfoldable pub delete_texts : r.Table → List String → r.Table × List String
  unfolding delete_route
  delete_texts t [] = (t, [])
  delete_texts t (text ∷ texts) =
      let (t', again) = delete_text t text (json.from_str text) in
      let (t'', rest) = delete_texts t' texts in (t'', again ++ rest)

  unfoldable pub delete_created_routes : World → World
  unfolding delete_texts get_created_routes set_created_routes
  delete_created_routes w =
      let (t, again) = delete_texts w.table (get_created_routes g w.store) in
      record { table = t; store = set_created_routes g w.store again }

  unfoldable pub delete : World → Routes → World
  unfolding delete_created_routes delete_routes
  delete w routes =
      delete_created_routes
        (record w { table = (delete_routes r w.table routes.interface_index).0 })
