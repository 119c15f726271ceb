-- ===== src/Windows/WinTunSession.antt =====
-- connection/windows/helpers/wintun/wintun_session.rs: how a session of Wintun is made, with its adapter
-- and its routes, and dropped. The addresses and sizes are in Session.
pub mod Dropped
use protun.Base.{ℕ, Bool, true, false, Option, none, some, List, if◌then◌else◌}
use protun.Io.{IpAddr}
use protun.Windows.ProTunError.{
  ProTunFatalError, Fallible, done, fatal, wintun_library_loading_failed,
  wintun_interface_creation_failed, wintun_adapter_index_fetch_failed,
  wintun_session_creation_failed,
}
use protun.Windows.Interfaces.{Network}
use protun.Windows.RoutingTable.{RoutingTable}
use protun.Windows.Registry.{Registry}
use protun.Windows.Routes
use protun.Windows.Routes.{Json, World, Routes}
use protun.Windows.Session.{
  Adapter, RingCapacity, get_valid_wintun_buffer_size, set_adapter_ip_addresses,
  calculate_and_set_dns_servers, set_dns_servers,
}

pub record AdapterConfig : Type 0 where
  pub custom_dns_server_ips : List IpAddr
  pub is_ipv6_enabled : Bool
  pub mtu : ℕ
  pub buffer_size_bytes : ℕ

-- The calls of the crate `wintun` and of the system that are about the adapter; `none` is an error. The
-- results that the code ignores are left out.
pub record WintunSystem (a : Adapter) : Type 1 where
  pub Library : Type 0
  pub Device : Type 0
  pub Session : Type 0
  pub capacity : RingCapacity
  pub load_from_path : a.State → a.State × Option Library
  pub open_adapter : a.State → Library → a.State × Option Device
  pub create_adapter : a.State → Library → a.State × Option Device
  pub get_adapter_index : a.State → Device → Option ℕ
  pub set_ipv4_adapter_configurations : a.State → ℕ → ℕ → a.State
  pub set_ipv6_adapter_configurations : a.State → ℕ → ℕ → a.State
  pub enable_adapter_ipv6 : a.State → a.State × Bool
  pub disable_adapter_ipv6 : a.State → a.State × Bool
  pub start_session : a.State → Device → ℕ → a.State × Option Session
  pub shutdown : a.State → Session → a.State

abbrev pub or_fatal : {S A : Type 0} → S × Option A → ProTunFatalError → S × Fallible A
or_fatal (s, none) e = (s, fatal e)
or_fatal (s, some x) e = (s, done x)

-- `?` on the result of a step.
abbrev pub and_then :
    {S T A B : Type 0} → S × Fallible A → (S → T) → (S → A → T × Fallible B) → T × Fallible B
and_then (s, fatal e) stop f = (stop s, fatal e)
and_then (s, done x) stop f = f s x

module _ (r : RoutingTable) (g : Registry) (json : Json) (a : Adapter) (y : WintunSystem a) where
  pub record WinTunSession : Type 0 where
    pub adapter : y.Device
    pub session : y.Session
    pub interface_index : ℕ
    pub client_ipv4_addr : ℕ
    pub server_ipv4_addr : ℕ
    pub client_ipv6_addr : Option ℕ
    pub server_ipv6_addr : Option ℕ
    pub routes : Routes r g json

  -- The adapter, and the table of routes with the registry.
  pub record Machine : Type 0 where
    pub system : a.State
    pub world : World r g json

  abbrev pub opened_or_created : y.Library → a.State × Option y.Device → a.State × Fallible y.Device
  opened_or_created wintun (s, some adapter) = (s, done adapter)
  opened_or_created wintun (s, none) =
      or_fatal (y.create_adapter s wintun) wintun_interface_creation_failed

  unfoldable pub create_wintun_adapter : a.State → a.State × Fallible y.Device
  create_wintun_adapter s =
      and_then (or_fatal (y.load_from_path s) wintun_library_loading_failed) (λ s. s)
        (λ s wintun. opened_or_created wintun (y.open_adapter s wintun))

  -- The calls whose results are ignored.
  unfoldable pub configured : a.State → ℕ → AdapterConfig → a.State
  configured s index config =
      let s' = y.set_ipv4_adapter_configurations s index config.mtu in
      if config.is_ipv6_enabled
      then y.set_ipv6_adapter_configurations (y.enable_adapter_ipv6 s').0 index config.mtu
      else (y.disable_adapter_ipv6 s').0

  -- The end of `create`, from the start of the session on.
  abbrev pub started :
      World r g json
      → y.Device
      → ℕ
      → ℕ × Option ℕ
      → ℕ × Option ℕ
      → Routes r g json
      → a.State × Option y.Session
      → Machine × Fallible WinTunSession
  started w adapter index client server routes (s, none) =
      (record { system = s; world = w }, fatal wintun_session_creation_failed)
  started w adapter index client server routes (s, some session) = (
    record { system = s; world = w },
    done (record {
      adapter = adapter;
      session = session;
      interface_index = index;
      client_ipv4_addr = client.0;
      server_ipv4_addr = server.0;
      client_ipv6_addr = client.1;
      server_ipv6_addr = server.1;
      routes = routes;
    }),
  )

  -- From the addresses on.
  abbrev pub routed :
      World r g json
      → (r.Table → Network)
      → List IpAddr
      → a.State
      → y.Device
      → ℕ
      → ℕ
      → ℕ × Option ℕ
      → ℕ × Option ℕ
      → Machine × Fallible WinTunSession
  routed w network server_ips s adapter size index client server =
      and_then (Routes.create r g json w network server.0 server.1 index server_ips)
        (λ w. record { system = s; world = w })
        (λ w routes. started w adapter index client server routes (y.start_session s adapter size))

  -- With the network that the routes of the adapter leave.
  unfoldable pub create :
      Machine → (r.Table → Network) → List IpAddr → AdapterConfig → Machine × Fallible WinTunSession
  unfolding create_wintun_adapter configured Routes.create get_valid_wintun_buffer_size
      set_adapter_ip_addresses calculate_and_set_dns_servers
  create m network server_ips config =
      let size = get_valid_wintun_buffer_size y.capacity config.buffer_size_bytes in
      let stop : a.State → Machine = λ s. record m { system = s } in
      and_then (create_wintun_adapter m.system) stop (λ s adapter.
        and_then (or_fatal (s, y.get_adapter_index s adapter) wintun_adapter_index_fetch_failed)
          stop
          (λ s index.
            and_then (set_adapter_ip_addresses a (configured s index config)) stop (λ s client.
              let (s', server4, server6) =
                calculate_and_set_dns_servers a s config.custom_dns_server_ips client.0 client.1 in
              routed m.world network server_ips s' adapter size index client (server4, server6))))

  unfoldable pub drop : Machine → WinTunSession → Machine
  unfolding Routes.delete
  drop m session = record {
    system = y.shutdown m.system session.session;
    world = Routes.delete r g json m.world session.routes;
  }

  unfoldable pub set_dns : Machine → WinTunSession → List IpAddr → Machine × Bool
  unfolding set_dns_servers
  set_dns m session custom =
      let (s, is_ok) =
        set_dns_servers a m.system custom session.server_ipv4_addr session.server_ipv6_addr in
      (record m { system = s }, is_ok)

  unfoldable pub set_ipv6 : Machine → Bool → Machine × Bool
  set_ipv6 m is_enabled =
      let (s, is_ok) =
        if is_enabled then y.enable_adapter_ipv6 m.system else y.disable_adapter_ipv6 m.system in
      (record m { system = s }, is_ok)
