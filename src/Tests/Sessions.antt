-- ===== src/Tests/Sessions.antt =====
-- The theorem about a session of Wintun, tried on an adapter that can be made at once.
use protun.Base.{ℕ, suc, ltb, ◌≡◌, ◌≢◌, refl, inl, true, false, none, some, [], ◌∷◌, All}
use protun.Io.{v4}
use protun.Windows.ProTunError.{done}
use protun.Windows.Session.{Adapter}
use protun.Windows.WinTunSession.{AdapterConfig, WintunSystem, WinTunSession, Machine, create, drop}
use protun.Windows.WinTunSession.Dropped.{session_removed}
use protun.Tests.Windows.{network}
use protun.Tests.Routes.{json, round_trips, registry, table, holds_rows, registry_kept, old}

-- The state counts the addresses that are tried: the first is refused.
abbrev adapter : Adapter
adapter = record {
  State = ℕ;
  set_adapter_ipv4_address = λ s ip. (suc s, ltb 0 s);
  set_adapter_ipv6_address = λ s ip. (s, false);
  set_ipv4_dns_server = λ s ips. (s, true);
  set_ipv6_dns_server = λ s ips. (s, true);
}

abbrev wintun : WintunSystem adapter
wintun = record {
  Library = Unit;
  Device = ℕ;
  Session = ℕ;
  capacity = record { min_ring_capacity = 131072; max_ring_capacity = 67108864 };
  load_from_path = λ s. (s, some tt);
  open_adapter = λ s l. (s, none);
  create_adapter = λ s l. (s, some 4);
  get_adapter_index = λ s d. some 9;
  set_ipv4_adapter_configurations = λ s i mtu. s;
  set_ipv6_adapter_configurations = λ s i mtu. s;
  enable_adapter_ipv6 = λ s. (s, true);
  disable_adapter_ipv6 = λ s. (s, true);
  start_session = λ s d size. (s, some size);
  shutdown = λ s session. s;
}

abbrev start : Machine table registry json adapter wintun
start = record { system = 0; world = record { table = old ∷ []; store = [] } }

abbrev config : AdapterConfig
config = record {
  custom_dns_server_ips = [];
  is_ipv6_enabled = false;
  mtu = 1400;
  buffer_size_bytes = 131072;
}

abbrev session : WinTunSession table registry json adapter wintun
session = record {
  adapter = 4;
  session = 131072;
  interface_index = 9;
  client_ipv4_addr = 167968770;
  server_ipv4_addr = 167968769;
  client_ipv6_addr = none;
  server_ipv6_addr = none;
  routes = record { interface_index = 9 };
}

abbrev made : Machine table registry json adapter wintun
made = (create table registry json adapter wintun start (λ t. network) (v4 99 ∷ []) config).0

session_made :
    create table registry json adapter wintun start (λ t. network) (v4 99 ∷ []) config
    ≡ (made, done session)
unfolding create
session_made = refl

session_removed_example :
    All
      (λ row. (row ≡ old) × (row.interface_index ≢ 9))
      (drop table registry json adapter wintun made session).world.table
session_removed_example =
    session_removed table registry json adapter wintun holds_rows round_trips registry_kept
      (λ row. row ≡ old) (λ rows row. inl refl) (λ rows. refl) start made (λ t. network)
      (v4 99 ∷ []) config session (inl refl, tt) session_made
