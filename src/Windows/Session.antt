-- ===== src/Windows/Session.antt =====
-- connection/windows/helpers/wintun/wintun_session.rs: the sizes and addresses that a session is set up
-- with.
pub mod Addresses
pub mod Sizes
use protun.Base.{
  ℕ, zero, suc, ◌+◌, ◌*◌, ◌^◌, ◌/◌, ◌%◌, Bool, true, false, Option, none, some, List, [], ◌∷◌, ◌++◌,
  ltb, leb, if◌then◌else◌, ℕ_discrete,
}
use protun.Io.{IpAddr}
use protun.Vectors.{split_ips_by_protocol, distinct_mut}
use protun.Windows.ProTunError.{Fallible, done, fatal, wintun_ip_address_setup_failed}

-- The sizes of a ring that the crate `wintun` allows.
pub record RingCapacity : Type 0 where
  pub min_ring_capacity : ℕ
  pub max_ring_capacity : ℕ

-- `u32::checked_next_power_of_two`: the smallest power of two that is not below the number, if it is a
-- u32.
unfoldable pub next_power : ℕ → ℕ → ℕ → Option ℕ
next_power zero p n = none
next_power (suc more) p n = let rest = next_power more (p * 2) n in if leb n p then some p else rest

unfoldable pub checked_next_power_of_two : ℕ → Option ℕ
unfolding next_power
checked_next_power_of_two n = next_power 32 1 n

abbrev pub unwrap_or : Option ℕ → ℕ → ℕ
unwrap_or none d = d
unwrap_or (some n) d = n

abbrev pub clamp : ℕ → ℕ → ℕ → ℕ
clamp n lo hi = if ltb n lo then lo else if ltb hi n then hi else n

unfoldable pub get_valid_wintun_buffer_size : RingCapacity → ℕ → ℕ
unfolding checked_next_power_of_two
get_valid_wintun_buffer_size c proposed_size =
    clamp (unwrap_or (checked_next_power_of_two proposed_size) c.max_ring_capacity)
      c.min_ring_capacity c.max_ring_capacity

-- `Ipv4Addr::new(10, i, 0, n)`.
unfoldable pub ipv4_10 : ℕ → ℕ → ℕ
ipv4_10 i n = 10 * 2 ^ 24 + i * 2 ^ 16 + n

-- `Ipv6Addr::new(0x2a07, 0xb944, 0, 0, 0, 0, i, n)`.
unfoldable pub ipv6_2a07 : ℕ → ℕ → ℕ
ipv6_2a07 i n = 0x2a07 * 2 ^ 112 + 0xb944 * 2 ^ 96 + i * 2 ^ 16 + n

-- `octets()[1]` and `segments()[6]`.
unfoldable pub second_octet : ℕ → ℕ
second_octet ip = ip / 2 ^ 16 % 256

unfoldable pub seventh_segment : ℕ → ℕ
seventh_segment ip = ip / 2 ^ 16 % 2 ^ 16

-- The adapter of the system: whether an address, or a list of DNS servers as its only one for a protocol,
-- could be set.
pub record Adapter : Type 1 where
  pub State : Type 0
  pub set_adapter_ipv4_address : State → ℕ → State × Bool
  pub set_adapter_ipv6_address : State → ℕ → State × Bool
  pub set_ipv4_dns_server : State → List ℕ → State × Bool
  pub set_ipv6_dns_server : State → List ℕ → State × Bool

module _ (a : Adapter) where
  abbrev pub ipv6_set : ℕ → ℕ → a.State × Bool → a.State × Fallible (ℕ × Option ℕ)
  ipv6_set ipv4 ipv6 (s, true) = (s, done (ipv4, some ipv6))
  ipv6_set ipv4 ipv6 (s, false) = (s, done (ipv4, none))

  abbrev pub ipv4_set :
      a.State × Bool
      → ℕ
      → (a.State → a.State × Fallible (ℕ × Option ℕ))
      → a.State × Fallible (ℕ × Option ℕ)
  ipv4_set (s, true) i next =
      ipv6_set (ipv4_10 i 2) (ipv6_2a07 i 2) (a.set_adapter_ipv6_address s (ipv6_2a07 i 2))
  ipv4_set (s, false) i next = next s

  -- The loop, with the rounds that are left and the next number.
  unfoldable pub try_addresses : ℕ → ℕ → a.State → a.State × Fallible (ℕ × Option ℕ)
  unfolding ipv4_10 ipv6_2a07
  try_addresses zero i s = (s, fatal wintun_ip_address_setup_failed)
  try_addresses (suc rounds) i s =
      ipv4_set (a.set_adapter_ipv4_address s (ipv4_10 i 2)) i (try_addresses rounds (i + 1))

  -- For `i` from 2 to 255.
  unfoldable pub set_adapter_ip_addresses : a.State → a.State × Fallible (ℕ × Option ℕ)
  unfolding try_addresses
  set_adapter_ip_addresses s = try_addresses 254 2 s

  -- helpers/windows_api/dns.rs: nothing is done for no servers, and each is named once.
  abbrev pub set_distinct : (a.State → List ℕ → a.State × Bool) → a.State → List ℕ → a.State × Bool
  set_distinct set s [] = (s, true)
  set_distinct set s (ip ∷ ips) = set s (distinct_mut ℕ_discrete (ip ∷ ips))

  unfoldable pub set_adapter_ipv4_dns_servers : a.State → List ℕ → a.State × Bool
  unfolding distinct_mut
  set_adapter_ipv4_dns_servers = set_distinct a.set_ipv4_dns_server

  unfoldable pub set_adapter_ipv6_dns_servers : a.State → List ℕ → a.State × Bool
  unfolding distinct_mut
  set_adapter_ipv6_dns_servers = set_distinct a.set_ipv6_dns_server

  abbrev pub set_ipv6_servers : a.State × Bool → List ℕ → Option ℕ → a.State × Bool
  set_ipv6_servers (s, false) servers server = (s, false)
  set_ipv6_servers (s, true) servers none = (s, true)
  set_ipv6_servers (s, true) servers (some server) =
      set_adapter_ipv6_dns_servers s (servers ++ server ∷ [])

  -- The servers of the application come before that of the VPN.
  unfoldable pub set_dns_servers : a.State → List IpAddr → ℕ → Option ℕ → a.State × Bool
  unfolding split_ips_by_protocol
  set_dns_servers s custom server_ipv4 server_ipv6 =
      let (ipv4_servers, ipv6_servers) = split_ips_by_protocol custom in
      set_ipv6_servers (set_adapter_ipv4_dns_servers s (ipv4_servers ++ server_ipv4 ∷ []))
        ipv6_servers server_ipv6

  unfoldable pub server_ipv4 : ℕ → ℕ
  unfolding ipv4_10 second_octet
  server_ipv4 client = ipv4_10 (second_octet client) 1

  unfoldable pub server_ipv6 : Option ℕ → Option ℕ
  unfolding ipv6_2a07 seventh_segment
  server_ipv6 none = none
  server_ipv6 (some client) = some (ipv6_2a07 (seventh_segment client) 1)

  unfoldable pub calculate_and_set_dns_servers :
      a.State → List IpAddr → ℕ → Option ℕ → a.State × ℕ × Option ℕ
  unfolding set_dns_servers server_ipv4 server_ipv6
  calculate_and_set_dns_servers s custom client_ipv4 client_ipv6 =
      let server4 = server_ipv4 client_ipv4 in
      let server6 = server_ipv6 client_ipv6 in
      ((set_dns_servers s custom server4 server6).0, server4, server6)
