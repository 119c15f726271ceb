-- ===== src/Windows/Interfaces.antt =====
-- connection/windows/helpers/local_ip_finder.rs: the interfaces through which the system reaches the
-- internet, and the best of them for each protocol.
pub mod Best
pub mod Addresses
pub mod Internet
pub mod Outside
use protun.Base.{
  ℕ, ◌+◌, ◌*◌, ◌^◌, ◌%◌, Bool, true, false, ◌&&◌, not, Option, none, some, List, [], ◌∷◌, ◌++◌,
  ◌==◌, leb, if◌then◌else◌,
}
use protun.Io.{IpAddr, v4, v6}
use protun.Windows.ProTunError.{Fallible, done, fatal, no_local_ip, ◌>>=◌}

-- Rows of the tables of the system. An address of another family than IPv4 and IPv6 is `none`.
pub record ForwardRow : Type 0 where
  pub prefix_length : ℕ
  pub interface_luid : ℕ
  pub interface_index : ℕ
  pub next_hop : Option IpAddr
  pub metric : ℕ

pub record AddressRow : Type 0 where
  pub address : Option IpAddr
  pub interface_luid : ℕ

pub record InterfaceRow : Type 0 where
  pub is_admin_up : Bool
  pub is_oper_up : Bool
  pub is_media_connected : Bool

-- What a call for a table gives: an error, a null pointer, or the rows.
pub data Fetched (A : Type 0) : Type 0 where
  failed null : Fetched A
  rows : List A → Fetched A

abbrev pub Family : Type 0
Family = Bool

-- The answers of the system during a call: the routes, the addresses, and for an interface its GUID, its
-- status, and its metric for a family (`true` for IPv4), if they can be had.
pub record Network : Type 0 where
  pub forward_table : Fetched ForwardRow
  pub unicast_table : Fetched AddressRow
  pub guid : ℕ → Option ℕ
  pub if_entry : ℕ → Option InterfaceRow
  pub interface_metric : ℕ → Family → Option ℕ

-- The GUID of the adapter of ProTun, a constant of helpers/wintun/constants.rs.
abbrev pub adapter_guid : ℕ
adapter_guid = 207251590231051553767137937883512590316

pub record Ipv4InternetInterface : Type 0 where
  pub interface_metric : ℕ
  pub any_route_metric : ℕ
  pub local_ip : ℕ
  pub interface_index : ℕ
  pub next_hop : ℕ

pub record Ipv6InternetInterface : Type 0 where
  pub interface_metric : ℕ
  pub any_route_metric : ℕ
  pub local_ip : ℕ
  pub interface_index : ℕ
  pub next_hop : ℕ

pub data InternetInterface : Type 0 where
  ipv4 : Ipv4InternetInterface → InternetInterface
  ipv6 : Ipv6InternetInterface → InternetInterface

-- The sum of two u32.
unfoldable pub effective_metric : Ipv4InternetInterface → ℕ
effective_metric i = (i.interface_metric + i.any_route_metric) % 2 ^ 32

unfoldable pub effective_metric_v6 : Ipv6InternetInterface → ℕ
effective_metric_v6 i = (i.interface_metric + i.any_route_metric) % 2 ^ 32

-- The vectors of a HashMap from LUIDs, in an association list.
abbrev pub AddressMap : Type 0
AddressMap = List (ℕ × List IpAddr)

pub get : ℕ → AddressMap → Option (List IpAddr)
get luid [] = none
get luid ((k, ips) ∷ m) = if k == luid then some ips else get luid m

-- `map.entry(luid).or_default().push(ip)`.
pub push : ℕ → IpAddr → AddressMap → AddressMap
push luid ip [] = (luid, ip ∷ []) ∷ []
push luid ip ((k, ips) ∷ m) =
    if k == luid then (k, ips ++ ip ∷ []) ∷ m else (k, ips) ∷ push luid ip m

abbrev pub push_row : AddressRow → Option IpAddr → AddressMap → AddressMap
push_row row none m = m
push_row row (some ip) m = push row.interface_luid ip m

pub addresses_by_luid : List AddressRow → AddressMap → AddressMap
unfolding push
addresses_by_luid [] m = m
addresses_by_luid (row ∷ rest) m = addresses_by_luid rest (push_row row row.address m)

abbrev pub all_up : Option InterfaceRow → Bool
all_up none = false
all_up (some row) = row.is_admin_up && row.is_oper_up && row.is_media_connected

module _ (net : Network) where
  -- `Ok(true)`: an error counts as not up.
  unfoldable pub is_route_interface_up : ForwardRow → Bool
  is_route_interface_up route = all_up (net.if_entry route.interface_luid)

  abbrev pub v4_interface : ForwardRow → ℕ → ℕ → Option ℕ → List InternetInterface
  v4_interface route ip next_hop none = []
  v4_interface route ip next_hop (some metric) =
      ipv4 (record {
        interface_metric = metric;
        any_route_metric = route.metric;
        local_ip = ip;
        interface_index = route.interface_index;
        next_hop = next_hop;
      })
      ∷ []

  abbrev pub v6_interface : ForwardRow → ℕ → ℕ → Option ℕ → List InternetInterface
  v6_interface route ip next_hop none = []
  v6_interface route ip next_hop (some metric) =
      ipv6 (record {
        interface_metric = metric;
        any_route_metric = route.metric;
        local_ip = ip;
        interface_index = route.interface_index;
        next_hop = next_hop;
      })
      ∷ []

  -- The interface, if there is one, as the list that is pushed.
  unfoldable pub create_internet_interface :
      ForwardRow → IpAddr → Option IpAddr → List InternetInterface
  create_internet_interface route (v4 ip) (some (v4 next_hop)) =
      v4_interface route ip next_hop (net.interface_metric route.interface_luid true)
  create_internet_interface route (v4 ip) (some (v6 next_hop)) = []
  create_internet_interface route (v4 ip) none = []
  create_internet_interface route (v6 ip) (some (v6 next_hop)) =
      v6_interface route ip next_hop (net.interface_metric route.interface_luid false)
  create_internet_interface route (v6 ip) (some (v4 next_hop)) = []
  create_internet_interface route (v6 ip) none = []

  unfoldable pub of_addresses : ForwardRow → List IpAddr → List InternetInterface
  unfolding create_internet_interface
  of_addresses route [] = []
  of_addresses route (ip ∷ ips) =
      create_internet_interface route ip route.next_hop ++ of_addresses route ips

  abbrev pub of_known : ForwardRow → Option (List IpAddr) → List InternetInterface
  of_known route none = []
  of_known route (some ips) = of_addresses route ips

  unfoldable pub get_internet_interfaces_from_route :
      ForwardRow → AddressMap → List InternetInterface
  unfolding is_route_interface_up of_addresses get
  get_internet_interfaces_from_route route m =
      if is_route_interface_up route then of_known route (get route.interface_luid m) else []

  -- A route for all destinations, on an interface that has a GUID, which is not that of ProTun.
  abbrev pub is_other : Option ℕ → Bool
  is_other none = false
  is_other (some guid) = not (guid == adapter_guid)

  abbrev pub is_candidate : ForwardRow → Bool
  is_candidate route = route.prefix_length == 0 && is_other (net.guid route.interface_luid)

  unfoldable pub get_internet_interfaces_from_routes :
      List ForwardRow → AddressMap → List InternetInterface
  unfolding get_internet_interfaces_from_route
  get_internet_interfaces_from_routes [] m = []
  get_internet_interfaces_from_routes (route ∷ routes) m =
      (if is_candidate route then get_internet_interfaces_from_route route m else [])
      ++ get_internet_interfaces_from_routes routes m

-- The order of the keys (4, metric) and (6, metric).
unfoldable pub key_le : InternetInterface → InternetInterface → Bool
unfolding effective_metric effective_metric_v6
key_le (ipv4 i) (ipv4 j) = leb (effective_metric i) (effective_metric j)
key_le (ipv4 i) (ipv6 j) = true
key_le (ipv6 i) (ipv4 j) = false
key_le (ipv6 i) (ipv6 j) = leb (effective_metric_v6 i) (effective_metric_v6 j)

-- `sort_by_key`, which keeps the order of equal keys.
pub insert : InternetInterface → List InternetInterface → List InternetInterface
insert i [] = i ∷ []
insert i (j ∷ js) = if key_le i j then i ∷ j ∷ js else j ∷ insert i js

unfoldable pub sort_by_key : List InternetInterface → List InternetInterface
unfolding insert key_le
sort_by_key [] = []
sort_by_key (i ∷ is) = insert i (sort_by_key is)

abbrev pub nonempty : List InternetInterface → Fallible (List InternetInterface)
nonempty [] = fatal no_local_ip
nonempty (i ∷ is) = done (i ∷ is)

abbrev pub fetched : {A : Type 0} → Fetched A → Fallible (List A)
fetched Fetched.failed = fatal no_local_ip
fetched Fetched.null = fatal no_local_ip
fetched (Fetched.rows r) = done r

unfoldable pub get_potential_internet_interfaces : Network → Fallible (List InternetInterface)
unfolding get_internet_interfaces_from_routes addresses_by_luid sort_by_key
get_potential_internet_interfaces net = do
  routes ← fetched net.forward_table
  ip_addresses ← fetched net.unicast_table
  nonempty (
      sort_by_key
        (get_internet_interfaces_from_routes net routes (addresses_by_luid ip_addresses [])))

abbrev pub find_v4 : List InternetInterface → Option Ipv4InternetInterface
find_v4 [] = none
find_v4 (ipv4 i ∷ is) = some i
find_v4 (ipv6 i ∷ is) = find_v4 is

abbrev pub find_v6 : List InternetInterface → Option Ipv6InternetInterface
find_v6 [] = none
find_v6 (ipv4 i ∷ is) = find_v6 is
find_v6 (ipv6 i ∷ is) = some i

unfoldable pub get_internet_interfaces :
    Network → Fallible (Option Ipv4InternetInterface × Option Ipv6InternetInterface)
unfolding get_potential_internet_interfaces
get_internet_interfaces net = do
  interfaces ← get_potential_internet_interfaces net
  done (find_v4 interfaces, find_v6 interfaces)

unfoldable pub get_ipv4_internet_interface : Network → Fallible (Option Ipv4InternetInterface)
unfolding get_internet_interfaces
get_ipv4_internet_interface net = get_internet_interfaces net >>= λ r. done r.0

unfoldable pub get_ipv6_internet_interface : Network → Fallible (Option Ipv6InternetInterface)
unfolding get_internet_interfaces
get_ipv6_internet_interface net = get_internet_interfaces net >>= λ r. done r.1
