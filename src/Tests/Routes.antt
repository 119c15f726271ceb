-- ===== src/Tests/Routes.antt =====
-- The theorems about routes, tried on a table that is a list of rows and on texts of unary numbers.
use protun.Base.{
  ℕ, zero, suc, ◌≡◌, ◌≢◌, refl, ap, inl, inr, ◌⊎◌, Option, none, some, String, ℕ_discrete, List, [],
  ◌∷◌, All, ite, ◌==◌, if◌then◌else◌,
}
use protun.Base.Loop.{◌>>=◌, OnSome}
use protun.Io.{v4}
use protun.Windows.RoutingTable.{IpRoute, Row, Route, RoutingTable}
use protun.Windows.Registry.{Registry}
use protun.Windows.Routes.{Json, World, create}
use protun.Windows.Routes.Added.{HoldsRows, RoundTrips}
use protun.Windows.Routes.Tracked.{Reach, here, created, IsTracked, reached-IsTracked}
use protun.Windows.Routes.Routed.{IsServed, create_serves}
use protun.Windows.Interfaces.Outside.{LeadsOut}
use protun.Windows.ProTunError.{done}
use protun.Windows.Interfaces.{
  ipv4, ipv6, Ipv4InternetInterface, Ipv6InternetInterface, get_internet_interfaces,
  get_potential_internet_interfaces,
}
use protun.Tests.Windows.{network, default_routes, addresses}
use Prim.Native.Char.{code}

abbrev put : ℕ → String → String
put zero s = String.◌∷◌ "b" s
put (suc n) s = String.◌∷◌ "a" (put n s)

abbrev add_one : Option (ℕ × String) → Option (ℕ × String)
add_one none = none
add_one (some (n, s)) = some (suc n, s)

abbrev take_number : String → Option (ℕ × String)
take_number String.[] = none
take_number (String.◌∷◌ c s) =
    let rest = take_number s in if code c == b'a' then add_one rest else some (0, s)

take_number-put : (n : ℕ) (s : String) → take_number (put n s) ≡ some (n, s)
take_number-put zero s = refl
take_number-put (suc n) s = ap add_one (take_number-put n s)

abbrev hop_number : Option ℕ → ℕ
hop_number none = 0
hop_number (some n) = suc n

abbrev hop_of : ℕ → Option ℕ
hop_of zero = none
hop_of (suc n) = some n

abbrev fields : IpRoute → String
fields r = put r.destination_ip_addr (
    put r.destination_prefix_length
      (put (hop_number r.next_hop_address) (put r.interface_index "")))

abbrev read_fields : String → Option IpRoute
read_fields s = do
  (ip, s1) ← take_number s
  (length, s2) ← take_number s1
  (hop, s3) ← take_number s2
  (index, s4) ← take_number s3
  some (record {
    destination_ip_addr = ip;
    destination_prefix_length = length;
    next_hop_address = hop_of hop;
    interface_index = index;
  })

hop_of_number : (o : Option ℕ) → hop_of (hop_number o) ≡ o
hop_of_number none = refl
hop_of_number (some n) = refl

read_fields_lem : (r : IpRoute) → read_fields (fields r) ≡ some r
read_fields_lem r =
    rw
      (
        take_number-put r.destination_ip_addr,
        take_number-put r.destination_prefix_length,
        take_number-put (hop_number r.next_hop_address),
        take_number-put r.interface_index,
        hop_of_number r.next_hop_address,
      )
      refl

abbrev to_text : Route → String
to_text (Route.v4 r) = String.◌∷◌ "4" (fields r)
to_text (Route.v6 r) = String.◌∷◌ "6" (fields r)

abbrev of_text : String → Option Route
of_text String.[] = none
of_text (String.◌∷◌ c s) =
    if code c == b'4'
    then (read_fields s >>= λ r. some (Route.v4 r))
    else (read_fields s >>= λ r. some (Route.v6 r))

pub of_text_lem : (route : Route) → of_text (to_text route) ≡ some route
of_text_lem (Route.v4 r) = ap (λ o. o >>= λ r. some (Route.v4 r)) (read_fields_lem r)
of_text_lem (Route.v6 r) = ap (λ o. o >>= λ r. some (Route.v6 r)) (read_fields_lem r)

abbrev pub json : Json
json = record { to_string = λ r. some (to_text r); from_str = of_text }

abbrev pub round_trips : RoundTrips json
round_trips = record { written = λ r. (to_text r, refl, of_text_lem r); not_empty = refl }

abbrev pub registry : Registry
registry = record {
  Store = List String;
  get_value = λ store. some store;
  set_value = λ store routes. routes;
}

pub Row-discrete : Discrete Row
Row-discrete = hlevel (ℕ_discrete)

abbrev without : Row → List Row → List Row
without row [] = []
without row (x ∷ xs) = let rest = without row xs in ite (Row-discrete x row) rest (x ∷ rest)

-- Every row can be created once more.
abbrev pub table : RoutingTable
table = record {
  Table = List Row;
  create_entry = λ rows row. (row ∷ rows, 0);
  delete_entry = λ rows row. (without row rows, 0);
  rows = λ rows. some rows;
}

pub All-without :
    (P : Row → Type 0) (row : Row) (rows : List Row) → All P rows → All P (without row rows)
All-without P row [] h = tt
All-without P row (x ∷ xs) h = by_test (Row-discrete x row) (All-without P row xs h.1)
  where
    by_test :
        (d : Dec (x ≡ row))
        → All P (without row xs)
        → All P (ite d (without row xs) (x ∷ without row xs))
    by_test (yes e) rest = rest
    by_test (no ne) rest = (h.0, rest)

pub without_gone : (row : Row) (rows : List Row) → All (λ x. x ≢ row) (without row rows)
without_gone row [] = tt
without_gone row (x ∷ xs) = by_test (Row-discrete x row) (without_gone row xs)
  where
    by_test :
        (d : Dec (x ≡ row))
        → All (λ y. y ≢ row) (without row xs)
        → All (λ y. y ≢ row) (ite d (without row xs) (x ∷ without row xs))
    by_test (yes e) rest = rest
    by_test (no ne) rest = (ne, rest)

abbrev pub holds_rows : HoldsRows table
holds_rows = record {
  entries = λ rows. rows;
  created = λ rows row e. refl;
  not_created = λ rows row ne. absurd (ne refl);
  adds_none = λ P rows row h. All-without P row rows h;
  gone = λ rows row e. without_gone row rows;
}

pub registry_kept : (store routes : List String) → some routes ≡ some routes
registry_kept store routes = refl

-- A row that was there before, and those of the adapter with the index 9.
abbrev pub old : Row
old = record {
  destination = v4 7;
  prefix_length = 8;
  next_hop = none;
  interface_index = 2;
  metric = 5;
}

abbrev Other : Row → Type 0
Other row = (row.interface_index ≡ 9) ⊎ (row ≡ old)

abbrev start : World table registry json
start = record { table = old ∷ []; store = [] }

abbrev after : World table registry json
after = (create table registry json start (λ t. network) 1 none 9 (v4 99 ∷ [])).0

abbrev reach : Reach table registry json 9 start after
reach = created start (λ t. network) 1 none (v4 99 ∷ []) here

reached-IsTracked_example : IsTracked table registry json holds_rows round_trips Other after
reached-IsTracked_example =
    reached-IsTracked table registry json holds_rows round_trips Other registry_kept 9 start after
      (λ row e. inl e) reach (inl (inr refl), tt)

-- The route to the server is added, and noted.
one_noted : (text : String) × (after.store ≡ text ∷ [])
unfolding create protun.Vectors.distinct protun.Vectors.filter_insert protun.Vectors.insert
    protun.Vectors.contains
one_noted = (_, refl)

abbrev found : Option Ipv4InternetInterface × Option Ipv6InternetInterface
found = (
  some (record {
    interface_metric = 35;
    any_route_metric = 0;
    local_ip = 5;
    interface_index = 2;
    next_hop = 1;
  }),
  none,
)

network-found : get_internet_interfaces network ≡ done found
unfolding get_internet_interfaces get_potential_internet_interfaces
network-found = refl

create_serves_example :
    All (IsServed found after.table) (v4 99 ∷ [])
    × OnSome (λ i. LeadsOut network default_routes (ipv4 i)) found.0
    × OnSome (λ i. LeadsOut network default_routes (ipv6 i)) found.1
create_serves_example =
    create_serves table registry json holds_rows round_trips (λ rows row. inl refl) start
      (λ t. network) 1 none 9 (v4 99 ∷ []) found default_routes addresses refl refl network-found
